-- ===== src/Profile/Hosts.antt =====
-- Which hosts a granted domain covers.
use mathlib.Core.List.{reverse, reverse-append, append_assoc}
use quantmlayer.Prelude.{
  ◌≡◌, refl, sym, ap, ◌∙◌, ◌↔◌, ◌⊎◌, inl, inr, true, ◌||◌, [], ◌∷◌, ◌++◌, arith, Bool-cases,
}
use quantmlayer.Text.{
  Text, text_eq, ends_with, to_ascii_lowercase, trim_end_matches, trim_start_matches,
}
use quantmlayer.Text.Laws.{text_eq_sound, text_eq_iff, ends_with-append, ends_with_elim}
use quantmlayer.Profile.Matching.{canonical_host, host_matches}

-- `host` is `domain`, or ends in a dot and `domain`, both without case and trailing dots.
abbrev pub IsSubdomain : Text → Text → Type 0
IsSubdomain host domain =
    (canonical_host host ≡ canonical_host domain)
    ⊎ ((label : Text) × (canonical_host host ≡ label ++ (46 ∷ canonical_host domain)))

-- A host matches a granted domain exactly when it is the domain or a subdomain of it on a label
-- boundary, ASCII case and trailing dots apart.
pub host_matches_iff :
    (host domain : Text) → (host_matches host domain ≡ true) ↔ IsSubdomain host domain
unfolding host_matches
host_matches_iff host domain = (to, from)
  where
    to :
        (text_eq (canonical_host host) (canonical_host domain)
            || ends_with (46 ∷ canonical_host domain) (canonical_host host))
          ≡ true
        → IsSubdomain host domain
    to h = elim (Bool-cases (text_eq (canonical_host host) (canonical_host domain))) [
      | inl e ↦ inl (text_eq_sound _ _ e)
      | inr n ↦ inr (ends_with_elim (46 ∷ canonical_host domain) (canonical_host host) (rw n at h))
    ]

    from :
        IsSubdomain host domain
        → (text_eq (canonical_host host) (canonical_host domain)
            || ends_with (46 ∷ canonical_host domain) (canonical_host host))
          ≡ true
    from (inl e) = rw ((text_eq_iff (canonical_host host) (canonical_host domain)).1 e) refl
    from (inr (label, e)) =
        let k : ends_with (46 ∷ canonical_host domain) (canonical_host host) ≡ true =
          ap (ends_with (46 ∷ canonical_host domain)) e
          ∙ ends_with-append label (46 ∷ canonical_host domain) in
        ground (arith, k)

IsSubdomain-trans : (a b c : Text) → IsSubdomain a b → IsSubdomain b c → IsSubdomain a c
IsSubdomain-trans a b c (inl e) (inl f) = inl (e ∙ f)
IsSubdomain-trans a b c (inl e) (inr (l, f)) = inr (l, e ∙ f)
IsSubdomain-trans a b c (inr (l, e)) (inl f) = inr (l, e ∙ ap (λ t. l ++ (46 ∷ t)) f)
IsSubdomain-trans a b c (inr (l, e)) (inr (m, f)) = inr (
  l ++ (46 ∷ m),
  e ∙ ap (λ t. l ++ (46 ∷ t)) f ∙ sym (append_assoc l (46 ∷ m) (46 ∷ canonical_host c)),
)

-- Matching composes: a host under a domain that is itself under a grant is under the grant.
pub host_matches_trans :
    (a b c : Text) → host_matches a b ≡ true → host_matches b c ≡ true → host_matches a c ≡ true
host_matches_trans a b c h k =
    (host_matches_iff a c).1
      (IsSubdomain-trans a b c ((host_matches_iff a b).0 h) ((host_matches_iff b c).0 k))

pub host_matches_refl : (a : Text) → host_matches a a ≡ true
host_matches_refl a = (host_matches_iff a a).1 (inl refl)

trim_end-dot : (h : Text) → trim_end_matches 46 (h ++ 46 ∷ []) ≡ trim_end_matches 46 h
unfolding trim_end_matches
trim_end-dot h = ap (λ t. reverse (trim_start_matches 46 t)) (reverse-append h (46 ∷ []))

-- A trailing dot on the host changes nothing.
pub host_matches-dot :
    (host domain : Text) → host_matches (host ++ 46 ∷ []) domain ≡ host_matches host domain
unfolding host_matches
host_matches-dot host domain =
    ap (λ h. text_eq h (canonical_host domain) || ends_with (46 ∷ canonical_host domain) h) same
  where
    same : canonical_host (host ++ 46 ∷ []) ≡ canonical_host host
    same = ap to_ascii_lowercase (trim_end-dot host)
