-- ===== src/Text/Occurrence.antt =====
-- What the tests of a text state: that it starts with, contains or is one of some texts.
use quantmlayer.Prelude.{
  ◌≡◌, refl, ap, ◌↔◌, ◌⊎◌, inl, inr, Bool, true, false, not, ◌||◌, List, [], ◌∷◌, ◌++◌, any,
  any_elim, any_intro, In, ||-split,
}
use quantmlayer.Text.{Text, starts_with, includes}
use quantmlayer.Text.Laws.{starts_with-append, starts_with_elim, includes_middle}

-- `s` starts with `p`.
abbrev pub StartsWith : Text → Text → Type 0
StartsWith p s = (r : Text) × (s ≡ p ++ r)

-- `s` starts with one of `ps`.
abbrev pub StartsWithAny : List Text → Text → Type 0
StartsWithAny ps s = (p : Text) × In p ps × StartsWith p s

-- `sub` stands somewhere in `s`.
abbrev pub Occurs : Text → Text → Type 0
Occurs sub s = (p : Text) × (r : Text) × (s ≡ p ++ (sub ++ r))

pub starts_with_iff : (p s : Text) → (starts_with p s ≡ true) ↔ StartsWith p s
starts_with_iff p s = (starts_with_elim p s, λ q. rw (q.1) (starts_with-append p (q.0)))

includes_elim : (sub s : Text) → includes sub s ≡ true → Occurs sub s
unfolding includes
includes_elim sub [] h = let (r, e) = starts_with_elim sub [] h in ([], r, e)
includes_elim sub (c ∷ s) h = elim (||-split (starts_with sub (c ∷ s)) (includes sub s) h) [
  | inl k ↦ let (r, e) = starts_with_elim sub (c ∷ s) k in ([], r, e)
  | inr k ↦ let (p, r, e) = includes_elim sub s k in (c ∷ p, r, ap (λ x. c ∷ x) e)
]

pub includes_iff : (sub s : Text) → (includes sub s ≡ true) ↔ Occurs sub s
includes_iff sub s = (includes_elim sub s, λ q. rw (q.2) (includes_middle (q.0) sub (q.1)))

pub any-starts_with_iff :
    (ps : List Text) (s : Text) → (any (λ p. starts_with p s) ps ≡ true) ↔ StartsWithAny ps s
any-starts_with_iff ps s = (
  λ h. let (p, m, k) = any_elim (λ p. starts_with p s) ps h in (p, m, (starts_with_iff p s).0 k),
  λ q. any_intro (λ p. starts_with p s) (q.0) ps (q.1) ((starts_with_iff (q.0) s).1 (q.2)),
)

-- Two tests that decide two statements decide their disjunction and their negations.
pub ||_iff :
    {P Q : Type 0} (a b : Bool) → (a ≡ true) ↔ P → (b ≡ true) ↔ Q → ((a || b) ≡ true) ↔ (P ⊎ Q)
||_iff true b f g = (λ h. inl (f.0 refl), λ q. refl)
||_iff false b f g =
    (λ h. inr (g.0 h), λ q. elim q [ inl p ↦ absurd (clash (f.1 p)) | inr r ↦ g.1 r ])
  where
    clash : false ≡ true → ⊥
    clash e = cc

pub false_iff : {P : Type 0} (a : Bool) → (a ≡ true) ↔ P → (a ≡ false) ↔ ¬ P
false_iff true f = (λ h p. clash h, λ n. absurd (n (f.0 refl)))
  where
    clash : true ≡ false → ⊥
    clash e = cc
false_iff false f = (λ h p. clash (f.1 p), λ n. refl)
  where
    clash : false ≡ true → ⊥
    clash e = cc

pub not_iff : {P : Type 0} (a : Bool) → (a ≡ true) ↔ P → (not a ≡ true) ↔ ¬ P
not_iff true f = (λ h p. clash h, λ n. absurd (n (f.0 refl)))
  where
    clash : false ≡ true → ⊥
    clash e = cc
not_iff false f = (λ h p. clash (f.1 p), λ n. refl)
  where
    clash : false ≡ true → ⊥
    clash e = cc
