-- ===== src/Capability/Containment.antt =====
-- What `path_within_one` decides, and when containment of grants composes.
use mathlib.Core.List.{append_assoc}
use quantmlayer.Prelude.{
  ◌≡◌, ◌≢◌, refl, sym, ap, ◌∙◌, ◌↔◌, ◌⊎◌, inl, inr, true, false, ◌||◌, [], ◌∷◌, ◌++◌, arith,
  Bool-cases, Option-cases, length, length-append,
}
use quantmlayer.Text.{Text, codes, text_eq, starts_with, strip_suffix, ends_with}
use quantmlayer.Text.Laws.{
  text_eq_refl, text_eq_sound, starts_with-append, starts_with_elim, strip_suffix-append,
  strip_suffix_elim, ends_with-append,
}
use quantmlayer.Capability.{glob_suffix, slash, path_within_one}

-- The paths that one grant covers: itself, and for `p/**` the directory `p` and all below it.
pub data Covers (parent child : Text) : Type 0 where
  same : child ≡ parent → Covers parent child
  base : parent ≡ child ++ glob_suffix → Covers parent child
  below : (p r : Text) → parent ≡ p ++ glob_suffix → child ≡ p ++ (slash ++ r) → Covers parent child

path_within_sound :
    (child parent : Text) → path_within_one child parent ≡ true → Covers parent child
unfolding path_within_one
path_within_sound child parent h = elim (Bool-cases (text_eq child parent)) [
  | inl e ↦ same (text_eq_sound child parent e)
  | inr e ↦ elim (Option-cases (strip_suffix glob_suffix parent)) [
    | inl missed ↦ absurd (clash (rw (e, missed) at h))
    | inr (p, found) ↦ globbed p (strip_suffix_elim glob_suffix parent p found) (rw (e, found) at h)
  ]
]
  where
    clash : false ≡ true → ⊥
    clash c = cc

    globbed :
        (p : Text)
        → parent ≡ p ++ glob_suffix
        → (text_eq child p || starts_with (p ++ slash) child) ≡ true
        → Covers parent child
    globbed p e k = elim (Bool-cases (text_eq child p)) [
      | inl q ↦ base (rw (text_eq_sound child p q) e)
      | inr q ↦
          let (r, cut) = starts_with_elim (p ++ slash) child (rw q at k) in
          below p r e (cut ∙ append_assoc p slash r)
    ]

within_glob :
    (child p : Text)
    → (text_eq child p || starts_with (p ++ slash) child) ≡ true
    → path_within_one child (p ++ glob_suffix) ≡ true
unfolding path_within_one
within_glob child p h = elim (Bool-cases (text_eq child (p ++ glob_suffix))) [
  | inl e ↦ rw e
  | inr e ↦ rw (e, strip_suffix-append p glob_suffix) h
]

path_within_complete :
    (child parent : Text) → Covers parent child → path_within_one child parent ≡ true
path_within_complete child parent (same e) =
    rw e (unfold path_within_one in rw (text_eq_refl parent))
path_within_complete child parent (base e) =
    rw e (within_glob child child (rw (text_eq_refl child)))
path_within_complete child parent (below p r e f) =
    rw (e, f) (within_glob (p ++ (slash ++ r)) p (tail_within p r))
  where
    tail_within :
        (q t : Text)
        → (text_eq (q ++ (slash ++ t)) q || starts_with (q ++ slash) (q ++ (slash ++ t))) ≡ true
    tail_within q t =
        let k : starts_with (q ++ slash) (q ++ (slash ++ t)) ≡ true =
          rw (← append_assoc q slash t) (starts_with-append (q ++ slash) t) in
        ground (arith, k)

-- `path_contains` holds of a grant and a path exactly when the grant is the path, or is `p/**` and
-- the path is `p` or begins with `p/`.
pub path_within_iff :
    (child parent : Text) → (path_within_one child parent ≡ true) ↔ Covers parent child
path_within_iff child parent = (path_within_sound child parent, path_within_complete child parent)

-- A text that ends in `/**` and has `q/` in front is at least as long as `q`.
glob_boundary :
    (a q r : Text)
    → a ++ glob_suffix ≡ q ++ (slash ++ r)
    → (a ≡ q) ⊎ ((t : Text) × (a ≡ q ++ (slash ++ t)))
glob_boundary [] [] r e = inl refl
glob_boundary (x ∷ a) [] r e = inr (a, ground arith)
glob_boundary [] (y ∷ []) r e = absurd (ground arith)
glob_boundary [] (y ∷ z ∷ []) r e = absurd (ground arith)
glob_boundary [] (y ∷ z ∷ w ∷ q) r e =
    absurd (omega (arith, ap length e, length-append (y ∷ z ∷ w ∷ q) (slash ++ r)))
glob_boundary (x ∷ a) (y ∷ q) r e = elim (glob_boundary a q r (ground arith)) [
  | inl s ↦ inl (ground arith)
  | inr (t, s) ↦ inr (t, ground arith)
]

-- A grant whose base is no glob again.
abbrev pub double_glob : Text
double_glob = codes "/**/**"

abbrev pub IsPlain : Text → Type 0
IsPlain grant = ends_with double_glob grant ≡ false

not_double : (p grant : Text) → IsPlain grant → grant ≢ p ++ (glob_suffix ++ glob_suffix)
not_double p grant h e = absurd (clash (ends_with-append p double_glob) (rw e at h))
  where
    clash :
        ends_with double_glob (p ++ double_glob) ≡ true
        → ends_with double_glob (p ++ double_glob) ≡ false
        → ⊥
    clash k l = cc

Covers-below :
    (a p t q r : Text)
    → p ++ glob_suffix ≡ q ++ (slash ++ r)
    → a ≡ p ++ (slash ++ t)
    → Covers (q ++ glob_suffix) a
Covers-below a p t q r e f = elim (glob_boundary p q r e) [
  | inl s ↦ below q t refl (rw (← s) f)
  | inr (u, s) ↦
      below q (u ++ (slash ++ t)) refl (f ∙ rw s (rw append_assoc (rw append_assoc refl)))
]

Covers-base : (a q r : Text) → a ++ glob_suffix ≡ q ++ (slash ++ r) → Covers (q ++ glob_suffix) a
Covers-base a q r e = elim (glob_boundary a q r e) [
  | inl s ↦ base (rw s)
  | inr (t, s) ↦ below q t refl s
]

pub Covers-trans : {a b c : Text} → IsPlain c → Covers b a → Covers c b → Covers c a
Covers-trans {a} {b} {c} plain (same e) k = rw e k
Covers-trans {a} {b} {c} plain h (same e) = rw (← e) h
Covers-trans {a} {b} {c} plain (base e) (base f) =
    absurd (not_double a c plain (f ∙ rw e (append_assoc a glob_suffix glob_suffix)))
Covers-trans {a} {b} {c} plain (below p t e g) (base f) =
    absurd (not_double p c plain (f ∙ rw e (append_assoc p glob_suffix glob_suffix)))
Covers-trans {a} {b} {c} plain (base e) (below q r f g) = rw f (Covers-base a q r (sym e ∙ g))
Covers-trans {a} {b} {c} plain (below p t e g) (below q r f k) =
    rw f (Covers-below a p t q r (sym e ∙ k) g)

pub path_within_trans :
    (a b c : Text)
    → IsPlain c
    → path_within_one a b ≡ true
    → path_within_one b c ≡ true
    → path_within_one a c ≡ true
path_within_trans a b c plain h k =
    path_within_complete a c
      (Covers-trans plain (path_within_sound a b h) (path_within_sound b c k))
