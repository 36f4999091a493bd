-- ===== src/Text/Laws.antt =====
-- Laws of the text operations.
use mathlib.Core.Option
use mathlib.Core.List.{append_assoc}
use quantmlayer.Prelude.{
  ℕ, ◌≡◌, ◌≢◌, refl, sym, ap, ◌↔◌, inl, inr, true, false, some, List, [], ◌∷◌, ◌++◌, arith, In,
  length, length-append, Bool-cases, Bool-ext,
}
use quantmlayer.Text.{Text, text_eq, contains, starts_with, ends_with, strip_suffix, includes}

pub text_eq_refl : (a : Text) → text_eq a a ≡ true
unfolding text_eq
text_eq_refl [] = refl
text_eq_refl (c ∷ cs) = ground (arith, text_eq_refl cs)

pub text_eq_sound : (a b : Text) → text_eq a b ≡ true → a ≡ b
unfolding text_eq
text_eq_sound [] [] h = refl
text_eq_sound (a ∷ xs) (b ∷ bs) h = ground (arith, text_eq_sound xs bs)
text_eq_sound [] (b ∷ bs) h = cc
text_eq_sound (a ∷ xs) [] h = cc

-- The test agrees with equality.
pub text_eq_iff : (a b : Text) → (text_eq a b ≡ true) ↔ (a ≡ b)
text_eq_iff a b = (text_eq_sound a b, λ e. rw e (text_eq_refl b))

pub text_eq_ne : (a b : Text) → a ≢ b → text_eq a b ≡ false
text_eq_ne a b h = elim (Bool-cases (text_eq a b)) [
  | inl e ↦ absurd (h (text_eq_sound a b e))
  | inr e ↦ e
]

pub text_eq_comm : (a b : Text) → text_eq a b ≡ text_eq b a
text_eq_comm a b =
    Bool-ext (text_eq a b) (text_eq b a) (λ h. (text_eq_iff b a).1 (sym (text_eq_sound a b h)))
      (λ h. (text_eq_iff a b).1 (sym (text_eq_sound b a h)))

-- `contains` decides membership.
pub contains_In : (x : Text) (xs : List Text) → contains xs x ≡ true → In x xs
unfolding contains
contains_In x (y ∷ ys) h = elim (Bool-cases (text_eq y x)) [
  | inl e ↦ inl (sym (text_eq_sound y x e))
  | inr e ↦ inr (contains_In x ys (rw e at h))
]
contains_In x [] h = cc

pub In_contains : (x : Text) (xs : List Text) → In x xs → contains xs x ≡ true
unfolding contains
In_contains x (y ∷ ys) (inl e) = rw (e, text_eq_refl y)
In_contains x (y ∷ ys) (inr m) = ground (arith, In_contains x ys m)
In_contains x [] m = absurd m

pub contains_iff : (x : Text) (xs : List Text) → (contains xs x ≡ true) ↔ In x xs
contains_iff x xs = (contains_In x xs, In_contains x xs)

pub starts_with-append : (p r : Text) → starts_with p (p ++ r) ≡ true
unfolding starts_with
starts_with-append [] r = refl
starts_with-append (c ∷ p) r = ground (arith, starts_with-append p r)

-- A text with a prefix is the prefix and a rest.
pub starts_with_elim : (p s : Text) → starts_with p s ≡ true → (r : Text) × (s ≡ p ++ r)
unfolding starts_with
starts_with_elim [] s h = (s, refl)
starts_with_elim (c ∷ p) (d ∷ s) h =
    let (r, e) = starts_with_elim p s (ground arith) in (r, ground arith)
starts_with_elim (c ∷ p) [] h = cc

longer_ne : (c : ℕ) (p s : Text) → (c ∷ p) ++ s ≢ s
longer_ne c p s e = omega (arith, ap length e, length-append (c ∷ p) s)

pub strip_suffix-append : (p suf : Text) → strip_suffix suf (p ++ suf) ≡ some p
unfolding strip_suffix
strip_suffix-append [] [] = refl
strip_suffix-append [] (c ∷ suf) = rw (text_eq_refl (c ∷ suf))
strip_suffix-append (c ∷ p) suf =
    rw (text_eq_ne ((c ∷ p) ++ suf) suf (longer_ne c p suf)) (rw (strip_suffix-append p suf))

pub strip_suffix_elim : (suf s p : Text) → strip_suffix suf s ≡ some p → s ≡ p ++ suf
unfolding strip_suffix
strip_suffix_elim suf [] p h = ground (arith, text_eq_sound [] suf)
strip_suffix_elim suf (c ∷ s) p h = elim (Bool-cases (text_eq (c ∷ s) suf)) [
  | inl e ↦ let same : [] ≡ p = ground arith in rw (← same) (text_eq_sound (c ∷ s) suf e)
  | inr e ↦
      let (r, found, same) = (Option.map-eq-some_iff _ _).0 (rw e at h) in
      rw (← same) (ap (λ t. c ∷ t) (strip_suffix_elim suf s r found))
]

pub ends_with-append : (p suf : Text) → ends_with suf (p ++ suf) ≡ true
unfolding ends_with
ends_with-append [] [] = refl
ends_with-append [] (c ∷ suf) = rw (text_eq_refl (c ∷ suf))
ends_with-append (c ∷ p) suf = ground (arith, ends_with-append p suf)

pub ends_with_elim : (suf s : Text) → ends_with suf s ≡ true → (p : Text) × (s ≡ p ++ suf)
unfolding ends_with
ends_with_elim suf [] h = ([], text_eq_sound [] suf h)
ends_with_elim suf (c ∷ s) h = elim (Bool-cases (text_eq (c ∷ s) suf)) [
  | inl e ↦ ([], text_eq_sound (c ∷ s) suf e)
  | inr e ↦ let (p, same) = ends_with_elim suf s (rw e at h) in (c ∷ p, ap (λ t. c ∷ t) same)
]

-- Whether one text stands in another does not change when text is put around it.
starts_with_extend : (sub s t : Text) → starts_with sub s ≡ true → starts_with sub (s ++ t) ≡ true
starts_with_extend sub s t h =
    let (r, e) = starts_with_elim sub s h in rw (e, append_assoc) (starts_with-append sub (r ++ t))

pub includes_middle : (p sub r : Text) → includes sub (p ++ (sub ++ r)) ≡ true
unfolding includes
includes_middle [] [] [] = unfold starts_with in refl
includes_middle [] [] (c ∷ r) = unfold starts_with in refl
includes_middle [] (c ∷ sub) r = rw (starts_with-append (c ∷ sub) r)
includes_middle (c ∷ p) sub r = ground (arith, includes_middle p sub r)
