-- ===== src/Prelude/Lists.antt =====
-- Lists measured by native numbers and searched by Boolean tests, under the library's names.
use Prim.Native.Nat.{ℕ, zero, suc, ◌+◌, ◌≤◌}
use mathlib.Core.Path.{◌≡◌, refl}
use mathlib.Core.Logic.{◌⊎◌, inl, inr}
use mathlib.Core.Bool.{Bool, true, false, ◌&&◌, ◌||◌}
use mathlib.Core.Option.{Option, none, some}
use mathlib.Core.List.{List, [], ◌∷◌, ◌++◌}
use native.Mathlib.Omega.{arith}
use quantmlayer.Prelude.Tests.{if◌then◌else◌, Bool-cases}

module _ {ℓ} {A : Type ℓ} where
  abbrev pub length : List A → ℕ
  length [] = 0
  length (x ∷ xs) = suc (length xs)

  abbrev pub take : ℕ → List A → List A
  take zero xs = []
  take (suc n) [] = []
  take (suc n) (x ∷ xs) = x ∷ take n xs

  abbrev pub drop : ℕ → List A → List A
  drop zero xs = xs
  drop (suc n) [] = []
  drop (suc n) (x ∷ xs) = drop n xs

  -- `iter().any(p)` and `iter().all(p)`
  abbrev pub any : (A → Bool) → List A → Bool
  any p [] = false
  any p (x ∷ xs) = p x || any p xs

  abbrev pub all : (A → Bool) → List A → Bool
  all p [] = true
  all p (x ∷ xs) = p x && all p xs

  -- `retain(p)`, `filter(p)`
  abbrev pub retain : (A → Bool) → List A → List A
  retain p [] = []
  retain p (x ∷ xs) = let rest = retain p xs in if p x then x ∷ rest else rest

  abbrev pub last? : List A → Option A
  last? [] = none
  last? (x ∷ []) = some x
  last? (x ∷ y ∷ ys) = last? (y ∷ ys)

  abbrev pub All {κ} : (A → Type κ) → List A → Type κ
  All P [] = Unit
  All P (x ∷ xs) = P x × All P xs

-- Membership, by recursion.
abbrev pub In : {A : Type 0} → A → List A → Type 0
In a [] = ⊥
In a (x ∷ xs) = (a ≡ x) ⊎ In a xs

module _ {ℓ} {A : Type ℓ} where
  pub length-append : (xs ys : List A) → length (xs ++ ys) ≡ length xs + length ys
  length-append [] ys = omega arith
  length-append (x ∷ xs) ys = omega (arith, length-append xs ys)

  pub last?-append : (xs : List A) (a : A) → last? (xs ++ a ∷ []) ≡ some a
  last?-append [] a = refl
  last?-append (x ∷ []) a = refl
  last?-append (x ∷ y ∷ ys) a = last?-append (y ∷ ys) a

  -- The length that a retained list keeps.
  pub length-retain : (p : A → Bool) (xs : List A) → length (retain p xs) ≤ length xs
  length-retain p [] = omega arith
  length-retain p (x ∷ xs) = elim (Bool-cases (p x)) [
    | inl e ↦ simp e (omega (arith, length-retain p xs))
    | inr e ↦ simp e (omega (arith, length-retain p xs))
  ]

module _ {A : Type 0} (p : A → Bool) where
  -- A test that holds of some element, with the element.
  pub any_elim : (xs : List A) → any p xs ≡ true → (x : A) × In x xs × (p x ≡ true)
  any_elim (x ∷ xs) h = elim (Bool-cases (p x)) [
    | inl e ↦ (x, inl refl, e)
    | inr e ↦ let (y, m, q) = any_elim xs (rw e at h) in (y, inr m, q)
  ]
  any_elim [] h = cc

  pub any_intro : (x : A) (xs : List A) → In x xs → p x ≡ true → any p xs ≡ true
  any_intro x (y ∷ xs) (inl e) h = rw (← e) (rw h)
  any_intro x (y ∷ xs) (inr m) h = ground (arith, any_intro x xs m h)
  any_intro x [] m h = absurd m

  pub all_elim : (x : A) (xs : List A) → all p xs ≡ true → In x xs → p x ≡ true
  all_elim x (y ∷ xs) h (inl e) = rw e (ground arith)
  all_elim x (y ∷ xs) h (inr m) = all_elim x xs (ground arith) m
  all_elim x [] h m = absurd m

  pub all_intro : (xs : List A) → ((x : A) → In x xs → p x ≡ true) → all p xs ≡ true
  all_intro [] h = refl
  all_intro (x ∷ xs) h = ground (arith, h x (inl refl), all_intro xs (λ y m. h y (inr m)))

  -- What `retain` keeps was there and passes the test, and nothing else is lost.
  pub retain_elim : (x : A) (xs : List A) → In x (retain p xs) → In x xs × (p x ≡ true)
  retain_elim x (y ∷ xs) m = elim (Bool-cases (p y)) [
    | inl e ↦ kept (retain_elim x xs) e (rw e at m)
    | inr e ↦ let (n, q) = retain_elim x xs (rw e at m) in (inr n, q)
  ]
    where
      kept :
          (In x (retain p xs) → In x xs × (p x ≡ true))
          → p y ≡ true
          → (x ≡ y) ⊎ In x (retain p xs)
          → In x (y ∷ xs) × (p x ≡ true)
      kept ih e (inl same) = (inl same, rw same e)
      kept ih e (inr n) = let (n', q) = ih n in (inr n', q)
  retain_elim x [] m = absurd m

  pub retain_intro : (x : A) (xs : List A) → In x xs → p x ≡ true → In x (retain p xs)
  retain_intro x (y ∷ xs) (inl e) h = let hy : p y ≡ true = rw (← e) h in rw hy (inl e)
  retain_intro x (y ∷ xs) (inr m) h = elim (Bool-cases (p y)) [
    | inl e ↦ rw e (inr (retain_intro x xs m h))
    | inr e ↦ rw e (retain_intro x xs m h)
  ]
  retain_intro x [] m h = absurd m

-- Membership in a joined list.
pub In-append : {A : Type 0} (x : A) (xs ys : List A) → In x (xs ++ ys) → In x xs ⊎ In x ys
In-append x (y ∷ xs) ys (inl e) = inl (inl e)
In-append x (y ∷ xs) ys (inr m) = elim (In-append x xs ys m) [ inl a ↦ inl (inr a) | inr b ↦ inr b ]
In-append x [] ys m = inr m

pub append-In : {A : Type 0} (x : A) (xs ys : List A) → In x xs ⊎ In x ys → In x (xs ++ ys)
append-In x [] ys (inr n) = n
append-In x (y ∷ xs) ys (inl (inl e)) = inl e
append-In x (y ∷ xs) ys (inl (inr m)) = inr (append-In x xs ys (inl m))
append-In x (y ∷ xs) ys (inr n) = inr (append-In x xs ys (inr n))
append-In x [] ys (inl m) = absurd m
