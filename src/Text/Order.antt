-- ===== src/Text/Order.antt =====
-- The order of texts, and the sorted, duplicate-free lists that `sort(); dedup()` and a `BTreeSet`
-- iterate over. Both are seen through membership.
use quantmlayer.Prelude.{
  ◌≡◌, sym, ◌∙◌, ◌⊎◌, inl, inr, Bool, true, false, ◌||◌, ◌&&◌, List, [], ◌∷◌, ◌==◌, ltb, In,
  Bool-cases, if◌then◌else◌,
}
use quantmlayer.Text.{Text, text_eq}
use quantmlayer.Text.Laws.{text_eq_sound}

-- a <= b, by bytes
unfoldable pub text_leb : Text → Text → Bool
text_leb [] b = true
text_leb (a ∷ xs) [] = false
text_leb (a ∷ xs) (b ∷ bs) = ltb a b || (a == b && text_leb xs bs)

unfoldable pub insert_sorted : Text → List Text → List Text
unfolding text_leb
insert_sorted x [] = x ∷ []
insert_sorted x (y ∷ ys) =
    let rest = insert_sorted x ys in if text_leb x y then x ∷ y ∷ ys else y ∷ rest

-- v.sort()
unfoldable pub sort : List Text → List Text
unfolding insert_sorted
sort [] = []
sort (x ∷ xs) = insert_sorted x (sort xs)

abbrev pub same_head : Text → List Text → Bool
same_head x [] = false
same_head x (y ∷ ys) = text_eq y x

-- v.dedup(), from the back: of equal neighbours one stays.
unfoldable pub dedup : List Text → List Text
unfolding text_eq
dedup [] = []
dedup (x ∷ xs) = let rest = dedup xs in if same_head x rest then rest else x ∷ rest

unfoldable pub sort_dedup : List Text → List Text
unfolding sort dedup
sort_dedup xs = dedup (sort xs)

In-insert : (x y : Text) (ys : List Text) → In x (insert_sorted y ys) → (x ≡ y) ⊎ In x ys
unfolding insert_sorted
In-insert x y [] m = m
In-insert x y (z ∷ zs) m = elim (Bool-cases (text_leb y z)) [
  | inl e ↦ rw e at m
  | inr e ↦ past_head (In-insert x y zs) (rw e at m)
]
  where
    past_head :
        (In x (insert_sorted y zs) → (x ≡ y) ⊎ In x zs)
        → (x ≡ z) ⊎ In x (insert_sorted y zs)
        → (x ≡ y) ⊎ ((x ≡ z) ⊎ In x zs)
    past_head ih (inl same) = inr (inl same)
    past_head ih (inr n) = elim (ih n) [ inl a ↦ inl a | inr b ↦ inr (inr b) ]

insert-In : (x y : Text) (ys : List Text) → (x ≡ y) ⊎ In x ys → In x (insert_sorted y ys)
unfolding insert_sorted
insert-In x y [] m = m
insert-In x y (z ∷ zs) m = elim (Bool-cases (text_leb y z)) [
  | inl e ↦ rw e m
  | inr e ↦ rw e (past_head (insert-In x y zs) m)
]
  where
    past_head :
        ((x ≡ y) ⊎ In x zs → In x (insert_sorted y zs))
        → (x ≡ y) ⊎ ((x ≡ z) ⊎ In x zs)
        → (x ≡ z) ⊎ In x (insert_sorted y zs)
    past_head ih (inl same) = inr (ih (inl same))
    past_head ih (inr (inl same)) = inl same
    past_head ih (inr (inr n)) = inr (ih (inr n))

In-sort : (x : Text) (xs : List Text) → In x (sort xs) → In x xs
unfolding sort
In-sort x [] m = m
In-sort x (y ∷ ys) m = elim (In-insert x y (sort ys) m) [
  | inl e ↦ inl e
  | inr n ↦ inr (In-sort x ys n)
]

sort-In : (x : Text) (xs : List Text) → In x xs → In x (sort xs)
unfolding sort
sort-In x [] m = m
sort-In x (y ∷ ys) (inl e) = insert-In x y (sort ys) (inl e)
sort-In x (y ∷ ys) (inr m) = insert-In x y (sort ys) (inr (sort-In x ys m))

In-dedup : (x : Text) (xs : List Text) → In x (dedup xs) → In x xs
unfolding dedup
In-dedup x [] m = m
In-dedup x (y ∷ ys) m = elim (Bool-cases (same_head y (dedup ys))) [
  | inl e ↦ inr (In-dedup x ys (rw e at m))
  | inr e ↦ past_head (In-dedup x ys) (rw e at m)
]
  where
    past_head : (In x (dedup ys) → In x ys) → (x ≡ y) ⊎ In x (dedup ys) → (x ≡ y) ⊎ In x ys
    past_head ih (inl same) = inl same
    past_head ih (inr n) = inr (ih n)

head_In : (x y : Text) (ys : List Text) → same_head y ys ≡ true → x ≡ y → In x ys
head_In x y (z ∷ zs) h e = inl (e ∙ sym (text_eq_sound z y h))
head_In x y [] h e = cc

dedup-In : (x : Text) (xs : List Text) → In x xs → In x (dedup xs)
unfolding dedup
dedup-In x [] m = m
dedup-In x (y ∷ ys) m = elim (Bool-cases (same_head y (dedup ys))) [
  | inl e ↦ rw e (merged (dedup-In x ys) m e)
  | inr e ↦ rw e (kept (dedup-In x ys) m)
]
  where
    merged :
        (In x ys → In x (dedup ys))
        → (x ≡ y) ⊎ In x ys
        → same_head y (dedup ys) ≡ true
        → In x (dedup ys)
    merged ih (inl same) e = head_In x y (dedup ys) e same
    merged ih (inr n) e = ih n

    kept : (In x ys → In x (dedup ys)) → (x ≡ y) ⊎ In x ys → (x ≡ y) ⊎ In x (dedup ys)
    kept ih (inl same) = inl same
    kept ih (inr n) = inr (ih n)

-- Sorting and dropping repetitions keeps exactly the members.
pub In-sort_dedup : (x : Text) (xs : List Text) → In x (sort_dedup xs) → In x xs
unfolding sort_dedup
In-sort_dedup x xs m = In-sort x xs (In-dedup x (sort xs) m)

pub sort_dedup-In : (x : Text) (xs : List Text) → In x xs → In x (sort_dedup xs)
unfolding sort_dedup
sort_dedup-In x xs m = dedup-In x (sort xs) (sort-In x xs m)
