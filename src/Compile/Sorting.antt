-- ===== src/Compile/Sorting.antt =====
-- Sorting the lockfiles of crates/ql-compile/src/lib.rs keeps exactly the members.
use quantmlayer.Prelude.{◌≡◌, ◌⊎◌, inl, inr, List, [], ◌∷◌, In, Bool-cases}
use quantmlayer.Compile.{LockfileRef}
use quantmlayer.Compile.Envelope.{path_leb, insert_ref, sort_refs}

In-insert_ref :
    (x l : LockfileRef) (ls : List LockfileRef) → In x (insert_ref l ls) → (x ≡ l) ⊎ In x ls
unfolding insert_ref
In-insert_ref x l [] m = m
In-insert_ref x l (k ∷ ks) m = elim (Bool-cases (path_leb l.path k.path)) [
  | inl e ↦ rw e at m
  | inr e ↦ past_head (In-insert_ref x l ks) (rw e at m)
]
  where
    past_head :
        (In x (insert_ref l ks) → (x ≡ l) ⊎ In x ks)
        → (x ≡ k) ⊎ In x (insert_ref l ks)
        → (x ≡ l) ⊎ ((x ≡ k) ⊎ In x ks)
    past_head ih (inl same) = inr (inl same)
    past_head ih (inr n) = elim (ih n) [ inl a ↦ inl a | inr b ↦ inr (inr b) ]

insert_ref-In :
    (x l : LockfileRef) (ls : List LockfileRef) → (x ≡ l) ⊎ In x ls → In x (insert_ref l ls)
unfolding insert_ref
insert_ref-In x l [] m = m
insert_ref-In x l (k ∷ ks) m = elim (Bool-cases (path_leb l.path k.path)) [
  | inl e ↦ rw e m
  | inr e ↦ rw e (past_head (insert_ref-In x l ks) m)
]
  where
    past_head :
        ((x ≡ l) ⊎ In x ks → In x (insert_ref l ks))
        → (x ≡ l) ⊎ ((x ≡ k) ⊎ In x ks)
        → (x ≡ k) ⊎ In x (insert_ref l ks)
    past_head ih (inl same) = inr (ih (inl same))
    past_head ih (inr (inl same)) = inl same
    past_head ih (inr (inr n)) = inr (ih (inr n))

pub In-sort_refs : (x : LockfileRef) (ls : List LockfileRef) → In x (sort_refs ls) → In x ls
unfolding sort_refs
In-sort_refs x [] m = m
In-sort_refs x (l ∷ ls) m = elim (In-insert_ref x l (sort_refs ls) m) [
  | inl e ↦ inl e
  | inr n ↦ inr (In-sort_refs x ls n)
]

pub sort_refs-In : (x : LockfileRef) (ls : List LockfileRef) → In x ls → In x (sort_refs ls)
unfolding sort_refs
sort_refs-In x [] m = m
sort_refs-In x (l ∷ ls) (inl e) = insert_ref-In x l (sort_refs ls) (inl e)
sort_refs-In x (l ∷ ls) (inr m) = insert_ref-In x l (sort_refs ls) (inr (sort_refs-In x ls m))
