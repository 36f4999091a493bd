-- ===== src/Learn/Coverage.antt =====
-- The globs that crates/ql-learn/src/synth.rs makes of the paths observed.
use quantmlayer.Prelude.{
  ℕ, suc, zero, ◌≡◌, refl, sym, ap, ◌∙◌, subst, ◌⊎◌, inl, inr, true, Option, none, some, List, [],
  ◌∷◌, take, In, Bool-cases, &&-split, &&-join,
}
use quantmlayer.Text.{text_eq}
use quantmlayer.Text.Laws.{text_eq_refl, text_eq_sound}
use quantmlayer.Compile.{same_path}
use quantmlayer.Compile.Envelope.{path_leb}
use quantmlayer.Compile.Choice.{same_path_sound}
use quantmlayer.Learn.{PathBuf, insert_path}
use quantmlayer.Learn.Synthesis.{is_absolute, parent_dir, starts_with_path, truncate, parents}

pub starts_with_path_refl : (p : PathBuf) → starts_with_path p p ≡ true
unfolding starts_with_path
starts_with_path_refl [] = refl
starts_with_path_refl (c ∷ cs) = rw (text_eq_refl c) (starts_with_path_refl cs)

pub starts_with_path_trans :
    (p q r : PathBuf)
    → starts_with_path p q ≡ true
    → starts_with_path q r ≡ true
    → starts_with_path p r ≡ true
unfolding starts_with_path
starts_with_path_trans p q [] h k = refl
starts_with_path_trans (a ∷ p) (b ∷ q) (c ∷ r) h k =
    let (ab, pq) = &&-split (text_eq a b) (starts_with_path p q) h in
    let (bc, qr) = &&-split (text_eq b c) (starts_with_path q r) k in
    &&-join _ _ (subst (λ x. text_eq x c ≡ true) (sym (text_eq_sound a b ab)) bc)
      (starts_with_path_trans p q r pq qr)
starts_with_path_trans [] (b ∷ q) (c ∷ r) h k = cc
starts_with_path_trans p [] (c ∷ r) h k = cc

pub parent_dir_prefix : (p : PathBuf) → starts_with_path p (parent_dir p) ≡ true
unfolding starts_with_path parent_dir
parent_dir_prefix [] = refl
parent_dir_prefix (c ∷ []) = rw (text_eq_refl c) refl
parent_dir_prefix (c ∷ d ∷ []) = rw (text_eq_refl c) refl
parent_dir_prefix (c ∷ d ∷ e ∷ es) = rw (text_eq_refl c) (parent_dir_prefix (d ∷ e ∷ es))

take_prefix : (n : ℕ) (p : PathBuf) → starts_with_path p (take n p) ≡ true
unfolding starts_with_path
take_prefix zero p = refl
take_prefix (suc n) [] = refl
take_prefix (suc n) (c ∷ cs) = rw (text_eq_refl c) (take_prefix n cs)

pub truncate_prefix :
    (d : PathBuf) (n : Option ℕ) → is_absolute d ≡ true → starts_with_path d (truncate d n) ≡ true
unfolding truncate is_absolute starts_with_path
truncate_prefix d none h = starts_with_path_refl d
truncate_prefix (c ∷ cs) (some n) h = rw h (take_prefix n cs)
truncate_prefix [] (some n) h = cc

pub parent_dir_absolute : (p : PathBuf) → is_absolute p ≡ true → is_absolute (parent_dir p) ≡ true
unfolding is_absolute parent_dir
parent_dir_absolute (c ∷ []) h = h
parent_dir_absolute (c ∷ d ∷ []) h = h
parent_dir_absolute (c ∷ d ∷ e ∷ es) h = h
parent_dir_absolute [] h = h

pub In-insert_path : (d p : PathBuf) (s : List PathBuf) → In d (insert_path p s) → (d ≡ p) ⊎ In d s
unfolding insert_path
In-insert_path d p [] m = m
In-insert_path d p (q ∷ qs) m = elim (Bool-cases (same_path q p)) [
  | inl e ↦ inr (rw e at m)
  | inr e ↦ elim (Bool-cases (path_leb p q)) [
    | inl f ↦ rw f at (rw e at m)
    | inr f ↦ past_head (In-insert_path d p qs) (rw f at (rw e at m))
  ]
]
  where
    past_head :
        (In d (insert_path p qs) → (d ≡ p) ⊎ In d qs)
        → (d ≡ q) ⊎ In d (insert_path p qs)
        → (d ≡ p) ⊎ ((d ≡ q) ⊎ In d qs)
    past_head ih (inl same) = inr (inl same)
    past_head ih (inr n) = elim (ih n) [ inl a ↦ inl a | inr b ↦ inr (inr b) ]

pub insert_path-In : (d p : PathBuf) (s : List PathBuf) → (d ≡ p) ⊎ In d s → In d (insert_path p s)
unfolding insert_path
insert_path-In d p [] m = m
insert_path-In d p (q ∷ qs) m = elim (Bool-cases (same_path q p)) [
  | inl e ↦ rw e (merged e m)
  | inr e ↦ rw e (elim (Bool-cases (path_leb p q)) [
    | inl f ↦ rw f m
    | inr f ↦ rw f (past_head (insert_path-In d p qs) m)
  ])
]
  where
    merged : same_path q p ≡ true → (d ≡ p) ⊎ In d (q ∷ qs) → In d (q ∷ qs)
    merged e (inl same) = inl (same ∙ sym (same_path_sound q p e))
    merged e (inr n) = n

    past_head :
        ((d ≡ p) ⊎ In d qs → In d (insert_path p qs))
        → (d ≡ p) ⊎ ((d ≡ q) ⊎ In d qs)
        → (d ≡ q) ⊎ In d (insert_path p qs)
    past_head ih (inl same) = inr (ih (inl same))
    past_head ih (inr (inl same)) = inl same
    past_head ih (inr (inr n)) = inr (ih (inr n))

pub parents-In :
    (n : Option ℕ) (p : PathBuf) (ps : List PathBuf)
    → In p ps
    → is_absolute p ≡ true
    → In (truncate (parent_dir p) n) (parents n ps)
unfolding parents
parents-In n p (q ∷ ps) (inl e) h =
    let hq : is_absolute q ≡ true = subst (λ x. is_absolute x ≡ true) e h in
    rw hq (insert_path-In _ _ (parents n ps) (inl (ap (λ x. truncate (parent_dir x) n) e)))
parents-In n p (q ∷ ps) (inr m) h = elim (Bool-cases (is_absolute q)) [
  | inl e ↦ rw e (insert_path-In _ _ (parents n ps) (inr (parents-In n p ps m h)))
  | inr e ↦ rw e (parents-In n p ps m h)
]
parents-In n p [] m h = absurd m

-- The directory is that of an observed path.
abbrev pub IsObserved : Option ℕ → List PathBuf → PathBuf → Type 0
IsObserved n ps d =
    (p : PathBuf) × In p ps × (is_absolute p ≡ true) × (d ≡ truncate (parent_dir p) n)

pub In-parents :
    (n : Option ℕ) (d : PathBuf) (ps : List PathBuf) → In d (parents n ps) → IsObserved n ps d
unfolding parents
In-parents n d (q ∷ ps) m = elim (Bool-cases (is_absolute q)) [
  | inl e ↦ cases e (In-parents n d ps) (In-insert_path d _ (parents n ps) (rw e at m))
  | inr e ↦ later (In-parents n d ps (rw e at m))
]
  where
    later : IsObserved n ps d → IsObserved n (q ∷ ps) d
    later (p, k, h, same) = (p, inr k, h, same)

    cases :
        is_absolute q ≡ true
        → (In d (parents n ps) → IsObserved n ps d)
        → (d ≡ truncate (parent_dir q) n) ⊎ In d (parents n ps)
        → IsObserved n (q ∷ ps) d
    cases e ih (inl same) = (q, inl refl, e, same)
    cases e ih (inr k) = let (p, m', h, same) = ih k in (p, inr m', h, same)
In-parents n d [] m = absurd m
