-- ===== src/Compile/Choice.antt =====
-- Which of the collected lockfiles `compile` of crates/ql-compile/src/lib.rs takes.
use quantmlayer.Prelude.{
  ◌≡◌, refl, sym, ap, ◌⊎◌, inl, inr, true, false, not, List, [], ◌∷◌, any_elim, any_intro, retain,
  retain_elim, retain_intro, In, Bool-cases, &&-split, &&-join, subst,
}
use quantmlayer.Text.{text_eq}
use quantmlayer.Text.Laws.{text_eq_sound, text_eq_refl}
use quantmlayer.Profile.{LockfileVcs, clean, dirty, unknown}
use quantmlayer.Compile.{
  Ecosystem, cargo, npm, pypi, go, RelPath, LockfileRef, same_ecosystem, same_vcs, same_path,
  same_ref,
}
use quantmlayer.Compile.Envelope.{is_at_root, is_listed, prefer_root, chosen}

same_ecosystem_sound : (a b : Ecosystem) → same_ecosystem a b ≡ true → a ≡ b
unfolding same_ecosystem
same_ecosystem_sound cargo cargo h = refl
same_ecosystem_sound npm npm h = refl
same_ecosystem_sound pypi pypi h = refl
same_ecosystem_sound go go h = refl
same_ecosystem_sound _ _ h = cc

same_vcs_sound : (a b : LockfileVcs) → same_vcs a b ≡ true → a ≡ b
unfolding same_vcs
same_vcs_sound clean clean h = refl
same_vcs_sound dirty dirty h = refl
same_vcs_sound unknown unknown h = refl
same_vcs_sound _ _ h = cc

pub same_path_sound : (p q : RelPath) → same_path p q ≡ true → p ≡ q
unfolding same_path
same_path_sound [] [] h = refl
same_path_sound (a ∷ p) (b ∷ q) h =
    let (first, later) = &&-split (text_eq a b) (same_path p q) h in
    rw (text_eq_sound a b first) (ap (λ r. b ∷ r) (same_path_sound p q later))
same_path_sound _ _ h = cc

same_ref_sound : (a b : LockfileRef) → same_ref a b ≡ true → a ≡ b
unfolding same_ref
same_ref_sound a b h =
    let (h1, h2) = &&-split (same_path a.path b.path) _ h in
    let (h3, h4) = &&-split (same_ecosystem a.ecosystem b.ecosystem) _ h2 in
    let (h5, h6) = &&-split (text_eq a.sha256 b.sha256) _ h4 in
    let p = same_path_sound a.path b.path h1 in
    let q = same_ecosystem_sound a.ecosystem b.ecosystem h3 in
    let r = text_eq_sound a.sha256 b.sha256 h5 in let s = same_vcs_sound a.vcs b.vcs h6 in cc

same_ecosystem_refl : (a : Ecosystem) → same_ecosystem a a ≡ true
unfolding same_ecosystem
same_ecosystem_refl cargo = refl
same_ecosystem_refl npm = refl
same_ecosystem_refl pypi = refl
same_ecosystem_refl go = refl

same_vcs_refl : (a : LockfileVcs) → same_vcs a a ≡ true
unfolding same_vcs
same_vcs_refl clean = refl
same_vcs_refl dirty = refl
same_vcs_refl unknown = refl

pub same_path_refl : (p : RelPath) → same_path p p ≡ true
unfolding same_path
same_path_refl [] = refl
same_path_refl (a ∷ p) = rw (text_eq_refl a) (same_path_refl p)

same_ref_refl : (a : LockfileRef) → same_ref a a ≡ true
unfolding same_ref
same_ref_refl a = &&-join _ _ (same_path_refl a.path) (
    &&-join _ _ (same_ecosystem_refl a.ecosystem)
      (&&-join _ _ (text_eq_refl a.sha256) (same_vcs_refl a.vcs)))

-- `contains` on lockfiles decides membership.
is_listed-In : (ls : List LockfileRef) (l : LockfileRef) → is_listed ls l ≡ true → In l ls
unfolding is_listed
is_listed-In ls l h =
    let (k, m, same) = any_elim (λ k. same_ref k l) ls h in
    subst (λ x. In x ls) (same_ref_sound k l same) m

In-is_listed : (ls : List LockfileRef) (l : LockfileRef) → In l ls → is_listed ls l ≡ true
unfolding is_listed
In-is_listed ls l m = any_intro (λ k. same_ref k l) l ls m (same_ref_refl l)

-- Every lockfile is taken or skipped, and nothing else is.
prefer_root_covers :
    (all at_root : List LockfileRef) (l : LockfileRef)
    → In l all
    → In l ((prefer_root all at_root).0) ⊎ In l ((prefer_root all at_root).1)
unfolding prefer_root
prefer_root_covers all [] l m = inl m
prefer_root_covers all (r ∷ rs) l m = elim (Bool-cases (is_listed (r ∷ rs) l)) [
  | inl e ↦ inl (is_listed-In (r ∷ rs) l e)
  | inr e ↦ inr (retain_intro (λ k. not (is_listed (r ∷ rs) k)) l all m (ap not e))
]

prefer_root_within :
    (all at_root : List LockfileRef)
    → ((l : LockfileRef) → In l at_root → In l all)
    → (l : LockfileRef) → In l ((prefer_root all at_root).0) ⊎ In l ((prefer_root all at_root).1)
    → In l all
unfolding prefer_root
prefer_root_within all [] sub l (inl m) = m
prefer_root_within all [] sub l (inr m) = absurd m
prefer_root_within all (r ∷ rs) sub l (inl m) = sub l m
prefer_root_within all (r ∷ rs) sub l (inr m) =
    (retain_elim (λ k. not (is_listed (r ∷ rs) k)) l all m).0

-- A choice is by the root: only lockfiles at the root are taken, and only others skipped; or none
-- is at the root, and none is skipped.
abbrev pub IsByRoot : List LockfileRef → List LockfileRef → Type 0
IsByRoot taken skipped =
    (((l : LockfileRef) → In l taken → is_at_root l ≡ true)
      × ((l : LockfileRef) → In l skipped → is_at_root l ≡ false))
    ⊎ (((l : LockfileRef) → In l taken → is_at_root l ≡ false) × (skipped ≡ []))

not_at_root :
    (all : List LockfileRef) (l : LockfileRef)
    → In l all
    → ¬ In l (retain is_at_root all)
    → is_at_root l ≡ false
not_at_root all l m out = elim (Bool-cases (is_at_root l)) [
  | inl e ↦ absurd (out (retain_intro is_at_root l all m e))
  | inr e ↦ e
]

prefer_root-IsByRoot :
    (all at_root : List LockfileRef)
    → at_root ≡ retain is_at_root all
    → IsByRoot ((prefer_root all at_root).0) ((prefer_root all at_root).1)
unfolding prefer_root
prefer_root-IsByRoot all [] e = inr (λ l m. not_at_root all l m (λ n. subst (In l) (sym e) n), refl)
prefer_root-IsByRoot all (r ∷ rs) e = inl (taken, left_out)
  where
    taken : (l : LockfileRef) → In l (r ∷ rs) → is_at_root l ≡ true
    taken l m = (retain_elim is_at_root l all (subst (In l) e m)).1

    left_out :
        (l : LockfileRef)
        → In l (retain (λ k. not (is_listed (r ∷ rs) k)) all)
        → is_at_root l ≡ false
    left_out l m =
        let (n, free) = retain_elim (λ k. not (is_listed (r ∷ rs) k)) l all m in
        not_at_root all l n (λ q. listed (In-is_listed (r ∷ rs) l (subst (In l) (sym e) q)) free)
      where
        listed : is_listed (r ∷ rs) l ≡ true → not (is_listed (r ∷ rs) l) ≡ true → ⊥
        listed h k = cc

pub chosen-IsByRoot : (all : List LockfileRef) → IsByRoot ((chosen all).0) ((chosen all).1)
unfolding chosen
chosen-IsByRoot all = prefer_root-IsByRoot all (retain is_at_root all) refl

pub chosen_covers :
    (all : List LockfileRef) (l : LockfileRef)
    → In l all
    → In l ((chosen all).0) ⊎ In l ((chosen all).1)
unfolding chosen
chosen_covers all = prefer_root_covers all (retain is_at_root all)

pub chosen_within :
    (all : List LockfileRef) (l : LockfileRef)
    → In l ((chosen all).0) ⊎ In l ((chosen all).1)
    → In l all
unfolding chosen
chosen_within all =
    prefer_root_within all (retain is_at_root all) (λ l m. (retain_elim is_at_root l all m).0)
