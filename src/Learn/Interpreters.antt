-- ===== src/Learn/Interpreters.antt =====
-- What the search of crates/ql-learn/src/shim.rs returns.
use quantmlayer.Prelude.{
  ℕ, zero, suc, ◌≡◌, refl, sym, subst, ◌⊎◌, inl, inr, Bool, true, false, not, ◌&&◌, Bool-cases,
  &&-split, Option, none, some, List, [], ◌∷◌, retain, drop, ◌==◌, In, if◌then◌else◌,
}
use quantmlayer.Text.{Text, codes, text_eq, contains, starts_with}
use quantmlayer.Text.Order.{sort_dedup, In-sort_dedup}
use quantmlayer.Learn.Shim.{
  is_ascii_whitespace, skip_while, take_while, on_front, interpreter_in,
  resolve_shebang_interpreter, is_new, max_shim_depth, follow, follow_each,
  resolve_shim_interpreters,
}

not-true : (b : Bool) → not b ≡ true → b ≡ false
not-true true h = cc
not-true false h = refl

kept :
    (a b c : Bool) (interp i : Text)
    → starts_with (codes "/") interp ≡ c
    → (if a && b && c then some interp else none) ≡ some i
    → starts_with (codes "/") i ≡ true
kept true true true interp i e h =
    let same : interp ≡ i = cc in subst (λ z. starts_with (codes "/") z ≡ true) same e
kept true true false interp i e h = cc
kept true false c interp i e h = cc
kept false b c interp i e h = cc

module _ (read : Text → Option Text) (is_utf8 : Text → Bool) where
  interpreter_in-absolute :
      (front i : Text)
      → interpreter_in read is_utf8 front ≡ some i
      → starts_with (codes "/") i ≡ true
  unfolding interpreter_in
  interpreter_in-absolute front i h =
      let interp =
        take_while (λ b. not (is_ascii_whitespace b))
          (skip_while is_ascii_whitespace (take_while (λ b. not (b == 10)) (drop 2 front))) in
      kept (starts_with (codes "#!") front) (is_utf8 interp) (starts_with (codes "/") interp) interp
        i refl h

  resolve-absolute :
      (path i : Text)
      → resolve_shebang_interpreter read is_utf8 path ≡ some i
      → starts_with (codes "/") i ≡ true
  unfolding resolve_shebang_interpreter
  resolve-absolute path i h = split (read path) h
    where
      split :
          (r : Option Text) → on_front read is_utf8 r ≡ some i → starts_with (codes "/") i ≡ true
      split none q = cc
      split (some front) q = interpreter_in-absolute front i q

  module _ (execs : List Text) where
    abbrev AreNew : List Text → Type 0
    AreNew found =
        (x : Text) → In x found → (starts_with (codes "/") x ≡ true) × (contains execs x ≡ false)

    AreNew-pushed :
        (i : Text) (found : List Text)
        → starts_with (codes "/") i ≡ true
        → contains execs i ≡ false
        → AreNew found
        → AreNew (sort_dedup (i ∷ found))
    AreNew-pushed i found a n h x m = cases (In-sort_dedup x (i ∷ found) m)
      where
        cases :
            (x ≡ i) ⊎ In x found → (starts_with (codes "/") x ≡ true) × (contains execs x ≡ false)
        cases (inl same) =
            subst (λ z. (starts_with (codes "/") z ≡ true) × (contains execs z ≡ false)) (sym same)
              (a, n)
        cases (inr k) = h x k

    unlisted :
        (current i : Text) (found : List Text)
        → is_new read is_utf8 execs current found i ≡ true
        → contains execs i ≡ false
    unfolding is_new
    unlisted current i found new =
        let (old, unseen) =
          &&-split (not (text_eq i current) && not (contains execs i)) (not (contains found i))
            new in
        not-true (contains execs i)
          ((&&-split (not (text_eq i current)) (not (contains execs i)) old).1)

    follow-AreNew :
        (rounds : ℕ) (current : Text) (found : List Text)
        → AreNew found
        → AreNew (follow read is_utf8 execs rounds current found)
    unfolding follow
    follow-AreNew zero current found h = h
    follow-AreNew (suc rounds) current found h =
        split (resolve_shebang_interpreter read is_utf8 current) refl (follow-AreNew rounds)
      where
        pushed :
            (i : Text)
            → resolve_shebang_interpreter read is_utf8 current ≡ some i
            → is_new read is_utf8 execs current found i ≡ true
            → AreNew (sort_dedup (i ∷ found))
        pushed i e new =
            AreNew-pushed i found (resolve-absolute current i e) (unlisted current i found new) h

        split :
            (r : Option Text)
            → resolve_shebang_interpreter read is_utf8 current ≡ r
            → ((c : Text) (fs : List Text)
                → AreNew fs
                → AreNew (follow read is_utf8 execs rounds c fs))
            → AreNew (follow read is_utf8 execs (suc rounds) current found)
        split none e ih = rw (e, follow) h
        split (some i) e ih = elim (Bool-cases (is_new read is_utf8 execs current found i)) [
          | inl new ↦ rw (e, follow, new) (ih i (sort_dedup (i ∷ found)) (pushed i e new))
          | inr old ↦ rw (e, follow, old) h
        ]

    follow_each-AreNew :
        (starts found : List Text)
        → AreNew found
        → AreNew (follow_each read is_utf8 execs starts found)
    unfolding follow_each
    follow_each-AreNew [] found h = h
    follow_each-AreNew (s ∷ starts) found h =
        follow_each-AreNew starts (follow read is_utf8 execs max_shim_depth s found)
          (follow-AreNew max_shim_depth s found h)

  -- Each interpreter that the search returns has an absolute path and is not among the programs that
  -- it started from.
  resolve_shim_interpreters-new :
      (execs : List Text) (x : Text)
      → In x (resolve_shim_interpreters read is_utf8 execs)
      → (starts_with (codes "/") x ≡ true) × (contains execs x ≡ false)
  unfolding resolve_shim_interpreters
  resolve_shim_interpreters-new execs x m =
      follow_each-AreNew execs (retain (starts_with (codes "/")) execs) [] (λ y n. absurd n) x m
