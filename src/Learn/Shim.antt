-- ===== src/Learn/Shim.antt =====
-- crates/ql-learn/src/shim.rs: the interpreters that scripts name. What one read of the first 256
-- bytes of a file gives, and the check of UTF-8, are parameters.
use quantmlayer.Prelude.{
  ℕ, zero, suc, Bool, not, ◌&&◌, Option, none, some, List, [], ◌∷◌, ◌==◌, any, retain, drop,
  if◌then◌else◌,
}
use quantmlayer.Text.{Text, codes, text_eq, contains, starts_with}
use quantmlayer.Text.Order.{sort_dedup}

-- u8::is_ascii_whitespace
abbrev pub is_ascii_whitespace : ℕ → Bool
is_ascii_whitespace b = any (λ c. c == b) (9 ∷ 10 ∷ 12 ∷ 13 ∷ 32 ∷ [])

unfoldable pub skip_while : (ℕ → Bool) → Text → Text
skip_while p [] = []
skip_while p (b ∷ bs) = let rest = skip_while p bs in if p b then rest else b ∷ bs

unfoldable pub take_while : (ℕ → Bool) → Text → Text
take_while p [] = []
take_while p (b ∷ bs) = let rest = take_while p bs in if p b then b ∷ rest else []

abbrev pub max_shim_depth : ℕ
max_shim_depth = 8

module _ (read : Text → Option Text) (is_utf8 : Text → Bool) where
  -- The path after `#!`, from the front of the file.
  unfoldable pub interpreter_in : Text → Option Text
  unfolding starts_with skip_while take_while
  interpreter_in front =
      let line = take_while (λ b. not (b == 10)) (drop 2 front) in
      let interp =
        take_while (λ b. not (is_ascii_whitespace b)) (skip_while is_ascii_whitespace line) in
      if starts_with (codes "#!") front && is_utf8 interp && starts_with (codes "/") interp
      then some interp
      else none

  abbrev pub on_front : Option Text → Option Text
  unfolding interpreter_in
  on_front none = none
  on_front (some front) = interpreter_in front

  unfoldable pub resolve_shebang_interpreter : Text → Option Text
  unfolding on_front
  resolve_shebang_interpreter path = on_front (read path)

  module _ (execs : List Text) where
    -- The guard of the match.
    unfoldable pub is_new : Text → List Text → Text → Bool
    unfolding text_eq contains
    is_new current found interp =
        not (text_eq interp current) && not (contains execs interp) && not (contains found interp)

    -- The inner loop, for the rounds that are left.
    unfoldable pub follow : ℕ → Text → List Text → List Text
    unfolding resolve_shebang_interpreter is_new sort_dedup
    follow zero current found = found
    follow (suc rounds) current found = elim (resolve_shebang_interpreter current) [
      | none ↦ found
      | some interp ↦
          if is_new current found interp
          then follow rounds interp (sort_dedup (interp ∷ found))
          else found
    ]

    -- The outer loop, over the absolute paths.
    unfoldable pub follow_each : List Text → List Text → List Text
    unfolding follow
    follow_each [] found = found
    follow_each (start ∷ starts) found = follow_each starts (follow max_shim_depth start found)

  unfoldable pub resolve_shim_interpreters : List Text → List Text
  unfolding follow_each starts_with
  resolve_shim_interpreters execs = follow_each execs (retain (starts_with (codes "/")) execs) []
