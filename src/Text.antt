-- ===== src/Text.antt =====
-- Rust's `str` and `String`, as lists of UTF-8 bytes, with the operations of the standard library
-- that the program calls. A model of the library's documented behaviour, over which the code of
-- the crates is translated; the laws are in the modules below.
pub mod Laws
pub mod Occurrence
pub mod Order
pub mod Trim
use Prim.Native.Char.{code}
use Prim.Native.String
use Prim.Native.String.{String}
use mathlib.Core.Option
use mathlib.Core.List.{reverse}
use quantmlayer.Prelude.{
  ℕ, zero, suc, ◌+◌, Bool, true, false, not, ◌&&◌, ◌||◌, Option, none, some, List, [], ◌∷◌, ◌++◌,
  ltb, leb, ◌==◌, if◌then◌else◌,
}

abbrev pub Text : Type 0
Text = List ℕ

-- The bytes of an ASCII literal.
abbrev pub codes : String → Text
codes String.[] = []
codes (String.◌∷◌ c s) = code c ∷ codes s

-- a == b
unfoldable pub text_eq : Text → Text → Bool
text_eq [] [] = true
text_eq (a ∷ xs) (b ∷ bs) = a == b && text_eq xs bs
text_eq _ _ = false

-- Vec<String>::contains
unfoldable pub contains : List Text → Text → Bool
unfolding text_eq
contains [] x = false
contains (y ∷ ys) x = text_eq y x || contains ys x

-- s.starts_with(pre)
unfoldable pub starts_with : Text → Text → Bool
starts_with [] s = true
starts_with (p ∷ ps) [] = false
starts_with (p ∷ ps) (c ∷ cs) = p == c && starts_with ps cs

-- s.ends_with(suf)
unfoldable pub ends_with : Text → Text → Bool
unfolding text_eq
ends_with suf [] = text_eq [] suf
ends_with suf (c ∷ cs) = text_eq (c ∷ cs) suf || ends_with suf cs

-- s.strip_suffix(suf)
unfoldable pub strip_suffix : Text → Text → Option Text
unfolding text_eq
strip_suffix suf [] = if text_eq [] suf then some [] else none
strip_suffix suf (c ∷ cs) =
    let rest = strip_suffix suf cs in
    if text_eq (c ∷ cs) suf then some [] else Option.map (λ r. c ∷ r) rest

-- s.contains(sub)
unfoldable pub includes : Text → Text → Bool
unfolding starts_with
includes sub [] = starts_with sub []
includes sub (c ∷ cs) = starts_with sub (c ∷ cs) || includes sub cs

-- u8::to_ascii_lowercase, str::to_ascii_lowercase
abbrev pub lower_byte : ℕ → ℕ
lower_byte c = if leb 65 c && leb c 90 then c + 32 else c

unfoldable pub to_ascii_lowercase : Text → Text
to_ascii_lowercase [] = []
to_ascii_lowercase (c ∷ cs) = lower_byte c ∷ to_ascii_lowercase cs

-- s.trim_start_matches(c)
unfoldable pub trim_start_matches : ℕ → Text → Text
trim_start_matches c [] = []
trim_start_matches c (d ∷ ds) =
    let rest = trim_start_matches c ds in if d == c then rest else d ∷ ds

-- s.trim_end_matches(c)
unfoldable pub trim_end_matches : ℕ → Text → Text
unfolding trim_start_matches
trim_end_matches c s = reverse (trim_start_matches c (reverse s))

-- s.split(c): the pieces between the separators, the empty ones included.
abbrev pub push_front : ℕ → List Text → List Text
push_front c [] = (c ∷ []) ∷ []
push_front c (p ∷ ps) = (c ∷ p) ∷ ps

unfoldable pub split : ℕ → Text → List Text
split sep [] = [] ∷ []
split sep (c ∷ cs) = let rest = split sep cs in if c == sep then [] ∷ rest else push_front c rest

-- The first position of a byte, as the two sides: str::split_once
unfoldable pub split_once : ℕ → Text → Option (Text × Text)
split_once sep [] = none
split_once sep (c ∷ cs) =
    let rest = split_once sep cs in
    if c == sep then some ([], cs) else Option.map (λ (q : Text × Text). (c ∷ q.0, q.1)) rest
