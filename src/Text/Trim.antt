-- ===== src/Text/Trim.antt =====
-- str::trim on UTF-8 bytes.
use quantmlayer.Prelude.{ℕ, ◌-◌, not, List, [], ◌∷◌, ◌++◌, map, length, ◌==◌, if◌then◌else◌}
use quantmlayer.Text.{Text, starts_with}
use mathlib.Core.List.{reverse}

-- The UTF-8 forms of the characters with the White_Space property.
abbrev pub white_space : List Text
white_space =
    map (λ c. c ∷ []) (9 ∷ 10 ∷ 11 ∷ 12 ∷ 13 ∷ 32 ∷ [])
    ++ map (λ c. 194 ∷ c ∷ []) (133 ∷ 160 ∷ [])
    ++ map (λ c. 226 ∷ 128 ∷ c ∷ [])
        (128 ∷ 129 ∷ 130 ∷ 131 ∷ 132 ∷ 133 ∷ 134 ∷ 135 ∷ 136 ∷ 137 ∷ 138 ∷ 168 ∷ 169 ∷ 175 ∷ [])
    ++ (225 ∷ 154 ∷ 128 ∷ []) ∷ (226 ∷ 129 ∷ 159 ∷ []) ∷ (227 ∷ 128 ∷ 128 ∷ []) ∷ []

-- How many bytes of a listed character stand in front; 0 for none.
unfoldable pub front_length : List Text → Text → ℕ
unfolding starts_with
front_length [] s = 0
front_length (w ∷ ws) s = let rest = front_length ws s in if starts_with w s then length w else rest

-- Drop `n` bytes, then the listed characters.
unfoldable pub trim_from : List Text → ℕ → Text → Text
unfolding front_length
trim_from ws n [] = []
trim_from ws n (c ∷ cs) =
    let inside = trim_from ws (n - 1) cs in
    let k = front_length ws (c ∷ cs) in
    let after = trim_from ws (k - 1) cs in
    if not (n == 0) then inside else if k == 0 then c ∷ cs else after

-- str::trim
unfoldable pub trim : Text → Text
unfolding trim_from
trim s = reverse (trim_from (map reverse white_space) 0 (reverse (trim_from white_space 0 s)))

-- str::trim_end
unfoldable pub trim_end : Text → Text
unfolding trim_from
trim_end s = reverse (trim_from (map reverse white_space) 0 (reverse s))
