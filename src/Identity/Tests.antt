-- ===== src/Identity/Tests.antt =====
-- Runs of the hex codec, and the theorems at them.
use quantmlayer.Prelude.{◌≡◌, refl, [], ◌∷◌, ok, err}
use quantmlayer.Text.{codes}
use quantmlayer.Identity.{refused, hex, hex_decode}

odd_runs : hex_decode (codes "abc") ≡ err (refused (hex "odd length"))
unfolding hex_decode
odd_runs = refl

-- The radix parser takes a sign.
sign_runs : hex_decode (codes "+f") ≡ ok (15 ∷ [])
unfolding hex_decode
sign_runs = refl
