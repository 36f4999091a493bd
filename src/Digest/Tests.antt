-- ===== src/Digest/Tests.antt =====
-- Runs of the digest's text form, and the theorems at them.
use quantmlayer.Prelude.{◌≡◌, refl, ok, err}
use quantmlayer.Text.{codes}
use quantmlayer.Digest.{sha1, ExecDigest, malformed, unknown_algo, from_str, to_string}
use quantmlayer.Digest.Laws.{IsValid, from_str-IsValid, from_str-to_string}

abbrev pinned : ExecDigest
pinned = record { algo = sha1; hex = codes "00112233445566778899aabbccddeeff00112233" }

upper_runs : from_str (codes "sha1:00112233445566778899AABBCCDDEEFF00112233") ≡ ok pinned
unfolding from_str
upper_runs = refl

unknown_runs : from_str (codes "md5:00") ≡ err (unknown_algo (codes "md5"))
unfolding from_str
unknown_runs = refl

bare_runs : from_str (codes "00ff") ≡ err (malformed (codes "00ff"))
unfolding from_str
bare_runs = refl

pinned-IsValid : IsValid pinned
pinned-IsValid =
    from_str-IsValid (codes "sha1:00112233445566778899aabbccddeeff00112233") pinned
      (unfold from_str in refl)

from_str-to_string_example : from_str (to_string pinned) ≡ ok pinned
from_str-to_string_example = from_str-to_string pinned pinned-IsValid
