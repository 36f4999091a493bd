-- ===== src/Digest.antt =====
-- crates/ql-profile/src/policy.rs, `HashAlgo` and `ExecDigest`: content digests of executables and
-- their `<algo>:<hex>` text.
pub mod Laws
mod Tests
use quantmlayer.Prelude.{
  ℕ, ◌*◌, ◌+◌, Bool, true, false, not, ◌&&◌, ◌||◌, Option, none, some, List, [], ◌∷◌, ◌++◌, ◌==◌,
  leb, if◌then◌else◌, length, all, Outcome, ok, err, ◌>>=◌,
}
use quantmlayer.Text.{Text, codes, text_eq, to_ascii_lowercase, split_once}
use quantmlayer.Identity.{pair_value}

pub data HashAlgo : Type 0 where
  sha1 sha256 sha384 sha512 : HashAlgo

unfoldable pub digest_len : HashAlgo → ℕ
digest_len sha1 = 20
digest_len sha256 = 32
digest_len sha384 = 48
digest_len sha512 = 64

unfoldable pub ima_id : HashAlgo → ℕ
ima_id sha1 = 2
ima_id sha256 = 4
ima_id sha384 = 5
ima_id sha512 = 6

unfoldable pub as_str : HashAlgo → Text
as_str sha1 = codes "sha1"
as_str sha256 = codes "sha256"
as_str sha384 = codes "sha384"
as_str sha512 = codes "sha512"

-- HashAlgo::parse
unfoldable pub parse_algo : Text → Option HashAlgo
unfolding text_eq
parse_algo s =
    if text_eq s (codes "sha1")
    then some sha1
    else if text_eq s (codes "sha256")
    then some sha256
    else if text_eq s (codes "sha384")
    then some sha384
    else if text_eq s (codes "sha512")
    then some sha512
    else none

pub data ExecDigestError : Type 0 where
  malformed unknown_algo : Text → ExecDigestError
  bad_hex : (algo : Text) (expected : ℕ) → ExecDigestError

pub record ExecDigest : Type 0 where
  pub algo : HashAlgo
  pub hex : Text

-- u8::is_ascii_hexdigit
abbrev pub is_ascii_hexdigit : ℕ → Bool
is_ascii_hexdigit b = (leb 48 b && leb b 57) || (leb 97 b && leb b 102) || (leb 65 b && leb b 70)

-- ExecDigest::new
unfoldable pub new : HashAlgo → Text → Outcome ExecDigestError ExecDigest
unfolding digest_len as_str to_ascii_lowercase
new algo raw =
    let hex = to_ascii_lowercase raw in
    let expected = digest_len algo * 2 in
    if not (length hex == expected) || not (all is_ascii_hexdigit hex)
    then err (bad_hex (as_str algo) expected)
    else ok (record { algo = algo; hex = hex })

abbrev pub ok_or {ℓ κ} : {A : Type ℓ} {E : Type κ} → Option A → E → Outcome E A
ok_or none e = err e
ok_or (some a) e = ok a

-- ExecDigest::from_str
unfoldable pub from_str : Text → Outcome ExecDigestError ExecDigest
unfolding split_once parse_algo new
from_str s = do
  parts ← ok_or (split_once 58 s) (malformed s)
  algo ← ok_or (parse_algo parts.0) (unknown_algo parts.0)
  new algo parts.1

-- Display
unfoldable pub to_string : ExecDigest → Text
unfolding as_str
to_string d = as_str d.algo ++ (58 ∷ d.hex)

-- ExecDigest::to_bytes: `from_str_radix(..).unwrap_or(0)` on each pair
abbrev pub value_or_zero : Option ℕ → ℕ
value_or_zero none = 0
value_or_zero (some v) = v

unfoldable pub pair_bytes : Text → Text
pair_bytes [] = []
pair_bytes (a ∷ []) = []
pair_bytes (a ∷ b ∷ rest) = value_or_zero (pair_value a b) ∷ pair_bytes rest

unfoldable pub to_bytes : ExecDigest → Text
unfolding pair_bytes
to_bytes d = pair_bytes d.hex
