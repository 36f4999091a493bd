-- ===== src/Identity.antt =====
-- crates/ql-token/src/identity.rs and error.rs: identities as Ed25519 keys, and the hex text of
-- keys and signatures. Ed25519, SHA-256 and serde are third-party code: the record `Crypto` holds
-- the calls that the crate makes of them, and `CryptoLaws` what it relies on.
pub mod Hex
mod Tests
use Prim.Native.String.{String}
use mathlib.Core.List.{[], ◌∷◌}
use quantmlayer.Prelude.{
  ℕ, ◌+◌, ◌-◌, ◌*◌, ◌/◌, ◌%◌, ◌<◌, ◌≡◌, Bool, true, false, not, ◌&&◌, ◌||◌, Option, none, some,
  List, ltb, leb, ◌==◌, if◌then◌else◌, length, All, Outcome, ok, err, ◌>>=◌, ◌>>◌, guard,
}
use quantmlayer.Text.{Text, text_eq}
use quantmlayer.Capability.{Action}

-- error.rs; a message is the literal of the source, and `action_denied` carries the action whose
-- Debug text the source formats.
pub data TokenError : Type 0 where
  key hex broadened chain : String → TokenError
  signature untrusted_root expired serde : TokenError
  action_denied : Action → TokenError

-- A call returns an error, or panics.
pub data Failure : Type 0 where
  refused : TokenError → Failure
  panicked : Failure

abbrev pub TokenResult : Type 0 → Type 0
TokenResult A = Outcome Failure A

-- The third-party operations: Ed25519 keys and signatures, and SHA-256.
pub record Crypto : Type 1 where
  pub Key : Type 0
  pub Signature : Type 0
  pub Secret : Type 0
  pub key_bytes : Key → Text
  pub key_from_slice : Text → Option Key
  pub signature_from_slice : Text → Option Signature
  pub verifies : Key → Text → Signature → Bool
  pub public_of : Secret → Key
  pub sign_bytes : Secret → Text → Text
  pub sha256 : Text → Text

-- A key survives its bytes, a byte is below 256, and what a secret key signs verifies under its
-- public key.
pub record CryptoLaws (c : Crypto) : Type 0 where
  pub key_bytes_range : (k : Crypto.Key c) → All (λ b. b < 256) (Crypto.key_bytes c k)
  pub key_from_bytes : (k : Crypto.Key c) → Crypto.key_from_slice c (Crypto.key_bytes c k) ≡ some k
  pub signature_range :
      (s : Crypto.Secret c) (m : Text) → All (λ b. b < 256) (Crypto.sign_bytes c s m)
  pub signed_verifies :
      (s : Crypto.Secret c) (m : Text)
      → (sig : Crypto.Signature c) × (Crypto.signature_from_slice c (Crypto.sign_bytes c s m)
          ≡ some sig)
        × (Crypto.verifies c (Crypto.public_of c s) m sig ≡ true)

-- format!("{b:02x}")
abbrev pub hex_digit : ℕ → ℕ
hex_digit d = if ltb d 10 then 48 + d else 87 + d

unfoldable pub hex_encode : Text → Text
hex_encode [] = []
hex_encode (b ∷ bs) = hex_digit (b / 16) ∷ hex_digit (b % 16) ∷ hex_encode bs

abbrev pub digit_value : ℕ → Option ℕ
digit_value c =
    if leb 48 c && leb c 57
    then some (c - 48)
    else if leb 97 c && leb c 102
    then some (c - 87)
    else if leb 65 c && leb c 70
    then some (c - 55)
    else none

-- u8::from_str_radix of two bytes, which takes a leading `+`
abbrev pub pair_value : ℕ → ℕ → Option ℕ
pair_value a b = if a == 43 then digit_value b else elim (digit_value a) [
  | none ↦ none
  | some hi ↦ elim (digit_value b) [ none ↦ none | some lo ↦ some (hi * 16 + lo) ]
]

-- str::is_char_boundary: slicing anywhere else panics.
abbrev pub is_boundary : List ℕ → Bool
is_boundary [] = true
is_boundary (c ∷ cs) = ltb c 128 || leb 192 c

-- The loop of `hex_decode` over the steps of two.
unfoldable pub decode_pairs : Text → TokenResult Text
decode_pairs [] = ok []
decode_pairs (a ∷ []) = err panicked
decode_pairs (a ∷ b ∷ rest) =
    let later = decode_pairs rest in
    if is_boundary (a ∷ b ∷ rest) && is_boundary rest
    then elim (pair_value a b) [
      | none ↦ err (refused (hex "non-hex digit"))
      | some v ↦ do bytes ← later; ok (v ∷ bytes)
    ]
    else err panicked

unfoldable pub hex_decode : Text → TokenResult Text
unfolding decode_pairs
hex_decode s = if length s % 2 == 0 then decode_pairs s else err (refused (hex "odd length"))

-- Option::ok_or
abbrev pub or_refuse {ℓ} : {A : Type ℓ} → Option A → TokenError → Outcome Failure A
or_refuse none e = err (refused e)
or_refuse (some a) e = ok a

module _ (c : Crypto) where
  open c use {
    Key, Secret, key_bytes, key_from_slice, signature_from_slice, verifies, public_of, sign_bytes,
  }

  -- PublicId::to_hex, PublicId::from_hex
  unfoldable pub to_hex : Key → Text
  unfolding hex_encode
  to_hex k = hex_encode (key_bytes k)

  unfoldable pub from_hex : Text → TokenResult Key
  unfolding hex_decode
  from_hex s = do bytes ← hex_decode s; or_refuse (key_from_slice bytes) (key "invalid public key")

  -- PublicId::verify
  unfoldable pub verify : Key → Text → Text → TokenResult Unit
  unfolding hex_decode
  verify k msg sig_hex = do
    sig_bytes ← hex_decode sig_hex
    sig ← or_refuse (signature_from_slice sig_bytes) (hex "signature must be 64 bytes")
    guard (verifies k msg sig) (refused signature)

  -- PublicId::eq
  unfoldable pub same_key : Key → Key → Bool
  unfolding text_eq
  same_key a b = text_eq (key_bytes a) (key_bytes b)

  -- Identity::sign
  unfoldable pub sign : Secret → Text → Text
  unfolding hex_encode
  sign s msg = hex_encode (sign_bytes s msg)
