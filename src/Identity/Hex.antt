-- ===== src/Identity/Hex.antt =====
-- Hex encoding and decoding, and what verification accepts.
use quantmlayer.Prelude.{
  ℕ, ◌*◌, ◌/◌, ◌%◌, ◌<◌, ◌≡◌, refl, ap, true, false, some, [], ◌∷◌, ◌==◌, arith, length, All, ok,
  err,
}
use quantmlayer.Text.{Text}
use quantmlayer.Identity.{
  Crypto, CryptoLaws, hex_digit, hex_encode, digit_value, pair_value, is_boundary, decode_pairs,
  hex_decode, to_hex, from_hex, verify, sign, panicked,
}

digit_value-hex_digit : (d : ℕ) → d < 16 → digit_value (hex_digit d) ≡ some d
digit_value-hex_digit d h = ground arith

hex_digit_plain : (d : ℕ) → d < 16 → (hex_digit d < 128) × ((hex_digit d == 43) ≡ false)
hex_digit_plain d h = (ground arith, ground arith)

pair_value-hex_digit :
    (b : ℕ) → b < 256 → pair_value (hex_digit (b / 16)) (hex_digit (b % 16)) ≡ some b
pair_value-hex_digit b h = rw ((hex_digit_plain (b / 16) (omega arith)).1) (
    rw (digit_value-hex_digit (b / 16) (omega arith))
      (rw (digit_value-hex_digit (b % 16) (omega arith)) (ap some (omega arith))))

length-hex_encode : (bs : Text) → length (hex_encode bs) ≡ length bs * 2
unfolding hex_encode
length-hex_encode [] = refl
length-hex_encode (b ∷ bs) = omega (arith, length-hex_encode bs)

boundary-hex_encode : (bs : Text) → All (λ b. b < 256) bs → is_boundary (hex_encode bs) ≡ true
unfolding hex_encode
boundary-hex_encode [] h = refl
boundary-hex_encode (b ∷ bs) h = ground (arith, hex_digit_plain (b / 16) (omega arith))

decode_pairs-hex_encode : (bs : Text) → All (λ b. b < 256) bs → decode_pairs (hex_encode bs) ≡ ok bs
unfolding hex_encode decode_pairs
decode_pairs-hex_encode [] h = refl
decode_pairs-hex_encode (b ∷ bs) (hb, hs) = rw (boundary-hex_encode (b ∷ bs) (hb, hs)) (
    rw (boundary-hex_encode bs hs)
      (rw (pair_value-hex_digit b hb) (rw (decode_pairs-hex_encode bs hs) refl)))

-- Bytes survive their hex text.
pub hex_decode-hex_encode : (bs : Text) → All (λ b. b < 256) bs → hex_decode (hex_encode bs) ≡ ok bs
unfolding hex_decode
hex_decode-hex_encode bs h =
    let even : (length (hex_encode bs) % 2 == 0) ≡ true =
      rw (length-hex_encode bs) (ground arith) in
    rw even (decode_pairs-hex_encode bs h)

-- A byte of two or more of UTF-8 that straddles a step of two makes `hex_decode` panic: a text of
-- even length whose first pair ends inside a character.
pub hex_decode_panics :
    (a b c : ℕ) (rest : Text)
    → a < 128
    → is_boundary (c ∷ rest) ≡ false
    → length (a ∷ b ∷ c ∷ rest) % 2 ≡ 0
    → hex_decode (a ∷ b ∷ c ∷ rest) ≡ err panicked
unfolding hex_decode decode_pairs
hex_decode_panics a b c rest ha hc even = ground arith

module _ (c : Crypto) (laws : CryptoLaws c) where
  open c use {Key, Secret, public_of}

  -- A public key survives its hex text.
  pub from_hex-to_hex : (k : Key) → from_hex c (to_hex c k) ≡ ok k
  unfolding from_hex to_hex
  from_hex-to_hex k =
      rw (hex_decode-hex_encode (Crypto.key_bytes c k) (laws.key_bytes_range k))
        (rw (laws.key_from_bytes k) refl)

  -- What an identity signs verifies under its public key.
  pub verify-sign : (s : Secret) (m : Text) → verify c (public_of s) m (sign c s m) ≡ ok tt
  unfolding verify sign
  verify-sign s m =
      let (sig, decoded, good) = laws.signed_verifies s m in
      rw (hex_decode-hex_encode (Crypto.sign_bytes c s m) (laws.signature_range s m))
        (rw decoded (rw good refl))
