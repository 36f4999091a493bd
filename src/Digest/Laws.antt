-- ===== src/Digest/Laws.antt =====
-- Every digest that the constructors return is well formed, and its text reads back.
use quantmlayer.Prelude.{
  ℕ, ◌*◌, ◌+◌, ◌-◌, ◌<◌, ◌%◌, ◌≡◌, refl, ap, ap₂, ◌∙◌, inl, inr, true, false, ◌&&◌, ◌||◌, some, [],
  ◌∷◌, ◌++◌, ◌==◌, ==_iff, leb, arith, length, all, All, Outcome, ok, err, >>=-eq-ok, Bool-cases,
}
use quantmlayer.Text.{Text, to_ascii_lowercase, lower_byte, split_once}
use quantmlayer.Identity.{hex_digit, hex_encode, digit_value, pair_value}
use quantmlayer.Digest.{
  HashAlgo, sha1, sha256, sha384, sha512, digest_len, as_str, parse_algo, ExecDigest,
  ExecDigestError, malformed, unknown_algo, is_ascii_hexdigit, new, from_str, to_string, ok_or,
  value_or_zero, pair_bytes, to_bytes,
}

abbrev pub IsLowerHex : ℕ → Type 0
IsLowerHex b = ((leb 48 b && leb b 57) || (leb 97 b && leb b 102)) ≡ true

-- The invariant that the source states of `ExecDigest`: lowercase hex, two digits for each byte.
pub record IsValid (d : ExecDigest) : Type 0 where
  pub width : length d.hex ≡ digest_len d.algo * 2
  pub digits : All IsLowerHex d.hex

lower-hexdigit : (b : ℕ) → is_ascii_hexdigit (lower_byte b) ≡ true → IsLowerHex (lower_byte b)
lower-hexdigit b h = ground arith

all-lower :
    (s : Text)
    → all is_ascii_hexdigit (to_ascii_lowercase s) ≡ true
    → All IsLowerHex (to_ascii_lowercase s)
unfolding to_ascii_lowercase
all-lower [] h = tt
all-lower (b ∷ s) h = (lower-hexdigit b (ground arith), all-lower s (ground arith))

new-IsValid : (algo : HashAlgo) (raw : Text) (d : ExecDigest) → new algo raw ≡ ok d → IsValid d
unfolding new
new-IsValid algo raw d h =
    elim (Bool-cases (length (to_ascii_lowercase raw) == digest_len algo * 2)) [
      | inl w ↦ elim (Bool-cases (all is_ascii_hexdigit (to_ascii_lowercase raw))) [
        | inl a ↦ built w a (rw (w, a) at h)
        | inr a ↦ clash (rw (w, a) at h)
      ]
      | inr w ↦ clash (rw w at h)
    ]
  where
    clash :
        {e : ExecDigestError}
        → ◌≡◌ {A = Outcome ExecDigestError ExecDigest} (err e) (ok d)
        → IsValid d
    clash q = cc

    built :
        (length (to_ascii_lowercase raw) == digest_len algo * 2) ≡ true
        → all is_ascii_hexdigit (to_ascii_lowercase raw) ≡ true
        → ◌≡◌ {A = Outcome ExecDigestError ExecDigest}
            (ok (record { algo = algo; hex = to_ascii_lowercase raw }))
            (ok d)
        → IsValid d
    built w a q =
        let same : record { algo = algo; hex = to_ascii_lowercase raw } ≡ d = cc in
        rw (← same) (record { width = (==_iff _ _).0 w; digits = all-lower raw a })

-- A text that parses as a digest gives a well-formed one, whatever the case of its digits.
pub from_str-IsValid : (s : Text) (d : ExecDigest) → from_str s ≡ ok d → IsValid d
unfolding from_str
from_str-IsValid s d h =
    let (parts, cut, h1) = >>=-eq-ok (ok_or (split_once 58 s) (malformed s)) _ h in
    let (algo, known, h2) = >>=-eq-ok (ok_or (parse_algo parts.0) (unknown_algo parts.0)) _ h1 in
    new-IsValid algo parts.1 d h2

lower_id : (s : Text) → All IsLowerHex s → to_ascii_lowercase s ≡ s
unfolding to_ascii_lowercase
lower_id [] h = refl
lower_id (b ∷ s) (hb, hs) = ap₂ (λ x l. x ∷ l) (ground arith) (lower_id s hs)

all_digits : (s : Text) → All IsLowerHex s → all is_ascii_hexdigit s ≡ true
all_digits [] h = refl
all_digits (b ∷ s) (hb, hs) = ground (arith, all_digits s hs)

new_of_IsValid : (d : ExecDigest) → IsValid d → new d.algo d.hex ≡ ok d
unfolding new
new_of_IsValid d v = rw (lower_id d.hex v.digits) (
    rw ((==_iff (length d.hex) (digest_len d.algo * 2)).1 v.width)
      (rw (all_digits d.hex v.digits) refl))

split_label :
    (algo : HashAlgo) (hex : Text)
    → (split_once 58 (as_str algo ++ (58 ∷ hex)) ≡ some (as_str algo, hex))
      × (parse_algo (as_str algo) ≡ some algo)
unfolding split_once parse_algo as_str
split_label sha1 hex = (refl, refl)
split_label sha256 hex = (refl, refl)
split_label sha384 hex = (refl, refl)
split_label sha512 hex = (refl, refl)

-- A well-formed digest reads back from its text.
pub from_str-to_string : (d : ExecDigest) → IsValid d → from_str (to_string d) ≡ ok d
unfolding from_str to_string
from_str-to_string d v =
    let (cut, known) = split_label d.algo d.hex in rw cut (rw known (new_of_IsValid d v))

nibble : (b : ℕ) → IsLowerHex b → (d : ℕ) × (digit_value b ≡ some d) × (hex_digit d ≡ b) × (d < 16)
nibble b h = elim (Bool-cases (leb 48 b && leb b 57)) [
  | inl low ↦ (b - 48, ground arith, ground arith, ground arith)
  | inr high ↦ (b - 87, ground arith, ground arith, ground arith)
]

pair_bytes-hex : (s : Text) → All IsLowerHex s → length s % 2 ≡ 0 → hex_encode (pair_bytes s) ≡ s
unfolding pair_bytes hex_encode
pair_bytes-hex [] h e = refl
pair_bytes-hex (a ∷ []) h e = absurd (omega arith)
pair_bytes-hex (a ∷ b ∷ s) (ha, (hb, hs)) e =
    let (hi, vhi, dhi, lhi) = nibble a ha in
    let (lo, vlo, dlo, llo) = nibble b hb in
    let plain : (a == 43) ≡ false = ground arith in
    let value : value_or_zero (pair_value a b) ≡ hi * 16 + lo = rw plain (rw vhi (rw vlo refl)) in
    rw value (
      ap₂ (λ x l. x ∷ l) (ap hex_digit (omega arith) ∙ dhi)
        (ap₂ (λ x l. x ∷ l) (ap hex_digit (omega arith) ∙ dlo) (pair_bytes-hex s hs (omega arith))))

length-pair_bytes : (s : Text) → length s % 2 ≡ 0 → length (pair_bytes s) * 2 ≡ length s
unfolding pair_bytes
length-pair_bytes [] e = refl
length-pair_bytes (a ∷ []) e = absurd (omega arith)
length-pair_bytes (a ∷ b ∷ s) e = omega (arith, length-pair_bytes s (omega arith))

-- The bytes that the kernel layer loads have the algorithm's length, and their hex is the digest's.
pub to_bytes_exact :
    (d : ExecDigest)
    → IsValid d
    → (length (to_bytes d) ≡ digest_len d.algo) × (hex_encode (to_bytes d) ≡ d.hex)
unfolding to_bytes
to_bytes_exact d v =
    let width = v.width in
    let even : length d.hex % 2 ≡ 0 = omega arith in
    (omega (arith, length-pair_bytes d.hex even), pair_bytes-hex d.hex v.digits even)
