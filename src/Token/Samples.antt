-- ===== src/Token/Samples.antt =====
-- Small instances of the third-party operations, and a chain of two tokens, for the tests.
use quantmlayer.Prelude.{
  ℕ, ◌<◌, ◌%◌, ◌≡◌, refl, Bool, true, false, Option, none, some, [], ◌∷◌, ◌++◌, ◌==◌, length, arith,
  if◌then◌else◌,
}
use quantmlayer.Text.{Text, codes, text_eq}
use quantmlayer.Text.Laws.{text_eq_refl}
use quantmlayer.Capability.{Capability, empty, net_connect}
use quantmlayer.Identity.{Crypto, CryptoLaws}
use quantmlayer.Token.{Token, SignedAction, AuthzRequest, Wire}

abbrev pub key_byte : Bool → ℕ
key_byte true = 1
key_byte false = 0

abbrev pub read_key : Text → Option Bool
read_key [] = none
read_key (b ∷ []) = if b == 1 then some true else if b == 0 then some false else none
read_key (a ∷ b ∷ rest) = none

-- The signature names the key and the length of what it signs.
abbrev pub tag : Bool → Text → Text
tag k m = key_byte k ∷ (length m % 256) ∷ []

abbrev pub toy : Crypto
toy = record {
  Key = Bool;
  Signature = Text;
  Secret = Bool;
  key_bytes = λ k. key_byte k ∷ [];
  key_from_slice = read_key;
  signature_from_slice = λ s. some s;
  verifies = λ k m s. text_eq s (tag k m);
  public_of = λ s. s;
  sign_bytes = tag;
  sha256 = λ t. t;
}

key_byte_range : (k : Bool) → key_byte k < 256
key_byte_range true = omega arith
key_byte_range false = omega arith

read_key-key_byte : (k : Bool) → read_key (key_byte k ∷ []) ≡ some k
read_key-key_byte true = refl
read_key-key_byte false = refl

pub toy_laws : CryptoLaws toy
toy_laws = record {
  key_bytes_range = λ k. (key_byte_range k, tt);
  key_from_bytes = read_key-key_byte;
  signature_range = λ s m. (key_byte_range s, (omega arith, tt));
  signed_verifies = λ s m. (tag s m, refl, text_eq_refl (tag s m));
}

abbrev pub wide : Capability
wide = record empty { net_domains = codes "example.com" ∷ codes "example.org" ∷ [] }

abbrev pub thin : Capability
thin = record empty { net_domains = codes "example.com" ∷ [] }

-- The root key `true` issues to `false`, and `false` delegates to `true`.
abbrev pub root : Token
root = record {
  body = record {
    issuer = codes "01";
    subject = codes "00";
    capability = wide;
    parent_hash = none;
    not_after_ms = 0;
  };
  signature = codes "0104";
}

abbrev pub leaf : Token
leaf = record {
  body = record {
    issuer = codes "00";
    subject = codes "01";
    capability = thin;
    parent_hash = some (codes "303130300030313034");
    not_after_ms = 0;
  };
  signature = codes "0004";
}

abbrev pub action : SignedAction
action = record {
  body = record {
    action = net_connect (codes "example.com");
    token_hash = codes "303030310030303034";
    nonce = 7;
  };
  signer = codes "01";
  signature = codes "0101";
}

abbrev pub request : AuthzRequest
request = record { chain = root ∷ leaf ∷ []; action = action }

abbrev pub wire : Wire
wire = record {
  token_body = λ b. some (b.issuer ++ b.subject);
  action_body = λ b. some (b.nonce ∷ []);
  request = λ r. some (1 ∷ []);
  read_request = λ t. if text_eq t (1 ∷ []) then some request else none;
}
