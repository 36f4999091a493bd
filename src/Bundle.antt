-- ===== src/Bundle.antt =====
-- crates/ql-cli/src/token_delegate.rs: extending a credential's chain for a sub-agent. Reading the
-- parent's seed and generating the child's key are third-party code: their results are arguments.
pub mod Asked
pub mod Expiry
mod Tests
use quantmlayer.Prelude.{
  ℕ, Bool, true, false, ◌&&◌, Option, none, some, List, [], ◌∷◌, ◌++◌, min, retain, last?, Outcome,
  ok, err, ◌>>=◌,
}
use quantmlayer.Text.{Text, contains}
use quantmlayer.Capability.{Capability, normalized}
use quantmlayer.Identity.{TokenError, Failure, refused, panicked, TokenResult, Crypto, from_hex}
use quantmlayer.Token.{Token, Wire, is_none, delegate, verify_chain}

pub record DelegatedBundle (c : Crypto) : Type 0 where
  pub trust_root : Text
  pub child : Crypto.Secret c
  pub chain : List Token
  pub not_after_ms : ℕ

pub record Narrowing : Type 0 where
  pub only_domains : Option (List Text)
  pub only_read : Option (List Text)
  pub only_write : Option (List Text)
  pub only_exec : Option (List Text)

-- The closure of `apply`.
unfoldable pub keep : List Text → Option (List Text) → List Text
unfolding contains
keep have none = have
keep have (some want) = retain (contains want) have

-- Narrowing::apply
unfoldable pub apply : Narrowing → Capability → Capability
unfolding keep normalized
apply n parent = normalized (record {
  read_paths = keep parent.read_paths n.only_read;
  write_paths = keep parent.write_paths n.only_write;
  net_domains = keep parent.net_domains n.only_domains;
  allow_exec = keep parent.allow_exec n.only_exec;
})

-- Narrowing::is_empty
unfoldable pub is_empty : Narrowing → Bool
is_empty n =
    is_none n.only_domains && (is_none n.only_read && (is_none n.only_write && is_none n.only_exec))

-- The messages are left out of the errors; a panic of the token layer stays one.
pub data DelegateError : Type 0 where
  bundle chain : TokenError → DelegateError
  no_leaf : DelegateError
  token : TokenError → DelegateError
  panic : DelegateError

-- map_err
abbrev pub map_err {ℓ} :
    {A : Type ℓ} → (TokenError → DelegateError) → Outcome Failure A → Outcome DelegateError A
map_err f (ok a) = ok a
map_err f (err (refused e)) = err (f e)
map_err f (err panicked) = err panic

-- ok_or_else
abbrev pub or_no_leaf : Option Token → Outcome DelegateError Token
or_no_leaf none = err no_leaf
or_no_leaf (some t) = ok t

module _ (c : Crypto) (w : Wire) where
  open c use {Secret, public_of}

  unfoldable pub delegate_bundle :
      List Token
      → Text
      → TokenResult Secret
      → TokenResult Secret
      → Narrowing
      → ℕ
      → ℕ
      → Outcome DelegateError (DelegatedBundle c)
  unfolding from_hex verify_chain apply delegate
  delegate_bundle parent_chain trust_root parent_seed child_seed narrowing not_after_ms now_ms = do
    root ← map_err bundle (from_hex c trust_root)
    parent_cap ← map_err chain (verify_chain c w parent_chain (root ∷ []) now_ms)
    parent_id ← map_err bundle parent_seed
    child ← map_err token child_seed
    leaf_tok ← or_no_leaf (last? parent_chain)
    leaf ← map_err token (
        delegate c w leaf_tok parent_id (public_of child) (apply narrowing parent_cap)
          (min not_after_ms leaf_tok.body.not_after_ms))
    ok (record {
      trust_root = trust_root;
      child = child;
      chain = parent_chain ++ leaf ∷ [];
      not_after_ms = min not_after_ms leaf_tok.body.not_after_ms;
    })
