-- ===== src/Token.antt =====
-- crates/ql-token/src/token.rs: delegation tokens, their chains, and signed actions. The JSON that
-- serde writes and reads is third-party code: the record `Wire`.
pub mod Links
pub mod Chain
pub mod Delegation
pub mod Authorization
pub mod Samples
mod Tests
use quantmlayer.Prelude.{
  ℕ, zero, ◌+◌, ◌-◌, ◌*◌, ◌^◌, Bool, true, false, not, ◌&&◌, Option, none, some, List, [], ◌∷◌,
  ◌++◌, ltb, ◌==◌, if◌then◌else◌, min, any, Outcome, ok, err, ◌>>=◌, ◌>>◌, guard, last?,
}
use quantmlayer.Text.{Text, text_eq}
use quantmlayer.Capability.{Capability, Action, normalized, is_subset_of, permits}
use quantmlayer.Identity.{
  TokenError, key, hex, broadened, chain, untrusted_root, expired, serde, action_denied, refused,
  TokenResult, Crypto, hex_encode, hex_decode, or_refuse, to_hex, from_hex, verify, same_key, sign,
}

pub record TokenBody : Type 0 where
  pub issuer : Text
  pub subject : Text
  pub capability : Capability
  pub parent_hash : Option Text
  pub not_after_ms : ℕ

pub record Token : Type 0 where
  pub body : TokenBody
  pub signature : Text

pub record ActionBody : Type 0 where
  pub action : Action
  pub token_hash : Text
  pub nonce : ℕ

pub record SignedAction : Type 0 where
  pub body : ActionBody
  pub signer : Text
  pub signature : Text

pub record AuthzRequest : Type 0 where
  pub chain : List Token
  pub action : SignedAction

-- serde_json::to_vec and from_slice at the types that are signed or sent; `none` is an error.
pub record Wire : Type 0 where
  pub token_body : TokenBody → Option Text
  pub action_body : ActionBody → Option Text
  pub request : AuthzRequest → Option Text
  pub read_request : Text → Option AuthzRequest

abbrev pub default_ttl_ms : ℕ
default_ttl_ms = 60 * 60 * 1000

abbrev pub u64_max : ℕ
u64_max = 2 ^ 64 - 1

-- u64::saturating_add
unfoldable pub default_expiry : ℕ → ℕ
default_expiry now_ms = min (now_ms + default_ttl_ms) u64_max

-- Token::expired
unfoldable pub has_expired : Token → ℕ → Bool
has_expired t now_ms = not (t.body.not_after_ms == 0) && ltb t.body.not_after_ms now_ms

abbrev pub or_default : Option Text → Text
or_default none = []
or_default (some t) = t

-- `cur.body.parent_hash.as_deref() == Some(h)`
abbrev pub is_hash : Option Text → Text → Bool
is_hash none h = false
is_hash (some p) h = text_eq p h

abbrev pub is_none {ℓ} : {A : Type ℓ} → Option A → Bool
is_none none = true
is_none (some a) = false

abbrev pub last_of : Token → List Token → Token
last_of t [] = t
last_of t (u ∷ us) = last_of u us

module _ (c : Crypto) (w : Wire) where
  open c use {Key, Secret, sha256, public_of}

  -- Token::hash
  unfoldable pub hash : Token → Text
  unfolding hex_encode
  hash t = hex_encode (sha256 (or_default (w.token_body t.body) ++ (0 ∷ t.signature)))

  -- Token::verify_sig
  unfoldable pub verify_sig : Token → TokenResult Unit
  unfolding from_hex verify
  verify_sig t = do
    issuer ← from_hex c t.body.issuer
    bytes ← or_refuse (w.token_body t.body) serde
    verify c issuer bytes t.signature

  unfoldable pub issue_root : Secret → Key → Capability → ℕ → TokenResult Token
  unfolding to_hex sign normalized
  issue_root authority subject capability not_after_ms =
      let body : TokenBody = record {
        issuer = to_hex c (public_of authority);
        subject = to_hex c subject;
        capability = normalized capability;
        parent_hash = none;
        not_after_ms = not_after_ms;
      } in
      do
        bytes ← or_refuse (w.token_body body) serde
        ok (record { body = body; signature = sign c authority bytes })

  unfoldable pub delegate : Token → Secret → Key → Capability → ℕ → TokenResult Token
  unfolding to_hex sign normalized is_subset_of hash text_eq
  delegate parent delegator subject capability not_after_ms =
      let body : TokenBody = record {
        issuer = to_hex c (public_of delegator);
        subject = to_hex c subject;
        capability = normalized capability;
        parent_hash = some (hash parent);
        not_after_ms = not_after_ms;
      } in
      do
        guard (text_eq (to_hex c (public_of delegator)) parent.body.subject)
            (refused (chain "delegator is not the subject of the parent token"))
        guard (is_subset_of (normalized capability) parent.body.capability)
            (refused (broadened "delegated capability exceeds the parent's grant"))
        bytes ← or_refuse (w.token_body body) serde
        ok (record { body = body; signature = sign c delegator bytes })

  -- The loop of `verify_chain` over the windows of two.
  unfoldable pub verify_links : ℕ → Token → List Token → TokenResult Unit
  unfolding text_eq hash is_subset_of verify_sig has_expired
  verify_links now_ms prev [] = ok tt
  verify_links now_ms prev (cur ∷ rest) =
      let later = verify_links now_ms cur rest in
      do
        guard (text_eq cur.body.issuer prev.body.subject)
            (refused (chain "issuer is not the parent's subject"))
        guard (is_hash cur.body.parent_hash (hash prev))
            (refused (chain "parent hash does not match"))
        guard (is_subset_of cur.body.capability prev.body.capability)
            (refused (broadened "a link broadened authority"))
        verify_sig cur
        guard (not (has_expired cur now_ms)) (refused expired)
        later

  unfoldable pub verify_chain : List Token → List Key → ℕ → TokenResult Capability
  unfolding from_hex same_key verify_sig has_expired verify_links
  verify_chain [] trusted_roots now_ms = err (refused (chain "empty chain"))
  verify_chain (root ∷ rest) trusted_roots now_ms = do
    guard (is_none root.body.parent_hash) (refused (chain "root token must have no parent"))
    root_issuer ← from_hex c root.body.issuer
    guard (any (λ k. same_key c k root_issuer) trusted_roots) (refused untrusted_root)
    verify_sig root
    guard (not (has_expired root now_ms)) (refused expired)
    verify_links now_ms root rest
    ok (last_of root rest).body.capability

  unfoldable pub sign_action : Secret → Action → Text → ℕ → TokenResult SignedAction
  unfolding sign to_hex
  sign_action signer action leaf_token_hash nonce =
      let body : ActionBody = record {
        action = action;
        token_hash = leaf_token_hash;
        nonce = nonce;
      } in
      do
        bytes ← or_refuse (w.action_body body) serde
        ok (record {
          body = body;
          signer = to_hex c (public_of signer);
          signature = sign c signer bytes;
        })

  unfoldable pub verify_action : SignedAction → Token → Capability → TokenResult Unit
  unfolding text_eq hash from_hex verify permits
  verify_action a leaf leaf_capability = do
    guard (text_eq a.signer leaf.body.subject)
        (refused (chain "action signer is not the leaf subject"))
    guard (text_eq a.body.token_hash (hash leaf))
        (refused (chain "action is not bound to the leaf token"))
    signer ← from_hex c a.signer
    bytes ← or_refuse (w.action_body a.body) serde
    verify c signer bytes a.signature
    guard (permits leaf_capability a.body.action) (refused (action_denied a.body.action))

  unfoldable pub authorize : AuthzRequest → List Key → ℕ → TokenResult Action
  unfolding verify_chain verify_action
  authorize req trusted_roots now_ms = do
    cap ← verify_chain req.chain trusted_roots now_ms
    leaf ← or_refuse (last? req.chain) (chain "empty chain")
    verify_action req.action leaf cap
    ok req.action.body.action

  -- AuthzRequest::to_hex, AuthzRequest::from_hex
  unfoldable pub request_to_hex : AuthzRequest → TokenResult Text
  unfolding hex_encode
  request_to_hex req = do bytes ← or_refuse (w.request req) serde; ok (hex_encode bytes)

  unfoldable pub request_from_hex : Text → TokenResult AuthzRequest
  unfolding hex_decode
  request_from_hex s = do bytes ← hex_decode s; or_refuse (w.read_request bytes) serde
