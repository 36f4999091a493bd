-- ===== src/Token/Authorization.antt =====
-- What `authorize` guarantees of the action that it returns.
use quantmlayer.Prelude.{
  ℕ, ◌≡◌, refl, sym, ap, subst, ◌∙◌, true, some, List, [], ◌∷◌, last?, ok, guard->>-eq-ok, guard-ok,
  >>=-eq-ok, >>-eq-ok, ok-injective,
}
use quantmlayer.Text.{Text}
use quantmlayer.Text.Laws.{text_eq_sound}
use quantmlayer.Capability.{Capability, Action, permits}
use quantmlayer.Identity.{Crypto, or_refuse, from_hex, verify, serde, chain as broken}
use quantmlayer.Token.{
  Token, SignedAction, AuthzRequest, Wire, last_of, hash, verify_chain, verify_action, authorize,
}
use quantmlayer.Token.Links.{Linked, RootOk}
use quantmlayer.Token.Chain.{verify_chain_sound}

pub last?-last_of : (t : Token) (us : List Token) → last? (t ∷ us) ≡ some (last_of t us)
last?-last_of t [] = refl
last?-last_of t (u ∷ us) = last?-last_of u us

module _ (c : Crypto) (w : Wire) where
  -- An action bound to a leaf token, signed by the leaf's subject and permitted by a capability.
  pub record ActionOk (a : SignedAction) (leaf : Token) (cap : Capability) : Type 0 where
    pub holder : a.signer ≡ leaf.body.subject
    pub bound : a.body.token_hash ≡ hash c w leaf
    pub signer : Crypto.Key c
    pub known : from_hex c a.signer ≡ ok signer
    pub bytes : Text
    pub read : or_refuse (w.action_body a.body) serde ≡ ok bytes
    pub signed : verify c signer bytes a.signature ≡ ok tt
    pub permitted : permits cap a.body.action ≡ true

  pub verify_action_sound :
      (a : SignedAction) (leaf : Token) (cap : Capability)
      → verify_action c w a leaf cap ≡ ok tt
      → ActionOk a leaf cap
  unfolding verify_action
  verify_action_sound a leaf cap h =
      let (holder, h1) = guard->>-eq-ok _ _ _ h in
      let (bound, h2) = guard->>-eq-ok _ _ _ h1 in
      let (signer, known, h3) = >>=-eq-ok (from_hex c a.signer) _ h2 in
      let (bytes, read, h4) = >>=-eq-ok (or_refuse (w.action_body a.body) serde) _ h3 in
      let (signed, h5) = >>-eq-ok (verify c signer bytes a.signature) _ h4 in
      record {
        holder = text_eq_sound a.signer leaf.body.subject holder;
        bound = text_eq_sound a.body.token_hash (hash c w leaf) bound;
        signer = signer;
        known = known;
        bytes = bytes;
        read = read;
        signed = signed;
        permitted = guard-ok _ _ h5;
      }

  -- A request that was authorized: a valid chain, and an action that its last token covers.
  pub record Authorized (req : AuthzRequest) (roots : List (Crypto.Key c)) (now_ms : ℕ) (a : Action)
      : Type 0 where
    pub root : Token
    pub rest : List Token
    pub chain : req.chain ≡ root ∷ rest
    pub rooted : RootOk c w now_ms roots root
    pub linked : Linked c w now_ms root rest
    pub covered : ActionOk req.action (last_of root rest) (last_of root rest).body.capability
    pub returned : req.action.body.action ≡ a

  authorize_parts :
      (chain : List Token) (act : SignedAction) (roots : List (Crypto.Key c)) (now_ms : ℕ)
      (a : Action)
      → authorize c w (record { chain = chain; action = act }) roots now_ms ≡ ok a
      → Authorized (record { chain = chain; action = act }) roots now_ms a
  unfolding authorize
  authorize_parts [] act roots now_ms a h = cc
  authorize_parts (root ∷ rest) act roots now_ms a h =
      let (cap, verified, h1) = >>=-eq-ok (verify_chain c w (root ∷ rest) roots now_ms) _ h in
      let (rooted, linked, same) = verify_chain_sound c w now_ms roots root rest cap verified in
      let (leaf, found, h2) =
        >>=-eq-ok (or_refuse (last? (root ∷ rest)) (broken "empty chain")) _ h1 in
      let (checked, h3) = >>-eq-ok (verify_action c w act leaf cap) _ h2 in
      let is_leaf : leaf ≡ last_of root rest =
        ok-injective
          (sym found ∙ ap (λ o. or_refuse o (broken "empty chain")) (last?-last_of root rest)) in
      record {
        root = root;
        rest = rest;
        chain = refl;
        rooted = rooted;
        linked = linked;
        covered =
            subst (λ u. ActionOk act (last_of root rest) u) (sym same)
              (subst (λ u. ActionOk act u cap) is_leaf (verify_action_sound act leaf cap checked));
        returned = ok-injective h3;
      }

-- An action is authorized only under a chain that is rooted in a trusted key and valid link by
-- link, and only if the action is signed by the subject of the last token, names that token's hash
-- and is permitted by that token's capability; the action returned is the one that was signed.
pub authorize-Authorized :
    (c : Crypto) (w : Wire) (req : AuthzRequest) (roots : List (Crypto.Key c)) (now_ms : ℕ)
    (a : Action)
    → authorize c w req roots now_ms ≡ ok a
    → Authorized c w req roots now_ms a
authorize-Authorized c w req roots now_ms a h =
    authorize_parts c w req.chain req.action roots now_ms a h
