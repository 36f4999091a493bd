-- ===== src/Bundle/Expiry.antt =====
-- What a delegated bundle holds: its authority, its chain and its expiry.
use quantmlayer.Prelude.{
  ℕ, ◌≡◌, sym, ap, ◌∙◌, false, some, List, [], ◌∷◌, ◌++◌, min, arith, last?, Outcome, ok, err,
  >>=-eq-ok, guard->>-eq-ok, ok-injective, ◌⊎◌, inl, ◌≤◌, last?-append,
}
use quantmlayer.Text.{Text, text_eq}
use quantmlayer.Capability.{Capability, normalized, is_subset_of}
use quantmlayer.Identity.{
  TokenError, Failure, refused, panicked, TokenResult, Crypto, from_hex, to_hex, sign, serde,
  broadened, chain as broken, or_refuse,
}
use quantmlayer.Token.{TokenBody, hash, Token, Wire, last_of, delegate, verify_chain, has_expired}
use quantmlayer.Token.Authorization.{last?-last_of}
use quantmlayer.Bundle.{
  DelegatedBundle, Narrowing, apply, DelegateError, bundle, chain, token, map_err, or_no_leaf,
  delegate_bundle,
}

map_err-ok :
    {A : Type 0} (f : TokenError → DelegateError) (r : Outcome Failure A) (a : A)
    → map_err f r ≡ ok a
    → r ≡ ok a
map_err-ok f (ok b) a h = ap (λ x. ok x) (ok-injective h)
map_err-ok f (err (refused e)) a h = cc
map_err-ok f (err panicked) a h = cc

module _ (c : Crypto) (w : Wire) where
  open c use {Key, Secret, public_of}

  -- The parts of a delegation over a chain that has a root.
  pub record Delegated (root : Token) (rest : List Token) (trust_root : Text) (n : Narrowing)
      (wanted now_ms : ℕ) (b : DelegatedBundle c) : Type 0 where
    pub anchor : Key
    pub known : from_hex c trust_root ≡ ok anchor
    pub cap : Capability
    pub verified : verify_chain c w (root ∷ rest) (anchor ∷ []) now_ms ≡ ok cap
    pub parent_id : Secret
    pub expiry : b.not_after_ms ≡ min wanted (last_of root rest).body.not_after_ms
    pub leaf : Token
    pub made :
        delegate c w (last_of root rest) parent_id (public_of b.child) (apply n cap) b.not_after_ms
        ≡ ok leaf
    pub chained : b.chain ≡ root ∷ (rest ++ leaf ∷ [])

  delegate_bundle-Delegated :
      (root : Token) (rest : List Token) (trust_root : Text)
      (parent_seed child_seed : TokenResult Secret) (n : Narrowing) (wanted now_ms : ℕ)
      (b : DelegatedBundle c)
      → delegate_bundle c w (root ∷ rest) trust_root parent_seed child_seed n wanted now_ms ≡ ok b
      → Delegated root rest trust_root n wanted now_ms b
  unfolding delegate_bundle
  delegate_bundle-Delegated root rest trust_root parent_seed child_seed n wanted now_ms b h =
      let (anchor, known, h1) = >>=-eq-ok (map_err bundle (from_hex c trust_root)) _ h in
      let (cap, verified, h2) =
        >>=-eq-ok (map_err chain (verify_chain c w (root ∷ rest) (anchor ∷ []) now_ms)) _ h1 in
      let (parent_id, read, h3) = >>=-eq-ok (map_err bundle parent_seed) _ h2 in
      let (child, fresh, h4) = >>=-eq-ok (map_err token child_seed) _ h3 in
      let (leaf_tok, found, h5) = >>=-eq-ok (or_no_leaf (last? (root ∷ rest))) _ h4 in
      let is_leaf : leaf_tok ≡ last_of root rest =
        ok-injective (sym found ∙ ap or_no_leaf (last?-last_of root rest)) in
      let (leaf, made, h6) =
        >>=-eq-ok
          (map_err token (
            delegate c w leaf_tok parent_id (public_of child) (apply n cap)
              (min wanted leaf_tok.body.not_after_ms)))
          _ h5 in
      let same = ok-injective h6 in
      let expiry : b.not_after_ms ≡ min wanted leaf_tok.body.not_after_ms =
        ap (λ (x : DelegatedBundle c). x.not_after_ms) (sym same) in
      let holder : b.child ≡ child = ap (λ (x : DelegatedBundle c). x.child) (sym same) in
      record {
        anchor = anchor;
        known = map_err-ok bundle _ anchor known;
        cap = cap;
        verified = map_err-ok chain _ cap verified;
        parent_id = parent_id;
        expiry = expiry ∙ ap (λ (t : Token). min wanted t.body.not_after_ms) is_leaf;
        leaf = leaf;
        made =
            ap
              (λ x.
                delegate c w (last_of root rest) parent_id (public_of x) (apply n cap)
                  b.not_after_ms)
              holder
            ∙ ap (λ x. delegate c w (last_of root rest) parent_id (public_of child) (apply n cap) x)
                expiry
            ∙ ap
                (λ (t : Token).
                  delegate c w t parent_id (public_of child) (apply n cap)
                    (min wanted leaf_tok.body.not_after_ms))
                (sym is_leaf)
            ∙ map_err-ok token _ leaf made;
        chained = ap (λ (x : DelegatedBundle c). x.chain) (sym same);
      }

  delegate-not_after_ms :
      (parent : Token) (delegator : Secret) (subject : Key) (capability : Capability)
      (not_after_ms : ℕ) (t : Token)
      → delegate c w parent delegator subject capability not_after_ms ≡ ok t
      → t.body.not_after_ms ≡ not_after_ms
  unfolding delegate
  delegate-not_after_ms parent delegator subject capability not_after_ms t h =
      let body : TokenBody = record {
        issuer = to_hex c (public_of delegator);
        subject = to_hex c subject;
        capability = normalized capability;
        parent_hash = some (hash c w parent);
        not_after_ms = not_after_ms;
      } in
      let (holder, h1) =
        guard->>-eq-ok (text_eq (to_hex c (public_of delegator)) parent.body.subject)
          (refused (broken "delegator is not the subject of the parent token")) _ h in
      let (narrow, h2) =
        guard->>-eq-ok (is_subset_of (normalized capability) parent.body.capability)
          (refused (broadened "delegated capability exceeds the parent's grant")) _ h1 in
      let (bytes, read, h3) =
        >>=-eq-ok (or_refuse (w.token_body body) serde)
          (λ bytes. ok (record { body = body; signature = sign c delegator bytes })) h2 in
      ap (λ (u : Token). u.body.not_after_ms) (sym (ok-injective h3))

  live_leaf :
      (t : Token) (n now_ms : ℕ)
      → t.body.not_after_ms ≡ n
      → (n ≡ 0) ⊎ (now_ms ≤ n)
      → has_expired t now_ms ≡ false
  unfolding has_expired
  live_leaf t n now_ms e h = ground arith

-- A sub-agent of a parent whose token never expires holds a token that never expires, whatever
-- expiry was asked for.
pub delegate_bundle_unbounded :
    (c : Crypto) (w : Wire) (root : Token) (rest : List Token) (trust_root : Text)
    (parent_seed child_seed : TokenResult (Crypto.Secret c)) (n : Narrowing) (wanted now_ms : ℕ)
    (b : DelegatedBundle c)
    → delegate_bundle c w (root ∷ rest) trust_root parent_seed child_seed n wanted now_ms ≡ ok b
    → (last_of root rest).body.not_after_ms ≡ 0
    → (leaf : Token) × (last? b.chain ≡ some leaf) × ((at_ms : ℕ) → has_expired leaf at_ms ≡ false)
delegate_bundle_unbounded c w root rest trust_root parent_seed child_seed n wanted now_ms b h
      unbounded =
    let d =
      delegate_bundle-Delegated c w root rest trust_root parent_seed child_seed n wanted now_ms b
        h in
    let stamped =
      delegate-not_after_ms c w (last_of root rest) d.parent_id (Crypto.public_of c b.child)
        (apply n d.cap) b.not_after_ms d.leaf d.made in
    let zero_ : b.not_after_ms ≡ 0 = d.expiry ∙ ap (min wanted) unbounded ∙ min_zero wanted in
    (
      d.leaf,
      ap last? d.chained ∙ last?-append (root ∷ rest) d.leaf,
      λ at_ms. live_leaf c w d.leaf b.not_after_ms at_ms stamped (inl zero_),
    )
  where
    min_zero : (n : ℕ) → min n 0 ≡ 0
    min_zero n = omega arith
