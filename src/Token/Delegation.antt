-- ===== src/Token/Delegation.antt =====
-- Tokens that `issue_root` and `delegate` make are accepted by `verify_chain`.
use quantmlayer.Prelude.{
  ℕ, ◌≡◌, refl, sym, ap, ◌∙◌, false, Option, none, some, List, [], ◌∷◌, ◌++◌, arith, ok,
  guard->>-eq-ok, >>=-eq-ok, >>=-ok, ok-injective,
}
use quantmlayer.Text.{Text}
use quantmlayer.Text.Laws.{text_eq_sound}
use quantmlayer.Capability.{Capability, normalized, is_subset_of}
use quantmlayer.Identity.{
  Crypto, CryptoLaws, TokenError, or_refuse, to_hex, from_hex, verify, sign, serde,
}
use quantmlayer.Identity.Hex.{from_hex-to_hex, verify-sign}
use quantmlayer.Token.{Token, Wire, last_of, verify_sig, has_expired, verify_chain, delegate}
use quantmlayer.Token.Links.{LinkOk, Linked, done, next}
use quantmlayer.Token.Chain.{verify_chain_sound, verify_chain_complete}

or_refuse-eq-ok {ℓ} :
    {A : Type ℓ} (o : Option A) (e : TokenError) {a : A} → or_refuse o e ≡ ok a → o ≡ some a
or_refuse-eq-ok (some a) e h = ground arith
or_refuse-eq-ok none e h = cc

last_of-append : (t : Token) (us : List Token) (v : Token) → last_of t (us ++ v ∷ []) ≡ v
last_of-append t [] v = refl
last_of-append t (u ∷ us) v = last_of-append u us v

module _ (c : Crypto) (w : Wire) where
  open c use {Key, Secret, public_of}

  pub Linked-append :
      {now_ms : ℕ} {root : Token} {rest : List Token} (t : Token)
      → Linked c w now_ms root rest
      → LinkOk c w now_ms (last_of root rest) t
      → Linked c w now_ms root (rest ++ t ∷ [])
  Linked-append t done l = next l done
  Linked-append t (next k more) l = next k (Linked-append t more l)

  -- A token whose issuer is the public key of the secret that signed it has a valid signature.
  verify_sig_signed :
      CryptoLaws c
      → (s : Secret) (t : Token) (bytes : Text) → t.body.issuer ≡ to_hex c (public_of s)
      → w.token_body t.body ≡ some bytes
      → t.signature ≡ sign c s bytes
      → verify_sig c w t ≡ ok tt
  unfolding verify_sig
  verify_sig_signed laws s t bytes hi hb hs =
      >>=-ok (from_hex c t.body.issuer) _
        (ap (from_hex c) hi ∙ from_hex-to_hex c laws (public_of s))
        (>>=-ok (or_refuse (w.token_body t.body) serde) (λ b. verify c (public_of s) b t.signature)
          (ap (λ o. or_refuse o serde) hb)
          (ap (verify c (public_of s) bytes) hs ∙ verify-sign c laws s bytes))

  module _ (laws : CryptoLaws c) (now_ms : ℕ) where
    -- What a successful `delegate` returns is a valid link after its parent.
    pub delegate-LinkOk :
        (parent : Token) (delegator : Secret) (subject : Key) (capability : Capability)
        (not_after_ms : ℕ) (t : Token)
        → delegate c w parent delegator subject capability not_after_ms ≡ ok t
        → has_expired t now_ms ≡ false
        → LinkOk c w now_ms parent t × (t.body.capability ≡ normalized capability)
    unfolding delegate
    delegate-LinkOk parent delegator subject capability not_after_ms t h live =
        let (holder, h1) = guard->>-eq-ok _ _ _ h in
        let (narrow, h2) = guard->>-eq-ok _ _ _ h1 in
        let (bytes, read, h3) = >>=-eq-ok (or_refuse _ serde) _ h2 in
        let same = ok-injective h3 in
        let made : t.body.capability ≡ normalized capability =
          ap (λ (u : Token). u.body.capability) (sym same) in
        let issuer : t.body.issuer ≡ to_hex c (public_of delegator) =
          ap (λ (u : Token). u.body.issuer) (sym same) in
        (
          record {
            issued =
                issuer ∙ text_eq_sound (to_hex c (public_of delegator)) parent.body.subject holder;
            committed = ap (λ (u : Token). u.body.parent_hash) (sym same);
            narrowed = ap (λ z. is_subset_of z parent.body.capability) made ∙ narrow;
            genuine = record {
              signed =
                  verify_sig_signed laws delegator t bytes issuer
                    (ap (λ (u : Token). w.token_body u.body) (sym same)
                      ∙ or_refuse-eq-ok _ serde read)
                    (ap (λ (u : Token). u.signature) (sym same));
              live = live;
            };
          },
          made,
        )

-- A chain that verifies, extended by the token that its last token's holder delegates, verifies
-- too while the new token has not expired, and yields the delegated capability in normal form.
pub verify_chain-delegate :
    (c : Crypto) (w : Wire) (laws : CryptoLaws c) (now_ms : ℕ) (roots : List (Crypto.Key c))
    (root : Token) (rest : List Token) (cap capability : Capability) (delegator : Crypto.Secret c)
    (subject : Crypto.Key c) (not_after_ms : ℕ) (t : Token)
    → verify_chain c w (root ∷ rest) roots now_ms ≡ ok cap
    → delegate c w (last_of root rest) delegator subject capability not_after_ms ≡ ok t
    → has_expired t now_ms ≡ false
    → verify_chain c w (root ∷ (rest ++ t ∷ [])) roots now_ms ≡ ok (normalized capability)
verify_chain-delegate c w laws now_ms roots root rest cap capability delegator subject not_after_ms
      t h d live =
    let (r, links, _) = verify_chain_sound c w now_ms roots root rest cap h in
    let (l, made) =
      delegate-LinkOk c w laws now_ms (last_of root rest) delegator subject capability not_after_ms
        t d live in
    verify_chain_complete c w now_ms roots root (rest ++ t ∷ []) r (Linked-append c w t links l)
    ∙ ap (λ (u : Token). ok u.body.capability) (last_of-append root rest t)
    ∙ ap ok made
