-- ===== src/Token/Chain.antt =====
-- `verify_chain` accepts exactly the valid chains, and the authority of what it returns.
use quantmlayer.Prelude.{
  ℕ, ◌≡◌, refl, ap, ◌∙◌, ◌↔◌, Bool, true, false, not, Option, none, some, List, [], ◌∷◌, arith,
  any_elim, any_intro, ok, guard->>-eq-ok, >>=-eq-ok, >>-eq-ok, >>=-ok, >>-ok, guard->>-ok,
}
use quantmlayer.Text.{Text}
use quantmlayer.Text.Laws.{text_eq_sound, text_eq_iff, text_eq_refl}
use quantmlayer.Capability.{Capability, Action, is_subset_of, permits}
use quantmlayer.Capability.Attenuation.{
  HasPlainGrants, permits-is_subset_of, is_subset_of_trans, is_subset_of_refl,
}
use quantmlayer.Identity.{Crypto, from_hex, same_key}
use quantmlayer.Token.{
  Token, Wire, is_hash, is_none, last_of, hash, verify_sig, has_expired, verify_links, verify_chain,
}
use quantmlayer.Token.Links.{Linked, done, next, RootOk}

is_hash_sound : (o : Option Text) (h : Text) → is_hash o h ≡ true → o ≡ some h
is_hash_sound (some p) h e = ap some (text_eq_sound p h e)
is_hash_sound none h e = cc

is_hash_complete : (o : Option Text) (h : Text) → o ≡ some h → is_hash o h ≡ true
is_hash_complete o h e = rw e (text_eq_refl h)

is_none_complete {ℓ} : {A : Type ℓ} (o : Option A) → o ≡ none → is_none o ≡ true
is_none_complete o e = rw e

is_none_sound {ℓ} : {A : Type ℓ} (o : Option A) → is_none o ≡ true → o ≡ none
is_none_sound none e = refl
is_none_sound (some a) e = cc

not-true : (b : Bool) → not b ≡ true → b ≡ false
not-true b h = ground arith

module _ (c : Crypto) (w : Wire) (now_ms : ℕ) where
  pub verify_links-Linked :
      (prev : Token) (rest : List Token)
      → verify_links c w now_ms prev rest ≡ ok tt
      → Linked c w now_ms prev rest
  unfolding verify_links
  verify_links-Linked prev [] h = done
  verify_links-Linked prev (cur ∷ rest) h =
      let (issued, h1) = guard->>-eq-ok _ _ _ h in
      let (committed, h2) = guard->>-eq-ok _ _ _ h1 in
      let (narrowed, h3) = guard->>-eq-ok _ _ _ h2 in
      let (signed, h4) = >>-eq-ok (verify_sig c w cur) _ h3 in
      let (live, h5) = guard->>-eq-ok _ _ _ h4 in
      next
        (record {
          issued = text_eq_sound cur.body.issuer prev.body.subject issued;
          committed = is_hash_sound cur.body.parent_hash (hash c w prev) committed;
          narrowed = narrowed;
          genuine = record { signed = signed; live = not-true (has_expired cur now_ms) live };
        })
        (verify_links-Linked cur rest h5)

  pub Linked-verify_links :
      {prev : Token} {rest : List Token}
      → Linked c w now_ms prev rest
      → verify_links c w now_ms prev rest ≡ ok tt
  unfolding verify_links
  Linked-verify_links done = refl
  Linked-verify_links (next {prev} {cur} {rest} l more) =
      guard->>-ok _ _ _ ((text_eq_iff _ _).1 l.issued) (
        guard->>-ok _ _ _ (is_hash_complete cur.body.parent_hash (hash c w prev) l.committed) (
          guard->>-ok _ _ _ l.narrowed (
            >>-ok (verify_sig c w cur) _ l.genuine.signed
              (guard->>-ok _ _ _ (ap not l.genuine.live) (Linked-verify_links more)))))

  module _ (roots : List (Crypto.Key c)) where
    pub verify_chain_sound :
        (root : Token) (rest : List Token) (cap : Capability)
        → verify_chain c w (root ∷ rest) roots now_ms ≡ ok cap
        → RootOk c w now_ms roots root
          × Linked c w now_ms root rest
          × ((last_of root rest).body.capability ≡ cap)
    unfolding verify_chain same_key
    verify_chain_sound root rest cap h =
        let (orphan, h1) = guard->>-eq-ok _ _ _ h in
        let (issuer, known, h2) = >>=-eq-ok (from_hex c root.body.issuer) _ h1 in
        let (trust, h3) = guard->>-eq-ok _ _ _ h2 in
        let (signed, h4) = >>-eq-ok (verify_sig c w root) _ h3 in
        let (live, h5) = guard->>-eq-ok _ _ _ h4 in
        let (links, h6) = >>-eq-ok (verify_links c w now_ms root rest) _ h5 in
        let (k, listed, same) = any_elim (λ k. same_key c k issuer) roots trust in
        (
          record {
            parentless = is_none_sound root.body.parent_hash orphan;
            issuer = issuer;
            known = known;
            trusted = (k, listed, text_eq_sound _ _ same);
            genuine = record { signed = signed; live = not-true (has_expired root now_ms) live };
          },
          verify_links-Linked root rest links,
          cc h6,
        )

    pub verify_chain_complete :
        (root : Token) (rest : List Token)
        → RootOk c w now_ms roots root
        → Linked c w now_ms root rest
        → verify_chain c w (root ∷ rest) roots now_ms ≡ ok (last_of root rest).body.capability
    unfolding verify_chain
    verify_chain_complete root rest r links =
        let (k, listed, same) = r.trusted in
        let matches : same_key c k r.issuer ≡ true =
          unfold same_key in rw same (text_eq_refl (Crypto.key_bytes c r.issuer)) in
        guard->>-ok _ _ _ (is_none_complete root.body.parent_hash r.parentless) (
          >>=-ok (from_hex c root.body.issuer) _ r.known (
            guard->>-ok _ _ _ (any_intro (λ k. same_key c k r.issuer) k roots listed matches) (
              >>-ok (verify_sig c w root) _ r.genuine.signed (
                guard->>-ok _ _ _ (ap not r.genuine.live)
                  (>>-ok (verify_links c w now_ms root rest) _ (Linked-verify_links links) refl)))))

  -- Along valid links authority only narrows, if the first grants are plain.
  pub Linked-is_subset_of :
      {root : Token} {rest : List Token}
      → HasPlainGrants root.body.capability
      → Linked c w now_ms root rest
      → is_subset_of (last_of root rest).body.capability root.body.capability ≡ true
  Linked-is_subset_of {root} plain done = is_subset_of_refl root.body.capability
  Linked-is_subset_of {root} plain (next {prev} {cur} {rest} l more) =
      narrow root.body.capability plain more l.narrowed
    where
      narrow :
          (top : Capability)
          → HasPlainGrants top
          → {t : Token} {us : List Token} → Linked c w now_ms t us
          → is_subset_of t.body.capability top ≡ true
          → is_subset_of (last_of t us).body.capability top ≡ true
      narrow top plain done sub = sub
      narrow top plain (next {prev = t} {cur = u} {rest = us} k more) sub =
          narrow top plain more
            (is_subset_of_trans u.body.capability t.body.capability top plain k.narrowed sub)

-- A chain verifies exactly when its root has no parent, is signed by a trusted issuer and is not
-- expired, and each further token was issued by the subject of the one before, commits to its
-- hash, grants a subset of it, is signed and is not expired; the result is the capability of the
-- last token.
pub verify_chain_iff :
    (c : Crypto) (w : Wire) (now_ms : ℕ) (roots : List (Crypto.Key c)) (root : Token)
    (rest : List Token) (cap : Capability)
    → (verify_chain c w (root ∷ rest) roots now_ms ≡ ok cap) ↔ (
        RootOk c w now_ms roots root
        × Linked c w now_ms root rest
        × ((last_of root rest).body.capability ≡ cap))
verify_chain_iff c w now_ms roots root rest cap = (
  verify_chain_sound c w now_ms roots root rest cap,
  λ t. verify_chain_complete c w now_ms roots root rest t.0 t.1 ∙ ap ok t.2,
)

-- What a verified chain permits, its root permits, if the root's path grants are plain.
pub verify_chain-permits :
    (c : Crypto) (w : Wire) (now_ms : ℕ) (roots : List (Crypto.Key c)) (root : Token)
    (rest : List Token) (cap : Capability) (a : Action)
    → HasPlainGrants root.body.capability
    → verify_chain c w (root ∷ rest) roots now_ms ≡ ok cap
    → permits cap a ≡ true
    → permits root.body.capability a ≡ true
verify_chain-permits c w now_ms roots root rest cap a plain h p =
    let (_, links, same) = verify_chain_sound c w now_ms roots root rest cap h in
    permits-is_subset_of (last_of root rest).body.capability root.body.capability a plain
      (Linked-is_subset_of c w now_ms plain links) (rw same p)
