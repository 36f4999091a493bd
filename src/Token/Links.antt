-- ===== src/Token/Links.antt =====
-- What a valid chain is, stated apart from the order of the checks in `verify_chain`.
use quantmlayer.Prelude.{ℕ, ◌≡◌, true, false, none, some, List, [], ◌∷◌, In, ok}
use quantmlayer.Capability.{is_subset_of}
use quantmlayer.Identity.{Crypto, from_hex}
use quantmlayer.Token.{Token, Wire, hash, verify_sig, has_expired}

module _ (c : Crypto) (w : Wire) (now_ms : ℕ) where
  -- A token signed by its issuer and not expired.
  pub record IsGenuine (t : Token) : Type 0 where
    pub signed : verify_sig c w t ≡ ok tt
    pub live : has_expired t now_ms ≡ false

  -- `cur` was issued by the holder of `prev`, commits to it by hash and grants no more.
  pub record LinkOk (prev cur : Token) : Type 0 where
    pub issued : cur.body.issuer ≡ prev.body.subject
    pub committed : cur.body.parent_hash ≡ some (hash c w prev)
    pub narrowed : is_subset_of cur.body.capability prev.body.capability ≡ true
    pub genuine : IsGenuine cur

  pub data Linked : Token → List Token → Type 0 where
    done : {t : Token} → Linked t []
    next :
        {prev cur : Token} {rest : List Token}
        → LinkOk prev cur
        → Linked cur rest
        → Linked prev (cur ∷ rest)

  -- A root token: no parent, a trusted issuer, a genuine signature.
  pub record RootOk (roots : List (Crypto.Key c)) (root : Token) : Type 0 where
    pub parentless : root.body.parent_hash ≡ none
    pub issuer : Crypto.Key c
    pub known : from_hex c root.body.issuer ≡ ok issuer
    pub trusted :
        (k : Crypto.Key c) × In k roots × (Crypto.key_bytes c k ≡ Crypto.key_bytes c issuer)
    pub genuine : IsGenuine root
