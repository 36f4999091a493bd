-- ===== src/Broker/Gate.antt =====
-- What an admitted connection shows, and when the resolved addresses pass.
use quantmlayer.Prelude.{
  ℕ, ◌≡◌, refl, ◌↔◌, ◌⊎◌, inl, inr, true, false, Option, none, some, List, any, last?, Bool-cases,
  Outcome, ok, err,
}
use quantmlayer.Text.{Text, codes}
use quantmlayer.Capability.{Action}
use quantmlayer.Identity.{refused, panicked, TokenResult, Crypto}
use quantmlayer.Token.{Token, AuthzRequest, Wire, hash, authorize, request_from_hex}
use quantmlayer.Token.Authorization.{Authorized, authorize-Authorized}
use quantmlayer.Nonce.{NonceCheck, fresh, replay, NonceStore, check_and_record}
use quantmlayer.Profile.{Profile}
use quantmlayer.Profile.Matching.{host_matches, admits_domain}
use quantmlayer.Profile.Matching as Matching
use quantmlayer.Broker.{
  Decision, allow, deny, canary_deny_reason, State, BrokerPolicy, Panic, is_nil, names_host,
  nonce_decision, from_net_policy, with_canaries, token_gated, host_allowed, is_canary, evaluate,
  admit_leaf, admit_unless_replay, on_authorized, on_request, on_header, authorize_connect,
}
use quantmlayer.Broker.Address.{IpAddr, is_blocked_ip}

abbrev pub answered : Decision → Outcome Panic Decision
answered d = ok d

-- The presentation of a header: what it must be for a gated connection to be admitted.
pub record Admitted (c : Crypto) (w : Wire) (p : BrokerPolicy c) (m : NonceStore) (host : Text)
    (auth : Option Text) (now_ms : ℕ) : Type 0 where
  pub blob : Text
  pub header : auth ≡ some blob
  pub req : AuthzRequest
  pub read : request_from_hex c w blob ≡ ok req
  pub action : Action
  pub authorized : Authorized c w req p.trusted_roots now_ms action
  pub names : names_host host action ≡ true
  pub leaf : Token
  pub last : last? req.chain ≡ some leaf
  pub unseen :
      (check_and_record m (hash c w leaf) req.action.body.nonce leaf.body.not_after_ms now_ms).1
      ≡ fresh

-- What admits a connection: no canary, and the allow-list or, under token gating, the token.
pub record Passed (c : Crypto) (w : Wire) (p : BrokerPolicy c) (m : NonceStore) (host : Text)
    (auth : Option Text) (now_ms : ℕ) : Type 0 where
  pub no_canary : is_canary c p host ≡ false
  pub grounds :
      ((token_gated c p ≡ false) × (host_allowed c p host ≡ true))
      ⊎ ((token_gated c p ≡ true) × Admitted c w p m host auth now_ms)

module _ (c : Crypto) (w : Wire) where
  -- The leaf of an admitted request, and its nonce's answer.
  record Admission (st : State) (req : AuthzRequest) (now_ms : ℕ) : Type 0 where
    pub leaf : Token
    pub last : last? req.chain ≡ some leaf
    pub unseen :
        (check_and_record st.nonces
          (hash c w leaf)
          req.action.body.nonce
          leaf.body.not_after_ms
          now_ms).1
        ≡ fresh

  allowed_fresh : (r : NonceCheck) → answered (nonce_decision r) ≡ ok allow → r ≡ fresh
  allowed_fresh fresh h = refl
  allowed_fresh replay h = cc

  admit_parts :
      (st : State) (req : AuthzRequest) (now_ms : ℕ) (o : Option Token)
      → last? req.chain ≡ o
      → (admit_leaf c w st req now_ms o).1 ≡ ok allow
      → Admission st req now_ms
  unfolding admit_leaf
  admit_parts st req now_ms none e k = cc
  admit_parts st req now_ms (some leaf) e k = record {
    leaf = leaf;
    last = e;
    unseen = allowed_fresh _ k;
  }

  on_authorized_parts :
      (p : BrokerPolicy c) (st : State) (host blob : Text) (auth : Option Text) (req : AuthzRequest)
      (now_ms : ℕ) (r : TokenResult Action)
      → auth ≡ some blob
      → request_from_hex c w blob ≡ ok req
      → authorize c w req p.trusted_roots now_ms ≡ r
      → (on_authorized c w st host req now_ms r).1 ≡ ok allow
      → Admitted c w p st.nonces host auth now_ms
  unfolding on_authorized admit_unless_replay
  on_authorized_parts p st host blob auth req now_ms (ok action) ea er e h =
      elim (Bool-cases (names_host host action)) [
        | inl named ↦
            let found = admit_parts st req now_ms (last? req.chain) refl (rw named at h) in
            record {
              blob = blob;
              header = ea;
              req = req;
              read = er;
              action = action;
              authorized = authorize-Authorized c w req p.trusted_roots now_ms action e;
              names = named;
              leaf = found.leaf;
              last = found.last;
              unseen = found.unseen;
            }
        | inr other ↦ absurd (denied (rw other at h))
      ]
    where
      denied : answered (deny (codes "token does not authorize this host")) ≡ ok allow → ⊥
      denied k = cc
  on_authorized_parts p st host blob auth req now_ms (err (refused x)) ea er e h = cc
  on_authorized_parts p st host blob auth req now_ms (err panicked) ea er e h = cc

  on_request_parts :
      (p : BrokerPolicy c) (st : State) (host blob : Text) (auth : Option Text) (now_ms : ℕ)
      (r : TokenResult AuthzRequest)
      → auth ≡ some blob
      → request_from_hex c w blob ≡ r
      → (on_request c w p st host now_ms r).1 ≡ ok allow
      → Admitted c w p st.nonces host auth now_ms
  unfolding on_request
  on_request_parts p st host blob auth now_ms (ok req) ea er h =
      on_authorized_parts p st host blob auth req now_ms (authorize c w req p.trusted_roots now_ms)
        ea er refl h
  on_request_parts p st host blob auth now_ms (err (refused x)) ea er h = cc
  on_request_parts p st host blob auth now_ms (err panicked) ea er h = cc

  on_header_parts :
      (p : BrokerPolicy c) (st : State) (host : Text) (auth : Option Text) (now_ms : ℕ)
      → (on_header c w p st host now_ms auth).1 ≡ ok allow
      → Admitted c w p st.nonces host auth now_ms
  unfolding on_header
  on_header_parts p st host none now_ms h = cc
  on_header_parts p st host (some blob) now_ms h =
      on_request_parts p st host blob (some blob) now_ms (request_from_hex c w blob) refl refl h

-- A connection is admitted only if the host is no canary and, with gating off, the allow-list
-- admits it, or, with gating on, its header carries a request that is authorized under the trusted
-- roots for a connection to a domain that the host matches, with a nonce that is fresh for the
-- chain's last token.
pub authorize_connect-Passed :
    (c : Crypto) (w : Wire) (show : ℕ → Text) (stamp : ℕ) (p : BrokerPolicy c) (st : State)
    (host : Text) (port : ℕ) (auth : Option Text) (now_ms : ℕ)
    → (authorize_connect c w show stamp p st host port auth now_ms).1 ≡ ok allow
    → Passed c w p st.nonces host auth now_ms
unfolding authorize_connect
authorize_connect-Passed c w show stamp p st host port auth now_ms h =
    elim (Bool-cases (is_canary c p host)) [
      | inl canary ↦ absurd (denied canary_deny_reason (rw canary at h))
      | inr no_canary ↦ elim (Bool-cases (token_gated c p)) [
        | inl gated ↦ record {
          no_canary = no_canary;
          grounds =
              inr (gated, on_header_parts c w p st host auth now_ms (rw (no_canary, gated) at h));
        }
        | inr open_ ↦ elim (Bool-cases (host_allowed c p host)) [
          | inl listed ↦ record { no_canary = no_canary; grounds = inl (open_, listed) }
          | inr unlisted ↦
              absurd
                (denied (codes "host not in allow-list") (rw (no_canary, open_, unlisted) at h))
        ]
      ]
    ]
  where
    denied : (r : Text) → answered (deny r) ≡ ok allow → ⊥
    denied r k = cc

-- With gating off and no canary on the host, a connection is admitted exactly when the profile's
-- decision layer admits the host.
pub authorize_connect-admits_domain :
    (c : Crypto) (w : Wire) (show : ℕ → Text) (stamp : ℕ) (base : Profile) (hosts : List Text)
    (id : Option Text) (st : State) (host : Text) (port : ℕ) (auth : Option Text) (now_ms : ℕ)
    → ((authorize_connect c w show stamp
          (with_canaries c hosts id (from_net_policy c base.network))
          st
          host
          port
          auth
          now_ms).1
        ≡ ok allow)
      ↔ ((any (host_matches host) hosts ≡ false) × (admits_domain base host ≡ Matching.allow))
unfolding authorize_connect with_canaries from_net_policy token_gated is_canary host_allowed
    admits_domain
authorize_connect-admits_domain c w show stamp base hosts id st host port auth now_ms =
    elim (Bool-cases (any (host_matches host) hosts)) [
      | inl canary ↦ rw canary ((λ h. cc), (λ h. cc))
      | inr no_canary ↦ rw no_canary (elim (Bool-cases base.network.default_deny) [
        | inr open_ ↦ rw open_ ((λ h. (refl, refl)), (λ h. refl))
        | inl closed ↦
            rw closed (elim (Bool-cases (any (host_matches host) base.network.allow_domains)) [
              | inl listed ↦ rw listed ((λ h. (refl, refl)), (λ h. refl))
              | inr unlisted ↦ rw unlisted ((λ h. cc), (λ h. cc))
            ])
      ])
    ]

-- The resolved addresses pass exactly when the host passes and, where private ranges are blocked,
-- there is an address and none of them is in a blocked range.
pub evaluate_iff :
    (c : Crypto) (p : BrokerPolicy c) (host : Text) (resolved : List IpAddr)
    → (evaluate c p host resolved ≡ allow) ↔ (
        (host_allowed c p host ≡ true)
        × (p.block_private_ranges ≡ true
            → (is_nil resolved ≡ false) × (any is_blocked_ip resolved ≡ false)))
unfolding evaluate
evaluate_iff c p host resolved = elim (Bool-cases (host_allowed c p host)) [
  | inr refused_ ↦ rw refused_ ((λ h. cc), (λ h. cc))
  | inl passes ↦ rw passes (elim (Bool-cases p.block_private_ranges) [
    | inr open_ ↦ rw open_ ((λ h. (refl, λ k. cc)), (λ h. refl))
    | inl closed ↦ rw closed (elim (Bool-cases (is_nil resolved)) [
      | inl empty ↦ rw empty ((λ h. cc), (λ h. let k = h.1 refl in cc))
      | inr some_ ↦ rw some_ (elim (Bool-cases (any is_blocked_ip resolved)) [
        | inl hit ↦ rw hit ((λ h. cc), (λ h. let k = h.1 refl in cc))
        | inr clean ↦ rw clean ((λ h. (refl, λ k. (refl, refl))), (λ h. refl))
      ])
    ])
  ])
]
