-- ===== src/Broker/Runs.antt =====
-- Sequences of connections over one broker: the replay gate across a whole history.
use quantmlayer.Prelude.{
  ℕ, ◌≤◌, ◌≡◌, refl, sym, ap, ◌∙◌, inl, inr, Option, none, some, List, [], ◌∷◌, last?,
  if◌then◌else◌, Bool-cases, Outcome, ok, err, In, All,
}
use quantmlayer.Text.{Text, codes}
use quantmlayer.Capability.{Action}
use quantmlayer.Identity.{refused, panicked, TokenResult, Crypto}
use quantmlayer.Token.{Token, AuthzRequest, Wire, hash, authorize, request_from_hex}
use quantmlayer.Nonce.{NonceStore, new}
use quantmlayer.Nonce.Replay.{Presentation, present, serve, IsLiveFor, replay_refused}
use quantmlayer.Broker.{
  Panic, Decision, allow, deny, State, Answer, BrokerPolicy, names_host, nonce_decision,
  token_gated, host_allowed, is_canary, record_canary, admit_leaf, admit_unless_replay,
  on_authorized, on_request, on_header, authorize_connect,
}

-- One CONNECT: its destination and header, the decision's clock, and the audit stamp.
pub record Connection : Type 0 where
  pub host : Text
  pub port : ℕ
  pub auth : Option Text
  pub now_ms : ℕ
  pub stamp : ℕ

module _ (c : Crypto) (w : Wire) where
  abbrev presented_leaf : AuthzRequest → ℕ → Option Token → Option Presentation
  presented_leaf req now_ms none = none
  presented_leaf req now_ms (some leaf) = some (record {
    leaf = hash c w leaf;
    nonce = req.action.body.nonce;
    not_after_ms = leaf.body.not_after_ms;
    now_ms = now_ms;
  })

  abbrev presented_authorized : Text → AuthzRequest → ℕ → TokenResult Action → Option Presentation
  presented_authorized host req now_ms (ok action) =
      if names_host host action then presented_leaf req now_ms (last? req.chain) else none
  presented_authorized host req now_ms (err e) = none

  abbrev presented_request :
      BrokerPolicy c → Text → ℕ → TokenResult AuthzRequest → Option Presentation
  presented_request p host now_ms (ok req) =
      presented_authorized host req now_ms (authorize c w req p.trusted_roots now_ms)
  presented_request p host now_ms (err e) = none

  abbrev presented_header : BrokerPolicy c → Text → ℕ → Option Text → Option Presentation
  presented_header p host now_ms none = none
  presented_header p host now_ms (some blob) =
      presented_request p host now_ms (request_from_hex c w blob)

  -- The nonce that a connection presents, when its token authorizes it; the store has no say.
  unfoldable pub presented : BrokerPolicy c → Connection → Option Presentation
  presented p k =
      if is_canary c p k.host
      then none
      else if token_gated c p
      then presented_header p k.host k.now_ms k.auth
      else none

  unfoldable pub connect : (ℕ → Text) → BrokerPolicy c → State → Connection → Answer
  unfolding authorize_connect
  connect show p st k = authorize_connect c w show k.stamp p st k.host k.port k.auth k.now_ms

  unfoldable pub run : (ℕ → Text) → BrokerPolicy c → State → List Connection → State
  unfolding connect
  run show p st [] = st
  run show p st (k ∷ ks) = run show p (connect show p st k).0 ks

  abbrev and_then : Option Presentation → List Presentation → List Presentation
  and_then none qs = qs
  and_then (some q) qs = q ∷ qs

  unfoldable pub presentations : BrokerPolicy c → List Connection → List Presentation
  unfolding presented
  presentations p [] = []
  presentations p (k ∷ ks) = and_then (presented p k) (presentations p ks)

  abbrev after : NonceStore → Option Presentation → NonceStore
  after m none = m
  after m (some q) = (present m q).0

  -- An answer follows the store at what was presented.
  record Follows (st : State) (o : Option Presentation) (a : Answer) : Type 0 where
    pub store : a.0.nonces ≡ after st.nonces o
    pub said : (q : Presentation) → o ≡ some q → a.1 ≡ ok (nonce_decision (present st.nonces q).1)

  nothing :
      (st st2 : State) (r : Outcome Panic Decision)
      → st2.nonces ≡ st.nonces
      → Follows st none (st2, r)
  nothing st st2 r e = record { store = e; said = λ q h. cc }

  admit_leaf-Follows :
      (st : State) (req : AuthzRequest) (now_ms : ℕ) (o : Option Token)
      → Follows st (presented_leaf req now_ms o) (admit_leaf c w st req now_ms o)
  unfolding admit_leaf present
  admit_leaf-Follows st req now_ms none = nothing st st _ refl
  admit_leaf-Follows st req now_ms (some leaf) = record {
    store = refl;
    said = λ q h. ap (λ o. told o) h;
  }
    where
      told : Option Presentation → Outcome Panic Decision
      told none = ok allow
      told (some q) = ok (nonce_decision (present st.nonces q).1)

  on_authorized-Follows :
      (st : State) (host : Text) (req : AuthzRequest) (now_ms : ℕ) (r : TokenResult Action)
      → Follows st (presented_authorized host req now_ms r) (on_authorized c w st host req now_ms r)
  unfolding on_authorized admit_unless_replay
  on_authorized-Follows st host req now_ms (ok action) =
      elim (Bool-cases (names_host host action)) [
        | inl named ↦ rw named (admit_leaf-Follows st req now_ms (last? req.chain))
        | inr other ↦ rw other (nothing st st _ refl)
      ]
  on_authorized-Follows st host req now_ms (err (refused e)) = nothing st st _ refl
  on_authorized-Follows st host req now_ms (err panicked) = nothing st st _ refl

  on_request-Follows :
      (p : BrokerPolicy c) (st : State) (host : Text) (now_ms : ℕ) (r : TokenResult AuthzRequest)
      → Follows st (presented_request p host now_ms r) (on_request c w p st host now_ms r)
  unfolding on_request
  on_request-Follows p st host now_ms (ok req) =
      on_authorized-Follows st host req now_ms (authorize c w req p.trusted_roots now_ms)
  on_request-Follows p st host now_ms (err (refused e)) = nothing st st _ refl
  on_request-Follows p st host now_ms (err panicked) = nothing st st _ refl

  on_header-Follows :
      (p : BrokerPolicy c) (st : State) (host : Text) (now_ms : ℕ) (auth : Option Text)
      → Follows st (presented_header p host now_ms auth) (on_header c w p st host now_ms auth)
  unfolding on_header
  on_header-Follows p st host now_ms none = nothing st st _ refl
  on_header-Follows p st host now_ms (some blob) =
      on_request-Follows p st host now_ms (request_from_hex c w blob)

  record_canary-nonces :
      (show : ℕ → Text) (stamp : ℕ) (p : BrokerPolicy c) (st : State) (host : Text) (port : ℕ)
      → (record_canary c show stamp p st host port).nonces ≡ st.nonces
  unfolding record_canary
  record_canary-nonces show stamp p st host port = elim (Bool-cases p.has_audit) [
    | inl audited ↦ rw audited refl
    | inr silent ↦ rw silent refl
  ]

  connect-Follows :
      (show : ℕ → Text) (p : BrokerPolicy c) (st : State) (k : Connection)
      → Follows st (presented p k) (connect show p st k)
  unfolding presented connect authorize_connect
  connect-Follows show p st k = elim (Bool-cases (is_canary c p k.host)) [
    | inl canary ↦ rw canary (
        nothing st (record_canary c show k.stamp p st k.host k.port) _
          (record_canary-nonces show k.stamp p st k.host k.port))
    | inr no_canary ↦ rw no_canary (elim (Bool-cases (token_gated c p)) [
      | inl gated ↦ rw gated (on_header-Follows p st k.host k.now_ms k.auth)
      | inr open_ ↦ rw open_ (elim (Bool-cases (host_allowed c p k.host)) [
        | inl listed ↦ rw listed (nothing st st _ refl)
        | inr unlisted ↦ rw unlisted (nothing st st _ refl)
      ])
    ])
  ]

  run-serve :
      (show : ℕ → Text) (p : BrokerPolicy c) (st : State) (ks : List Connection)
      → (run show p st ks).nonces ≡ serve st.nonces (presentations p ks)
  unfolding run presentations
  run-serve show p st [] = unfold serve in refl
  run-serve show p st (k ∷ ks) =
      run-serve show p (connect show p st k).0 ks
      ∙ step (presented p k) (connect-Follows show p st k).store
    where
      step :
          (o : Option Presentation)
          → (connect show p st k).0.nonces ≡ after st.nonces o
          → serve (connect show p st k).0.nonces (presentations p ks)
            ≡ serve st.nonces (and_then o (presentations p ks))
      step none e = ap (λ m. serve m (presentations p ks)) e
      step (some q) e = ap (λ m. serve m (presentations p ks)) e ∙ unfold serve in refl

  presentations_In :
      (p : BrokerPolicy c) (k : Connection) (q : Presentation) (ks : List Connection)
      → In k ks
      → presented p k ≡ some q
      → In q (presentations p ks)
  unfolding presentations
  presentations_In p k q (j ∷ ks) (inl e) h = rw (ap (presented p) (sym e) ∙ h) (inl refl)
  presentations_In p k q (j ∷ ks) (inr m) h = later (presented p j) (presentations_In p k q ks m h)
    where
      later :
          (o : Option Presentation)
          → In q (presentations p ks)
          → In q (and_then o (presentations p ks))
      later none n = n
      later (some r) n = inr n
  presentations_In p k q [] m h = absurd m

-- No token is replayed against the broker: after any history of connections in which a
-- connection presented a nonce for a leaf, a connection that presents the same leaf with that
-- nonce or a lower one is denied as a replay, while the leaf has not expired.
pub connect_replay_refused :
    (c : Crypto) (w : Wire) (show : ℕ → Text) (p : BrokerPolicy c) (st : State)
    (ks : List Connection) (j k : Connection) (q r : Presentation)
    → st.nonces ≡ new
    → In j ks
    → presented c w p j ≡ some q
    → presented c w p k ≡ some r
    → q.leaf ≡ r.leaf
    → r.nonce ≤ q.nonce
    → All (IsLiveFor r.leaf r.not_after_ms) (presentations c w p ks)
    → IsLiveFor r.leaf r.not_after_ms r
    → (connect c w show p (run c w show p st ks) k).1
      ≡ ok (deny (codes "replayed authorization token"))
connect_replay_refused c w show p st ks j k q r start m hj hk same le live now =
    (connect-Follows c w show p (run c w show p st ks) k).said r hk
    ∙ ap (λ n. ok (nonce_decision (present n r).1))
        (run-serve c w show p st ks ∙ ap (λ n. serve n (presentations c w p ks)) start)
    ∙ ap (λ a. ok (nonce_decision a))
        (replay_refused r.leaf r.not_after_ms (presentations c w p ks) q r live now same refl
          (presentations_In c w p j q ks m hj) le)
