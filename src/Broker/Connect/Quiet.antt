-- ===== src/Broker/Connect/Quiet.antt =====
-- What `authorize_connect` and `evaluate` leave alone: they record nothing and trip nothing but on a
-- canary.
use quantmlayer.Prelude.{
  ℕ, ◌≡◌, refl, inl, inr, false, Option, none, some, List, last?, any, Bool-cases, Outcome, ok, err,
}
use quantmlayer.Text.{Text, codes, text_eq}
use quantmlayer.Capability.{Action}
use quantmlayer.Identity.{refused, panicked, TokenResult, Crypto}
use quantmlayer.Token.{Token, AuthzRequest, Wire, hash, authorize, request_from_hex}
use quantmlayer.Nonce.{NonceCheck, fresh, replay, check_and_record}
use quantmlayer.Broker.{
  Decision, allow, deny, State, Panic, panic, Answer, BrokerPolicy, is_nil, names_host,
  nonce_decision, is_canary_trip, token_gated, host_allowed, is_canary, evaluate, admit_leaf,
  admit_unless_replay, on_authorized, on_request, on_header, authorize_connect,
}
use quantmlayer.Broker.Address.{IpAddr, is_blocked_ip}

module _ (c : Crypto) (w : Wire) (show : ℕ → Text) (p : BrokerPolicy c) where
  -- No decision but a canary's trip has the canary's reason.
  abbrev pub NoTrip : Outcome Panic Decision → Type 0
  NoTrip (ok d) = is_canary_trip d ≡ false
  NoTrip (err panic) = Unit

  -- An answer that recorded and reported nothing yet.
  pub record Quiet (st : State) (a : Answer) : Type 0 where
    pub events : a.0.events ≡ st.events
    pub calls : a.0.calls ≡ st.calls
    pub no_trip : NoTrip a.1

  Quiet-leaf :
      (st : State) (req : AuthzRequest) (now_ms : ℕ) (o : Option Token)
      → Quiet st (admit_leaf c w st req now_ms o)
  unfolding admit_leaf text_eq
  Quiet-leaf st req now_ms none = record { events = refl; calls = refl; no_trip = tt }
  Quiet-leaf st req now_ms (some leaf) = record {
    events = refl;
    calls = refl;
    no_trip =
        no_trip_of
          (check_and_record st.nonces (hash c w leaf) req.action.body.nonce leaf.body.not_after_ms
            now_ms).1;
  }
    where
      no_trip_of : (r : NonceCheck) → is_canary_trip (nonce_decision r) ≡ false
      no_trip_of fresh = refl
      no_trip_of replay = unfold text_eq in refl

  stays : (st : State) (d : Decision) → is_canary_trip d ≡ false → Quiet st (st, ok d)
  stays st d h = record { events = refl; calls = refl; no_trip = h }

  Quiet-authorized :
      (st : State) (host : Text) (req : AuthzRequest) (now_ms : ℕ) (r : TokenResult Action)
      → Quiet st (on_authorized c w st host req now_ms r)
  unfolding on_authorized admit_unless_replay text_eq
  Quiet-authorized st host req now_ms (ok action) = elim (Bool-cases (names_host host action)) [
    | inl named ↦ rw named (Quiet-leaf st req now_ms (last? req.chain))
    | inr other ↦ rw other (stays st (deny (codes "token does not authorize this host")) refl)
  ]
  Quiet-authorized st host req now_ms (err (refused e)) =
      stays st (deny (codes "invalid authorization token")) refl
  Quiet-authorized st host req now_ms (err panicked) = record {
    events = refl;
    calls = refl;
    no_trip = tt;
  }

  Quiet-request :
      (st : State) (host : Text) (now_ms : ℕ) (r : TokenResult AuthzRequest)
      → Quiet st (on_request c w p st host now_ms r)
  unfolding on_request text_eq
  Quiet-request st host now_ms (ok req) =
      Quiet-authorized st host req now_ms (authorize c w req p.trusted_roots now_ms)
  Quiet-request st host now_ms (err (refused e)) =
      stays st (deny (codes "malformed authorization token")) refl
  Quiet-request st host now_ms (err panicked) = record { events = refl; calls = refl; no_trip = tt }

  Quiet-header :
      (st : State) (host : Text) (now_ms : ℕ) (auth : Option Text)
      → Quiet st (on_header c w p st host now_ms auth)
  unfolding on_header text_eq
  Quiet-header st host now_ms none = stays st (deny (codes "missing authorization token")) refl
  Quiet-header st host now_ms (some blob) = Quiet-request st host now_ms (request_from_hex c w blob)

  pub Quiet-connect :
      (stamp : ℕ) (st : State) (host : Text) (port : ℕ) (auth : Option Text) (now_ms : ℕ)
      → is_canary c p host ≡ false
      → Quiet st (authorize_connect c w show stamp p st host port auth now_ms)
  unfolding authorize_connect text_eq
  Quiet-connect stamp st host port auth now_ms h = rw h (elim (Bool-cases (token_gated c p)) [
    | inl gated ↦ rw gated (Quiet-header st host now_ms auth)
    | inr open_ ↦ rw open_ (elim (Bool-cases (host_allowed c p host)) [
      | inl listed ↦ rw listed (stays st allow refl)
      | inr unlisted ↦ rw unlisted (stays st (deny (codes "host not in allow-list")) refl)
    ])
  ])

  pub evaluate_no_trip :
      (host : Text) (ips : List IpAddr) → is_canary_trip (evaluate c p host ips) ≡ false
  unfolding evaluate text_eq
  evaluate_no_trip host ips = elim (Bool-cases (host_allowed c p host)) [
    | inr h ↦ rw h refl
    | inl h ↦ rw h (elim (Bool-cases p.block_private_ranges) [
      | inr k ↦ rw k refl
      | inl k ↦ rw k (elim (Bool-cases (is_nil ips)) [
        | inl n ↦ rw n refl
        | inr n ↦
            rw n
              (elim (Bool-cases (any is_blocked_ip ips)) [ inl b ↦ rw b refl | inr b ↦ rw b refl ])
      ])
    ])
  ]
