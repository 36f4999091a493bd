-- ===== src/Broker/Connect/Reports.antt =====
-- What a connection leaves in the log and with the hook, and what an opened tunnel has passed.
use quantmlayer.Prelude.{
  ℕ, ◌≡◌, refl, sym, ap, subst, ◌∙◌, inl, inr, Bool, true, false, Option, none, some, List, [], ◌∷◌,
  ◌++◌, if◌then◌else◌, Bool-cases, ok, err,
}
use quantmlayer.Text.{Text, codes, text_eq}
use quantmlayer.Identity.{Crypto}
use quantmlayer.Token.{Wire}
use quantmlayer.Audit.{AuditEvent}
use quantmlayer.Broker.{
  Decision, allow, deny, canary_deny_reason, HookCall, State, panic, Answer, BrokerPolicy,
  is_canary_trip, canary_event, record_canary, egress_event, report_final, is_canary, evaluate,
  authorize_connect,
}
use quantmlayer.Broker.Address.{IpAddr}
use quantmlayer.Broker.Gate.{answered, Passed, authorize_connect-Passed}
use quantmlayer.Broker.Connect.{settle, on_resolved, on_decided, handle}
use quantmlayer.Broker.Connect.Quiet.{Quiet, evaluate_no_trip, Quiet-connect}

module _ (c : Crypto) (w : Wire) (show : ℕ → Text) (p : BrokerPolicy c) where
  -- What one connection leaves behind: one event if there is a sink, one call if there is a hook.
  abbrev one_event : ℕ → Text → ℕ → Option ℕ → Decision → List AuditEvent
  one_event stamp host port peer_port d =
      if p.has_audit
      then (if is_canary c p host
          then canary_event c show stamp p host port
          else egress_event c show stamp p host port d peer_port)
        ∷ []
      else []

  abbrev one_call : Text → ℕ → Option ℕ → Decision → List HookCall
  one_call host port peer_port d =
      if p.has_hook
      then record { host = host; port = port; decision = d; peer_port = peer_port } ∷ []
      else []

  ++-right : {A : Type 0} → (xs : List A) → (xs ++ []) ≡ xs
  ++-right [] = refl
  ++-right (x ∷ xs) = ap (λ ys. x ∷ ys) (++-right xs)

  -- An untripped decision leaves its own event and call.
  report_events :
      (stamp : ℕ) (st : State) (host : Text) (port : ℕ) (peer_port : Option ℕ) (d : Decision)
      → is_canary c p host ≡ false
      → is_canary_trip d ≡ false
      → (report_final c show stamp p st host port d peer_port).events
        ≡ (st.events ++ one_event stamp host port peer_port d)
  unfolding report_final
  report_events stamp st host port peer_port d h t =
      rw (h, t)
        (elim (Bool-cases p.has_audit) [
          | inl a ↦ rw a (elim (Bool-cases p.has_hook) [ inl k ↦ rw k refl | inr k ↦ rw k refl ])
          | inr a ↦ rw a (elim (Bool-cases p.has_hook) [
            | inl k ↦ rw k (sym (++-right st.events))
            | inr k ↦ rw k (sym (++-right st.events))
          ])
        ])

  -- A report calls the hook once, and a canary's records no further event.
  report_calls :
      (stamp : ℕ) (st : State) (host : Text) (port : ℕ) (peer_port : Option ℕ) (d : Decision)
      → (report_final c show stamp p st host port d peer_port).calls
        ≡ (st.calls ++ one_call host port peer_port d)
  unfolding report_final
  report_calls stamp st host port peer_port d = elim (Bool-cases p.has_hook) [
    | inl k ↦ rw k (same_calls (is_canary_trip d) (λ x. x ++ _))
    | inr k ↦ rw k (same_calls (is_canary_trip d) (λ x. x) ∙ sym (++-right st.calls))
  ]
    where
      same_calls :
          (b : Bool) (f : List HookCall → List HookCall)
          → f
              (if b
                then st
                else if p.has_audit
                then record st {
                  events = st.events ++ egress_event c show stamp p host port d peer_port ∷ [];
                }
                else st).calls
            ≡ f st.calls
      same_calls true f = refl
      same_calls false f = elim (Bool-cases p.has_audit) [ inl a ↦ rw a refl | inr a ↦ rw a refl ]

  abbrev pub Left : ℕ → State → Text → ℕ → Option ℕ → Answer → Decision → Type 0
  Left stamp st host port peer_port a d =
      (a.0.events ≡ (st.events ++ one_event stamp host port peer_port d))
      × (a.0.calls ≡ (st.calls ++ one_call host port peer_port d))

  ok-injective_decision : (x y : Decision) → answered x ≡ answered y → x ≡ y
  ok-injective_decision x y e = cc

  settle-Left :
      (stamp : ℕ) (st now : State) (host : Text) (port : ℕ) (peer_port : Option ℕ) (x d : Decision)
      → is_canary c p host ≡ false
      → is_canary_trip x ≡ false
      → now.events ≡ st.events
      → now.calls ≡ st.calls
      → (settle c w show p stamp now host port peer_port x).1 ≡ ok d
      → Left stamp st host port peer_port (settle c w show p stamp now host port peer_port x) d
  unfolding settle
  settle-Left stamp st now host port peer_port x d h t e1 e2 s =
      let same : x ≡ d = ok-injective_decision x d s in
      (
        report_events stamp now host port peer_port x h t
            ∙ ap (λ es. es ++ one_event stamp host port peer_port x) e1
            ∙ ap (λ y. st.events ++ one_event stamp host port peer_port y) same,
        report_calls stamp now host port peer_port x
            ∙ ap (λ ks. ks ++ one_call host port peer_port x) e2
            ∙ ap (λ y. st.calls ++ one_call host port peer_port y) same,
      )

  decided-Left :
      (stamp : ℕ) (st : State) (host : Text) (port : ℕ) (peer_port : Option ℕ)
      (resolved : Option (List IpAddr)) (a : Answer) (d : Decision)
      → is_canary c p host ≡ false
      → Quiet c w show p st a
      → (on_decided c w show p stamp host port peer_port resolved a).1 ≡ ok d
      → Left stamp st host port peer_port
          (on_decided c w show p stamp host port peer_port resolved a)
          d
  unfolding on_decided on_resolved text_eq
  decided-Left stamp st host port peer_port resolved (now, ok (deny r)) d h q s =
      settle-Left stamp st now host port peer_port (deny r) d h q.no_trip q.events q.calls s
  decided-Left stamp st host port peer_port none (now, ok allow) d h q s =
      settle-Left stamp st now host port peer_port (deny (codes "host did not resolve")) d h refl
        q.events q.calls s
  decided-Left stamp st host port peer_port (some ips) (now, ok allow) d h q s =
      settle-Left stamp st now host port peer_port (evaluate c p host ips) d h
        (evaluate_no_trip c w show p host ips) q.events q.calls s
  decided-Left stamp st host port peer_port resolved (now, err panic) d h q s = cc

  canary-Left :
      (stamp : ℕ) (st : State) (host : Text) (port : ℕ) (peer_port : Option ℕ)
      → is_canary c p host ≡ true
      → Left stamp st host port peer_port
          (settle c w show p stamp
            (record_canary c show stamp p st host port)
            host
            port
            peer_port
            (deny canary_deny_reason))
          (deny canary_deny_reason)
  unfolding settle report_final record_canary text_eq
  canary-Left stamp st host port peer_port h = rw h (elim (Bool-cases p.has_audit) [
    | inl a ↦ rw a (elim (Bool-cases p.has_hook) [
      | inl k ↦ rw k (refl, refl)
      | inr k ↦ rw k (refl, sym (++-right st.calls))
    ])
    | inr a ↦ rw a (elim (Bool-cases p.has_hook) [
      | inl k ↦ rw k (sym (++-right st.events), refl)
      | inr k ↦ rw k (sym (++-right st.events), sym (++-right st.calls))
    ])
  ])

  tripped :
      (stamp : ℕ) (st : State) (host : Text) (port : ℕ) (peer_port : Option ℕ)
      (resolved : Option (List IpAddr)) (a : Answer) (d : Decision)
      → is_canary c p host ≡ true
      → a ≡ (record_canary c show stamp p st host port, answered (deny canary_deny_reason))
      → (on_decided c w show p stamp host port peer_port resolved a).1 ≡ ok d
      → Left stamp st host port peer_port
          (on_decided c w show p stamp host port peer_port resolved a)
          d
  unfolding on_decided
  tripped stamp st host port peer_port resolved a d h e =
      subst
        (λ x.
          (on_decided c w show p stamp host port peer_port resolved x).1 ≡ ok d
          → Left stamp st host port peer_port
              (on_decided c w show p stamp host port peer_port resolved x) d)
        (sym e)
        λ s.
          subst
            (Left stamp st host port peer_port (
              settle c w show p stamp (record_canary c show stamp p st host port) host port
                peer_port (deny canary_deny_reason)))
            (ok-injective_decision (deny canary_deny_reason) d (unfold settle in s))
            (canary-Left stamp st host port peer_port h)

  decided_allow :
      (stamp : ℕ) (host : Text) (port : ℕ) (peer_port : Option ℕ) (ips : List IpAddr) (a : Answer)
      → (on_decided c w show p stamp host port peer_port (some ips) a).1 ≡ ok allow
      → (a.1 ≡ ok allow) × (evaluate c p host ips ≡ allow)
  unfolding on_decided on_resolved settle
  decided_allow stamp host port peer_port ips (now, ok (deny r)) k = cc
  decided_allow stamp host port peer_port ips (now, ok allow) k =
      (refl, ok-injective_decision (evaluate c p host ips) allow k)
  decided_allow stamp host port peer_port ips (now, err panic) k = cc

-- A CONNECT that is answered leaves exactly one audit event, where there is a sink, and exactly one
-- hook call, where there is a hook, and both carry its final decision: the event is the canary's
-- on a canary host and the egress event of the decision on every other.
pub handle_records :
    (c : Crypto) (w : Wire) (show : ℕ → Text) (p : BrokerPolicy c) (stamp : ℕ) (st : State)
    (host : Text) (port : ℕ) (auth : Option Text) (now_ms : ℕ) (peer_port : Option ℕ)
    (resolved : Option (List IpAddr)) (d : Decision)
    → (handle c w show p stamp st host port auth now_ms peer_port resolved).1 ≡ ok d
    → Left c w show p stamp st host port peer_port
        (handle c w show p stamp st host port auth now_ms peer_port resolved)
        d
unfolding handle
handle_records c w show p stamp st host port auth now_ms peer_port resolved d s =
    elim (Bool-cases (is_canary c p host)) [
      | inr plain ↦
          decided-Left c w show p stamp st host port peer_port resolved
            (authorize_connect c w show stamp p st host port auth now_ms) d plain
            (Quiet-connect c w show p stamp st host port auth now_ms plain) s
      | inl canary ↦
          tripped c w show p stamp st host port peer_port resolved
            (authorize_connect c w show stamp p st host port auth now_ms) d canary
            (unfold authorize_connect in rw canary refl) s
    ]

-- A tunnel is allowed only if the host resolved, the authorization passed, and `evaluate` allowed
-- every address.
pub handle-Passed :
    (c : Crypto) (w : Wire) (show : ℕ → Text) (p : BrokerPolicy c) (stamp : ℕ) (st : State)
    (host : Text) (port : ℕ) (auth : Option Text) (now_ms : ℕ) (peer_port : Option ℕ)
    (ips : List IpAddr)
    → (handle c w show p stamp st host port auth now_ms peer_port (some ips)).1 ≡ ok allow
    → Passed c w p st.nonces host auth now_ms × (evaluate c p host ips ≡ allow)
unfolding handle
handle-Passed c w show p stamp st host port auth now_ms peer_port ips h =
    let (first, second) =
      decided_allow c w show p stamp host port peer_port ips
        (authorize_connect c w show stamp p st host port auth now_ms) h in
    (authorize_connect-Passed c w show stamp p st host port auth now_ms first, second)
