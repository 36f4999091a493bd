-- ===== src/Broker/Connect.antt =====
-- crates/ql-broker/src/proxy.rs: the decision of one CONNECT, from the header to the report. The
-- resolver's answer is an argument: no answer, or a list of addresses.
pub mod Quiet
pub mod Reports
use quantmlayer.Prelude.{
  ℕ, ◌≡◌, refl, sym, ap, subst, ◌∙◌, inl, inr, Bool, true, false, Option, none, some, List, [], ◌∷◌,
  ◌++◌, last?, if◌then◌else◌, any, Bool-cases, Outcome, ok, err,
}
use quantmlayer.Text.{Text, codes, text_eq}
use quantmlayer.Capability.{Action}
use quantmlayer.Identity.{Failure, refused, panicked, TokenResult, Crypto}
use quantmlayer.Token.{Token, AuthzRequest, Wire, hash, authorize, request_from_hex}
use quantmlayer.Nonce.{NonceCheck, fresh, replay, check_and_record}
use quantmlayer.Audit.{AuditEvent}
use quantmlayer.Broker.{
  Decision, allow, deny, canary_deny_reason, HookCall, State, Panic, panic, Answer, BrokerPolicy,
  is_nil, names_host, nonce_decision, is_canary_trip, canary_event, record_canary, egress_event,
  report_final, token_gated, host_allowed, is_canary, evaluate, admit_leaf, admit_unless_replay,
  on_authorized, on_request, on_header, authorize_connect,
}
use quantmlayer.Broker.Address.{IpAddr, is_blocked_ip}

module _ (c : Crypto) (w : Wire) (show : ℕ → Text) (p : BrokerPolicy c) where
  -- `report_final`, then the reply.
  unfoldable pub settle : ℕ → State → Text → ℕ → Option ℕ → Decision → Answer
  unfolding report_final
  settle stamp st host port peer_port d =
      (report_final c show stamp p st host port d peer_port, ok d)

  -- The match on the resolver's answer, then on `evaluate`.
  unfoldable pub on_resolved : ℕ → State → Text → ℕ → Option ℕ → Option (List IpAddr) → Answer
  unfolding settle evaluate
  on_resolved stamp st host port peer_port none =
      settle stamp st host port peer_port (deny (codes "host did not resolve"))
  on_resolved stamp st host port peer_port (some ips) =
      settle stamp st host port peer_port (evaluate c p host ips)

  unfoldable pub on_decided : ℕ → Text → ℕ → Option ℕ → Option (List IpAddr) → Answer → Answer
  unfolding settle on_resolved
  on_decided stamp host port peer_port resolved (st, ok (deny reason)) =
      settle stamp st host port peer_port (deny reason)
  on_decided stamp host port peer_port resolved (st, ok allow) =
      on_resolved stamp st host port peer_port resolved
  on_decided stamp host port peer_port resolved (st, err panic) = (st, err panic)

  unfoldable pub handle :
      ℕ → State → Text → ℕ → Option Text → ℕ → Option ℕ → Option (List IpAddr) → Answer
  unfolding on_decided authorize_connect
  handle stamp st host port auth now_ms peer_port resolved =
      on_decided stamp host port peer_port resolved
        (authorize_connect c w show stamp p st host port auth now_ms)
