-- ===== src/Gateway/Tests.antt =====
-- The gateway on a listing and three calls, and the theorems at them.
use quantmlayer.Prelude.{
  none, arith, ◌≤◌, ◌≡◌, refl, subst, ◌↔◌, ◌⊎◌, inl, Option, some, [], ◌∷◌, length, ok, err,
}
use quantmlayer.Text.{codes}
use quantmlayer.Audit.{AuditLog, Digests, verify}
use quantmlayer.Gateway.{new, allow, deny, gated, unknown_tool}
use quantmlayer.Gateway.Inspection.{parse_tools_call, inspect_tools_call}
use quantmlayer.Gateway.Verdicts.{Admits, inspect_tools_call_iff}
use quantmlayer.Gateway.Proxy.{
  usage, cmd, State, Handshake, handshake, start, from_client, Reach, here, next, client, server,
  from_server,
}
use quantmlayer.Gateway.Greeting.{Keeps, handshake_bounds}
use quantmlayer.Gateway.Relay.{IsForwarded, IsAnswered, from_client_outcome}
use quantmlayer.Gateway.Interleavings.{IsOpen, Reach-IsOpen}
use quantmlayer.Gateway.Logging.{IsVerified, Reach-verify}
use quantmlayer.Gateway.Samples.{mapping, field, end, call, quoted, toy_json}

abbrev digests : Digests
digests = record { sha256 = λ m. 7 ∷ []; event_json = λ e. some e.target }

abbrev greeted : Handshake
unfolding handshake
greeted =
    handshake toy_json 0 (record new { gate_state_change = codes "drop" ∷ [] }) []
      (codes "log" ∷ codes "l " ∷ codes "later" ∷ [])

abbrev began : State
unfolding start handshake
began = start greeted (some (codes "audit.jsonl"))

greeting_runs : (greeted.buffered ≡ codes "log" ∷ []) × (greeted.unread ≡ codes "later" ∷ [])
unfolding greeted
greeting_runs = (refl, refl)

calls_run :
    (inspect_tools_call toy_json began.policy (codes "drop") (quoted []) ≡ deny gated)
    × (inspect_tools_call toy_json began.policy (codes "move") (quoted []) ≡ deny unknown_tool)
unfolding inspect_tools_call began
calls_run = (refl, refl)

options_run : cmd (codes "--gate" ∷ codes "drop" ∷ codes "--" ∷ []) ≡ err usage
unfolding cmd
options_run = refl

handshake_bounds_example :
    (length (handshake toy_json 0 new [] (codes "log" ∷ codes "l " ∷ [])).buffered ≤ 101)
    × Keeps toy_json []
        (codes "log" ∷ codes "l " ∷ [])
        (handshake toy_json 0 new [] (codes "log" ∷ codes "l " ∷ []))
handshake_bounds_example = handshake_bounds toy_json new (codes "log" ∷ codes "l " ∷ [])

inspect_tools_call_iff_example :
    (inspect_tools_call toy_json began.policy (codes "read") (quoted []) ≡ allow)
    ↔ Admits toy_json began.policy (codes "read") (quoted [])
inspect_tools_call_iff_example =
    inspect_tools_call_iff toy_json began.policy (codes "read") (quoted [])

from_client_outcome_example :
    IsForwarded toy_json digests began
      (codes "d")
      (from_client toy_json digests 5 began (codes "d"))
    ⊎ IsAnswered toy_json digests began
        (codes "d")
        (from_client toy_json digests 5 began (codes "d"))
from_client_outcome_example = from_client_outcome toy_json digests 5 began (codes "d")

-- A good call, a gated one, a line of the server, and one with a wrong type.
abbrev ran : State
unfolding from_client from_server
ran =
    from_client toy_json digests 8
      (from_server toy_json
        (from_client toy_json digests 6 (from_client toy_json digests 5 began (codes "r"))
          (codes "d"))
        (codes "x"))
      (codes "w")

run_steps : Reach toy_json digests began ran
unfolding from_client from_server
run_steps =
    next
      (next (next (next here (client 5 (codes "r"))) (client 6 (codes "d"))) (server (codes "x")))
      (client 8 (codes "w"))

only_the_good_call : ran.to_server ≡ codes "r" ∷ []
unfolding from_client from_server began
only_the_good_call = refl

Reach-IsOpen_example : IsOpen toy_json digests began.policy ran.policy (codes "read")
unfolding from_client from_server began parse_tools_call
Reach-IsOpen_example =
    Reach-IsOpen toy_json digests began ran refl run_steps (codes "r") (inl refl)
      (call (codes "read") (quoted (codes "a"))) (codes "read")
      (mapping (field (codes "path") (quoted (codes "a")) end)) refl refl

the_empty_log : (l : AuditLog) → ◌≡◌ {A = Option AuditLog} (some []) (some l) → [] ≡ l
the_empty_log l e = cc

empty-IsVerified : IsVerified digests began.log
unfolding began verify
empty-IsVerified l e small = subst (λ x. verify digests x ≡ ok tt) (the_empty_log l e) refl

abbrev logged : AuditLog
unfolding from_client from_server began
logged = elim ran.log [ none ↦ [] | some l ↦ l ]

Reach-verify_example : verify digests logged ≡ ok tt
unfolding from_client from_server began
Reach-verify_example =
    Reach-verify toy_json digests began ran empty-IsVerified run_steps logged refl (omega arith)
