-- ===== src/Broker/Tests.antt =====
-- Runs of the broker with a token-gated policy, and the theorems at them.
use quantmlayer.Prelude.{
  ℕ, ◌≡◌, refl, inl, true, Option, none, some, List, [], ◌∷◌, any, arith, All, ok,
}
use quantmlayer.Text.{Text, codes}
use quantmlayer.Token.Samples.{toy, wire}
use quantmlayer.Token.{hash, authorize, request_from_hex}
use quantmlayer.Nonce.{new}
use quantmlayer.Nonce.Replay.{Presentation, IsLiveFor}
use quantmlayer.Profile.Matching.{host_matches}
use quantmlayer.Broker.{
  allow, deny, canary_deny_reason, State, BrokerPolicy, is_canary, token_gated, evaluate,
  authorize_connect,
}
use quantmlayer.Broker.Address.{Ipv4, IpAddr, v4, is_blocked_v4}
use quantmlayer.Broker.Address.Blocks.{
  number, in_block, blocked_blocks, IsOctets, is_blocked_v4-blocks,
}
use quantmlayer.Broker.Gate.{Passed, authorize_connect-Passed}
use quantmlayer.Broker.Runs.{
  Connection, presented, presentations, connect, run, connect_replay_refused,
}
use quantmlayer.Broker.Connect.{handle}
use quantmlayer.Broker.Connect.Reports.{Left, handle_records}

abbrev show : ℕ → Text
show n = n ∷ []

abbrev gated : BrokerPolicy toy
gated = record {
  default_deny = true;
  allow_domains = codes "example.com" ∷ [];
  block_private_ranges = true;
  trusted_roots = true ∷ [];
  has_audit = true;
  system = none;
  canary_destinations = codes "canary.test" ∷ [];
  canary_id = none;
  has_hook = true;
  attributor = none;
}

abbrev start : State
start = record { nonces = new; events = []; calls = [] }

abbrev api : Text
api = codes "api.example.com"

abbrev blob : Option Text
blob = some (codes "01")

abbrev public_ip : Ipv4
public_ip = record { a = 93; b = 184; c = 216; d = 34 }

abbrev metadata_ip : Ipv4
metadata_ip = record { a = 169; b = 254; c = 169; d = 254 }

metadata_runs :
    evaluate toy gated api (v4 metadata_ip ∷ [])
    ≡ deny (codes "resolves to a private/link-local address")
unfolding evaluate
metadata_runs = refl

canary_runs :
    (authorize_connect toy wire show 0 gated start (codes "canary.test") 443 blob 5).1
    ≡ ok (deny canary_deny_reason)
unfolding authorize_connect
canary_runs = refl

gate_runs : (authorize_connect toy wire show 0 gated start api 443 blob 5).1 ≡ ok allow
unfolding authorize_connect
gate_runs = refl

authorize_connect-Passed_example : Passed toy wire gated new api blob 5
authorize_connect-Passed_example =
    authorize_connect-Passed toy wire show 0 gated start api 443 blob 5 gate_runs

metadata-IsOctets : IsOctets metadata_ip
metadata-IsOctets = record {
  a_range = omega arith;
  b_range = omega arith;
  c_range = omega arith;
  d_range = omega arith;
}

is_blocked_v4-blocks_example :
    is_blocked_v4 metadata_ip ≡ any (in_block (number metadata_ip)) blocked_blocks
is_blocked_v4-blocks_example = is_blocked_v4-blocks metadata_ip metadata-IsOctets

abbrev connection : ℕ → Connection
connection now_ms = record { host = api; port = 443; auth = blob; now_ms = now_ms; stamp = now_ms }

abbrev shown : ℕ → Presentation
shown now_ms = record {
  leaf = codes "303030310030303034";
  nonce = 7;
  not_after_ms = 0;
  now_ms = now_ms;
}

first_shown : presented toy wire gated (connection 10) ≡ some (shown 10)
unfolding presented host_matches authorize hash request_from_hex is_canary token_gated
first_shown = refl

second_shown : presented toy wire gated (connection 20) ≡ some (shown 20)
unfolding presented host_matches authorize hash request_from_hex is_canary token_gated
second_shown = refl

shown_live :
    All
      (IsLiveFor (codes "303030310030303034") 0)
      (presentations toy wire gated (connection 10 ∷ []))
unfolding presentations host_matches authorize hash request_from_hex is_canary token_gated
shown_live = ((refl, λ _. refl), tt)

connect_replay_refused_example :
    (connect toy wire show gated
      (run toy wire show gated start (connection 10 ∷ []))
      (connection 20)).1
    ≡ ok (deny (codes "replayed authorization token"))
connect_replay_refused_example =
    connect_replay_refused toy wire show gated start (connection 10 ∷ []) (connection 10)
      (connection 20) (shown 10) (shown 20) refl (inl refl) first_shown second_shown refl
      (omega arith) shown_live (refl, λ _. refl)

abbrev resolved : List IpAddr
resolved = v4 public_ip ∷ []

handle_runs : (handle toy wire show gated 0 start api 443 blob 5 none (some resolved)).1 ≡ ok allow
unfolding handle
handle_runs = refl

handle_records_example :
    Left toy wire show gated 0 start api 443 none
      (handle toy wire show gated 0 start api 443 blob 5 none (some resolved))
      allow
handle_records_example =
    handle_records toy wire show gated 0 start api 443 blob 5 none (some resolved) allow handle_runs
