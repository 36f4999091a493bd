-- ===== src/Broker.antt =====
-- crates/ql-broker/src/policy.rs: the egress decision. A call takes the broker's state and returns
-- the next one with its answer; the state holds the nonce store, the events handed to the audit
-- sink and the calls of the decision hook, in order. A panic of the header's decoding is a value.
pub mod Address
pub mod Gate
pub mod Runs
pub mod Connect
mod Tests
use quantmlayer.Prelude.{
  ℕ, Bool, true, false, not, Option, none, some, List, [], ◌∷◌, ◌++◌, any, last?, if◌then◌else◌,
  Outcome, ok, err,
}
use quantmlayer.Text.{Text, codes, text_eq}
use quantmlayer.Capability.{Action, fs_read, fs_write, net_connect, exec}
use quantmlayer.Identity.{TokenError, Failure, refused, panicked, TokenResult, Crypto}
use quantmlayer.Token.{Token, AuthzRequest, Wire, hash, authorize, request_from_hex}
use quantmlayer.Nonce.{NonceCheck, fresh, replay, NonceStore, check_and_record}
use quantmlayer.Audit.{SystemIdentity, AuditEvent}
use quantmlayer.Audit as Audit
use quantmlayer.Profile.{NetPolicy}
use quantmlayer.Profile.Matching.{host_matches}
use Address.{IpAddr, is_blocked_ip}

pub data Decision : Type 0 where
  allow : Decision
  deny : (reason : Text) → Decision

abbrev pub canary_deny_reason : Text
canary_deny_reason = codes "canary destination (exfiltration attempt blocked)"

-- A callback's arguments.
pub record HookCall : Type 0 where
  pub host : Text
  pub port : ℕ
  pub decision : Decision
  pub peer_port : Option ℕ

-- The state that connections share.
pub record State : Type 0 where
  pub nonces : NonceStore
  pub events : List AuditEvent
  pub calls : List HookCall

pub data Panic : Type 0 where
  panic : Panic

abbrev pub Answer : Type 0
Answer = State × Outcome Panic Decision

pub record BrokerPolicy (c : Crypto) : Type 0 where
  pub default_deny : Bool
  pub allow_domains : List Text
  pub block_private_ranges : Bool
  pub trusted_roots : List (Crypto.Key c)
  pub has_audit : Bool
  pub system : Option SystemIdentity
  pub canary_destinations : List Text
  pub canary_id : Option Text
  pub has_hook : Bool
  pub attributor : Option (ℕ → Option Text)

-- Vec::is_empty
abbrev pub is_nil {ℓ} : {A : Type ℓ} → List A → Bool
is_nil [] = true
is_nil (x ∷ xs) = false

abbrev pub is_empty : Text → Bool
is_empty [] = true
is_empty (c ∷ s) = false

-- The guard `Action::NetConnect { domain } if host_matches(host, &domain)`.
abbrev pub names_host : Text → Action → Bool
names_host host (net_connect domain) = host_matches host domain
names_host host _ = false

abbrev pub nonce_decision : NonceCheck → Decision
nonce_decision fresh = allow
nonce_decision replay = deny (codes "replayed authorization token")

-- `matches!(decision, Decision::Deny(r) if *r == CANARY_DENY_REASON)`
abbrev pub is_canary_trip : Decision → Bool
is_canary_trip allow = false
is_canary_trip (deny r) = text_eq r canary_deny_reason

-- format!("{host}:{port}"), for a printer of ports
abbrev pub target_of : (ℕ → Text) → Text → ℕ → Text
target_of show host port = host ++ (58 ∷ show port)

module _ (c : Crypto) where
  open c use {Key}

  unfoldable pub from_net_policy : NetPolicy → BrokerPolicy c
  from_net_policy np = record {
    default_deny = np.default_deny;
    allow_domains = np.allow_domains;
    block_private_ranges = np.block_private_ranges;
    trusted_roots = [];
    has_audit = false;
    system = none;
    canary_destinations = [];
    canary_id = none;
    has_hook = false;
    attributor = none;
  }

  unfoldable pub with_token_gating : List Key → BrokerPolicy c → BrokerPolicy c
  with_token_gating roots p = record p { trusted_roots = roots }

  unfoldable pub with_canaries : List Text → Option Text → BrokerPolicy c → BrokerPolicy c
  with_canaries hosts id p = record p { canary_destinations = hosts; canary_id = id }

  unfoldable pub token_gated : BrokerPolicy c → Bool
  token_gated p = not (is_nil p.trusted_roots)

  unfoldable pub host_allowed : BrokerPolicy c → Text → Bool
  unfolding host_matches
  host_allowed p host =
      if not p.default_deny then true else any (λ d. host_matches host d) p.allow_domains

  unfoldable pub is_canary : BrokerPolicy c → Text → Bool
  unfolding host_matches
  is_canary p host = any (λ d. host_matches host d) p.canary_destinations

  -- `stamp` is AuditLog::now_millis() at the call, `show` prints a port.
  unfoldable pub canary_event : (ℕ → Text) → ℕ → BrokerPolicy c → Text → ℕ → AuditEvent
  canary_event show stamp p host port = record {
    ts_millis = stamp;
    actor = codes "broker";
    action = codes "canary.triggered";
    target = target_of show host port;
    decision = Audit.deny;
    detail = elim p.canary_id [
      | none ↦ codes "verdict=blocked (exfiltration attempt)"
      | some id ↦ codes "canary_id=" ++ (id ++ codes " verdict=blocked (exfiltration attempt)")
    ];
    system = p.system;
  }

  unfoldable pub record_canary : (ℕ → Text) → ℕ → BrokerPolicy c → State → Text → ℕ → State
  unfolding canary_event
  record_canary show stamp p st host port =
      if p.has_audit
      then record st { events = st.events ++ canary_event show stamp p host port ∷ [] }
      else st

  unfoldable pub evaluate : BrokerPolicy c → Text → List IpAddr → Decision
  unfolding host_allowed is_blocked_ip
  evaluate p host resolved =
      if not (host_allowed p host)
      then deny (codes "host not in allow-list")
      else if p.block_private_ranges
      then if is_nil resolved
        then deny (codes "host did not resolve")
        else if any is_blocked_ip resolved
        then deny (codes "resolves to a private/link-local address")
        else allow
      else allow

  -- The detail of an egress event: the owner of the connection, then the reason.
  unfoldable pub egress_detail : BrokerPolicy c → Option ℕ → Text → Text
  egress_detail p peer_port reason = elim (owner p.attributor peer_port) [
    | none ↦ reason
    | some who ↦ if is_empty reason then who else who ++ (32 ∷ reason)
  ]
    where
      owner : Option (ℕ → Option Text) → Option ℕ → Option Text
      owner (some f) (some port) = f port
      owner none _ = none
      owner (some f) none = none

  abbrev pub audit_of : Decision → Audit.Decision × Text
  audit_of allow = (Audit.allow, [])
  audit_of (deny r) = (Audit.deny, r)

  unfoldable pub egress_event :
      (ℕ → Text) → ℕ → BrokerPolicy c → Text → ℕ → Decision → Option ℕ → AuditEvent
  unfolding egress_detail
  egress_event show stamp p host port decision peer_port = record {
    ts_millis = stamp;
    actor = codes "broker";
    action = codes "egress.connect";
    target = target_of show host port;
    decision = (audit_of decision).0;
    detail = egress_detail p peer_port (audit_of decision).1;
    system = p.system;
  }

  unfoldable pub report_final :
      (ℕ → Text) → ℕ → BrokerPolicy c → State → Text → ℕ → Decision → Option ℕ → State
  unfolding egress_event
  report_final show stamp p st host port decision peer_port =
      let audited : State =
        if is_canary_trip decision
        then st
        else if p.has_audit
        then record st {
          events = st.events ++ egress_event show stamp p host port decision peer_port ∷ [];
        }
        else st in
      if p.has_hook
      then record audited {
        calls =
            audited.calls
            ++ record { host = host; port = port; decision = decision; peer_port = peer_port } ∷ [];
      }
      else audited

  module _ (w : Wire) where
    -- `expect` of the chain's last token, then the store.
    unfoldable pub admit_leaf : State → AuthzRequest → ℕ → Option Token → Answer
    unfolding hash check_and_record
    admit_leaf st req now_ms none = (st, err panic)
    admit_leaf st req now_ms (some leaf) =
        let (m, r) =
          check_and_record st.nonces (hash c w leaf) req.action.body.nonce leaf.body.not_after_ms
            now_ms in
        (record st { nonces = m }, ok (nonce_decision r))

    unfoldable pub admit_unless_replay : State → AuthzRequest → ℕ → Answer
    unfolding admit_leaf
    admit_unless_replay st req now_ms = admit_leaf st req now_ms (last? req.chain)

    -- The match on the result of `authorize`.
    unfoldable pub on_authorized : State → Text → AuthzRequest → ℕ → TokenResult Action → Answer
    unfolding admit_unless_replay host_matches
    on_authorized st host req now_ms (ok action) =
        if names_host host action
        then admit_unless_replay st req now_ms
        else (st, ok (deny (codes "token does not authorize this host")))
    on_authorized st host req now_ms (err (refused e)) =
        (st, ok (deny (codes "invalid authorization token")))
    on_authorized st host req now_ms (err panicked) = (st, err panic)

    -- The match on the result of AuthzRequest::from_hex.
    unfoldable pub on_request :
        BrokerPolicy c → State → Text → ℕ → TokenResult AuthzRequest → Answer
    unfolding on_authorized authorize
    on_request p st host now_ms (ok req) =
        on_authorized st host req now_ms (authorize c w req p.trusted_roots now_ms)
    on_request p st host now_ms (err (refused e)) =
        (st, ok (deny (codes "malformed authorization token")))
    on_request p st host now_ms (err panicked) = (st, err panic)

    -- The match on the authorization header.
    unfoldable pub on_header : BrokerPolicy c → State → Text → ℕ → Option Text → Answer
    unfolding on_request request_from_hex
    on_header p st host now_ms none = (st, ok (deny (codes "missing authorization token")))
    on_header p st host now_ms (some blob) = on_request p st host now_ms (request_from_hex c w blob)

    unfoldable pub authorize_connect :
        (ℕ → Text) → ℕ → BrokerPolicy c → State → Text → ℕ → Option Text → ℕ → Answer
    unfolding is_canary record_canary token_gated on_header host_allowed
    authorize_connect show stamp p st host port auth now_ms =
        if is_canary p host
        then (record_canary show stamp p st host port, ok (deny canary_deny_reason))
        else if token_gated p
        then on_header p st host now_ms auth
        else if host_allowed p host
        then (st, ok allow)
        else (st, ok (deny (codes "host not in allow-list")))
