-- ===== src/Gateway/Proxy.antt =====
-- The proxy of crates/ql-cli/src/mcp_gateway.rs: its options, the handshake that learns the tools,
-- and what one line from the client or from the server does. The lines are those that were read;
-- a read or a write that fails, which ends the proxy, and the two threads' locks are left out: a
-- line is handled as a whole, since the policy is locked while it is used.
use quantmlayer.Prelude.{
  ℕ, ◌+◌, Bool, true, false, Option, none, some, List, [], ◌∷◌, ◌++◌, ltb, if◌then◌else◌, Outcome,
  ok, err, ◌>>=◌, ◌>>◌, guard,
}
use quantmlayer.Text.{Text, codes, text_eq}
use quantmlayer.Text.Trim.{trim_end}
use quantmlayer.Audit
use quantmlayer.Audit.{AuditEvent, AuditLog, Digests, append}
use quantmlayer.Gateway.{
  number, string, object, null, Json, and_then, GatewayPolicy, new, reason_text, Verdict, allow,
  deny, get, as_str, load_tools_from_list_result,
}
use quantmlayer.Gateway.Inspection.{inspect_tools_call, parse_tools_call}

pub record Options : Type 0 where
  pub policy : GatewayPolicy
  pub audit_path : Option Text
  pub server_cmd : List Text

pub data OptionError : Type 0 where
  unknown_option : Text → OptionError
  usage : OptionError

abbrev push_gate : Text → Options → Options
push_gate t o = record o {
  policy = record o.policy { gate_state_change = o.policy.gate_state_change ++ t ∷ [] };
}

abbrev push_allow : Text → Options → Options
push_allow t o = record o {
  policy = record o.policy { allow_state_change = o.policy.allow_state_change ++ t ∷ [] };
}

abbrev set_open : Options → Options
set_open o = record o { policy = record o.policy { deny_unknown_tools = false } }

-- The loop of `cmd` over the arguments; an option that lacks its value at the end is passed over.
unfoldable pub parse_options : List Text → Options → Outcome OptionError Options
unfolding text_eq
parse_options [] o = ok o
parse_options (a ∷ []) o =
    if text_eq a (codes "--gate")
    then ok o
    else if text_eq a (codes "--allow")
    then ok o
    else if text_eq a (codes "--open")
    then ok (set_open o)
    else if text_eq a (codes "--audit")
    then ok (record o { audit_path = none })
    else if text_eq a (codes "--")
    then ok (record o { server_cmd = [] })
    else err (unknown_option a)
parse_options (a ∷ b ∷ rest) o =
    let gate = parse_options rest (push_gate b o) in
    let allow_ = parse_options rest (push_allow b o) in
    let open_ = parse_options (b ∷ rest) (set_open o) in
    let audit = parse_options rest (record o { audit_path = some b }) in
    if text_eq a (codes "--gate")
    then gate
    else if text_eq a (codes "--allow")
    then allow_
    else if text_eq a (codes "--open")
    then open_
    else if text_eq a (codes "--audit")
    then audit
    else if text_eq a (codes "--")
    then ok (record o { server_cmd = b ∷ rest })
    else err (unknown_option a)

abbrev pub is_nonempty : List Text → Bool
is_nonempty [] = false
is_nonempty (c ∷ cs) = true

-- cmd, up to the call of `run_proxy`
unfoldable pub cmd : List Text → Outcome OptionError Options
unfolding parse_options
cmd args = do
  o ← parse_options args (record { policy = new; audit_path = none; server_cmd = [] })
  guard (is_nonempty o.server_cmd) usage
  ok o

-- audit_event, with the time of the clock
unfoldable pub audit_event : ℕ → Text → Verdict → AuditEvent
unfolding reason_text
audit_event now_millis tool allow = record {
  ts_millis = now_millis;
  actor = codes "mcp-gateway";
  action = codes "mcp.tools_call";
  target = tool;
  decision = Audit.Decision.allow;
  detail = codes "forwarded";
  system = none;
}
audit_event now_millis tool (deny reason) = record {
  ts_millis = now_millis;
  actor = codes "mcp-gateway";
  action = codes "mcp.tools_call";
  target = tool;
  decision = Audit.Decision.deny;
  detail = reason_text tool reason;
  system = none;
}

-- What the proxy holds: the shared policy, the log if one was asked for, and the lines sent on to
-- the server and to the client, the oldest first. The request for the tool list, which the handshake
-- writes to the server before the loops begin, is not among them.
pub record State : Type 0 where
  pub policy : GatewayPolicy
  pub log : Option AuditLog
  pub to_server : List Text
  pub to_client : List Text

pub record Handshake : Type 0 where
  pub policy : GatewayPolicy
  pub buffered : List Text
  pub unread : List Text

abbrev pub handshake_id : Text
handshake_id = codes "__ql_gateway_tools_list__"

-- `let _ = log.append(…)`: a failed append leaves the log as it was.
abbrev pub or_unchanged {ℓ} : {A : Type ℓ} → AuditLog → Outcome A AuditLog → AuditLog
or_unchanged log (ok longer) = longer
or_unchanged log (err e) = log

module _ (j : Json) where
  open j use {Value, make, from_str, to_string}

  unfoldable pub deny_reply : Value → Text → Value
  deny_reply id reason = make (
      object (
        (codes "jsonrpc", make (string (codes "2.0")))
        ∷ (codes "id", id)
        ∷ (
          codes "error",
          make (
              object (
                (codes "code", make (number true (codes "-32001")))
                ∷ (codes "message", make (string (codes "blocked by ql mcp gateway: " ++ reason)))
                ∷ [])),
        )
        ∷ []))

  -- A message with a `result` may teach tools.
  unfoldable pub learn_result : GatewayPolicy → Option Value → GatewayPolicy
  unfolding load_tools_from_list_result
  learn_result p none = p
  learn_result p (some result) = (load_tools_from_list_result j p result).0

  unfoldable pub learn : GatewayPolicy → Option Value → GatewayPolicy
  unfolding get learn_result
  learn p none = p
  learn p (some v) = learn_result p (get j (codes "result") v)

  abbrev pub is_handshake : Option Text → Bool
  unfolding text_eq
  is_handshake none = false
  is_handshake (some id) = text_eq id handshake_id

  unfoldable pub is_our_reply : Option Value → Bool
  unfolding get as_str
  is_our_reply none = false
  is_our_reply (some v) = is_handshake (and_then (get j (codes "id") v) (as_str j))

  -- The loop of the handshake, by the lines read and the number scanned.
  unfoldable pub handshake : ℕ → GatewayPolicy → List Text → List Text → Handshake
  unfolding trim_end is_our_reply learn
  handshake scanned p buffered [] = record { policy = p; buffered = buffered; unread = [] }
  handshake scanned p buffered (line ∷ ls) =
      let trimmed = trim_end line in
      let taught = learn p (from_str trimmed) in
      let more = handshake (scanned + 1) taught (buffered ++ trimmed ∷ []) ls in
      if is_our_reply (from_str trimmed)
      then record { policy = taught; buffered = buffered; unread = ls }
      else if ltb 100 (scanned + 1)
      then record { policy = taught; buffered = buffered ++ trimmed ∷ []; unread = ls }
      else more

  -- One line of the server → client relay.
  unfoldable pub from_server : State → Text → State
  unfolding learn
  from_server st line = record st {
    policy = learn st.policy (from_str line);
    to_client = st.to_client ++ line ∷ [];
  }

  unfoldable pub forward : State → Text → State
  forward st line = record st { to_server = st.to_server ++ line ∷ [] }

  abbrev pub or_null : Option Value → Value
  or_null none = make null
  or_null (some v) = v

  -- The recorded verdict: the call is forwarded, or answered.
  unfoldable pub settle : State → Text → Value → Text → Verdict → State
  unfolding forward deny_reply reason_text
  settle st line msg name allow = forward st line
  settle st line msg name (deny reason) = record st {
    to_client =
        st.to_client
        ++ to_string (deny_reply (or_null (get j (codes "id") msg)) (reason_text name reason)) ∷ [];
  }

  module _ (d : Digests) where
    unfoldable pub record_verdict : ℕ → Text → Verdict → Option AuditLog → Option AuditLog
    unfolding append audit_event
    record_verdict now tool verdict none = none
    record_verdict now tool verdict (some log) =
        some (or_unchanged log (append d log (audit_event now tool verdict)))

    unfoldable pub on_call : ℕ → State → Text → Value → Option (Text × Value) → State
    unfolding forward inspect_tools_call record_verdict settle
    on_call now st line msg none = forward st line
    on_call now st line msg (some (name, arguments)) =
        let verdict = inspect_tools_call j st.policy name arguments in
        settle (record st { log = record_verdict now name verdict st.log }) line msg name verdict

    -- One line of the client → server loop.
    unfoldable pub on_message : ℕ → State → Text → Option Value → State
    unfolding forward on_call parse_tools_call
    on_message now st line none = forward st line
    on_message now st line (some msg) = on_call now st line msg (parse_tools_call j msg)

    unfoldable pub from_client : ℕ → State → Text → State
    unfolding on_message
    from_client now st line = on_message now st line (from_str line)

    -- The two loops run at once: a step is a line of one of them.
    pub data Step (st : State) : State → Type 0 where
      client : (now : ℕ) (line : Text) → Step st (from_client now st line)
      server : (line : Text) → Step st (from_server st line)

    pub data Reach (st : State) : State → Type 0 where
      here : Reach st st
      next : {t u : State} → Reach st t → Step t u → Reach st u

-- The state after the handshake: what was buffered goes to the client first.
unfoldable pub start : Handshake → Option Text → State
start h audit_path = record {
  policy = h.policy;
  log = elim audit_path [ none ↦ none | some path ↦ some [] ];
  to_server = [];
  to_client = h.buffered;
}
