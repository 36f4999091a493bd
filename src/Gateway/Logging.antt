-- ===== src/Gateway/Logging.antt =====
-- The audit log of the proxy of crates/ql-cli/src/mcp_gateway.rs.
use quantmlayer.Prelude.{
  ℕ, ◌+◌, ◌^◌, ◌<◌, ◌≡◌, refl, sym, ap, ◌∙◌, subst, Option, none, some, length, length-append, ok,
  err, arith, >>=-eq-ok, ok-injective, ◌%◌,
}
use quantmlayer.Text.{Text}
use quantmlayer.Audit.{AuditLog, chain_hash, head, AuditEvent, AuditResult, Digests, append, verify}
use quantmlayer.Audit.Chained.{verify-append}
use quantmlayer.Gateway.{Json, Verdict, allow, deny}
use quantmlayer.Gateway.Inspection.{inspect_tools_call}
use quantmlayer.Gateway.Proxy.{
  State, from_server, forward, record_verdict, settle, on_call, on_message, from_client, Step,
  client, server, Reach, here, next, or_unchanged, audit_event,
}

-- A log verifies, as long as its length fits 64 bits.
abbrev pub IsVerified : Digests → Option AuditLog → Type 0
IsVerified d log = (l : AuditLog) → log ≡ some l → length l < 2 ^ 64 → verify d l ≡ ok tt

module _ (j : Json) (d : Digests) where
  open j use {Value, from_str}

  length-append_log :
      (log longer : AuditLog) (event : AuditEvent)
      → append d log event ≡ ok longer
      → length longer ≡ length log + 1
  unfolding append
  length-append_log log longer event h =
      let (hash, hashed, made) =
        >>=-eq-ok (chain_hash d (length log % 2 ^ 64) (head log) event) _ h in
      ap length (sym (ok-injective made)) ∙ length-append log _

  appended :
      (log : AuditLog) (event : AuditEvent) (result : AuditResult AuditLog)
      → append d log event ≡ result
      → (length log < 2 ^ 64 → verify d log ≡ ok tt)
      → length (or_unchanged log result) < 2 ^ 64
      → verify d (or_unchanged log result) ≡ ok tt
  appended log event (err e) made v small = v small
  appended log event (ok longer) made v small =
      let longer_by : length longer ≡ length log + 1 = length-append_log log longer event made in
      let fits : length log < 2 ^ 64 = omega (arith, longer_by, small) in
      (verify-append d log longer event fits (v fits) made).0

  record_verdict-IsVerified :
      (now : ℕ) (tool : Text) (verdict : Verdict) (log : Option AuditLog)
      → IsVerified d log
      → IsVerified d (record_verdict j d now tool verdict log)
  unfolding record_verdict
  record_verdict-IsVerified now tool verdict none v l e small = cc
  record_verdict-IsVerified now tool verdict (some log) v l e small =
      let event = audit_event now tool verdict in
      let same : or_unchanged log (append d log event) ≡ l = taken e in
      subst (λ x. verify d x ≡ ok tt) same
        (appended log event (append d log event) refl (v log refl)
          (subst (λ x. length x < 2 ^ 64) (sym same) small))
    where
      taken : {a b : AuditLog} → ◌≡◌ {A = Option AuditLog} (some a) (some b) → a ≡ b
      taken k = cc

  settle-log :
      (st : State) (line : Text) (msg : Value) (name : Text) (verdict : Verdict)
      → (settle j st line msg name verdict).log ≡ st.log
  unfolding settle forward
  settle-log st line msg name allow = refl
  settle-log st line msg name (deny reason) = refl

  on_call-IsVerified :
      (now : ℕ) (st : State) (line : Text) (msg : Value) (call : Option (Text × Value))
      → IsVerified d st.log
      → IsVerified d (on_call j d now st line msg call).log
  unfolding on_call forward
  on_call-IsVerified now st line msg none v = v
  on_call-IsVerified now st line msg (some (name, arguments)) v =
      let verdict = inspect_tools_call j st.policy name arguments in
      subst (IsVerified d)
        (sym (
          settle-log (record st { log = record_verdict j d now name verdict st.log }) line msg name
            verdict))
        (record_verdict-IsVerified now name verdict st.log v)

  on_message-IsVerified :
      (now : ℕ) (st : State) (line : Text) (found : Option Value)
      → IsVerified d st.log
      → IsVerified d (on_message j d now st line found).log
  unfolding on_message forward
  on_message-IsVerified now st line none v = v
  on_message-IsVerified now st line (some msg) v = on_call-IsVerified now st line msg _ v

  Step-IsVerified :
      {st after : State} → Step j d st after → IsVerified d st.log → IsVerified d after.log
  unfolding from_client from_server
  Step-IsVerified {st} (client now line) v = on_message-IsVerified now st line (from_str line) v
  Step-IsVerified (server line) v = v

  Reach-IsVerified :
      {st after : State} → IsVerified d st.log → Reach j d st after → IsVerified d after.log
  Reach-IsVerified v here = v
  Reach-IsVerified v (next r s) = Step-IsVerified s (Reach-IsVerified v r)

  -- In every order of lines from the client and from the server, from a state whose log verifies if
  -- it is short enough, a log of fewer than 2^64 records verifies.
  pub Reach-verify :
      (st after : State)
      → IsVerified d st.log
      → Reach j d st after
      → (log : AuditLog) → after.log ≡ some log
      → length log < 2 ^ 64
      → verify d log ≡ ok tt
  Reach-verify st after v r log e small = Reach-IsVerified v r log e small
