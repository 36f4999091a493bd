-- ===== src/Gateway/Interleavings.antt =====
-- What holds of the proxy of crates/ql-cli/src/mcp_gateway.rs in every order of its two loops.
use quantmlayer.Prelude.{
  Bool-cases, &&-split, ℕ, ◌≡◌, refl, sym, ◌∙◌, subst, ◌⊎◌, inl, inr, true, false, ◌&&◌, Option,
  none, some, [], ◌∷◌, In, In-append, Option-cases,
}
use quantmlayer.Text.{Text}
use quantmlayer.Audit.{Digests}
use quantmlayer.Gateway.{
  Json, lookup, ToolSchema, GatewayPolicy, Verdict, allow, deny, is_blocked_state_change,
}
use quantmlayer.Gateway.Inspection.{parse_tools_call}
use quantmlayer.Gateway.Verdicts
use quantmlayer.Gateway.Verdicts.{Admits, inspect_tools_call_iff}
use quantmlayer.Gateway.Proxy.{
  State, learn, from_server, forward, settle, on_call, on_message, from_client, Step, client,
  server, Reach, here, next,
}
use quantmlayer.Gateway.Relay.{
  Extends, Extends-refl, Extends-trans, learn-Extends, Passes, IsForwarded, IsAnswered,
  from_client_outcome,
}

module _ (j : Json) (d : Digests) where
  open j use {Value, from_str}

  settle-policy :
      (st : State) (line : Text) (msg : Value) (name : Text) (verdict : Verdict)
      → (settle j st line msg name verdict).policy ≡ st.policy
  unfolding settle forward
  settle-policy st line msg name allow = refl
  settle-policy st line msg name (deny reason) = refl

  on_call-policy :
      (now : ℕ) (st : State) (line : Text) (msg : Value) (call : Option (Text × Value))
      → (on_call j d now st line msg call).policy ≡ st.policy
  unfolding on_call forward
  on_call-policy now st line msg none = refl
  on_call-policy now st line msg (some (name, arguments)) = settle-policy _ line msg name _

  on_message-policy :
      (now : ℕ) (st : State) (line : Text) (found : Option Value)
      → (on_message j d now st line found).policy ≡ st.policy
  unfolding on_message forward
  on_message-policy now st line none = refl
  on_message-policy now st line (some msg) = on_call-policy now st line msg _

  from_client-policy :
      (now : ℕ) (st : State) (line : Text) → (from_client j d now st line).policy ≡ st.policy
  unfolding from_client
  from_client-policy now st line = on_message-policy now st line (from_str line)

  Step-Extends : {st after : State} → Step j d st after → Extends st.policy after.policy
  unfolding from_server
  Step-Extends {st} (client now line) =
      subst (Extends st.policy) (sym (from_client-policy now st line)) (Extends-refl st.policy)
  Step-Extends {st} (server line) = learn-Extends j st.policy (from_str line)

  Reach-Extends : {st after : State} → Reach j d st after → Extends st.policy after.policy
  Reach-Extends {st} here = Extends-refl st.policy
  Reach-Extends {st} (next {t} {u} r s) =
      Extends-trans st.policy t.policy u.policy (Reach-Extends r) (Step-Extends s)

  -- A line that is a call names a tool that is not gated, or allowed, under the first policy; and
  -- where that policy had learned the tools and closes unknown ones, one that the other knows.
  abbrev pub Cleared : GatewayPolicy → GatewayPolicy → Text → Type 0
  Cleared p q line =
      (msg : Value) (name : Text) (arguments : Value)
      → from_str line ≡ some msg
      → parse_tools_call j msg ≡ some (name, arguments)
      → (is_blocked_state_change p name ≡ false)
        × (p.deny_unknown_tools ≡ true
            → p.schemas_loaded ≡ true
            → (schema : ToolSchema) × (lookup name q.tools ≡ some schema))

  still_known :
      (q r : GatewayPolicy) (name : Text) (schema : ToolSchema)
      → Extends q r
      → lookup name q.tools ≡ some schema
      → (s : ToolSchema) × (lookup name r.tools ≡ some s)
  still_known q r name schema ext e = elim (Option-cases (lookup name r.tools)) [
    | inl gone ↦ absurd (clash (ext.knows name gone))
    | inr found ↦ found
  ]
    where
      clash : lookup name q.tools ≡ none → ⊥
      clash k = cc

  Cleared-mono :
      (p q r : GatewayPolicy) (line : Text) → Extends q r → Cleared p q line → Cleared p r line
  Cleared-mono p q r line ext c msg name arguments read call =
      let (free, known) = c msg name arguments read call in
      (free, λ shut loaded. again (known shut loaded))
    where
      again :
          (schema : ToolSchema) × (lookup name q.tools ≡ some schema)
          → (s : ToolSchema) × (lookup name r.tools ≡ some s)
      again (schema, e) = still_known q r name schema ext e

  same_gates :
      (p q : GatewayPolicy) (name : Text)
      → Extends p q
      → is_blocked_state_change q name ≡ is_blocked_state_change p name
  unfolding is_blocked_state_change
  same_gates p q name ext = rw ext.gates (rw ext.allows refl)

  Passes-Cleared :
      (p q : GatewayPolicy) (line : Text) → Extends p q → Passes j q line → Cleared p q line
  Passes-Cleared p q line ext pass msg name arguments read call =
      let (free, known) =
        (inspect_tools_call_iff j q name arguments).0 (pass msg name arguments read call) in
      (sym (same_gates p q name ext) ∙ free, λ shut loaded. advertised shut loaded known)
    where
      advertised :
          p.deny_unknown_tools ≡ true
          → p.schemas_loaded ≡ true
          → ((lookup name q.tools ≡ none) × ((q.deny_unknown_tools && q.schemas_loaded) ≡ false))
            ⊎ ((schema : ToolSchema) × (lookup name q.tools ≡ some schema)
                × Verdicts.Conforms j schema arguments)
          → (schema : ToolSchema) × (lookup name q.tools ≡ some schema)
      advertised shut loaded (inr (schema, e, c)) = (schema, e)
      advertised shut loaded (inl (e, open_)) =
          let closed : q.deny_unknown_tools ≡ true = ext.denies ∙ shut in
          let still : q.schemas_loaded ≡ true = ext.loaded loaded in
          absurd (clash (rw closed at (rw still at open_)))
        where
          clash : true ≡ false → ⊥
          clash k = cc

  AllCleared : GatewayPolicy → State → Type 0
  AllCleared p st = (line : Text) → In line st.to_server → Cleared p st.policy line

  sent :
      (p : GatewayPolicy) (st after : State) (line : Text)
      → Extends p st.policy
      → after.policy ≡ st.policy
      → AllCleared p st
      → IsForwarded j d st line after ⊎ IsAnswered j d st line after
      → AllCleared p after
  unfolding AllCleared
  sent p st after line ext same all (inl (pass, extended, _)) l m =
      subst (λ q. Cleared p q l) (sym same)
        (elim (In-append l st.to_server (line ∷ []) (subst (In l) extended m)) [
          | inl n ↦ all l n
          | inr n ↦
              subst (Cleared p st.policy) (sym (only n)) (Passes-Cleared p st.policy line ext pass)
        ])
    where
      only : (l ≡ line) ⊎ ⊥ → l ≡ line
      only (inl e) = e
      only (inr empty) = absurd empty
  sent p st after line ext same all (inr (id, text, refused, kept, _)) l m =
      subst (λ q. Cleared p q l) (sym same) (all l (subst (In l) kept m))

  Step-AllCleared :
      (p : GatewayPolicy) {st after : State}
      → Step j d st after
      → Extends p st.policy
      → AllCleared p st
      → AllCleared p after
  unfolding AllCleared from_server
  Step-AllCleared p {st} (client now line) ext all l m =
      sent p st (from_client j d now st line) line ext (from_client-policy now st line) all
        (from_client_outcome j d now st line) l m
  Step-AllCleared p {st} (server line) ext all l m =
      Cleared-mono p st.policy (learn j st.policy (from_str line)) l
        (learn-Extends j st.policy (from_str line)) (all l m)

  Reach-AllCleared :
      {st after : State} → AllCleared st.policy st → Reach j d st after → AllCleared st.policy after
  Reach-AllCleared all here = all
  Reach-AllCleared {st} all (next r s) =
      Step-AllCleared st.policy s (Reach-Extends r) (Reach-AllCleared all r)

  -- The tool is not gated by the first policy, or allowed; and it is one that the other policy
  -- knows, unless the first left unknown tools open or had not learned the tools.
  abbrev pub IsOpen : GatewayPolicy → GatewayPolicy → Text → Type 0
  IsOpen p q name =
      (is_blocked_state_change p name ≡ false)
      × (((p.deny_unknown_tools && p.schemas_loaded) ≡ false)
          ⊎ ((schema : ToolSchema) × (lookup name q.tools ≡ some schema)))

  -- In every order of lines from the client and from the server, from a state in which the server
  -- was sent nothing: each line sent on to the server that is a tool call names a tool that the
  -- starting policy does not gate or allows; and if that policy had learned the tools and closes
  -- unknown ones, a tool that the server has advertised.
  pub Reach-IsOpen :
      (st after : State)
      → st.to_server ≡ []
      → Reach j d st after
      → (line : Text) → In line after.to_server
      → (msg : Value) (name : Text) (arguments : Value) → from_str line ≡ some msg
      → parse_tools_call j msg ≡ some (name, arguments)
      → IsOpen st.policy after.policy name
  unfolding AllCleared
  Reach-IsOpen st after e r line m msg name arguments read call =
      let (free, known) =
        Reach-AllCleared (λ l n. absurd (subst (In l) e n)) r line m msg name arguments read call in
      (free, closed known (Bool-cases (st.policy.deny_unknown_tools && st.policy.schemas_loaded)))
    where
      closed :
          (st.policy.deny_unknown_tools ≡ true
            → st.policy.schemas_loaded ≡ true
            → (schema : ToolSchema) × (lookup name after.policy.tools ≡ some schema))
          → (((st.policy.deny_unknown_tools && st.policy.schemas_loaded) ≡ true)
              ⊎ ((st.policy.deny_unknown_tools && st.policy.schemas_loaded) ≡ false))
          → ((st.policy.deny_unknown_tools && st.policy.schemas_loaded) ≡ false)
            ⊎ ((schema : ToolSchema) × (lookup name after.policy.tools ≡ some schema))
      closed known (inl both) =
          let (shut, loaded) =
            &&-split st.policy.deny_unknown_tools st.policy.schemas_loaded both in
          inr (known shut loaded)
      closed known (inr open_) = inl open_
