-- ===== src/Gateway/Relay.antt =====
-- One line through the proxy of crates/ql-cli/src/mcp_gateway.rs, and any interleaving of lines.
use quantmlayer.Prelude.{
  ℕ, ◌≡◌, refl, sym, ap, ◌∙◌, ◌⊎◌, inl, inr, true, Option, none, some, List, [], ◌∷◌, ◌++◌,
  Bool-cases,
}
use quantmlayer.Text.{Text, codes, text_eq}
use quantmlayer.Audit.{Digests}
use quantmlayer.Gateway.{
  Json, and_then, lookup, ToolSchema, GatewayPolicy, Reason, reason_text, Verdict, allow, deny, get,
  as_array, from_tool_json, load_one, load_each, load_found, load_tools_from_list_result,
}
use quantmlayer.Gateway.Inspection.{inspect_tools_call, parse_tools_call}
use quantmlayer.Gateway.Proxy.{
  State, deny_reply, learn, learn_result, forward, record_verdict, or_null, settle, on_call,
  on_message, from_client,
}

-- A policy that has learned more: the same configuration, and no tool forgotten.
pub record Extends (p q : GatewayPolicy) : Type 0 where
  pub gates : q.gate_state_change ≡ p.gate_state_change
  pub allows : q.allow_state_change ≡ p.allow_state_change
  pub denies : q.deny_unknown_tools ≡ p.deny_unknown_tools
  pub loaded : p.schemas_loaded ≡ true → q.schemas_loaded ≡ true
  pub knows : (name : Text) → lookup name q.tools ≡ none → lookup name p.tools ≡ none

pub Extends-refl : (p : GatewayPolicy) → Extends p p
Extends-refl p = record {
  gates = refl;
  allows = refl;
  denies = refl;
  loaded = λ h. h;
  knows = λ name h. h;
}

pub Extends-trans : (p q r : GatewayPolicy) → Extends p q → Extends q r → Extends p r
Extends-trans p q r e f = record {
  gates = f.gates ∙ e.gates;
  allows = f.allows ∙ e.allows;
  denies = f.denies ∙ e.denies;
  loaded = λ h. f.loaded (e.loaded h);
  knows = λ name h. e.knows name (f.knows name h);
}

lookup-cons_none {ℓ} :
    {A : Type ℓ} (name key : Text) (a : A) (es : List (Text × A))
    → lookup name ((key, a) ∷ es) ≡ none
    → lookup name es ≡ none
unfolding lookup
lookup-cons_none name key a es h = elim (Bool-cases (text_eq key name)) [
  | inl e ↦ absurd (clash (rw e at h))
  | inr e ↦ rw e at h
]
  where
    clash : some a ≡ none → ⊥
    clash k = cc

module _ (j : Json) where
  open j use {Value, from_str, to_string}

  load_one-knows :
      (found : Option ToolSchema) (tools : List (Text × ToolSchema)) (n : ℕ) (name : Text)
      → lookup name ((load_one j found tools n).0) ≡ none
      → lookup name tools ≡ none
  load_one-knows none tools n name h = h
  load_one-knows (some s) tools n name h = lookup-cons_none name s.name s tools h

  load_each-knows :
      (ts : List Value) (tools : List (Text × ToolSchema)) (n : ℕ) (name : Text)
      → lookup name ((load_each j ts tools n).0) ≡ none
      → lookup name tools ≡ none
  unfolding load_each
  load_each-knows [] tools n name h = h
  load_each-knows (t ∷ ts) tools n name h =
      load_one-knows (from_tool_json j t) tools n name (load_each-knows ts _ _ name h)

  load_found-Extends :
      (p : GatewayPolicy) (found : Option (List Value)) → Extends p ((load_found j p found).0)
  unfolding load_found
  load_found-Extends p none = Extends-refl p
  load_found-Extends p (some ts) = record {
    gates = refl;
    allows = refl;
    denies = refl;
    loaded = λ h. refl;
    knows = λ name h. load_each-knows ts p.tools 0 name h;
  }

  learn_result-Extends :
      (p : GatewayPolicy) (found : Option Value) → Extends p (learn_result j p found)
  unfolding learn_result load_tools_from_list_result
  learn_result-Extends p none = Extends-refl p
  learn_result-Extends p (some result) =
      load_found-Extends p (and_then (get j (codes "tools") result) (as_array j))

  pub learn-Extends : (p : GatewayPolicy) (v : Option Value) → Extends p (learn j p v)
  unfolding learn
  learn-Extends p none = Extends-refl p
  learn-Extends p (some v) = learn_result-Extends p (get j (codes "result") v)

  -- A line that is a call has been let through by the policy.
  abbrev pub Passes : GatewayPolicy → Text → Type 0
  Passes p line =
      (msg : Value) (name : Text) (arguments : Value)
      → from_str line ≡ some msg
      → parse_tools_call j msg ≡ some (name, arguments)
      → inspect_tools_call j p name arguments ≡ allow

  -- A line that is a call has been refused by the policy, with the request's id and the reason.
  abbrev pub Refused : GatewayPolicy → Text → Value → Text → Type 0
  Refused p line id text =
      (msg : Value) × (name : Text) × (arguments : Value) × (reason : Reason) × (from_str line
        ≡ some msg)
      × (parse_tools_call j msg ≡ some (name, arguments))
      × (inspect_tools_call j p name arguments ≡ deny reason)
      × (id ≡ or_null j (get j (codes "id") msg))
      × (text ≡ reason_text name reason)

  module _ (d : Digests) where
    -- The line goes to the server as it is, or an error goes to the client in its place.
    abbrev pub IsForwarded : State → Text → State → Type 0
    IsForwarded st line after =
        Passes st.policy line
        × (after.to_server ≡ st.to_server ++ line ∷ [])
        × (after.to_client ≡ st.to_client)

    abbrev pub IsAnswered : State → Text → State → Type 0
    IsAnswered st line after =
        (id : Value) × (text : Text) × Refused st.policy line id text
        × (after.to_server ≡ st.to_server)
        × (after.to_client ≡ st.to_client ++ to_string (deny_reply j id text) ∷ [])

    called :
        (now : ℕ) (st : State) (line : Text) (msg : Value) (name : Text) (arguments : Value)
        (verdict : Verdict)
        → from_str line ≡ some msg
        → parse_tools_call j msg ≡ some (name, arguments)
        → inspect_tools_call j st.policy name arguments ≡ verdict
        → IsForwarded st line (
            settle j
              (record st { log = record_verdict j d now name verdict st.log })
              line
              msg
              name
              verdict)
          ⊎ IsAnswered st line (
              settle j
                (record st { log = record_verdict j d now name verdict st.log })
                line
                msg
                name
                verdict)
    unfolding settle forward
    called now st line msg name arguments allow read call e = inl (pass, refl, refl)
      where
        pass : Passes st.policy line
        pass msg' name' arguments' read' call' =
            let m : msg ≡ msg' = cc in
            let pair : ◌≡◌ {A = Option (Text × Value)} (some (name, arguments))
                (some (name', arguments')) =
              sym call ∙ (ap (parse_tools_call j) m ∙ call') in
            let n : name ≡ name' = cc in let a : arguments ≡ arguments' = cc in cc
    called now st line msg name arguments (deny reason) read call e = inr (
      or_null j (get j (codes "id") msg),
      reason_text name reason,
      (msg, name, arguments, reason, read, call, e, refl, refl),
      refl,
      refl,
    )

    plain :
        (st : State) (line : Text)
        → ((msg : Value) (name : Text) (arguments : Value)
            → from_str line ≡ some msg
            → parse_tools_call j msg ≡ some (name, arguments)
            → ⊥)
        → IsForwarded st line (forward j st line)
    unfolding forward
    plain st line no_call =
        (λ msg name arguments read call. absurd (no_call msg name arguments read call), refl, refl)

    IsAnswered-call :
        (now : ℕ) (st : State) (line : Text) (msg : Value) (call : Option (Text × Value))
        → from_str line ≡ some msg
        → parse_tools_call j msg ≡ call
        → IsForwarded st line (on_call j d now st line msg call)
          ⊎ IsAnswered st line (on_call j d now st line msg call)
    unfolding on_call
    IsAnswered-call now st line msg none read none_here = inl (plain st line other)
      where
        other :
            (msg' : Value) (name : Text) (arguments : Value)
            → from_str line ≡ some msg'
            → parse_tools_call j msg' ≡ some (name, arguments)
            → ⊥
        other msg' name arguments read' call' = let m : msg ≡ msg' = cc in cc
    IsAnswered-call now st line msg (some (name, arguments)) read call =
        called now st line msg name arguments (inspect_tools_call j st.policy name arguments) read
          call refl

    IsAnswered-message :
        (now : ℕ) (st : State) (line : Text) (found : Option Value)
        → from_str line ≡ found
        → IsForwarded st line (on_message j d now st line found)
          ⊎ IsAnswered st line (on_message j d now st line found)
    unfolding on_message
    IsAnswered-message now st line none e =
        inl (plain st line (λ msg name arguments read call. not_read msg read))
      where
        not_read : (msg : Value) → from_str line ≡ some msg → ⊥
        not_read msg read = cc
    IsAnswered-message now st line (some msg) e =
        IsAnswered-call now st line msg (parse_tools_call j msg) e refl

    -- Every line of the client goes to the server as it is, and then it is no call or one that the
    -- policy let through; or it is a call that the policy refused, the server sees nothing of it,
    -- and the client gets one error with the request's id and the reason.
    pub from_client_outcome :
        (now : ℕ) (st : State) (line : Text)
        → IsForwarded st line (from_client j d now st line)
          ⊎ IsAnswered st line (from_client j d now st line)
    unfolding from_client
    from_client_outcome now st line = IsAnswered-message now st line (from_str line) refl
