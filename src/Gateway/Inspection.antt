-- ===== src/Gateway/Inspection.antt =====
-- inspect_tools_call and parse_tools_call of crates/ql-cli/src/mcp_gateway.rs.
use quantmlayer.Prelude.{
  Bool, true, false, ◌&&◌, ◌||◌, Option, none, some, List, [], ◌∷◌, if◌then◌else◌,
}
use quantmlayer.Text.{Text, codes, text_eq}
use quantmlayer.Gateway.{
  null, bool, number, string, array, object, Json, and_then, lookup, ToolSchema, GatewayPolicy,
  Reason, gated, unknown_tool, not_object, missing, wrong_type, unexpected, Verdict, allow, deny,
  is_blocked_state_change, first_missing, get, as_str, json_type_matches,
}

abbrev pub is_empty : Text → Bool
is_empty [] = true
is_empty (c ∷ s) = false

module _ (j : Json) where
  open j use {Value, shape, make}

  unfoldable pub json_type_name : Value → Text
  json_type_name v = elim (shape v) [
    | string s ↦ codes "string"
    | number whole text ↦ codes "number"
    | bool b ↦ codes "boolean"
    | object m ↦ codes "object"
    | array vs ↦ codes "array"
    | null ↦ codes "null"
  ]

  -- One round of 3b: the declared type of a key, and its value.
  unfoldable pub check_argument : ToolSchema → Text → Option Text → Value → Option Reason
  unfolding json_type_matches json_type_name
  check_argument schema key (some ty) v =
      if is_empty ty || json_type_matches j ty v
      then none
      else some (wrong_type key ty (json_type_name v))
  check_argument schema key none v =
      if schema.additional_properties then none else some (unexpected key)

  abbrev pub or_later : Option Reason → Option Reason → Option Reason
  or_later none later = later
  or_later (some r) later = some r

  unfoldable pub first_bad : ToolSchema → List (Text × Value) → Option Reason
  unfolding check_argument lookup
  first_bad schema [] = none
  first_bad schema (e ∷ es) =
      or_later (check_argument schema (e.0) (lookup (e.0) schema.properties) (e.1))
        (first_bad schema es)

  -- The arguments as an object; absent ones are an empty one.
  unfoldable pub object_of : Value → Option (List (Text × Value))
  object_of v = elim (shape v) [ object m ↦ some m | null ↦ some [] | _ ↦ none ]

  abbrev pub verdict_of : Option Reason → Verdict
  verdict_of none = allow
  verdict_of (some r) = deny r

  -- 3a, then 3b.
  unfoldable pub check_required : Option Text → ToolSchema → List (Text × Value) → Verdict
  unfolding first_bad
  check_required none schema args = verdict_of (first_bad schema args)
  check_required (some req) schema args = deny (missing req)

  unfoldable pub check_schema : ToolSchema → Option (List (Text × Value)) → Verdict
  unfolding check_required first_missing
  check_schema schema none = deny not_object
  check_schema schema (some args) = check_required (first_missing schema.required args) schema args

  -- 2, then 3.
  unfoldable pub check_known : GatewayPolicy → Option ToolSchema → Value → Verdict
  unfolding check_schema object_of
  check_known p none arguments =
      if p.deny_unknown_tools && p.schemas_loaded then deny unknown_tool else allow
  check_known p (some schema) arguments = check_schema schema (object_of arguments)

  unfoldable pub inspect_tools_call : GatewayPolicy → Text → Value → Verdict
  unfolding is_blocked_state_change lookup check_known
  inspect_tools_call p name arguments =
      if is_blocked_state_change p name
      then deny gated
      else check_known p (lookup name p.tools) arguments

  abbrev pub is_tools_call : Option Text → Bool
  unfolding text_eq
  is_tools_call none = false
  is_tools_call (some m) = text_eq m (codes "tools/call")

  unfoldable pub arguments_of : Value → Value
  unfolding get
  arguments_of params = elim (get j (codes "arguments") params) [
    | none ↦ make (object [])
    | some a ↦ a
  ]

  abbrev pub with_name : Option Text → Value → Option (Text × Value)
  with_name none arguments = none
  with_name (some name) arguments = some (name, arguments)

  -- The `params` of a call.
  unfoldable pub call_of : Value → Option (Text × Value)
  unfolding get as_str arguments_of
  call_of params =
      with_name (and_then (get j (codes "name") params) (as_str j)) (arguments_of params)

  unfoldable pub parse_tools_call : Value → Option (Text × Value)
  unfolding get as_str call_of
  parse_tools_call msg =
      if is_tools_call (and_then (get j (codes "method") msg) (as_str j))
      then and_then (get j (codes "params") msg) call_of
      else none
