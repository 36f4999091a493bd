-- ===== src/Gateway.antt =====
-- crates/ql-cli/src/mcp_gateway.rs: the pure decisions of the gateway in front of an MCP server.
-- JSON is third-party code: the record `Json` holds the values, their outermost constructor, and
-- the text that is read and written.
pub mod Inspection
pub mod Proxy
pub mod Verdicts
pub mod Relay
pub mod Interleavings
pub mod Logging
pub mod Greeting
mod Samples
mod Tests
use quantmlayer.Prelude.{
  ℕ, suc, ◌+◌, ◌≡◌, Bool, true, false, not, ◌&&◌, ◌||◌, Option, none, some, List, [], ◌∷◌, ◌++◌,
  if◌then◌else◌, Outcome, ok, err, ◌>>=◌, ◌>>◌, guard,
}
use quantmlayer.Text.{Text, codes, text_eq, contains}

-- The variants of serde_json's `Value`; a number says whether `is_i64` or `is_u64` holds of it, with its text, and
-- an object lists its entries in the order of iteration.
pub data Shape {ℓ} (V : Type ℓ) : Type ℓ where
  null : Shape V
  bool : Bool → Shape V
  number : Bool → Text → Shape V
  string : Text → Shape V
  array : List V → Shape V
  object : List (Text × V) → Shape V

pub record Json : Type 1 where
  pub Value : Type 0
  pub shape : Value → Shape Value
  pub make : Shape Value → Value
  pub from_str : Text → Option Value
  pub to_string : Value → Text

-- Option::and_then
abbrev pub and_then {ℓ κ} : {A : Type ℓ} {B : Type κ} → Option A → (A → Option B) → Option B
and_then none f = none
and_then (some a) f = f a

-- A map keyed by texts; a later entry hides an earlier one, and is found first.
unfoldable pub lookup {ℓ} : {A : Type ℓ} → Text → List (Text × A) → Option A
unfolding text_eq
lookup key [] = none
lookup key (e ∷ es) = let rest = lookup key es in if text_eq e.0 key then some (e.1) else rest

pub record ToolSchema : Type 0 where
  pub name : Text
  pub required : List Text
  pub properties : List (Text × Text)
  pub additional_properties : Bool

pub record GatewayPolicy : Type 0 where
  pub tools : List (Text × ToolSchema)
  pub deny_unknown_tools : Bool
  pub schemas_loaded : Bool
  pub gate_state_change : List Text
  pub allow_state_change : List Text

-- GatewayPolicy::new
abbrev pub new : GatewayPolicy
new = record {
  tools = [];
  deny_unknown_tools = true;
  schemas_loaded = false;
  gate_state_change = [];
  allow_state_change = [];
}

-- The reasons of `inspect_tools_call`, and the texts that it makes of them.
pub data Reason : Type 0 where
  gated : Reason
  unknown_tool : Reason
  not_object : Reason
  missing : Text → Reason
  wrong_type : Text → Text → Text → Reason
  unexpected : Text → Reason

pub data Verdict : Type 0 where
  allow : Verdict
  deny : Reason → Verdict

unfoldable pub reason_text : Text → Reason → Text
reason_text name gated =
    codes "tool `" ++ name ++ codes "` is gated as state-changing and not in the allow-list"
reason_text name unknown_tool =
    codes "tool `" ++ name ++ codes "` is not in the server's advertised tool list"
reason_text name not_object = codes "tool `" ++ name ++ codes "` arguments must be a JSON object"
reason_text name (missing req) =
    codes "tool `" ++ name ++ codes "` missing required argument `" ++ req ++ codes "`"
reason_text name (wrong_type key ty got) =
    codes "tool `"
    ++ name
    ++ codes "` argument `"
    ++ key
    ++ codes "` should be "
    ++ ty
    ++ codes ", got "
    ++ got
reason_text name (unexpected key) =
    codes "tool `"
    ++ name
    ++ codes "` has unexpected argument `"
    ++ key
    ++ codes "` (additionalProperties: false)"

-- is_blocked_state_change
unfoldable pub is_blocked_state_change : GatewayPolicy → Text → Bool
unfolding contains
is_blocked_state_change p tool =
    contains p.gate_state_change tool && not (contains p.allow_state_change tool)

-- 3a of `inspect_tools_call`: the first required argument that is missing.
unfoldable pub first_missing {ℓ} : {V : Type ℓ} → List Text → List (Text × V) → Option Text
unfolding lookup
first_missing [] args = none
first_missing (req ∷ reqs) args =
    let rest = first_missing reqs args in elim (lookup req args) [ none ↦ some req | some v ↦ rest ]

module _ (j : Json) where
  open j use {Value, shape}

  -- The accessors of `Value`.
  unfoldable pub get : Text → Value → Option Value
  unfolding lookup
  get key v = elim (shape v) [ object m ↦ lookup key m | _ ↦ none ]

  unfoldable pub as_str : Value → Option Text
  as_str v = elim (shape v) [ string s ↦ some s | _ ↦ none ]

  unfoldable pub as_array : Value → Option (List Value)
  as_array v = elim (shape v) [ array vs ↦ some vs | _ ↦ none ]

  unfoldable pub as_object : Value → Option (List (Text × Value))
  as_object v = elim (shape v) [ object m ↦ some m | _ ↦ none ]

  unfoldable pub as_bool : Value → Option Bool
  as_bool v = elim (shape v) [ bool b ↦ some b | _ ↦ none ]

  -- The `required` names of a schema: `filter_map` of the texts.
  unfoldable pub texts_of : List Value → List Text
  unfolding as_str
  texts_of [] = []
  texts_of (v ∷ vs) = let rest = texts_of vs in elim (as_str v) [ none ↦ rest | some s ↦ s ∷ rest ]

  -- The loop over the declared properties; one without a type text is known and unconstrained.
  unfoldable pub declared : List (Text × Value) → List (Text × Text) → List (Text × Text)
  unfolding get as_str
  declared [] acc = acc
  declared (e ∷ es) acc =
      declared es
        ((e.0, elim (and_then (get (codes "type") (e.1)) as_str) [ none ↦ [] | some t ↦ t ]) ∷ acc)

  -- tool.get("inputSchema").or_else(|| tool.get("input_schema"))
  unfoldable pub input_schema : Value → Option Value
  unfolding get
  input_schema tool = elim (get (codes "inputSchema") tool) [
    | some s ↦ some s
    | none ↦ get (codes "input_schema") tool
  ]

  unfoldable pub required_of : Value → List Text
  unfolding get as_array texts_of
  required_of schema = elim (and_then (get (codes "required") schema) as_array) [
    | none ↦ []
    | some vs ↦ texts_of vs
  ]

  unfoldable pub properties_of : Value → List (Text × Text)
  unfolding get as_object declared
  properties_of schema = elim (and_then (get (codes "properties") schema) as_object) [
    | none ↦ []
    | some m ↦ declared m []
  ]

  unfoldable pub additional_of : Value → Bool
  unfolding get as_bool
  additional_of schema = elim (and_then (get (codes "additionalProperties") schema) as_bool) [
    | none ↦ true
    | some b ↦ b
  ]

  -- The schema of a name, from the input schema if there is one.
  unfoldable pub schema_of : Text → Option Value → ToolSchema
  unfolding required_of properties_of additional_of
  schema_of name none = record {
    name = name;
    required = [];
    properties = [];
    additional_properties = true;
  }
  schema_of name (some schema) = record {
    name = name;
    required = required_of schema;
    properties = properties_of schema;
    additional_properties = additional_of schema;
  }

  -- ToolSchema::from_tool_json
  unfoldable pub from_tool_json : Value → Option ToolSchema
  unfolding get as_str input_schema schema_of
  from_tool_json tool = elim (and_then (get (codes "name") tool) as_str) [
    | none ↦ none
    | some name ↦ some (schema_of name (input_schema tool))
  ]

  -- The loop of `load_tools_from_list_result`, with its count.
  abbrev pub load_one :
      Option ToolSchema → List (Text × ToolSchema) → ℕ → List (Text × ToolSchema) × ℕ
  load_one none tools n = (tools, n)
  load_one (some s) tools n = ((s.name, s) ∷ tools, n + 1)

  unfoldable pub load_each :
      List Value → List (Text × ToolSchema) → ℕ → List (Text × ToolSchema) × ℕ
  unfolding from_tool_json
  load_each [] tools n = (tools, n)
  load_each (t ∷ ts) tools n =
      let loaded = load_one (from_tool_json t) tools n in load_each ts (loaded.0) (loaded.1)

  unfoldable pub load_found : GatewayPolicy → Option (List Value) → GatewayPolicy × ℕ
  unfolding load_each
  load_found p none = (p, 0)
  load_found p (some ts) =
      let loaded = load_each ts p.tools 0 in
      (record p { schemas_loaded = true; tools = loaded.0 }, loaded.1)

  unfoldable pub load_tools_from_list_result : GatewayPolicy → Value → GatewayPolicy × ℕ
  unfolding get as_array load_found
  load_tools_from_list_result p result =
      load_found p (and_then (get (codes "tools") result) as_array)

  -- json_type_matches
  abbrev pub is_shape : (Shape Value → Bool) → Value → Bool
  is_shape test v = test (shape v)

  abbrev pub is_string : Shape Value → Bool
  is_string s = elim s [ string t ↦ true | _ ↦ false ]

  abbrev pub is_number : Shape Value → Bool
  is_number s = elim s [ number whole text ↦ true | _ ↦ false ]

  abbrev pub is_whole : Shape Value → Bool
  is_whole s = elim s [ number whole text ↦ whole | _ ↦ false ]

  abbrev pub is_boolean : Shape Value → Bool
  is_boolean s = elim s [ bool b ↦ true | _ ↦ false ]

  abbrev pub is_object : Shape Value → Bool
  is_object s = elim s [ object m ↦ true | _ ↦ false ]

  abbrev pub is_array : Shape Value → Bool
  is_array s = elim s [ array vs ↦ true | _ ↦ false ]

  abbrev pub is_null : Shape Value → Bool
  is_null s = elim s [ null ↦ true | _ ↦ false ]

  unfoldable pub json_type_matches : Text → Value → Bool
  unfolding text_eq
  json_type_matches ty v =
      if text_eq ty (codes "string")
      then is_string (shape v)
      else if text_eq ty (codes "number")
      then is_number (shape v)
      else if text_eq ty (codes "integer")
      then is_whole (shape v)
      else if text_eq ty (codes "boolean")
      then is_boolean (shape v)
      else if text_eq ty (codes "object")
      then is_object (shape v)
      else if text_eq ty (codes "array")
      then is_array (shape v)
      else if text_eq ty (codes "null")
      then is_null (shape v)
      else true
