-- ===== src/Gateway/Verdicts.antt =====
-- When inspect_tools_call of crates/ql-cli/src/mcp_gateway.rs lets a call through.
use quantmlayer.Prelude.{
  ◌≡◌, refl, sym, subst, ◌↔◌, ◌⊎◌, inl, inr, Bool, true, false, ◌&&◌, ◌||◌, Option, none, some,
  List, [], ◌∷◌, if◌then◌else◌, In, Bool-cases, Option-cases, ||-split,
}
use quantmlayer.Text.{Text}
use quantmlayer.Gateway.{
  Json, lookup, ToolSchema, GatewayPolicy, Reason, wrong_type, allow, deny, is_blocked_state_change,
  first_missing, json_type_matches, gated,
}
use quantmlayer.Gateway.Inspection.{
  is_empty, check_argument, first_bad, object_of, check_required, check_schema, check_known,
  inspect_tools_call, verdict_of, or_later, json_type_name,
}

-- Every required name has an argument.
abbrev pub HasRequired {ℓ} : {A : Type ℓ} → List Text → List (Text × A) → Type ℓ
HasRequired reqs args = (req : Text) → In req reqs → (v : _) × (lookup req args ≡ some v)

not_some {ℓ} : {A : Type ℓ} {a : A} → ◌≡◌ {A = Option A} (some a) none → ⊥
not_some h = cc

first_missing-none {ℓ} :
    {A : Type ℓ} (reqs : List Text) (args : List (Text × A))
    → first_missing reqs args ≡ none
    → HasRequired reqs args
unfolding first_missing
first_missing-none [] args h req m = absurd m
first_missing-none {A = A} (r ∷ reqs) args h req m = elim (Option-cases (lookup r args)) [
  | inl e ↦ absurd (not_some (rw (e, first_missing) at h))
  | inr found ↦ present (λ q. first_missing-none reqs args q req) found.0 found.1 m
]
  where
    present :
        (first_missing reqs args ≡ none → In req reqs → (w : A) × (lookup req args ≡ some w))
        → (v : A) → lookup r args ≡ some v
        → (req ≡ r) ⊎ In req reqs
        → (w : A) × (lookup req args ≡ some w)
    present ih v e (inl same) = (v, rw same e)
    present ih v e (inr n) = ih (rw (e, first_missing) at h) n

none-first_missing {ℓ} :
    {A : Type ℓ} (reqs : List Text) (args : List (Text × A))
    → HasRequired reqs args
    → first_missing reqs args ≡ none
unfolding first_missing
none-first_missing [] args f = refl
none-first_missing (r ∷ reqs) args f =
    let (v, e) = f r (inl refl) in
    rw (e, first_missing) (none-first_missing reqs args (λ req m. f req (inr m)))

is_empty_nil : (t : Text) → is_empty t ≡ true → t ≡ []
is_empty_nil [] h = refl
is_empty_nil (c ∷ t) h = cc

module _ (j : Json) where
  open j use {Value, shape}

  -- An argument fits the schema: its key is declared without a type or with one that the value has,
  -- or it is not declared and the schema leaves such keys open.
  abbrev pub Fits : ToolSchema → Text → Value → Type 0
  Fits schema key v =
      ((lookup key schema.properties ≡ none) × (schema.additional_properties ≡ true))
      ⊎ ((ty : Text) × (lookup key schema.properties ≡ some ty)
          × ((ty ≡ []) ⊎ (json_type_matches j ty v ≡ true)))

  Fits-check :
      (schema : ToolSchema) (key : Text) (v : Value)
      → check_argument j schema key (lookup key schema.properties) v ≡ none
      → Fits schema key v
  unfolding check_argument
  Fits-check schema key v h = elim (Option-cases (lookup key schema.properties)) [
    | inl e ↦ elim (Bool-cases schema.additional_properties) [
      | inl open_ ↦ inl (e, open_)
      | inr closed ↦ absurd (not_some (rw closed at (rw e at h)))
    ]
    | inr found ↦ inr (found.0, found.1, typed found.0 (rw found.1 at h))
  ]
    where
      typed :
          (ty : Text)
          → (if is_empty ty || json_type_matches j ty v
              then none
              else some (wrong_type key ty (json_type_name j v)))
            ≡ none
          → (ty ≡ []) ⊎ (json_type_matches j ty v ≡ true)
      typed ty k = elim (Bool-cases (is_empty ty || json_type_matches j ty v)) [
        | inl e ↦ elim (||-split (is_empty ty) (json_type_matches j ty v) e) [
          | inl nil ↦ inl (is_empty_nil ty nil)
          | inr good ↦ inr good
        ]
        | inr e ↦ absurd (not_some (rw e at k))
      ]

  check-Fits :
      (schema : ToolSchema) (key : Text) (v : Value)
      → Fits schema key v
      → check_argument j schema key (lookup key schema.properties) v ≡ none
  unfolding check_argument
  check-Fits schema key v (inl (e, open_)) = rw e (rw open_ refl)
  check-Fits schema key v (inr (ty, e, inl nil)) = rw e (rw nil refl)
  check-Fits schema key v (inr (ty, e, inr good)) = rw e (either (is_empty ty))
    where
      either :
          (b : Bool)
          → (if b || json_type_matches j ty v
              then none
              else some (wrong_type key ty (json_type_name j v)))
            ≡ none
      either true = refl
      either false = rw good refl

  abbrev pub HasFitting : ToolSchema → List (Text × Value) → Type 0
  HasFitting schema args = (e : Text × Value) → In e args → Fits schema (e.0) (e.1)

  first_bad-none :
      (schema : ToolSchema) (args : List (Text × Value))
      → first_bad j schema args ≡ none
      → HasFitting schema args
  unfolding first_bad
  first_bad-none schema [] h e m = absurd m
  first_bad-none schema (a ∷ args) h e m = at_head (first_bad-none schema args) m
    where
      split_later :
          (o later : Option Reason) → or_later j o later ≡ none → (o ≡ none) × (later ≡ none)
      split_later none later k = (refl, k)
      split_later (some r) later k = cc

      at_head :
          (first_bad j schema args ≡ none → HasFitting schema args)
          → (e ≡ a) ⊎ In e args
          → Fits schema (e.0) (e.1)
      at_head ih (inl same) =
          subst (λ (x : Text × Value). Fits schema (x.0) (x.1)) (sym same)
            (Fits-check schema (a.0) (a.1) ((split_later _ _ h).0))
      at_head ih (inr n) = ih ((split_later _ _ h).1) e n

  none-first_bad :
      (schema : ToolSchema) (args : List (Text × Value))
      → HasFitting schema args
      → first_bad j schema args ≡ none
  unfolding first_bad
  none-first_bad schema [] f = refl
  none-first_bad schema (a ∷ args) f =
      rw (check-Fits schema (a.0) (a.1) (f a (inl refl)))
        (none-first_bad schema args (λ e m. f e (inr m)))

  -- What the policy asks of the arguments of a call.
  abbrev pub Conforms : ToolSchema → Value → Type 0
  Conforms schema arguments =
      (args : List (Text × Value)) × (object_of j arguments ≡ some args)
      × HasRequired schema.required args
      × HasFitting schema args

  -- What it asks of a call: the tool is not gated, or allowed; and it is known and the arguments
  -- conform to its schema, or it is unknown and unknown tools are open or no tools were learned.
  abbrev pub Admits : GatewayPolicy → Text → Value → Type 0
  Admits p name arguments =
      (is_blocked_state_change p name ≡ false)
      × (((lookup name p.tools ≡ none) × ((p.deny_unknown_tools && p.schemas_loaded) ≡ false))
          ⊎ ((schema : ToolSchema) × (lookup name p.tools ≡ some schema)
              × Conforms schema arguments))

  denied : {r : Reason} → deny r ≡ allow → ⊥
  denied h = cc

  conforms :
      (schema : ToolSchema) (arguments : Value)
      → check_schema j schema (object_of j arguments) ≡ allow
      → Conforms schema arguments
  unfolding check_schema check_required
  conforms schema arguments h = elim (Option-cases (object_of j arguments)) [
    | inl e ↦ absurd (denied (rw e at h))
    | inr found ↦
        (let (required, fitting) = parts found.0 (rw found.1 at h) in
          (found.0, found.1, required, fitting))
  ]
    where
      parts :
          (args : List (Text × Value))
          → check_required j (first_missing schema.required args) schema args ≡ allow
          → HasRequired schema.required args × HasFitting schema args
      parts args k = elim (Option-cases (first_missing schema.required args)) [
        | inl e ↦ (first_missing-none schema.required args e, fit args (rw e at k))
        | inr found ↦ absurd (denied (rw found.1 at k))
      ]
        where
          fit :
              (args : List (Text × Value))
              → verdict_of j (first_bad j schema args) ≡ allow
              → HasFitting schema args
          fit args k = elim (Option-cases (first_bad j schema args)) [
            | inl e ↦ first_bad-none schema args e
            | inr found ↦ absurd (denied (rw found.1 at k))
          ]

  -- A call is let through exactly when the policy admits it.
  pub inspect_tools_call_iff :
      (p : GatewayPolicy) (name : Text) (arguments : Value)
      → (inspect_tools_call j p name arguments ≡ allow) ↔ Admits p name arguments
  unfolding inspect_tools_call check_known check_schema check_required
  inspect_tools_call_iff p name arguments = (to, from)
    where
      known :
          check_known j p (lookup name p.tools) arguments ≡ allow
          → ((lookup name p.tools ≡ none) × ((p.deny_unknown_tools && p.schemas_loaded) ≡ false))
            ⊎ ((schema : ToolSchema) × (lookup name p.tools ≡ some schema)
                × Conforms schema arguments)
      known h = elim (Option-cases (lookup name p.tools)) [
        | inl e ↦ elim (Bool-cases (p.deny_unknown_tools && p.schemas_loaded)) [
          | inl shut ↦ absurd (denied (rw shut at (rw e at h)))
          | inr open_ ↦ inl (e, open_)
        ]
        | inr found ↦ inr (found.0, found.1, conforms found.0 arguments (rw found.1 at h))
      ]

      to :
          (if is_blocked_state_change p name
              then deny gated
              else check_known j p (lookup name p.tools) arguments)
            ≡ allow
          → Admits p name arguments
      to h = elim (Bool-cases (is_blocked_state_change p name)) [
        | inl e ↦ absurd (denied (rw e at h))
        | inr e ↦ (e, known (rw e at h))
      ]

      from :
          Admits p name arguments
          → (if is_blocked_state_change p name
              then deny gated
              else check_known j p (lookup name p.tools) arguments)
            ≡ allow
      from (free, inl (e, open_)) = rw free (rw e (rw open_ refl))
      from (free, inr (schema, e, (args, shaped, required, fitting))) = rw free (
          rw e (
            rw shaped (
              rw (none-first_missing schema.required args required)
                (rw (none-first_bad schema args fitting) refl))))
