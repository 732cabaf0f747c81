-- ===== src/Agent/Planner.antt =====
-- primary_agent/planner.py. The language model is a parameter: its text at each attempt, and what
-- `json.loads`, `float`, `str` make of texts and values. The prompt and the pause are left out.
pub mod Laws
pub mod Fallback
pub mod Plan
use revert_x.Prelude.{
  ℕ, zero, suc, ◌*◌, String, Bool, true, false, Option, none, some, List, [], ◌∷◌, map, length,
  take, is_nonempty, ◌&&◌, ◌==◌, if◌then◌else◌,
}
use revert_x.Int.{ℤ, pos, ◌+ℤ◌, ◌*ℤ◌, ltb_ℤ, leb_ℤ}
use revert_x.Python.{
  Exc, type_error, value_error, key_error, json_error, Result, ok, raised, Exec, pure, raise, lift,
  modify, ◌>>=◌, ◌>>◌, and_then,
}
use revert_x.Json.{Json, int, float, str, arr, obj, Items, nil, cons, Fields, get, truthy}
use revert_x.Dict.{lookup}
use revert_x.System.{System, publish_event, fields}
use revert_x.Values.{to_float}
use revert_x.Agent.Catalog.{CatalogEntry, merchant_catalog, catalog_by_id}

pub record PlannedPayment : Type 0 where
  pub merchant_id : String
  pub amount : ℤ
  pub item : String

-- `plan_call` has the number of the attempt; `show` is `str` on a value that is not a text.
pub record PlannerEnv : Type 0 where
  pub plan_call : ℕ → Result String
  pub loads : String → Result Json
  pub parse_float : String → Option ℤ
  pub show : Json → String
  pub show_exc : Exc → String

abbrev pub max_line_items : ℕ
max_line_items = 4

-- In hundredths.
abbrev pub plan_amount_band : ℕ
plan_amount_band = 50

abbrev to_str : PlannerEnv → Json → String
to_str env (str t) = t
to_str env v = env.show v

-- `raw[key]`, for a value that may not be a dict.
abbrev subscript : String → Fields → Result Json
subscript k m = elim (get k m) [ none ↦ raised key_error | some v ↦ ok v ]

-- `raw.get("item") or CATALOG_BY_ID[merchant_id].sample_item`
unfoldable item_of : PlannerEnv → Fields → String → Result String
item_of env m merchant_id =
    let sample : Result String = elim (lookup merchant_id catalog_by_id) [
      | none ↦ raised key_error
      | some e ↦ ok e.sample_item
    ] in
    elim (get "item" m) [ none ↦ sample | some v ↦ if truthy v then ok (to_str env v) else sample ]

-- The body of the `try`.
unfoldable pub read_item : PlannerEnv → Json → Result PlannedPayment
unfolding item_of
read_item env (obj m) = and_then (subscript "merchant_id" m) (λ id.
    let merchant_id = to_str env id in
    and_then (subscript "amount" m) (λ a. and_then (to_float env.parse_float a) (λ amount.
      and_then (item_of env m merchant_id)
        (λ item. ok (record { merchant_id = merchant_id; amount = amount; item = item })))))
read_item env _ = raised type_error

-- `low <= amount <= high`, everything times 100.
abbrev pub in_band : ℤ → ℤ → Bool
in_band cost amount =
    leb_ℤ (cost *ℤ pos 50) (amount *ℤ pos 100) && leb_ℤ (amount *ℤ pos 100) (cost *ℤ pos 150)

-- What the guardrails leave of an item; an amount is rounded already.
unfoldable pub guard : PlannedPayment → Option PlannedPayment
guard p = elim (lookup p.merchant_id catalog_by_id) [
  | none ↦ none
  | some e ↦ if in_band e.typical_cost p.amount then some p else none
]

-- The exceptions that drop one item.
unfoldable pub checked_item : PlannerEnv → Json → Result (Option PlannedPayment)
unfolding read_item guard
checked_item env raw = elim (read_item env raw) [
  | ok p ↦ ok (guard p)
  | raised x ↦ elim x [
    | key_error ↦ ok none
    | type_error ↦ ok none
    | value_error ↦ ok none
    | json_error ↦ ok none
    | e ↦ raised e
  ]
]

unfoldable pub checked_items : PlannerEnv → List Json → Result (List PlannedPayment)
unfolding checked_item
checked_items env [] = ok []
checked_items env (raw ∷ raws) =
    let rest = checked_items env raws in
    and_then (checked_item env raw)
      (λ o. elim o [ none ↦ rest | some p ↦ and_then rest (λ ps. ok (p ∷ ps)) ])

unfoldable pub validate_and_clamp : PlannerEnv → List Json → Result (List PlannedPayment)
unfolding checked_items
validate_and_clamp env raw_items = checked_items env (take max_line_items raw_items)

-- The catalog in its order, from a running total, with room for so many items.
unfoldable pub fallback_from : ℤ → ℕ → ℤ → List CatalogEntry → List PlannedPayment
unfolding ◌+ℤ◌
fallback_from budget left total [] = []
fallback_from budget zero total (e ∷ es) = []
fallback_from budget (suc left) total (e ∷ es) =
    let total' = total +ℤ e.typical_cost in
    let more = fallback_from budget left total' es in
    (record { merchant_id = e.merchant_id; amount = e.typical_cost; item = e.sample_item })
    ∷ (if ltb_ℤ budget total' then [] else more)

unfoldable pub fallback_plan : ℤ → List PlannedPayment
unfolding fallback_from
fallback_plan budget_limit = fallback_from budget_limit max_line_items (pos 0) merchant_catalog

-- `_emit`: without a workflow nothing is published.
unfoldable pub emit : String → String → Fields → System → System
unfolding publish_event
emit wid event_type payload s = if wid == "" then s else publish_event wid event_type payload s

abbrev pub items : Items → List Json
items nil = []
items (cons v vs) = v ∷ items vs

abbrev plan_json : List PlannedPayment → Items
plan_json [] = nil
plan_json (p ∷ ps) =
    cons
      (obj (
        fields (
          ("merchant_id", str p.merchant_id)
          ∷ ("amount", float p.amount)
          ∷ ("item", str p.item)
          ∷ [])))
      (plan_json ps)

abbrev generated : String → List PlannedPayment → Fields
generated source plan = fields (
    ("source", str source)
    ∷ ("line_items", int (pos (length plan)))
    ∷ ("plan", arr (plan_json plan))
    ∷ [])

-- A plan is published, and an empty one raises.
abbrev pub nonempty_plan : String → List PlannedPayment → Exec System (List PlannedPayment)
nonempty_plan wid plan =
    if is_nonempty plan
    then (modify (emit wid "planner_plan_generated" (generated "llm" plan)) >> pure plan)
    else raise value_error

unfoldable pub read_plan : PlannerEnv → String → Json → Exec System (List PlannedPayment)
unfolding validate_and_clamp emit
read_plan env wid (arr xs) = do
  plan ← lift (validate_and_clamp env (items xs))
  nonempty_plan wid plan
read_plan env wid _ = raise value_error

-- The body of the `try` of one attempt.
unfoldable pub ask : PlannerEnv → String → ℕ → Exec System (List PlannedPayment)
unfolding read_plan
ask env wid attempt = do
  raw_text ← lift (env.plan_call attempt)
  v ← lift (env.loads raw_text)
  read_plan env wid v

-- `except (json.JSONDecodeError, ValueError, KeyError)`
abbrev pub is_parse_failure : Exc → Bool
is_parse_failure json_error = true
is_parse_failure value_error = true
is_parse_failure key_error = true
is_parse_failure _ = false

abbrev reason : PlannerEnv → Option Exc → String
reason env none = "no valid line items from the LLM"
reason env (some e) = env.show_exc e

unfoldable pub fall_back : PlannerEnv → String → ℤ → Option Exc → Exec System (List PlannedPayment)
unfolding fallback_plan emit
fall_back env wid budget_limit last_api_exc = do
  let plan = fallback_plan budget_limit
  modify (
      emit wid "planner_plan_generated" (
        fields (
          ("source", str "fallback")
          ∷ ("reason", str (reason env last_api_exc))
          ∷ ("line_items", int (pos (length plan)))
          ∷ ("plan", arr (plan_json plan))
          ∷ [])))
  pure plan

-- The attempts that are left, and the number of the next one.
unfoldable pub attempts :
    PlannerEnv → String → ℤ → ℕ → ℕ → Option Exc → Exec System (List PlannedPayment)
unfolding ask fall_back
attempts env wid budget_limit zero k last_api_exc s = fall_back env wid budget_limit last_api_exc s
attempts env wid budget_limit (suc left) k last_api_exc s =
    let (r, t) = ask env wid k s in
    elim r [
      | ok plan ↦ (ok plan, t)
      | raised e ↦
          attempts env wid budget_limit left (suc k)
            (if is_parse_failure e then last_api_exc else some e) t
    ]

unfoldable pub plan_procurement :
    PlannerEnv → String → ℤ → String → Exec System (List PlannedPayment)
unfolding attempts emit
plan_procurement env goal budget_limit wid =
    modify (
      emit wid "planner_started"
        (fields (("goal", str goal) ∷ ("budget_limit", float budget_limit) ∷ [])))
    >> attempts env wid budget_limit 2 0 none
