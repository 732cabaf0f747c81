-- ===== src/Agent/Procurement.antt =====
-- `run_procurement_with_plan` of primary_agent/procurement_agent.py: a plan is asked for, and paid
-- through the proxy, one payment after the other. What the proxy is told from outside, and a fresh
-- idempotency key, differ from payment to payment. What the agent prints is left out, and so is its
-- pause.
pub mod Laws
pub mod Limited
pub mod Books
use revert_x.Prelude.{
  ℕ, suc, String, Bool, true, false, Option, none, some, List, [], ◌∷◌, length, eqb, not, ◌&&◌,
  ◌==◌, if◌then◌else◌,
}
use revert_x.Int.{ℤ, pos, ◌+ℤ◌}
use revert_x.Python.{
  Exc, key_error, json_error, other, Result, ok, raised, Exec, pure, raise, lift, modify, ◌>>=◌,
  ◌>>◌,
}
use revert_x.Json.{Json, int, float, str, obj, Fields, end, get, truthy}
use revert_x.Dict.{lookup}
use revert_x.Db.Lifecycle.{reset_workflow}
use revert_x.System.{System, publish_event, on_db, fields}
use revert_x.Proxy.Pay.Env.{PayEnv, PayRequest, HttpResponse}
use revert_x.Proxy.Pay.Handler.{pay}
use revert_x.Proxy.Workflows.{init_workflow}
use revert_x.Agent.Catalog.{catalog_by_id}
use revert_x.Agent.Planner.{PlannedPayment, PlannerEnv, plan_procurement}

-- The k-th payment has the k-th of each.
pub record AgentEnv : Type 0 where
  pub planner : PlannerEnv
  pub proxy : ℕ → PayEnv
  pub idempotency_key : ℕ → String

-- `CATALOG_BY_ID[merchant_id].payee`
abbrev payee_of : String → Result String
payee_of merchant_id = elim (lookup merchant_id catalog_by_id) [
  | none ↦ raised key_error
  | some e ↦ ok e.payee
]

abbrev pub pay_request : AgentEnv → String → ℕ → PlannedPayment → String → PayRequest
pay_request env wid k p payee = record {
  workflow_id = wid;
  merchant_id = p.merchant_id;
  idempotency_key = env.idempotency_key k;
  amount = float p.amount;
  payee = some payee;
  item = some p.item;
  currency = some "INR";
  category = none;
}

-- The proxy's answer; a handler that raises answers with a text that is not JSON.
unfoldable pub post : PayEnv → PayRequest → Exec System HttpResponse
unfolding pay
post env req s =
    let (r, t) = pay env req s in elim r [ ok a ↦ (ok a, t) | raised e ↦ (raised json_error, t) ]

-- `data.get(key, {})`, of which the agent takes keys.
abbrev pub sub_dict : String → Fields → Result Fields
sub_dict key m = elim (get key m) [
  | none ↦ ok end
  | some v ↦ elim v [ obj sub ↦ ok sub | _ ↦ raised other ]
]

-- `recon.get("match", True)`
abbrev pub matched : Fields → Bool
matched recon = elim (get "match" recon) [ none ↦ true | some v ↦ truthy v ]

-- Whether the payment was refused with a 403, and if not, whether it reconciled.
pub data Paid : Type 0 where
  refused : Paid
  answered : Bool → Paid

unfoldable pub pay_item : AgentEnv → String → ℕ → PlannedPayment → Exec System Paid
unfolding post
pay_item env wid k p = do
  payee ← lift (payee_of p.merchant_id)
  resp ← post (env.proxy k) (pay_request env wid k p payee)
  if eqb resp.status_code 403
      then pure refused
      else (do recon ← lift (sub_dict "reconciliation" resp.body); pure (answered (matched recon)))

pub record Progress : Type 0 where
  pub total_paid : ℤ
  pub mandate_exceeded_hit : Bool
  pub all_reconciled : Bool

abbrev pub count_in : PlannedPayment → Bool → Progress → Progress
count_in p m acc = record acc {
  all_reconciled = acc.all_reconciled && m;
  total_paid = acc.total_paid +ℤ p.amount;
}

-- The loop over the plan; a 403 ends it.
unfoldable pub pay_all :
    AgentEnv → String → ℕ → List PlannedPayment → Progress → Exec System Progress
unfolding pay_item
pay_all env wid k [] acc = pure acc
pay_all env wid k (p ∷ ps) acc = do
  r ← pay_item env wid k p
  elim r [
    | refused ↦ pure (record acc { mandate_exceeded_hit = true })
    | answered m ↦ pay_all env wid (suc k) ps (count_in p m acc)
  ]

abbrev pub nothing_paid : Progress
nothing_paid = record { total_paid = pos 0; mandate_exceeded_hit = false; all_reconciled = true }

abbrev pub complete_payload : ℤ → ℕ → Fields
complete_payload total_paid count = fields (
    ("outcome", str "success")
    ∷ ("total_paid", float total_paid)
    ∷ ("merchant_count", int (pos count))
    ∷ [])

unfoldable pub finish_run : String → List PlannedPayment → Progress → System → System
unfolding publish_event
finish_run wid plan acc s =
    if not acc.mandate_exceeded_hit && acc.all_reconciled
    then publish_event wid "workflow_complete" (complete_payload acc.total_paid (length plan)) s
    else s

-- The payments and the report.
unfoldable pub pay_plan : AgentEnv → String → ℤ → List PlannedPayment → Exec System (Unit {0})
unfolding pay_all finish_run init_workflow
pay_plan env wid budget_limit plan = do
  modify (init_workflow wid budget_limit)
  acc ← pay_all env wid 0 plan nothing_paid
  modify (finish_run wid plan acc)

-- A given workflow is reset first; without one the id is fresh.
unfoldable pub run_procurement_with_plan :
    AgentEnv → String → ℤ → Option String → String → Exec System (Unit {0})
unfolding pay_plan plan_procurement reset_workflow
run_procurement_with_plan env goal budget_limit workflow_id fresh_id =
    let wid : String = elim workflow_id [
      | none ↦ fresh_id
      | some w ↦ if w == "" then fresh_id else w
    ] in
    modify (elim workflow_id [ none ↦ (λ s. s) | some w ↦ on_db (reset_workflow wid) ]) >> (do
      plan ← plan_procurement env.planner goal budget_limit wid
      elim plan [ [] ↦ pure tt | p ∷ ps ↦ pay_plan env wid budget_limit (p ∷ ps) ])
