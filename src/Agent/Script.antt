-- ===== src/Agent/Script.antt =====
-- `run_procurement` of primary_agent/procurement_agent.py: three fixed payments through the proxy
-- under a budget of 35000 rupees, the third of which is meant to be over it. The texts that it prints
-- and its pause are left out; that printing an answer of another shape raises is not.
pub mod Laws
use revert_x.Prelude.{ℕ, String, Option, none, some, List, [], ◌∷◌, eqb, ◌==◌, if◌then◌else◌}
use revert_x.Int.{ℤ, pos}
use revert_x.Python.{
  type_error, value_error, Result, ok, raised, and_then, Exec, pure, lift, modify, ◌>>=◌, ◌>>◌,
}
use revert_x.Json.{Json, int, float, bool, str, Fields, get}
use revert_x.Db.Lifecycle.{reset_workflow}
use revert_x.System.{System, publish_event, on_db}
use revert_x.Proxy.Workflows.{init_workflow}
use revert_x.Agent.Planner.{PlannedPayment}
use revert_x.Agent.Procurement.{AgentEnv, pay_request, post, sub_dict, complete_payload}

abbrev pub script_budget : ℤ
script_budget = pos 3500000

abbrev crm_license : PlannedPayment
crm_license = record {
  merchant_id = "merchant_a";
  amount = pos 1000000;
  item = "CRM license (annual)";
}

abbrev hotel_booking : PlannedPayment
hotel_booking = record {
  merchant_id = "merchant_b";
  amount = pos 2000000;
  item = "Hotel booking (2 nights)";
}

abbrev domain_registration : PlannedPayment
domain_registration = record {
  merchant_id = "merchant_c";
  amount = pos 1200000;
  item = "Domain registration + hosting";
}

-- `f"{budget.get(key, 0):,.0f}"`
abbrev shown_amount : String → Fields → Result (Unit {0})
shown_amount key m = elim (get key m) [
  | none ↦ ok tt
  | some v ↦ elim v [
    | int _ ↦ ok tt
    | float _ ↦ ok tt
    | bool _ ↦ ok tt
    | str _ ↦ raised value_error
    | _ ↦ raised type_error
  ]
]

-- What the printed lines read of an answer.
unfoldable pub show_answer : Fields → Result (Unit {0})
show_answer body = and_then (sub_dict "merchant_response" body) (λ response.
    and_then (sub_dict "reconciliation" body) (λ recon.
      and_then (sub_dict "budget" body)
        (λ budget. and_then (shown_amount "used" budget) (λ used. shown_amount "limit" budget))))

-- One of the first two payments: its status is not looked at.
unfoldable pub buy : AgentEnv → String → ℕ → PlannedPayment → String → Exec System (Unit {0})
unfolding post show_answer
buy env wid k p payee = do
  resp ← post (env.proxy k) (pay_request env wid k p payee)
  lift (show_answer resp.body)

-- The third payment, with what is announced if it is not refused.
unfoldable pub overspend : AgentEnv → String → ℕ → PlannedPayment → String → Exec System (Unit {0})
unfolding post publish_event
overspend env wid k p payee = do
  resp ← post (env.proxy k) (pay_request env wid k p payee)
  if eqb resp.status_code 403
      then pure tt
      else modify (publish_event wid "workflow_complete" (complete_payload (pos 4200000) 3))

-- The workflow is declared, and the three payments are made in turn.
unfoldable pub run_script : AgentEnv → String → Exec System (Unit {0})
unfolding init_workflow buy overspend
run_script env wid = do
  modify (init_workflow wid script_budget)
  buy env wid 0 crm_license "CRM Corp"
  buy env wid 1 hotel_booking "Grand Hotel"
  overspend env wid 2 domain_registration "Domain Registrar"

-- A given workflow is reset first; without one the id is fresh.
unfoldable pub run_procurement : AgentEnv → Option String → String → Exec System (Unit {0})
unfolding run_script reset_workflow
run_procurement env workflow_id fresh_id =
    let wid : String = elim workflow_id [
      | none ↦ fresh_id
      | some w ↦ if w == "" then fresh_id else w
    ] in
    modify (elim workflow_id [ none ↦ (λ s. s) | some w ↦ on_db (reset_workflow wid) ])
    >> run_script env wid
