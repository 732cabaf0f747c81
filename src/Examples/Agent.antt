-- ===== src/Examples/Agent.antt =====
-- The theorems on the agent and on sequences of requests at concrete inputs.
use revert_x.Prelude.{zero, suc, ◌≡◌, ◌⊎◌, refl, true, false, none, some, List, [], ◌∷◌, All, arith}
use revert_x.Int.{pos, ◌+ℤ◌, ◌-ℤ◌}
use revert_x.Python.{Result, ok, raised, timeout}
use revert_x.Json.{Fields, float, str, arr, obj, nil, cons}
use revert_x.System.{System, fields}
use revert_x.Proxy.Pay.Env.{HttpResponse}
use revert_x.Authorization.Wallet.{can_spend, get_wallet, record_spend}
use revert_x.Authorization.Policy.{all_passed, evaluate}
use revert_x.Authorization.Authorize.{authorize}
use revert_x.Db.Steps.{
  get_idempotency_response, get_workflow_steps, write_transaction_step, save_idempotency_response,
}
use revert_x.Db.Budget.{reserve_budget, commit_budget}
use revert_x.Merchants.Registry.{merchant_port}
use revert_x.Proxy.Pay.Settle.{finish}
use revert_x.Engine.Reconciliation.{reconcile, is_hard_error_type, is_error_status}
use revert_x.Proxy.Pay.Handler.{pay}
use revert_x.Agent.Catalog.{catalog_by_id}
use revert_x.Proxy.Pay.Books.{InBooks}
use revert_x.Agent.Planner.{PlannedPayment, PlannerEnv, plan_procurement}
use revert_x.Agent.Planner.Fallback.{total_of}
use revert_x.Agent.Planner.Plan.{Planned, plan_procurement-Planned}
use revert_x.Agent.Procurement.{AgentEnv, Progress, pay_item, pay_all, nothing_paid}
use revert_x.Agent.Procurement.Laws.{pay_all-InBooks}
use revert_x.Agent.Procurement.Limited.{IsKnown, Counted, pay_all-limited}
use revert_x.Agent.Script.{script_budget, buy, overspend, run_procurement}
use revert_x.Agent.Runs.{Anew}
use revert_x.Agent.Launch.{run_main, trigger_run}
use revert_x.Agent.Launch.Laws.{trigger_run-Anew}
use revert_x.Examples.World.{world, empty_db, pay_env, pay_request}

abbrev start : System
start = world empty_db

-- A model that cannot be reached at first, and then plans one payment of 9000 rupees.
abbrev planner_env : PlannerEnv
planner_env = record {
  plan_call = λ k. elim k [ zero ↦ raised timeout | suc _ ↦ ok "plan" ];
  loads = λ t. ok (
      arr (
        cons
          (obj (fields (("merchant_id", str "merchant_a") ∷ ("amount", float (pos 900000)) ∷ [])))
          nil));
  parse_float = λ t. none;
  show = λ v. "";
  show_exc = λ e. "";
}

plan_procurement-Planned_example :
    Planned (plan_procurement planner_env "a CRM" (pos 3500000) "wf-1" start).0
plan_procurement-Planned_example =
    plan_procurement-Planned planner_env "a CRM" (pos 3500000) "wf-1" start

-- One request, and the state that it leads to.
abbrev served : System
served = (pay pay_env pay_request start).1

response_of : Result HttpResponse → HttpResponse
response_of (ok r) = r
response_of (raised e) = record { status_code = 0; body = Fields.end }

answered :
    pay pay_env pay_request start ≡ (ok (response_of (pay pay_env pay_request start).0), served)
unfolding pay authorize response_of get_idempotency_response can_spend get_wallet ◌-ℤ◌ all_passed
    evaluate reserve_budget record_spend ◌+ℤ◌ merchant_port finish
answered = refl

abbrev agent_env : AgentEnv
agent_env = record { planner = planner_env; proxy = λ k. pay_env; idempotency_key = λ k. "key" }

abbrev plan : List PlannedPayment
plan = (record { merchant_id = "merchant_a"; amount = pos 100000; item = "CRM" }) ∷ []

abbrev after : Progress
after = record { total_paid = pos 100000; mandate_exceeded_hit = false; all_reconciled = true }

ran :
    pay_all agent_env "wf-1" 0 plan nothing_paid start
    ≡ (ok after, (pay_all agent_env "wf-1" 0 plan nothing_paid start).1)
unfolding pay_all pay_item pay authorize get_idempotency_response can_spend get_wallet ◌-ℤ◌
    all_passed evaluate reserve_budget record_spend ◌+ℤ◌ merchant_port finish catalog_by_id
    reconcile is_hard_error_type is_error_status get_workflow_steps write_transaction_step
    commit_budget
ran = refl

pay_all-InBooks_example :
    InBooks start (pay_all agent_env "wf-1" 0 plan nothing_paid start).1
    × ((after.mandate_exceeded_hit ≡ true) ⊎ (after.total_paid ≡ total_of plan))
pay_all-InBooks_example = pay_all-InBooks agent_env "wf-1" plan after start _ ran

abbrev busy : System
busy = record start { rate_limit = ("wf-1", 50) ∷ [] }

known : All IsKnown plan
unfolding catalog_by_id
known = ((_, refl), tt)

pay_all-limited_example :
    (after : Progress) × (t : System) × (pay_all agent_env "wf-1" 0 plan nothing_paid busy
      ≡ (ok after, t))
    × Counted plan nothing_paid after
    × (t.db ≡ empty_db)
pay_all-limited_example = pay_all-limited agent_env "wf-1" 50 plan busy refl (omega arith) known

-- The script under the id `wf-1`, whose payments have keys of their own.
abbrev script_env : AgentEnv
script_env = record agent_env {
  idempotency_key =
      λ k. elim k [ zero ↦ "key-0" | suc j ↦ elim j [ zero ↦ "key-1" | suc _ ↦ "key-2" ] ];
}

abbrev script_end : System
script_end = (run_procurement script_env (some "wf-1") "wf-2" start).1

script_ran : run_procurement script_env (some "wf-1") "wf-2" start ≡ (ok tt, script_end)
unfolding run_procurement buy overspend pay_item pay authorize get_idempotency_response can_spend
    get_wallet ◌-ℤ◌ all_passed evaluate reserve_budget record_spend ◌+ℤ◌ merchant_port finish
    reconcile is_hard_error_type is_error_status get_workflow_steps write_transaction_step
    commit_budget save_idempotency_response
script_ran = refl

script_launched :
    run_main script_env (trigger_run none (pos 100) "wf-1") "wf-2" start ≡ (ok tt, script_end)
unfolding run_main trigger_run
script_launched = script_ran

trigger_run-Anew_example : Anew "wf-1" script_budget start script_end
trigger_run-Anew_example =
    trigger_run-Anew script_env none (pos 100) "wf-1" "wf-2" start script_end refl script_launched
