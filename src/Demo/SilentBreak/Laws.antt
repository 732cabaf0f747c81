-- ===== src/Demo/SilentBreak/Laws.antt =====
-- That the silent break is caught, from the charge to the request for a compensation.
use revert_x.Prelude.{
  ℕ, ◌≡◌, refl, ap, ◌∙◌, String, true, false, none, some, List, [], ◌∷◌, ◌++◌, arith, eq_refl,
}
use revert_x.Int.{pos, ◌+ℤ◌, ◌≤ℤ◌}
use revert_x.Python.{ok, Result}
use revert_x.Dict.{lookup, lookup-insert}
use revert_x.Schemas.{TransactionLogEntry, FaultClassification, network_fault, hard_error}
use revert_x.Engine.Reconciliation.{reconcile, is_hard_error_type}
use revert_x.Engine.FaultClassifier.{classify_fault}
use revert_x.Db.Budget.{create_workflow, add_budget}
use revert_x.Db.Budget.Laws.{budget, reserve_budget_fits}
use revert_x.Db.Steps.{write_transaction_step, step_row}
use revert_x.System.{System, publish_event}
use revert_x.Merchants.Shop.{Charge, ChargeRequest}
use revert_x.Merchants.Domain
use revert_x.Merchants.Laws.{charge_of, silent_charge}
use revert_x.Proxy.Pay.Settle.{reconcile_entry}
use revert_x.Demo.SilentBreak.{
  Scene, price, budget_limit, truth_entry, hand_over, record_truth, reserve_truth, check_ledger,
  announced, main,
}

-- The reconciliation sees the timeout, whatever was seen before.
truth_entry_hard :
    (step_id wid : String) (truth : String × Charge) (seen : List String)
    → reconcile (truth_entry step_id wid truth) seen
      ≡ record { step_id = step_id; matched = false; mismatch_type = some hard_error }
unfolding reconcile truth_entry is_hard_error_type
truth_entry_hard step_id wid truth seen = refl

abbrev pub IsNetworkFault : TransactionLogEntry → Type 0
IsNetworkFault e =
    (c : FaultClassification) × (classify_fault e.step_id e.raw_gateway_response ≡ ok c)
    × (c.fault_type ≡ network_fault)

truth_entry-IsNetworkFault :
    (step_id wid : String) (truth : String × Charge)
    → IsNetworkFault (truth_entry step_id wid truth)
unfolding classify_fault truth_entry
truth_entry-IsNetworkFault step_id wid truth = (_, refl, refl)

-- What recording an entry of the demonstration adds.
record_truth_lem :
    (step_id wid : String) (truth : String × Charge) (s : System)
    → let entry = truth_entry step_id wid truth in
      let (r, t) = record_truth entry s in
      (r ≡ ok tt)
      × (t.compensation_requests
          ≡ s.compensation_requests ++ (record { workflow_id = wid; failing_step = entry }) ∷ [])
      × (t.db.transaction_steps ≡ s.db.transaction_steps ++ step_row entry none ∷ [])
unfolding record_truth hand_over truth_entry reconcile_entry reconcile is_hard_error_type
    classify_fault write_transaction_step publish_event
record_truth_lem step_id wid truth s = (refl, refl, refl)

-- A workflow that is created with the limit of the demonstration has room for its price.
created :
    (wid : String) (s : System)
    → lookup wid s.db.workflows ≡ none
    → budget wid (announced wid s).db
      ≡ some (record { budget_limit = budget_limit; budget_used = pos 0; status = "active" })
unfolding create_workflow publish_event
created wid s h = ground (
  arith,
  h,
  lookup-insert wid wid
      (record { budget_limit = budget_limit; budget_used = pos 0; status = "active" })
      s.db.workflows,
  eq_refl wid,
)

abbrev reserved : String → System → System
reserved wid s = record (announced wid s) { db = add_budget wid price (announced wid s).db }

reserve_truth_lem :
    (step_id wid : String) (truth : String × Charge) (s : System)
    → lookup wid s.db.workflows ≡ none
    → reserve_truth step_id wid truth (announced wid s)
      ≡ record_truth (truth_entry step_id wid truth) (reserved wid s)
unfolding reserve_truth
reserve_truth_lem step_id wid truth s h =
    let fits : pos 0 +ℤ price ≤ℤ budget_limit = unfold ◌+ℤ◌ in omega arith in
    rw (reserve_budget_fits wid price (announced wid s).db _ (created wid s h) fits) refl

-- A fresh workflow, a fresh reference and a merchant that has charged nothing for the workflow: the
-- charge that looks like a timeout ends in one row of the ledger, settled under the merchant's
-- reference, and in one request to compensate it, in whose response the network is at fault.
pub main_caught :
    (wid ref step_id : String) (now : ℕ) (scene : Scene)
    → lookup wid scene.system.db.workflows ≡ none
    → lookup ref scene.charges ≡ none
    → Domain.internal_ledger wid scene.charges ≡ []
    → (e : TransactionLogEntry) × (u : Scene) × (main wid ref step_id now scene ≡ (ok tt, u))
      × (u.system.db.transaction_steps ≡ scene.system.db.transaction_steps ++ step_row e none ∷ [])
      × (u.system.compensation_requests
          ≡ scene.system.compensation_requests
            ++ (record { workflow_id = wid; failing_step = e }) ∷ [])
      × (e.actual.settlement_ref ≡ ref)
      × (e.actual.status ≡ "settled")
      × IsNetworkFault e
unfolding main check_ledger
main_caught wid ref step_id now scene h k l =
    let req : ChargeRequest = record { amount = price; workflow_id = wid } in
    let truth : String × Charge = (ref, charge_of now req) in
    let e = truth_entry step_id wid truth in
    let charges = (Domain.charge true ref now req scene.charges).1 in
    let q = record_truth e (reserved wid scene.system) in
    let (fine, asked, row) = record_truth_lem step_id wid truth (reserved wid scene.system) in
    let (_, _, listed) = silent_charge ref now req scene.charges k in
    let ran : check_ledger step_id wid (Domain.internal_ledger wid charges)
          (announced wid scene.system)
        ≡ q =
      ap (λ ls. check_ledger step_id wid ls (announced wid scene.system))
        (listed ∙ ap (λ ls. ls ++ truth ∷ []) l)
      ∙ reserve_truth_lem step_id wid truth scene.system h in
    (
      e,
      record { system = q.1; charges = charges },
      ap (λ (x : Result (Unit {0}) × System). (x.0, record { system = x.1; charges = charges })) ran
          ∙ ap (λ r. (r, record { system = q.1; charges = charges })) fine,
      row ∙ (unfold create_workflow in unfold publish_event in refl),
      asked ∙ (unfold publish_event in refl),
      unfold truth_entry in refl,
      unfold truth_entry in refl,
      truth_entry-IsNetworkFault step_id wid truth,
    )
