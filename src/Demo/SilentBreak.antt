-- ===== src/Demo/SilentBreak.antt =====
-- demo_silent_break.py: a charge whose answer hides that it was settled, found in the merchant's
-- ledger, recorded, and handed to the compensation. The state is the system and the merchant's
-- charges; what is printed is left out.
pub mod Laws
use revert_x.Prelude.{
  ℕ, String, Bool, true, false, Option, none, some, List, [], ◌∷◌, ◌++◌, ◌||◌, not, if◌then◌else◌,
}
use revert_x.Int.{ℤ, pos}
use revert_x.Python.{Result, ok, raised, Exec, pure, lift, modify, gets, ◌>>=◌, ◌>>◌}
use revert_x.Json.{Json, int, float, str, bool, Fields}
use revert_x.Schemas.{
  TransactionLogEntry, ReconciliationResult, Mismatch, hard_error, FaultType, network_fault,
  agent_fault,
}
use revert_x.Engine.FaultClassifier.{classify_fault}
use revert_x.Db.Budget.{create_workflow, reserve_budget}
use revert_x.Db.Steps.{write_transaction_step}
use revert_x.System.{System, CompensationRequest, publish_event, on_db, fields}
use revert_x.Merchants.Shop.{Charge, Charges}
use revert_x.Merchants.Domain
use revert_x.Proxy.Pay.Settle.{reconcile_entry, mismatch_text}

pub record Scene : Type 0 where
  pub system : System
  pub charges : Charges

-- In paise.
abbrev pub budget_limit : ℤ
budget_limit = pos 1500000

abbrev pub price : ℤ
price = pos 1200000

abbrev pub raw_timeout : Fields
raw_timeout = fields (
    ("status_code", int (pos 504))
    ∷ ("error_type", str "timeout")
    ∷ ("detail", str "Gateway timeout — no confirmation received from processor.")
    ∷ [])

-- The entry: what was asked for, what the merchant's ledger says, and what the gateway said.
unfoldable pub truth_entry : String → String → String × Charge → TransactionLogEntry
truth_entry step_id wid (ref, charge) = record {
  step_id = step_id;
  workflow_id = wid;
  action_type = "payment";
  merchant_id = "merchant_c";
  expected = record {
    amount = price;
    currency = "INR";
    payee = "Domain Registrar";
    item = "domain registration";
  };
  actual = record {
    amount = charge.amount;
    currency = "INR";
    payee = "Domain Registrar";
    settlement_ref = ref;
    status = "settled";
  };
  raw_gateway_response = raw_timeout;
}

abbrev is_hard_error : Option Mismatch → Bool
is_hard_error (some hard_error) = true
is_hard_error _ = false

-- `publish_compensation_request`, unless one of the two verdicts is not the expected one.
unfoldable pub hand_over : TransactionLogEntry → ReconciliationResult → Exec System (Unit {0})
hand_over entry recon =
    if recon.matched || not (is_hard_error recon.mismatch_type) then pure tt else (do
      c ← lift (classify_fault entry.step_id entry.raw_gateway_response)
      elim c.fault_type [
        | agent_fault ↦ pure tt
        | network_fault ↦ modify (λ s. record s {
          compensation_requests =
              s.compensation_requests
              ++ (record { workflow_id = entry.workflow_id; failing_step = entry }) ∷ [];
        })
      ])

-- The entry is written, and reconciled against the other references of the workflow.
unfoldable pub record_truth : TransactionLogEntry → Exec System (Unit {0})
unfolding hand_over
record_truth entry = do
  modify (on_db (write_transaction_step entry none))
  modify (
      publish_event entry.workflow_id "step_written" (fields (("step_id", str entry.step_id) ∷ [])))
  recon ← gets (λ s. reconcile_entry entry s.db)
  modify (
      publish_event entry.workflow_id "reconciliation_result" (
        fields (
          ("step_id", str entry.step_id)
          ∷ ("match", bool recon.matched)
          ∷ ("mismatch_type", mismatch_text recon.mismatch_type)
          ∷ ("merchant_id", str "merchant_c")
          ∷ ("amount", float price)
          ∷ ("status", str "settled")
          ∷ [])))
  hand_over entry recon

-- The money is reserved only now; without room the demo ends.
unfoldable pub reserve_truth : String → String → String × Charge → Exec System (Unit {0})
unfolding record_truth truth_entry
reserve_truth step_id wid truth s =
    let ((reserved, _, _), db') = reserve_budget wid price s.db in
    let t = record s { db = db' } in
    if reserved then record_truth (truth_entry step_id wid truth) t else (ok tt, t)

-- The first charge of the merchant's ledger, if there is one.
unfoldable pub check_ledger : String → String → List (String × Charge) → Exec System (Unit {0})
unfolding reserve_truth
check_ledger step_id wid [] = pure tt
check_ledger step_id wid (truth ∷ _) = reserve_truth step_id wid truth

abbrev pub announced : String → System → System
announced wid s =
    publish_event wid "payment_attempt"
      (fields (
        ("merchant_id", str "merchant_c")
        ∷ ("amount", float price)
        ∷ ("payee", str "Domain Registrar")
        ∷ ("item", str "domain registration")
        ∷ []))
      (publish_event wid "workflow_init" (fields (("budget_limit", float budget_limit) ∷ []))
        (on_db (create_workflow wid budget_limit) s))

-- The references and the step id are fresh; the merchant charges at the time `now`.
unfoldable pub main : String → String → String → ℕ → Exec Scene (Unit {0})
unfolding check_ledger
main wid ref step_id now scene =
    let (answer, charges) =
      Domain.charge true ref now (record { amount = price; workflow_id = wid }) scene.charges in
    let (r, t) =
      check_ledger step_id wid (Domain.internal_ledger wid charges) (announced wid scene.system) in
    (r, record { system = t; charges = charges })
