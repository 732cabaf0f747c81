-- ===== src/Proxy/Pay/Settle.antt =====
-- The second half of `/pay`: what the answer of the merchant means for the budget, the ledger,
-- the reconciliation and the response.
use revert_x.Prelude.{
  ℕ, String, not, Option, none, some, List, [], ◌∷◌, ◌==◌, map, keep, get_or, if◌then◌else◌,
}
use revert_x.Int.{ℤ, pos, eqb_ℤ}
use revert_x.Python.{Result, ok, raised, type_error, Exec, lift, modify, ◌>>=◌, ◌>>◌}
use revert_x.Json.{Json, null, bool, int, float, str, obj, Fields, get, put, is_text}
use revert_x.Dict.{insert}
use revert_x.Schemas.{
  ExpectedPayment, ActualPayment, TransactionLogEntry, Mismatch, hard_error, amount_mismatch,
  payee_mismatch, pending_unconfirmed, duplicate_settlement, ReconciliationResult,
}
use revert_x.Engine.Reconciliation.{reconcile}
use revert_x.Db.{Db}
use revert_x.Db.Budget.{commit_budget, rollback_budget, get_budget_state}
use revert_x.Db.Steps.{write_transaction_step, get_workflow_steps, save_idempotency_response}
use revert_x.Db.Payouts.{set_pending_payout_step_id}
use revert_x.System.{System, publish_event, on_db, fields}
use revert_x.Values.{to_float, to_text}
use revert_x.Proxy.Pay.Env.{PayEnv, PayRequest, HttpResponse}

-- state_log/redis_client.py: the references of a workflow's steps, the empty one aside.
pub seen_settlement_refs : String → Db → List String
seen_settlement_refs wid db =
    keep (λ r. not (r == "")) (map (λ e. e.actual.settlement_ref) (get_workflow_steps wid db))

-- `{**merchant_data, ...}`: anything but a dict raises.
abbrev pub as_dict : Json → Result Fields
as_dict (obj m) = ok m
as_dict _ = raised type_error

-- What the handler reads off the answer, before it checks the types of the texts.
pub record Charge : Type 0 where
  pub raw_response : Fields
  pub actual_status : Json
  pub actual_amount : ℤ
  pub actual_payee : Json
  pub settlement_ref : Json

unfoldable pub read_charge : PayEnv → ExpectedPayment → Json → ℤ → Result Charge
read_charge env expected merchant_data status_code = elim (as_dict merchant_data) [
  | raised e ↦ raised e
  | ok m ↦
      let raw = put "status_code" (int status_code) m in
      let told : Result Charge =
        elim (to_float env.parse_float (get_or (get "amount" m) (float expected.amount))) [
          | raised e ↦ raised e
          | ok amount ↦ ok (record {
            raw_response = raw;
            actual_status = get_or (get "status" m) (str "failed");
            actual_amount = amount;
            actual_payee = get_or (get "payee" m) (str expected.payee);
            settlement_ref = get_or (get "settlement_ref" m) (str "");
          })
        ] in
      if eqb_ℤ status_code (pos 200)
      then told
      else ok (record {
        raw_response = raw;
        actual_status = str "failed";
        actual_amount = expected.amount;
        actual_payee = str expected.payee;
        settlement_ref = str "";
      })
]

-- Step 4: a settled payment is committed, an open one keeps its reservation, any other gives it
-- back.
unfoldable pub settle_budget : String → ℤ → Charge → Db → Db
settle_budget wid amount c db =
    if is_text "settled" c.actual_status
    then commit_budget wid amount c.actual_amount db
    else if is_text "pending" c.actual_status
    then db
    else rollback_budget wid amount db

unfoldable pub actual_payment : String → Charge → Result ActualPayment
actual_payment currency c = elim (to_text c.actual_payee) [
  | raised e ↦ raised e
  | ok payee ↦ elim (to_text c.settlement_ref) [
    | raised e ↦ raised e
    | ok ref ↦ elim (to_text c.actual_status) [
      | raised e ↦ raised e
      | ok status ↦ ok (record {
        amount = c.actual_amount;
        currency = currency;
        payee = payee;
        settlement_ref = ref;
        status = status;
      })
    ]
  ]
]

abbrev pub mismatch_text : Option Mismatch → Json
mismatch_text none = null
mismatch_text (some hard_error) = str "hard_error"
mismatch_text (some amount_mismatch) = str "amount_mismatch"
mismatch_text (some payee_mismatch) = str "payee_mismatch"
mismatch_text (some pending_unconfirmed) = str "pending_unconfirmed"
mismatch_text (some duplicate_settlement) = str "duplicate_settlement"

abbrev pub set_row : Option ℕ → String → Db → Db
set_row none step db = db
set_row (some row) step db = set_pending_payout_step_id row step db

abbrev pub payment_entry :
    PayEnv → PayRequest → ExpectedPayment → ActualPayment → Fields → TransactionLogEntry
payment_entry env req expected actual raw = record {
  step_id = env.step_id;
  workflow_id = req.workflow_id;
  action_type = "payment";
  merchant_id = req.merchant_id;
  expected = expected;
  actual = actual;
  raw_gateway_response = raw;
}

-- The result of step 6, against the references that the ledger then holds.
unfoldable pub reconcile_entry : TransactionLogEntry → Db → ReconciliationResult
unfolding seen_settlement_refs
reconcile_entry entry db =
    let ref = entry.actual.settlement_ref in
    reconcile entry (keep (λ r. not (r == ref)) (seen_settlement_refs entry.workflow_id db))

response_body : TransactionLogEntry → Json → ReconciliationResult → ℤ × ℤ → Fields
response_body entry merchant_data recon (used, limit) = fields (
    ("step_id", str entry.step_id)
    ∷ ("merchant_response", merchant_data)
    ∷ (
      "reconciliation",
      obj (
          fields (
            ("step_id", str recon.step_id)
            ∷ ("match", bool recon.matched)
            ∷ ("mismatch_type", mismatch_text recon.mismatch_type)
            ∷ [])),
    )
    ∷ ("budget", obj (fields (("used", float used) ∷ ("limit", float limit) ∷ [])))
    ∷ [])

-- Steps 5 and 6 with the response, once the entry is made.
unfoldable pub record_entry :
    PayRequest → TransactionLogEntry → Json → Option ℕ → Exec System HttpResponse
unfolding reconcile_entry response_body publish_event
record_entry req entry merchant_data row s =
    let wid = req.workflow_id in
    let db1 =
      set_row row entry.step_id (write_transaction_step entry (some req.idempotency_key) s.db) in
    let recon = reconcile_entry entry db1 in
    let body = response_body entry merchant_data recon (get_budget_state wid db1) in
    let t =
      publish_event wid "reconciliation_result"
        (fields (
          ("step_id", str entry.step_id)
          ∷ ("match", bool recon.matched)
          ∷ ("mismatch_type", mismatch_text recon.mismatch_type)
          ∷ ("status", str entry.actual.status)
          ∷ []))
        (publish_event wid "step_written"
          (fields (("step_id", str entry.step_id) ∷ ("merchant_id", str entry.merchant_id) ∷ []))
          s) in
    (
      ok (record { status_code = 200; body = body }),
      record t {
        db = save_idempotency_response req.idempotency_key body db1;
        idem = insert req.idempotency_key body t.idem;
      },
    )

-- Everything after the merchant has answered.
unfoldable pub finish :
    PayEnv → PayRequest → ExpectedPayment → Json × ℤ × Option ℕ → Exec System HttpResponse
unfolding read_charge settle_budget actual_payment record_entry
finish env req expected (merchant_data, status_code, row) = do
  c ← lift (read_charge env expected merchant_data status_code)
  modify (on_db (settle_budget req.workflow_id expected.amount c))
  actual ← lift (actual_payment expected.currency c)
  record_entry req (payment_entry env req expected actual c.raw_response) merchant_data row
