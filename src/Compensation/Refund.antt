-- ===== src/Compensation/Refund.antt =====
-- `attempt_refund_node`: one refund, under the merchant's circuit breaker.
pub mod Laws
pub mod Shut
use revert_x.Prelude.{
  ℕ, String, Bool, true, false, Option, none, some, List, [], ◌∷◌, ◌++◌, get_or, is_some,
  if◌then◌else◌, ◌||◌, ◌&&◌, not,
}
use revert_x.Int.{ℤ, pos, eqb_ℤ}
use revert_x.Python.{
  Exc, timeout, connect_error, other, Result, ok, raised, type_error, Exec, pure, raise, lift,
  modify, gets, catch, ◌>>=◌, ◌>>◌,
}
use revert_x.Json.{Json, null, float, str, obj, Fields, get, is_text}
use revert_x.Schemas.{TransactionLogEntry}
use revert_x.Db.{Db, closed_state, open_state}
use revert_x.Db.Breakers.{record_merchant_failure, check_circuit_breaker, reset_circuit_breaker}
use revert_x.Db.Steps.{write_dlq_entry, write_transaction_step}
use revert_x.Merchants.Registry.{merchant_port, needs_refund_amount}
use revert_x.System.{System, write_compensation_trace, publish_event, on_db, fields}
use revert_x.Compensation.State.{
  CompensationState, PolicyTerms, StepResult, Outcome, refunded, failed, dlq, non_refundable, error,
  GraphEnv, Node, trace,
}
use revert_x.Compensation.Policy.{with_step}

abbrev pub result : TransactionLogEntry → Outcome → ℤ → StepResult
result e outcome amount = record {
  step_id = e.step_id;
  merchant_id = e.merchant_id;
  outcome = outcome;
  amount_recovered = amount;
}

-- The body of the request; most merchants take no amount.
refund_payload : TransactionLogEntry → ℤ → Fields
refund_payload e amount = fields (
    ("settlement_ref", str e.actual.settlement_ref)
    ∷ (if needs_refund_amount e.merchant_id then ("amount", float amount) ∷ [] else []))

-- `status_code == 200 and data.get("status") in ("refunded", "success")`
unfoldable pub is_accepted : ℤ → Json → Result Bool
is_accepted code body =
    if eqb_ℤ code (pos 200)
    then (elim body [
      | obj m ↦
          let status = get_or (get "status" m) null in
          ok (is_text "refunded" status || is_text "success" status)
      | _ ↦ raised other
    ])
    else ok false

refund_entry : GraphEnv → CompensationState → TransactionLogEntry → ℤ → TransactionLogEntry
refund_entry env st e amount = record {
  step_id = env.step_id;
  workflow_id = st.workflow_id;
  action_type = "refund";
  merchant_id = e.merchant_id;
  expected = record { amount = amount; currency = "INR"; payee = e.merchant_id; item = "refund" };
  actual = record {
    amount = amount;
    currency = "INR";
    payee = e.merchant_id;
    settlement_ref = e.actual.settlement_ref;
    status = "refunded";
  };
  raw_gateway_response = fields [];
}

result_fields : StepResult → Fields
result_fields r = fields (
    ("step_id", str r.step_id)
    ∷ ("merchant_id", str r.merchant_id)
    ∷ ("amount_recovered", float r.amount_recovered)
    ∷ [])

-- The merchant has answered: the breaker is reset first.
unfoldable pub refund_answered :
    GraphEnv → CompensationState → TransactionLogEntry → ℤ → ℤ × Json → Exec System StepResult
unfolding result_fields publish_event write_transaction_step refund_entry
refund_answered env st e amount (code, body) = do
  modify (on_db (reset_circuit_breaker e.merchant_id))
  accepted ← lift (is_accepted code body)
  if accepted
      then (do
        let r = result e refunded amount
        modify (publish_event st.workflow_id "refund_success" (result_fields r))
        modify (on_db (write_transaction_step (refund_entry env st e amount) none))
        pure r)
      else (do
        let r = result e failed (pos 0)
        modify (publish_event st.workflow_id "refund_failed" (result_fields r))
        pure r)

unfoldable pub dlq_row : CompensationState → TransactionLogEntry → ℤ → Db → Db
unfolding write_dlq_entry
dlq_row st e amount = write_dlq_entry (record {
  workflow_id = st.workflow_id;
  merchant_id = e.merchant_id;
  step_id = e.step_id;
  amount = amount;
  settlement_ref = e.actual.settlement_ref;
})

-- The merchant cannot be reached: one failure more, and a row for later.
unfoldable pub merchant_failed :
    CompensationState → TransactionLogEntry → ℤ → Exec System StepResult
unfolding dlq_row
merchant_failed st e amount s = (
  ok (result e dlq (pos 0)),
  on_db (λ db. dlq_row st e amount (record_merchant_failure e.merchant_id db).1) s,
)

unfoldable pub request_refund :
    GraphEnv → CompensationState → TransactionLogEntry → ℤ → Exec System StepResult
unfolding refund_answered merchant_failed refund_payload
request_refund env st e amount =
    catch
      (do
        answer ← lift (env.refund (merchant_port e.merchant_id) (refund_payload e amount))
        refund_answered env st e amount answer)
      (λ x. elim x [
        | timeout ↦ merchant_failed st e amount
        | connect_error ↦ merchant_failed st e amount
        | _ ↦ pure (result e error (pos 0))
      ])

-- A policy that allows no refund ends the step; no policy at all means the whole amount.
unfoldable pub refund_or_halt :
    GraphEnv → CompensationState → TransactionLogEntry → Exec System StepResult
unfolding request_refund result_fields publish_event
refund_or_halt env st e = elim st.refund_amount [
  | some amount ↦ request_refund env st e amount
  | none ↦ elim st.policy_terms [
    | none ↦ request_refund env st e e.actual.amount
    | some terms ↦ do
      let r = result e non_refundable (pos 0)
      modify (publish_event st.workflow_id "refund_halted" (result_fields r))
      pure r
  ]
]

unfoldable pub attempt_step :
    GraphEnv → CompensationState → TransactionLogEntry → Exec System StepResult
unfolding refund_or_halt dlq_row
attempt_step env st e s = elim (check_circuit_breaker e.merchant_id s.db) [
  | open_state ↦
      (ok (result e dlq (pos 0)), on_db (dlq_row st e (get_or st.refund_amount (pos 0))) s)
  | closed_state ↦ refund_or_halt env st e s
]

unfoldable pub attempt_refund_node : Node
unfolding write_compensation_trace attempt_step
attempt_refund_node env st = with_step st (λ e. do
  trace st.workflow_id "attempt_refund" "start"
  r ← attempt_step env st e
  trace st.workflow_id "attempt_refund" "end"
  pure (record st { compensation_results = st.compensation_results ++ r ∷ [] }))
