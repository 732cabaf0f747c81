-- ===== src/Compensation/Verdict.antt =====
-- `classify_and_route_node`, `generate_udir_payload_node` and `generate_liability_report_node`. The
-- check for anomalies that a report starts stands in `AnomalyCheck`.
use revert_x.Prelude.{
  Bool, true, false, none, some, List, [], ◌∷◌, find, length, ◌==◌, if◌then◌else◌,
}
use revert_x.Int.{ℤ, pos, ◌+ℤ◌}
use revert_x.Python.{pure, lift, gets, modify, ◌>>=◌, ◌>>◌}
use revert_x.Json.{str, float}
use revert_x.Schemas.{TransactionLogEntry, UdirPayload, LiabilityReport}
use revert_x.Engine.FaultClassifier.{classify_fault}
use revert_x.Db.Steps.{get_workflow_steps}
use revert_x.System.{write_compensation_trace, publish_event, fields}
use revert_x.Compensation.State.{CompensationState, StepResult, Outcome, refunded, Node, trace}

unfoldable pub classify_and_route_node : Node
unfolding write_compensation_trace
classify_and_route_node env st = do
  trace st.workflow_id "classify_and_route" "start"
  c ← lift (classify_fault st.failing_step.step_id st.failing_step.raw_gateway_response)
  trace st.workflow_id "classify_and_route" "end"
  pure (record st { fault_classification = some c })

udir_payload_of : CompensationState → UdirPayload
udir_payload_of st = record {
  original_txn_ref = st.failing_step.actual.settlement_ref;
  expected_amount = st.failing_step.expected.amount;
  actual_amount = st.failing_step.actual.amount;
  npci_txn_id = st.failing_step.actual.settlement_ref;
  evidence_workflow = st.workflow_id;
  evidence_step = st.failing_step.step_id;
}

unfoldable pub generate_udir_payload_node : Node
unfolding write_compensation_trace publish_event udir_payload_of
generate_udir_payload_node env st = do
  trace st.workflow_id "generate_udir_payload" "start"
  modify (publish_event st.workflow_id "final_output" (fields (("type", str "udir_payload") ∷ [])))
  trace st.workflow_id "generate_udir_payload" "end"
  pure (record st { udir_payload = some (udir_payload_of st) })

abbrev is_refunded : Outcome → Bool
is_refunded refunded = true
is_refunded _ = false

-- What the ledger says that the steps which were not refunded cost.
total_unrecovered : List TransactionLogEntry → List StepResult → ℤ
total_unrecovered steps [] = pos 0
total_unrecovered steps (r ∷ rs) =
    let rest = total_unrecovered steps rs in
    if is_refunded r.outcome then rest else (elim (find (λ e. e.step_id == r.step_id) steps) [
      | none ↦ rest
      | some e ↦ e.actual.amount +ℤ rest
    ])

liability_report_of : CompensationState → List TransactionLogEntry → LiabilityReport
unfolding total_unrecovered
liability_report_of st steps = record {
  workflow_id = st.workflow_id;
  step_id = st.failing_step.step_id;
  steps_compensated = length st.compensation_results;
  expected = st.failing_step.expected;
  actual = st.failing_step.actual;
  financial_impact = total_unrecovered steps st.compensation_results;
}

unfoldable pub generate_liability_report_node : Node
unfolding write_compensation_trace publish_event liability_report_of
generate_liability_report_node env st = do
  trace st.workflow_id "generate_liability_report" "start"
  steps ← gets (λ s. get_workflow_steps st.workflow_id s.db)
  let report = liability_report_of st steps
  modify (
      publish_event st.workflow_id "final_output" (
        fields (
          ("type", str "liability_report")
          ∷ ("financial_impact", float report.financial_impact)
          ∷ [])))
  trace st.workflow_id "generate_liability_report" "end"
  pure (record st { liability_report = some report })
