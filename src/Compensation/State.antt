-- ===== src/Compensation/State.antt =====
-- The state of the graph, and what its nodes depend on. A node is an action on the state of the
-- system that takes the graph's state and returns the next one.
use revert_x.Prelude.{ℕ, String, Bool, Option, List, [], ◌∷◌}
use revert_x.Int.{ℤ}
use revert_x.Python.{Result, Exec, modify}
use revert_x.Json.{Json, str, Fields}
use revert_x.Schemas.{TransactionLogEntry, FaultClassification, UdirPayload, LiabilityReport}
use revert_x.System.{System, write_compensation_trace, fields}

-- The `outcome` of an undo step.
pub data Outcome : Type 0 where
  refunded failed dlq non_refundable error : Outcome

pub record StepResult : Type 0 where
  pub step_id : String
  pub merchant_id : String
  pub outcome : Outcome
  pub amount_recovered : ℤ

-- The terms that `extract_policy_terms` reads; a percentage counts hundredths.
pub record PolicyTerms : Type 0 where
  pub refundable : Bool
  pub penalty_percentage : Option ℤ
  pub is_fail_safe : Bool

pub record CompensationState : Type 0 where
  pub workflow_id : String
  pub failing_step : TransactionLogEntry
  pub steps_to_undo : List TransactionLogEntry
  pub current_step : Option TransactionLogEntry
  pub policy_text : Option String
  pub policy_terms : Option PolicyTerms
  pub refund_amount : Option ℤ
  pub compensation_results : List StepResult
  pub fault_classification : Option FaultClassification
  pub udir_payload : Option UdirPayload
  pub liability_report : Option LiabilityReport

-- The answers of the other services, and the id of a new ledger row: the merchant's policy text, by
-- its port (a merchant without one has an empty URL); the text as the sanitizer leaves it; the terms
-- that the policy service reads in it; and the merchant's answer to `/refund`, its status code and
-- its JSON body.
pub record GraphEnv : Type 0 where
  pub policy : Option ℕ → Result String
  pub sanitize : String → String
  pub extract : String → Result PolicyTerms
  pub refund : Option ℕ → Fields → Result (ℤ × Json)
  pub step_id : String

abbrev pub Node : Type 0
Node = GraphEnv → CompensationState → Exec System CompensationState

-- A line of the trace; the data beside the node and its status are left out.
abbrev pub trace : String → String → String → Exec System (Unit {0})
trace wid node status =
    modify
      (write_compensation_trace wid (fields (("node", str node) ∷ ("status", str status) ∷ [])))
