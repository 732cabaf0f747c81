-- ===== src/Compensation/Select.antt =====
-- `load_workflow_log` and `select_next_step_to_undo`, with the routes that follow.
use revert_x.Prelude.{Bool, not, none, some, [], ◌∷◌, reverse, keep, ◌==◌, ◌&&◌}
use revert_x.Python.{gets, pure, ◌>>=◌, ◌>>◌}
use revert_x.Schemas.{TransactionLogEntry}
use revert_x.Db.Steps.{get_workflow_steps}
use revert_x.System.{write_compensation_trace}
use revert_x.Compensation.State.{CompensationState, Node, trace}

-- Whether a step of the workflow is one to undo.
abbrev pub is_settled : TransactionLogEntry → TransactionLogEntry → Bool
is_settled failing e = not (e.step_id == failing.step_id) && (e.actual.status == "settled")

-- The settled steps, the latest first, without the failing one.
unfoldable pub load_workflow_log : Node
unfolding write_compensation_trace
load_workflow_log env st = do
  trace st.workflow_id "load_workflow_log" "start"
  steps ← gets (λ s. get_workflow_steps st.workflow_id s.db)
  trace st.workflow_id "load_workflow_log" "end"
  pure (record st {
    steps_to_undo = keep (is_settled st.failing_step) (reverse steps);
    compensation_results = [];
  })

abbrev selected : CompensationState → CompensationState
selected st = elim st.steps_to_undo [
  | [] ↦ record st { current_step = none }
  | e ∷ rest ↦ record st {
    current_step = some e;
    steps_to_undo = rest;
    policy_text = none;
    policy_terms = none;
    refund_amount = none;
  }
]

unfoldable pub select_next_step_to_undo : Node
unfolding write_compensation_trace
select_next_step_to_undo env st =
    trace st.workflow_id "select_next_step_to_undo" "end" >> pure (selected st)
