-- ===== src/Examples/Worker.antt =====
-- The theorems on the worker that runs compensations, at a concrete ledger.
use revert_x.Prelude.{◌+◌, ◌*◌, ◌≤◌, ◌≡◌, length, refl, true, false, some, map, arith}
use revert_x.Python.{ok}
use revert_x.Schemas.{FaultClassification, agent_fault, no_gateway_error}
use revert_x.Engine.FaultClassifier.{classify_fault, is_network_status}
use revert_x.Db.Steps.{get_workflow_steps}
use revert_x.System.{System, CompensationRequest, publish_event}
use revert_x.Compensation.State.{CompensationState}
use revert_x.Compensation.Graph.Finish.{steps_of}
use revert_x.Workers.Saga.{
  Failure, finished, broke, SagaEnv, Worker, started, complete, process_message,
}
use revert_x.Workers.Saga.Laws.{HasVerdict, process_message-HasVerdict}
use revert_x.Workers.Saga.Rerun.{process_message-reruns}
use revert_x.Examples.World.{world, ledger_db, refused_entry, graph_env}

abbrev lost : Failure
lost = record { is_conn_error = true; is_preflight = false }

-- The connection is lost in the first run, and cannot be had again.
abbrev down_env : SagaEnv
down_env = record {
  graph = graph_env;
  recursion_limit = 25;
  open_graph = λ k. some lost;
  get_state = λ k wid. finished false;
  resume = λ k wid s. (broke lost, s);
  invoke = λ k req s. (broke lost, s);
}

abbrev request : CompensationRequest
request = record { workflow_id = "wf-1"; failing_step = refused_entry }

abbrev start : System
start = world ledger_db

abbrev worker : Worker
worker = record { has_checkpointer = true; system = start }

process_message-HasVerdict_example :
    HasVerdict "wf-1" (process_message down_env request worker).system
process_message-HasVerdict_example = process_message-HasVerdict down_env request worker

abbrev verdict : FaultClassification
verdict = record {
  step_id = "step-fail";
  fault_type = agent_fault;
  classification_basis = no_gateway_error;
}

classified : classify_fault "step-fail" refused_entry.raw_gateway_response ≡ ok verdict
unfolding classify_fault is_network_status
classified = refl

two_steps : 4 + 5 * length (steps_of "wf-1" refused_entry (started "wf-1" start)) ≤ 25
unfolding get_workflow_steps publish_event
two_steps = omega arith

process_message-reruns_example :
    (z : CompensationState) × (u : System) × (process_message down_env request worker
      ≡ record { has_checkpointer = false; system = complete "wf-1" z true u })
    × (map (λ r. r.step_id) z.compensation_results
        ≡ map (λ e. e.step_id) (steps_of "wf-1" refused_entry (started "wf-1" start)))
process_message-reruns_example =
    process_message-reruns down_env request start (started "wf-1" start) lost lost refl refl verdict
      refl refl refl two_steps classified
