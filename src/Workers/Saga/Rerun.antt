-- ===== src/Workers/Saga/Rerun.antt =====
-- When a compensation runs a second time, and from where.
use revert_x.Prelude.{◌+◌, ◌*◌, ◌≤◌, ◌≡◌, Bool, true, false, some, map, length, arith}
use revert_x.Python.{ok}
use revert_x.Schemas.{FaultClassification}
use revert_x.Engine.FaultClassifier.{classify_fault}
use revert_x.System.{System, CompensationRequest}
use revert_x.Compensation.State.{CompensationState}
use revert_x.Compensation.Graph.Finish.{steps_of, run_compensation-finishes}
use revert_x.Workers.Saga.{
  Failure, finished, broke, SagaEnv, Worker, get_graph, run_checkpointed, complete, report_error,
  run_degraded, give_up, attempt_run, retry, process_message, started,
}

module _ (env : SagaEnv) (req : CompensationRequest) (s t : System) (f g : Failure)
    (fresh : env.get_state 1 req.workflow_id ≡ finished false)
    (partial : env.invoke 1 req (started req.workflow_id s) ≡ (broke f, t)) where
  -- The first attempt of a worker that has a checkpointer.
  first_attempt :
      (after : Bool → Failure → Worker → Worker)
      → attempt_run env 1 req after
          (record { has_checkpointer = true; system = started req.workflow_id s })
        ≡ after true f (record { has_checkpointer = true; system = t })
  unfolding attempt_run get_graph run_checkpointed
  first_attempt after = ground (arith, fresh, partial)

  -- A failure that is not of a connection is reported, and nothing runs again.
  process_message-once :
      f.is_conn_error ≡ false
      → process_message env req (record { has_checkpointer = true; system = s })
        ≡ record { has_checkpointer = true; system = report_error req.workflow_id t }
  unfolding process_message retry
  process_message-once h = ground (arith, first_attempt (retry env req), h)

  second_attempt :
      env.open_graph 2 ≡ some g
      → g.is_conn_error ≡ true
      → attempt_run env 2 req (give_up env req) (record { has_checkpointer = true; system = t })
        ≡ record { has_checkpointer = false; system = run_degraded env req t }
  unfolding attempt_run get_graph give_up
  second_attempt h k = ground (arith, h, k)

  degraded :
      f.is_conn_error ≡ true
      → env.open_graph 2 ≡ some g
      → g.is_conn_error ≡ true
      → process_message env req (record { has_checkpointer = true; system = s })
        ≡ record { has_checkpointer = false; system = run_degraded env req t }
  unfolding process_message retry
  degraded h k l = ground (arith, first_attempt (retry env req), second_attempt k l, h)

  -- The first attempt breaks off with a lost connection, in any state, and no new checkpointer can be
  -- opened. Then the worker runs the compensation from its start without checkpoints, and that run,
  -- with nodes enough and a failing step that can be classified, has a result for each step that is
  -- settled in the ledger, also for those that the first attempt has refunded.
  pub process_message-reruns :
      (c : FaultClassification)
      → f.is_conn_error ≡ true
      → env.open_graph 2 ≡ some g
      → g.is_conn_error ≡ true
      → 4 + 5 * length (steps_of req.workflow_id req.failing_step t) ≤ env.recursion_limit
      → classify_fault req.failing_step.step_id req.failing_step.raw_gateway_response ≡ ok c
      → (z : CompensationState) × (u : System) × (process_message env req
            (record { has_checkpointer = true; system = s })
          ≡ record { has_checkpointer = false; system = complete req.workflow_id z true u })
        × (map (λ r. r.step_id) z.compensation_results
            ≡ map (λ e. e.step_id) (steps_of req.workflow_id req.failing_step t))
  unfolding run_degraded
  process_message-reruns c h k l enough d =
      let (z, u, ran, ids) =
        run_compensation-finishes env.recursion_limit env.graph req.workflow_id req.failing_step t c
          enough d in
      (z, u, ground (arith, degraded h k l, ran), ids)
