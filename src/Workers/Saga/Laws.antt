-- ===== src/Workers/Saga/Laws.antt =====
-- Every request for a compensation gets a verdict, and when the compensation runs again.
use revert_x.Prelude.{
  ℕ, ◌≡◌, ◌⊎◌, refl, inl, inr, String, Bool, true, false, none, some, List, [], ◌∷◌, ◌++◌, not, eqb,
  ◌&&◌, ◌||◌, if◌then◌else◌,
}
use revert_x.Python.{ok, raised}
use revert_x.System.{System, Event, CompensationRequest, publish_event}
use revert_x.Compensation.State.{CompensationState}
use revert_x.Compensation.Graph.{run_compensation}
use revert_x.Workers.Saga.{
  Failure, finished, broke, SagaEnv, Worker, get_graph, run_checkpointed, complete, report_error,
  run_degraded, give_up, attempt_run, retry, process_message,
}

-- The last message says that the compensation of the workflow is complete, or that it failed.
abbrev pub HasVerdict : String → System → Type 0
HasVerdict wid t =
    (front : List Event) × (e : Event) × (t.events ≡ front ++ e ∷ [])
    × (e.workflow_id ≡ wid)
    × ((e.event_type ≡ "compensation_complete") ⊎ (e.event_type ≡ "compensation_error"))

complete-HasVerdict :
    (wid : String) (st : CompensationState) (degraded : Bool) (t : System)
    → HasVerdict wid (complete wid st degraded t)
unfolding publish_event
complete-HasVerdict wid st degraded t = (t.events, _, refl, refl, inl refl)

report_error-HasVerdict : (wid : String) (t : System) → HasVerdict wid (report_error wid t)
unfolding publish_event
report_error-HasVerdict wid t = (t.events, _, refl, refl, inr refl)

module _ (env : SagaEnv) (req : CompensationRequest) where
  run_degraded-HasVerdict : (s : System) → HasVerdict req.workflow_id (run_degraded env req s)
  unfolding run_degraded
  run_degraded-HasVerdict s =
      let (r, t) =
        run_compensation env.recursion_limit env.graph req.workflow_id req.failing_step s in
      elim r
        as (λ x. HasVerdict req.workflow_id (elim x as (λ _. System) [
          | raised e ↦ report_error req.workflow_id t
          | ok o ↦ elim o [
            | none ↦ report_error req.workflow_id t
            | some st ↦ complete req.workflow_id st true t
          ]
        ])) [
          | raised e ↦ report_error-HasVerdict req.workflow_id t
          | ok o ↦
              elim o
                as (λ x. HasVerdict req.workflow_id (elim x as (λ _. System) [
                  | none ↦ report_error req.workflow_id t
                  | some st ↦ complete req.workflow_id st true t
                ])) [
                  | none ↦ report_error-HasVerdict req.workflow_id t
                  | some st ↦ complete-HasVerdict req.workflow_id st true t
                ]
        ]

  either :
      (b : Bool) (v w : Worker)
      → HasVerdict req.workflow_id v.system
      → HasVerdict req.workflow_id w.system
      → HasVerdict req.workflow_id (if b then v else w).system
  either true v w h k = h
  either false v w h k = k

  give_up-HasVerdict :
      (has_graph : Bool) (f : Failure) (w : Worker)
      → HasVerdict req.workflow_id (give_up env req has_graph f w).system
  unfolding give_up
  give_up-HasVerdict has_graph f w =
      either (f.is_conn_error && (not has_graph || f.is_preflight)) _ _
        (run_degraded-HasVerdict w.system) (report_error-HasVerdict req.workflow_id w.system)

  attempt_run-HasVerdict :
      (attempt : ℕ) (after : Bool → Failure → Worker → Worker) (w : Worker)
      → ((has_graph : Bool) (f : Failure) (v : Worker)
          → HasVerdict req.workflow_id (after has_graph f v).system)
      → HasVerdict req.workflow_id (attempt_run env attempt req after w).system
  unfolding attempt_run
  attempt_run-HasVerdict attempt after w h =
      let (g, is_open) = get_graph (env.open_graph attempt) (eqb attempt 2) w.has_checkpointer in
      let (r, t) = run_checkpointed env attempt req w.system in
      elim g
        as (λ x.
          HasVerdict req.workflow_id
            (elim x as (λ _. Worker) [
              | broke f ↦ after false f (record w { has_checkpointer = is_open })
              | finished _ ↦ elim r [
                | broke f ↦ after true f (record { has_checkpointer = is_open; system = t })
                | finished st ↦ record {
                  has_checkpointer = is_open;
                  system = complete req.workflow_id st false t;
                }
              ]
            ]).system) [
              | broke f ↦ h false f (record w { has_checkpointer = is_open })
              | finished _ ↦
                  elim r
                    as (λ x.
                      HasVerdict req.workflow_id
                        (elim x as (λ _. Worker) [
                          | broke f ↦
                              after true f (record { has_checkpointer = is_open; system = t })
                          | finished st ↦ record {
                            has_checkpointer = is_open;
                            system = complete req.workflow_id st false t;
                          }
                        ]).system) [
                          | broke f ↦ h true f (record { has_checkpointer = is_open; system = t })
                          | finished st ↦ complete-HasVerdict req.workflow_id st false t
                        ]
            ]

  retry-HasVerdict :
      (has_graph : Bool) (f : Failure) (w : Worker)
      → HasVerdict req.workflow_id (retry env req has_graph f w).system
  unfolding retry
  retry-HasVerdict has_graph f w =
      either f.is_conn_error _ _ (attempt_run-HasVerdict 2 (give_up env req) w give_up-HasVerdict)
        (report_error-HasVerdict req.workflow_id w.system)

  -- Whatever the connections, the graph library and the nodes do, handling a request ends, and its
  -- last message says that the compensation of that workflow is complete or that it failed.
  pub process_message-HasVerdict :
      (w : Worker) → HasVerdict req.workflow_id (process_message env req w).system
  unfolding process_message
  process_message-HasVerdict w = attempt_run-HasVerdict 1 (retry env req) _ retry-HasVerdict
