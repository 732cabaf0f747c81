-- ===== src/Workers/Saga.antt =====
-- compensating_agent/worker.py: `process_message` and `get_graph`, with `run_compensation` on a graph
-- that keeps checkpoints. The library's runs with a checkpointer are parameters; a run without one is
-- `Compensation.Graph.run_compensation`. A message that is not valid JSON is not modelled.
pub mod Laws
pub mod Rerun
use revert_x.Prelude.{
  ℕ, zero, suc, String, Bool, true, false, Option, none, some, [], ◌∷◌, is_some, not, eqb, ◌&&◌,
  ◌||◌, if◌then◌else◌,
}
use revert_x.Python.{Exc, Result, ok, raised}
use revert_x.Json.{bool, str, Fields}
use revert_x.System.{System, CompensationRequest, publish_event, fields}
use revert_x.Compensation.State.{CompensationState, GraphEnv}
use revert_x.Compensation.Graph.{run_compensation}

-- An exception, by what the worker looks for in its text: a word for a lost connection, and
-- "checkpoint preflight failed".
pub record Failure : Type 0 where
  pub is_conn_error : Bool
  pub is_preflight : Bool

pub data RunOutcome {ℓ} (A : Type ℓ) : Type ℓ where
  finished : A → RunOutcome A
  broke : Failure → RunOutcome A

-- What the connections and the graph library answer in each attempt: to opening a checkpointer, to
-- asking whether a checkpoint is there, and to a run with checkpoints, from a checkpoint or from the
-- initial state. A run may have changed the system when it fails.
pub record SagaEnv : Type 0 where
  pub graph : GraphEnv
  pub recursion_limit : ℕ
  pub open_graph : ℕ → Option Failure
  pub get_state : ℕ → String → RunOutcome Bool
  pub resume : ℕ → String → System → RunOutcome CompensationState × System
  pub invoke : ℕ → CompensationRequest → System → RunOutcome CompensationState × System

-- Whether a checkpointer is open, and the state that the processes share.
pub record Worker : Type 0 where
  pub has_checkpointer : Bool
  pub system : System

-- Closing the old connection never raises.
unfoldable pub get_graph : Option Failure → Bool → Bool → RunOutcome Bool × Bool
get_graph opening fresh has_checkpointer =
    if has_checkpointer && not fresh
    then (finished true, true)
    else (elim opening [ none ↦ (finished true, true) | some f ↦ (broke f, false) ])

-- `run_compensation` on a graph with a checkpointer.
unfoldable pub run_checkpointed :
    SagaEnv → ℕ → CompensationRequest → System → RunOutcome CompensationState × System
run_checkpointed env attempt req s = elim (env.get_state attempt req.workflow_id) [
  | broke f ↦ (broke (record f { is_preflight = true }), s)
  | finished there ↦
      if there then env.resume attempt req.workflow_id s else env.invoke attempt req s
]

abbrev pub complete : String → CompensationState → Bool → System → System
complete wid st degraded = publish_event wid "compensation_complete" (
    fields (
      ("workflow_id", str wid)
      ∷ ("has_udir", bool (is_some st.udir_payload))
      ∷ ("has_liability_report", bool (is_some st.liability_report))
      ∷ (if degraded then ("degraded", bool true) ∷ [] else [])))

-- The text of the error is left out.
abbrev pub report_error : String → System → System
report_error wid = publish_event wid "compensation_error" (fields (("error", str "") ∷ []))

-- The run without a checkpointer; past its limit the graph library raises.
unfoldable pub run_degraded : SagaEnv → CompensationRequest → System → System
unfolding publish_event
run_degraded env req s =
    let (r, t) =
      run_compensation env.recursion_limit env.graph req.workflow_id req.failing_step s in
    elim r [
      | raised e ↦ report_error req.workflow_id t
      | ok o ↦ elim o [
        | none ↦ report_error req.workflow_id t
        | some st ↦ complete req.workflow_id st true t
      ]
    ]

-- The handler of the second attempt; whether it had a graph, what failed, and the state then.
unfoldable pub give_up : SagaEnv → CompensationRequest → Bool → Failure → Worker → Worker
unfolding run_degraded publish_event
give_up env req has_graph f w =
    if f.is_conn_error && (not has_graph || f.is_preflight)
    then record w { system = run_degraded env req w.system }
    else record w { system = report_error req.workflow_id w.system }

-- One pass of the loop: what follows a failure is `after`.
unfoldable pub attempt_run :
    SagaEnv → ℕ → CompensationRequest → (Bool → Failure → Worker → Worker) → Worker → Worker
unfolding get_graph run_checkpointed publish_event
attempt_run env attempt req after w =
    let (g, is_open) = get_graph (env.open_graph attempt) (eqb attempt 2) w.has_checkpointer in
    elim g [
      | broke f ↦ after false f (record w { has_checkpointer = is_open })
      | finished _ ↦
          let (r, t) = run_checkpointed env attempt req w.system in
          elim r [
            | broke f ↦ after true f (record { has_checkpointer = is_open; system = t })
            | finished st ↦ record {
              has_checkpointer = is_open;
              system = complete req.workflow_id st false t;
            }
          ]
    ]

-- A lost connection in the first attempt leads to the second.
unfoldable pub retry : SagaEnv → CompensationRequest → Bool → Failure → Worker → Worker
unfolding attempt_run give_up publish_event
retry env req has_graph f w =
    if f.is_conn_error
    then attempt_run env 2 req (give_up env req) w
    else record w { system = report_error req.workflow_id w.system }

abbrev pub started : String → System → System
started wid =
    publish_event wid "compensation_started"
      (fields (("workflow_id", str wid) ∷ ("trigger", str "mandate_limit_exceeded") ∷ []))

unfoldable pub process_message : SagaEnv → CompensationRequest → Worker → Worker
unfolding attempt_run retry publish_event
process_message env req w =
    attempt_run env 1 req (retry env req) (record w { system = started req.workflow_id w.system })
