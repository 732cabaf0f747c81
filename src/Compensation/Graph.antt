-- ===== src/Compensation/Graph.antt =====
-- `build_graph` and `run_compensation`: the nodes, the edges, and a run. A run takes as many steps as
-- `recursion_limit`, the bound of the graph library, allows, and says `none` beyond. Checkpoints,
-- from which the library resumes a run, are not modelled.
pub mod Laws
pub mod Loop
pub mod Undo
pub mod Finish
pub mod Verdict
pub mod Results
pub mod ShutOut
use revert_x.Prelude.{
  ℕ, zero, suc, String, Bool, true, false, Option, none, some, List, [], ◌∷◌, is_some,
  if◌then◌else◌,
}
use revert_x.Python.{Result, ok, raised, Exec}
use revert_x.Schemas.{TransactionLogEntry, FaultType, network_fault, agent_fault}
use revert_x.System.{System}
use revert_x.Compensation.State.{CompensationState, GraphEnv, Node}
use revert_x.Compensation.Select.{load_workflow_log, select_next_step_to_undo}
use revert_x.Compensation.Policy.{
  fetch_policy, extract_policy_terms_node, compute_refund_amount_node, has_text,
}
use revert_x.Compensation.Refund.{attempt_refund_node}
use revert_x.Compensation.Verdict.{
  classify_and_route_node, generate_udir_payload_node, generate_liability_report_node,
}

pub data NodeName : Type 0 where
  load select fetch extract compute attempt classify udir liability : NodeName

pub node : NodeName → Node
node load = load_workflow_log
node select = select_next_step_to_undo
node fetch = fetch_policy
node extract = extract_policy_terms_node
node compute = compute_refund_amount_node
node attempt = attempt_refund_node
node classify = classify_and_route_node
node udir = generate_udir_payload_node
node liability = generate_liability_report_node

pub route_after_select : CompensationState → NodeName
route_after_select st = elim st.current_step [ none ↦ classify | some e ↦ fetch ]

pub route_after_fetch_policy : CompensationState → NodeName
route_after_fetch_policy st =
    if has_text st.policy_text
    then extract
    else if is_some st.policy_terms
    then compute
    else attempt

pub route_loop_or_end : CompensationState → NodeName
route_loop_or_end st = elim st.steps_to_undo [ [] ↦ classify | e ∷ rest ↦ select ]

pub route_after_classify : CompensationState → NodeName
route_after_classify st = elim st.fault_classification [
  | none ↦ liability
  | some c ↦ elim c.fault_type [ network_fault ↦ udir | agent_fault ↦ liability ]
]

-- The edge out of a node; `none` is the end.
pub next : NodeName → CompensationState → Option NodeName
unfolding route_after_select route_after_fetch_policy route_loop_or_end route_after_classify
next load st = some select
next select st = some (route_after_select st)
next fetch st = some (route_after_fetch_policy st)
next extract st = some compute
next compute st = some attempt
next attempt st = some (route_loop_or_end st)
next classify st = some (route_after_classify st)
next udir st = none
next liability st = none

pub run : ℕ → GraphEnv → NodeName → CompensationState → Exec System (Option CompensationState)
unfolding node next
run zero env n st s = (ok none, s)
run (suc k) env n st s =
    let (r, t) = node n env st s in
    elim r [
      | raised e ↦ (raised e, t)
      | ok st' ↦ elim (next n st') [ none ↦ (ok (some st'), t) | some m ↦ run k env m st' t ]
    ]

abbrev pub initial_state : String → TransactionLogEntry → CompensationState
initial_state wid failing = record {
  workflow_id = wid;
  failing_step = failing;
  steps_to_undo = [];
  current_step = none;
  policy_text = none;
  policy_terms = none;
  refund_amount = none;
  compensation_results = [];
  fault_classification = none;
  udir_payload = none;
  liability_report = none;
}

-- A run without an earlier checkpoint.
pub run_compensation :
    ℕ → GraphEnv → String → TransactionLogEntry → Exec System (Option CompensationState)
unfolding run
run_compensation recursion_limit env wid failing =
    run recursion_limit env load (initial_state wid failing)
