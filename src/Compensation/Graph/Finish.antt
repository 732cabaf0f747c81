-- ===== src/Compensation/Graph/Finish.antt =====
-- A whole run of the graph: every step of the ledger is undone once, and the run ends.
use revert_x.Prelude.{
  ℕ, suc, ◌+◌, ◌*◌, ◌-◌, ◌≤◌, String, ◌≡◌, refl, sym, ap, ◌∙◌, subst, none, some, List, [], ◌∷◌,
  map, length, keep, reverse, arith, append-nil,
}
use revert_x.Json.{str}
use revert_x.Python.{ok}
use revert_x.Schemas.{
  TransactionLogEntry, FaultClassification, FaultType, network_fault, agent_fault,
}
use revert_x.Engine.FaultClassifier.{classify_fault}
use revert_x.Db.Steps.{get_workflow_steps}
use revert_x.System.{System, fields, write_compensation_trace}
use revert_x.Compensation.State.{CompensationState, StepResult, GraphEnv}
use revert_x.Compensation.Select.{is_settled, load_workflow_log, select_next_step_to_undo}
use revert_x.Compensation.Verdict.{
  classify_and_route_node, generate_udir_payload_node, generate_liability_report_node,
}
use revert_x.Compensation.Graph.{
  NodeName, load, select, classify, udir, liability, node, next, run, route_after_classify,
  initial_state, run_compensation,
}
use revert_x.Compensation.Graph.Laws.{Reaches, Reaches-step, run-suc}
use revert_x.Compensation.Graph.Loop.{loop_on, selected_none}
use revert_x.Compensation.Graph.Undo.{UndoesAll, undo_all}

-- The nodes after the loop.
abbrev Ends : ℕ → GraphEnv → NodeName → CompensationState → System → Type 0
Ends k env n st s =
    (z : CompensationState) × (u : System) × (run k env n st s ≡ (ok (some z), u))
    × (z.compensation_results ≡ st.compensation_results)

run_end :
    (k : ℕ) (env : GraphEnv) (st : CompensationState) (s : System)
    → Ends (suc k) env udir st s × Ends (suc k) env liability st s
unfolding run node next generate_udir_payload_node generate_liability_report_node
run_end k env st s = ((_, _, refl, refl), (_, _, refl, refl))

abbrev pub judged : CompensationState → FaultClassification → CompensationState
judged st c = record st { fault_classification = some c }

pub classified :
    (env : GraphEnv) (st : CompensationState) (s : System) (c : FaultClassification)
    → classify_fault st.failing_step.step_id st.failing_step.raw_gateway_response ≡ ok c
    → node classify env st s ≡ (ok (judged st c), (node classify env st s).1)
unfolding node classify_and_route_node
classified env st s c h = ground arith

pub to_udir :
    (st : CompensationState) (c : FaultClassification)
    → c.fault_type ≡ network_fault
    → route_after_classify (judged st c) ≡ udir
unfolding route_after_classify
to_udir st c h = ground arith

pub to_liability :
    (st : CompensationState) (c : FaultClassification)
    → c.fault_type ≡ agent_fault
    → route_after_classify (judged st c) ≡ liability
unfolding route_after_classify
to_liability st c h = ground arith

routed :
    (k : ℕ) (env : GraphEnv) (st : CompensationState) (t : System) (c : FaultClassification)
    (f : FaultType)
    → c.fault_type ≡ f
    → Ends (suc k) env (route_after_classify (judged st c)) (judged st c) t
routed k env st t c network_fault h =
    subst (λ n. Ends (suc k) env n (judged st c) t) (sym (to_udir st c h))
      (run_end k env (judged st c) t).0
routed k env st t c agent_fault h =
    subst (λ n. Ends (suc k) env n (judged st c) t) (sym (to_liability st c h))
      (run_end k env (judged st c) t).1

verdict-Ends :
    (k : ℕ) (env : GraphEnv) (st : CompensationState) (s : System) (c : FaultClassification)
    → classify_fault st.failing_step.step_id st.failing_step.raw_gateway_response ≡ ok c
    → Ends (suc (suc k)) env classify st s
verdict-Ends k env st s c h =
    let t = (node classify env st s).1 in
    let (z, u, e, same) = routed k env st t c c.fault_type refl in
    (
      z,
      u,
      run-suc env classify (route_after_classify (judged st c)) st (judged st c) s t
            (classified env st s c h) (unfold next in refl) (suc k)
          ∙ e,
      same,
    )

-- The steps that a run undoes: the settled ones of the workflow, the latest first.
abbrev pub steps_of : String → TransactionLogEntry → System → List TransactionLogEntry
steps_of wid failing s = keep (is_settled failing) (reverse (get_workflow_steps wid s.db))

abbrev loaded_state : String → TransactionLogEntry → System → CompensationState
loaded_state wid failing s = record (initial_state wid failing) {
  steps_to_undo = steps_of wid failing s;
}

abbrev logged : String → System → System
logged wid s =
    write_compensation_trace wid
      (fields (("node", str "load_workflow_log") ∷ ("status", str "end") ∷ []))
      (write_compensation_trace wid
        (fields (("node", str "load_workflow_log") ∷ ("status", str "start") ∷ [])) s)

load_log :
    (env : GraphEnv) (wid : String) (failing : TransactionLogEntry) (s : System)
    → node load env (initial_state wid failing) s ≡ (ok (loaded_state wid failing s), logged wid s)
unfolding node load_workflow_log
load_log env wid failing s = refl

nothing_selected :
    (env : GraphEnv) (st : CompensationState) (s : System)
    → st.steps_to_undo ≡ []
    → node select env st s ≡ (ok (record st { current_step = none }), (node select env st s).1)
unfolding node select_next_step_to_undo
nothing_selected env st s h = ground arith

select_all :
    (env : GraphEnv) (steps : List TransactionLogEntry) (st : CompensationState) (s : System)
    → st.steps_to_undo ≡ steps
    → UndoesAll env (1 + 5 * length steps) select steps st s
select_all env [] st s h =
    let y : CompensationState = record st { current_step = none } in
    let t = (node select env st s).1 in
    (
      1,
      omega arith,
      y,
      t,
      Reaches-step env select classify st y s t (nothing_selected env st s h)
          (unfold next in ap some (selected_none y refl)),
      (refl, refl, sym (append-nil _)),
    )
select_all env (e ∷ rest) st s h =
    let (j, b, y, t, p, u) = undo_all env (e ∷ rest) st s h in
    (
      j,
      omega arith,
      y,
      t,
      subst (λ n. Reaches env j n st s classify y t) (loop_on st e rest h) p,
      u,
    )

-- A run ends, if its limit on nodes is four and five more for each settled step of the workflow, and
-- if the response of the failing step can be classified. It then has one result for each settled step,
-- the latest first, and none for any other step.
pub run_compensation-finishes :
    (limit : ℕ) (env : GraphEnv) (wid : String) (failing : TransactionLogEntry) (s : System)
    (c : FaultClassification)
    → 4 + 5 * length (steps_of wid failing s) ≤ limit
    → classify_fault failing.step_id failing.raw_gateway_response ≡ ok c
    → (z : CompensationState) × (u : System) × (run_compensation limit env wid failing s
        ≡ (ok (some z), u))
      × (map (λ r. r.step_id) z.compensation_results
          ≡ map (λ e. e.step_id) (steps_of wid failing s))
unfolding run_compensation
run_compensation-finishes limit env wid failing s c enough h =
    let st = loaded_state wid failing s in
    let t = logged wid s in
    let (j, b, y, u, p, (w, f, ids)) = select_all env (steps_of wid failing s) st t refl in
    let fuel = limit - (1 + j + 2) in
    let (z, v, e, same) =
      verdict-Ends fuel env y u c
        (ap (λ (x : TransactionLogEntry). classify_fault x.step_id x.raw_gateway_response) f ∙ h) in
    (
      z,
      v,
      ap (λ n. run n env load (initial_state wid failing) s) (omega arith)
          ∙ Reaches-step env load select (initial_state wid failing) st s t
              (load_log env wid failing s) (unfold next in refl) (j + suc (suc fuel))
          ∙ p (suc (suc fuel))
          ∙ e,
      ap (map (λ (r : StepResult). r.step_id)) same ∙ ids,
    )
