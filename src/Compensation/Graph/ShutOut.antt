-- ===== src/Compensation/Graph/ShutOut.antt =====
-- A merchant whose circuit breaker is open, over a whole run of the graph.
use revert_x.Prelude.{
  ℕ, zero, suc, ◌+◌, ◌*◌, ◌≤◌, String, length, map, ◌≡◌, refl, Option, none, some, List, [], ◌∷◌,
  ◌++◌, All, arith, subst, sym, ◌==◌,
}
use revert_x.Python.{Result, ok, raised}
use revert_x.Schemas.{TransactionLogEntry, FaultClassification}
use revert_x.Engine.FaultClassifier.{classify_fault}
use revert_x.System.{System, publish_event, write_compensation_trace}
use revert_x.Compensation.State.{CompensationState, StepResult, GraphEnv}
use revert_x.Compensation.Select.{load_workflow_log, select_next_step_to_undo}
use revert_x.Compensation.Policy.{
  fetch_policy, extract_policy_terms_node, compute_refund_amount_node, fetched,
}
use revert_x.Compensation.Refund.{attempt_refund_node, attempt_step}
use revert_x.Compensation.Refund.Shut.{IsShut, IsLost, LostStep, attempt_step-Lost}
use revert_x.Compensation.Verdict.{
  classify_and_route_node, generate_udir_payload_node, generate_liability_report_node,
}
use revert_x.Compensation.Graph.Laws.{recorded, started, attempt_holds}
use revert_x.Compensation.Graph.Finish.{steps_of, run_compensation-finishes}
use revert_x.Compensation.Graph.{
  NodeName, load, select, fetch, extract, compute, attempt, classify, udir, liability, node, next,
  run, initial_state, run_compensation,
}

abbrev pub AllLost : String → CompensationState → Type 0
AllLost m st = All (IsLost m) st.compensation_results

abbrev KeptShut : String → Result CompensationState × System → Type 0
KeptShut m (ok st, t) = IsShut m t.db × AllLost m st
KeptShut m (raised e, t) = IsShut m t.db

module _ (m : String) (env : GraphEnv) (st : CompensationState) (s : System) (o : IsShut m s.db)
    (h : AllLost m st) where
  load-Kept : KeptShut m (load_workflow_log env st s)
  unfolding load_workflow_log publish_event write_compensation_trace
  load-Kept = (o, tt)

  select-Kept : KeptShut m (select_next_step_to_undo env st s)
  unfolding select_next_step_to_undo publish_event write_compensation_trace
  select-Kept = ground arith

  fetch-Kept : KeptShut m (fetch_policy env st s)
  unfolding fetch_policy fetched publish_event write_compensation_trace
  fetch-Kept = ground arith

  extract-Kept : KeptShut m (extract_policy_terms_node env st s)
  unfolding extract_policy_terms_node publish_event write_compensation_trace
  extract-Kept = ground arith

  compute-Kept : KeptShut m (compute_refund_amount_node env st s)
  unfolding compute_refund_amount_node publish_event write_compensation_trace
  compute-Kept = ground arith

  classify-Kept : KeptShut m (classify_and_route_node env st s)
  unfolding classify_and_route_node publish_event write_compensation_trace
  classify-Kept = ground arith

  udir-Kept : KeptShut m (generate_udir_payload_node env st s)
  unfolding generate_udir_payload_node publish_event write_compensation_trace
  udir-Kept = ground arith

  liability-Kept : KeptShut m (generate_liability_report_node env st s)
  unfolding generate_liability_report_node publish_event write_compensation_trace
  liability-Kept = ground arith

All-append :
    (m : String) (rs : List StepResult) (r : StepResult)
    → All (IsLost m) rs
    → IsLost m r
    → All (IsLost m) (rs ++ r ∷ [])
All-append m [] r h k = (k, tt)
All-append m (x ∷ rs) r (h, hs) k = (h, All-append m rs r hs k)

module _ (m : String) (env : GraphEnv) (st : CompensationState) (s : System) (o : IsShut m s.db)
    (h : AllLost m st) where
  recorded-Kept : (q : Result StepResult × System) → LostStep m q → KeptShut m (recorded st q)
  unfolding write_compensation_trace
  recorded-Kept (ok r, t) (a, b) = (a, All-append m st.compensation_results r h b)
  recorded-Kept (raised x, t) a = a

  attempt-Kept :
      (c : Option TransactionLogEntry)
      → st.current_step ≡ c
      → KeptShut m (attempt_refund_node env st s)
  attempt-Kept none d = unfold attempt_refund_node in ground (arith, d)
  attempt-Kept (some e) d =
      let open_then : IsShut m (started st s).db = unfold write_compensation_trace in o in
      subst (λ (q : Result CompensationState × System). KeptShut m q)
        (sym (attempt_holds env st e s d))
        (recorded-Kept (attempt_step env st e (started st s))
          (attempt_step-Lost m env st e (started st s) open_then (e.merchant_id == m) refl))

node-Kept :
    (m : String) (n : NodeName) (env : GraphEnv) (st : CompensationState) (s : System)
    → IsShut m s.db
    → AllLost m st
    → KeptShut m (node n env st s)
unfolding node
node-Kept m load env st s o h = load-Kept m env st s o h
node-Kept m select env st s o h = select-Kept m env st s o h
node-Kept m fetch env st s o h = fetch-Kept m env st s o h
node-Kept m extract env st s o h = extract-Kept m env st s o h
node-Kept m compute env st s o h = compute-Kept m env st s o h
node-Kept m attempt env st s o h = attempt-Kept m env st s o h st.current_step refl
node-Kept m classify env st s o h = classify-Kept m env st s o h
node-Kept m udir env st s o h = udir-Kept m env st s o h
node-Kept m liability env st s o h = liability-Kept m env st s o h

abbrev EndsShut : String → Result (Option CompensationState) × System → Type 0
EndsShut m (ok none, t) = Unit
EndsShut m (ok (some st), t) = IsShut m t.db × AllLost m st
EndsShut m (raised e, t) = Unit

run-Shut :
    (m : String) (k : ℕ) (n : NodeName) (env : GraphEnv) (st : CompensationState) (s : System)
    → IsShut m s.db
    → AllLost m st
    → EndsShut m (run k env n st s)
unfolding run
run-Shut m zero n env st s o h = tt
run-Shut m (suc k) n env st s o h =
    let (r, t) = node n env st s in
    elim r
        as (λ x.
          KeptShut m (x, t)
          → EndsShut m (elim x as (λ _. Result (Option CompensationState) × System) [
            | raised e ↦ (raised e, t)
            | ok st' ↦ elim (next n st') [ none ↦ (ok (some st'), t) | some l ↦ run k env l st' t ]
          ])) [
            | raised e ↦ λ g. tt
            | ok st' ↦ λ g.
                elim (next n st')
                  as (λ x. EndsShut m (elim x as (λ _. Result (Option CompensationState) × System) [
                    | none ↦ (ok (some st'), t)
                    | some l ↦ run k env l st' t
                  ])) [ none ↦ g | some l ↦ run-Shut m k l env st' t g.0 g.1 ]
          ]
      (node-Kept m n env st s o h)

-- If the circuit breaker of a merchant is open when a compensation starts, and its limit on nodes is
-- four and five more for each settled step of the workflow and the response of the failing step can
-- be classified, then the run ends with one result for each settled step; whatever the merchants
-- answer, every result of that merchant says that the refund went to the queue of lost refunds and
-- recovered nothing; and its breaker is still open at the end.
pub run_compensation-AllLost :
    (limit : ℕ) (env : GraphEnv) (wid m : String) (failing : TransactionLogEntry) (s : System)
    (c : FaultClassification)
    → 4 + 5 * length (steps_of wid failing s) ≤ limit
    → classify_fault failing.step_id failing.raw_gateway_response ≡ ok c
    → IsShut m s.db
    → (z : CompensationState) × (u : System) × (run_compensation limit env wid failing s
        ≡ (ok (some z), u))
      × (map (λ r. r.step_id) z.compensation_results
          ≡ map (λ e. e.step_id) (steps_of wid failing s))
      × AllLost m z
      × IsShut m u.db
unfolding run_compensation
run_compensation-AllLost limit env wid m failing s c enough h o =
    let (z, u, ran, ids) = run_compensation-finishes limit env wid failing s c enough h in
    let (still, lost) =
      subst (EndsShut m) ran (run-Shut m limit load env (initial_state wid failing) s o tt) in
    (z, u, ran, ids, lost, still)
