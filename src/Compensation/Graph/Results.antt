-- ===== src/Compensation/Graph/Results.antt =====
-- What the results of a run can say, over every path through the graph.
use revert_x.Prelude.{
  ℕ, zero, suc, ◌+◌, ◌*◌, ◌≤◌, String, map, length, ◌≡◌, ◌⊎◌, refl, Option, none, some, List, [],
  ◌∷◌, ◌++◌, All, arith, subst, sym,
}
use revert_x.Int.{pos}
use revert_x.Python.{Result, ok, raised}
use revert_x.Schemas.{TransactionLogEntry, FaultClassification}
use revert_x.Engine.FaultClassifier.{classify_fault}
use revert_x.System.{System}
use revert_x.Compensation.State.{CompensationState, StepResult, refunded, GraphEnv}
use revert_x.Compensation.Select.{load_workflow_log, select_next_step_to_undo}
use revert_x.Compensation.Policy.{
  fetch_policy, extract_policy_terms_node, compute_refund_amount_node, fetched,
}
use revert_x.Compensation.Refund.{attempt_refund_node, attempt_step}
use revert_x.Compensation.Refund.Laws.{attempt_step-nothing}
use revert_x.Compensation.Verdict.{
  classify_and_route_node, generate_udir_payload_node, generate_liability_report_node,
}
use revert_x.Compensation.Graph.Laws.{recorded, started, attempt_holds}
use revert_x.Compensation.Graph.Finish.{steps_of, run_compensation-finishes}
use revert_x.Compensation.Graph.{
  NodeName, load, select, fetch, extract, compute, attempt, classify, udir, liability, node, next,
  run, initial_state, run_compensation,
}

-- Money counts as recovered only where a refund was answered.
abbrev pub IsHonest : StepResult → Type 0
IsHonest r = (r.outcome ≡ refunded) ⊎ (r.amount_recovered ≡ pos 0)

abbrev pub AllHonest : CompensationState → Type 0
AllHonest st = All IsHonest st.compensation_results

abbrev KeptHonest : Result CompensationState → Type 0
KeptHonest (ok st) = AllHonest st
KeptHonest (raised e) = Unit

abbrev HonestResult : Result StepResult → Type 0
HonestResult (ok r) = IsHonest r
HonestResult (raised e) = Unit

All-append :
    (rs : List StepResult) (r : StepResult)
    → All IsHonest rs
    → IsHonest r
    → All IsHonest (rs ++ r ∷ [])
All-append [] r h k = (k, tt)
All-append (x ∷ rs) r (h, hs) k = (h, All-append rs r hs k)

module _ (env : GraphEnv) (st : CompensationState) (s : System) (h : AllHonest st) where
  load-Kept : KeptHonest (load_workflow_log env st s).0
  unfolding load_workflow_log
  load-Kept = tt

  select-Kept : KeptHonest (select_next_step_to_undo env st s).0
  unfolding select_next_step_to_undo
  select-Kept = ground arith

  fetch-Kept : KeptHonest (fetch_policy env st s).0
  unfolding fetch_policy fetched
  fetch-Kept = ground arith

  extract-Kept : KeptHonest (extract_policy_terms_node env st s).0
  unfolding extract_policy_terms_node
  extract-Kept = ground arith

  compute-Kept : KeptHonest (compute_refund_amount_node env st s).0
  unfolding compute_refund_amount_node
  compute-Kept = ground arith

  classify-Kept : KeptHonest (classify_and_route_node env st s).0
  unfolding classify_and_route_node
  classify-Kept = ground arith

  udir-Kept : KeptHonest (generate_udir_payload_node env st s).0
  unfolding generate_udir_payload_node
  udir-Kept = ground arith

  liability-Kept : KeptHonest (generate_liability_report_node env st s).0
  unfolding generate_liability_report_node
  liability-Kept = ground arith

  recorded-Kept :
      (r : StepResult) (q : Result StepResult × System)
      → q.0 ≡ ok r
      → IsHonest r
      → KeptHonest (recorded st q).0
  recorded-Kept r (ok r', t) e g =
      All-append st.compensation_results r' h
        (subst (λ (x : Result StepResult). HonestResult x) (sym e) g)
  recorded-Kept r (raised x, t) e g = tt

  attempt-Kept :
      (o : Option TransactionLogEntry)
      → st.current_step ≡ o
      → KeptHonest (attempt_refund_node env st s).0
  attempt-Kept none d = unfold attempt_refund_node in ground (arith, d)
  attempt-Kept (some e) d =
      let (r, same, good) = attempt_step-nothing env st e (started st s) in
      subst (λ (q : Result CompensationState × System). KeptHonest q.0)
        (sym (attempt_holds env st e s d))
        (recorded-Kept r (attempt_step env st e (started st s)) same good)

node-Kept :
    (n : NodeName) (env : GraphEnv) (st : CompensationState) (s : System)
    → AllHonest st
    → KeptHonest (node n env st s).0
unfolding node
node-Kept load env st s h = load-Kept env st s h
node-Kept select env st s h = select-Kept env st s h
node-Kept fetch env st s h = fetch-Kept env st s h
node-Kept extract env st s h = extract-Kept env st s h
node-Kept compute env st s h = compute-Kept env st s h
node-Kept attempt env st s h = attempt-Kept env st s h st.current_step refl
node-Kept classify env st s h = classify-Kept env st s h
node-Kept udir env st s h = udir-Kept env st s h
node-Kept liability env st s h = liability-Kept env st s h

abbrev EndsHonest : Result (Option CompensationState) → Type 0
EndsHonest (ok none) = Unit
EndsHonest (ok (some st)) = AllHonest st
EndsHonest (raised e) = Unit

run-Honest :
    (k : ℕ) (n : NodeName) (env : GraphEnv) (st : CompensationState) (s : System)
    → AllHonest st
    → EndsHonest (run k env n st s).0
unfolding run
run-Honest zero n env st s h = tt
run-Honest (suc k) n env st s h =
    let (r, t) = node n env st s in
    elim r
        as (λ x.
          KeptHonest x
          → EndsHonest
              (elim x as (λ _. Result (Option CompensationState) × System) [
                | raised e ↦ (raised e, t)
                | ok st' ↦ elim (next n st') [
                  | none ↦ (ok (some st'), t)
                  | some m ↦ run k env m st' t
                ]
              ]).0) [
                | raised e ↦ λ g. tt
                | ok st' ↦ λ g.
                    elim (next n st')
                      as (λ x.
                        EndsHonest
                          (elim x as (λ _. Result (Option CompensationState) × System) [
                            | none ↦ (ok (some st'), t)
                            | some m ↦ run k env m st' t
                          ]).0) [ none ↦ g | some m ↦ run-Honest k m env st' t g ]
              ]
      (node-Kept n env st s h)

-- A run of a compensation ends, if its limit on nodes is four and five more for each settled step of
-- the workflow, and if the response of the failing step can be classified. It then has one result
-- for each settled step, the latest first; and a result that is not "refunded" recovers nothing.
pub run_compensation-AllHonest :
    (limit : ℕ) (env : GraphEnv) (wid : String) (failing : TransactionLogEntry) (s : System)
    (c : FaultClassification)
    → 4 + 5 * length (steps_of wid failing s) ≤ limit
    → classify_fault failing.step_id failing.raw_gateway_response ≡ ok c
    → (z : CompensationState) × (u : System) × (run_compensation limit env wid failing s
        ≡ (ok (some z), u))
      × (map (λ r. r.step_id) z.compensation_results
          ≡ map (λ e. e.step_id) (steps_of wid failing s))
      × AllHonest z
unfolding run_compensation
run_compensation-AllHonest limit env wid failing s c enough h =
    let (z, u, ran, ids) = run_compensation-finishes limit env wid failing s c enough h in
    (
      z,
      u,
      ran,
      ids,
      subst (λ (q : Result (Option CompensationState) × System). EndsHonest q.0) ran
          (run-Honest limit load env (initial_state wid failing) s tt),
    )
