-- ===== src/Compensation/Graph/Undo.antt =====
-- The loop of the graph undoes every step that is left, once each.
use revert_x.Prelude.{
  ℕ, ◌+◌, ◌*◌, ◌≤◌, String, ◌≡◌, refl, sym, ap, ◌∙◌, subst, List, [], ◌∷◌, ◌++◌, map, length, arith,
  append-nil,
}
use revert_x.Schemas.{TransactionLogEntry}
use revert_x.System.{System}
use revert_x.Compensation.State.{CompensationState, StepResult, GraphEnv}
use revert_x.Compensation.Graph.{NodeName, select, classify, run, route_loop_or_end}
use revert_x.Compensation.Graph.Laws.{Reaches, Reaches-trans}
use revert_x.Compensation.Graph.Loop.{from_select, loop_on, loop_out}

-- All the steps are undone, with one result for each, in order.
abbrev AllUndone : List TransactionLogEntry → CompensationState → CompensationState → Type 0
AllUndone steps st st' =
    (st'.workflow_id ≡ st.workflow_id)
    × (st'.failing_step ≡ st.failing_step)
    × (map (λ r. r.step_id) st'.compensation_results
        ≡ map (λ r. r.step_id) st.compensation_results ++ map (λ e. e.step_id) steps)

abbrev pub UndoesAll :
    GraphEnv → ℕ → NodeName → List TransactionLogEntry → CompensationState → System → Type 0
UndoesAll env bound n steps st s =
    (j : ℕ) × (j ≤ bound)
    × (y : CompensationState) × (t : System) × Reaches env j n st s classify y t
    × AllUndone steps st y

ids-append :
    (rs : List StepResult) (r : StepResult) (xs : List String)
    → map (λ x. x.step_id) (rs ++ r ∷ []) ++ xs ≡ map (λ x. x.step_id) rs ++ r.step_id ∷ xs
ids-append [] r xs = refl
ids-append (y ∷ rs) r xs = ap (λ l. y.step_id ∷ l) (ids-append rs r xs)

ids_after :
    (e : TransactionLogEntry) (rest : List TransactionLogEntry) (rs rs' rs'' : List StepResult)
    (r : StepResult)
    → r.step_id ≡ e.step_id
    → rs' ≡ rs ++ r ∷ []
    → map (λ x. x.step_id) rs'' ≡ map (λ x. x.step_id) rs' ++ map (λ x. x.step_id) rest
    → map (λ x. x.step_id) rs'' ≡ map (λ x. x.step_id) rs ++ map (λ x. x.step_id) (e ∷ rest)
ids_after e rest rs rs' rs'' r h k l =
    let ids = map (λ (x : TransactionLogEntry). x.step_id) rest in
    l
    ∙ ap (λ q. map (λ (x : StepResult). x.step_id) q ++ ids) k
    ∙ ids-append rs r ids
    ∙ ap (λ i. map (λ (x : StepResult). x.step_id) rs ++ i ∷ ids) h

pub undo_all :
    (env : GraphEnv) (steps : List TransactionLogEntry) (st : CompensationState) (s : System)
    → st.steps_to_undo ≡ steps
    → UndoesAll env (5 * length steps) (route_loop_or_end st) steps st s
undo_all env [] st s h = (
  0,
  omega arith,
  st,
  s,
  λ k. ap (λ i. run i env _ st s) (omega arith) ∙ ap (λ n. run k env n st s) (loop_out st h),
  (refl, refl, sym (append-nil _)),
)
undo_all env (e ∷ rest) st s h =
    let (j, b, y, t, p, (a, f, todo, (r, same, more))) = from_select env st e rest s h in
    let (j', b', z, u, q, (a', f', ids)) = undo_all env rest y t todo in
    (
      j + j',
      omega arith,
      z,
      u,
      subst (λ n. Reaches env (j + j') n st s classify z u) (sym (loop_on st e rest h))
          (Reaches-trans env j j' select (route_loop_or_end y) classify st y z s t u p q),
      (
        a' ∙ a,
        f' ∙ f,
        ids_after e rest st.compensation_results y.compensation_results z.compensation_results r
            same more ids,
      ),
    )
