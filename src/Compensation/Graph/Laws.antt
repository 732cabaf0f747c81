-- ===== src/Compensation/Graph/Laws.antt =====
-- Runs from node to node, and what the node of the refund adds to the state of the graph.
use revert_x.Prelude.{
  ℕ, suc, ◌+◌, ◌≡◌, refl, ap, ◌∙◌, Option, none, some, List, [], ◌∷◌, ◌++◌, arith,
}
use revert_x.Int.{ℤ}
use revert_x.Json.{str}
use revert_x.Python.{Result, ok, raised, pure, ◌>>=◌, ◌>>◌}
use revert_x.Schemas.{TransactionLogEntry}
use revert_x.System.{System, fields, write_compensation_trace}
use revert_x.Compensation.State.{CompensationState, StepResult, GraphEnv, trace}
use revert_x.Compensation.Refund.{
  attempt_refund_node, attempt_step, refund_or_halt, request_refund, refund_answered,
  merchant_failed, is_accepted,
}
use revert_x.Compensation.Graph.{NodeName, node, next, run}

-- A run from a node comes to another node, after this many steps.
abbrev pub Reaches :
    GraphEnv
    → ℕ
    → NodeName
    → CompensationState
    → System
    → NodeName
    → CompensationState
    → System
    → Type 0
Reaches env j n st s m st' t = (k : ℕ) → run (j + k) env n st s ≡ run k env m st' t

abbrev continue :
    GraphEnv
    → NodeName
    → ℕ
    → Result CompensationState × System
    → Result (Option CompensationState) × System
continue env n k q = elim q.0 [
  | raised e ↦ (raised e, q.1)
  | ok st' ↦ elim (next n st') [ none ↦ (ok (some st'), q.1) | some m ↦ run k env m st' q.1 ]
]

pub run-suc :
    (env : GraphEnv) (n m : NodeName) (st st' : CompensationState) (s t : System)
    → node n env st s ≡ (ok st', t)
    → next n st' ≡ some m
    → (k : ℕ) → run (suc k) env n st s ≡ run k env m st' t
unfolding run
run-suc env n m st st' s t e h k = ap (continue env n k) e ∙ rw (h, continue) refl

pub Reaches-step :
    (env : GraphEnv) (n m : NodeName) (st st' : CompensationState) (s t : System)
    → node n env st s ≡ (ok st', t)
    → next n st' ≡ some m
    → Reaches env 1 n st s m st' t
Reaches-step env n m st st' s t e h k =
    ap (λ x. run x env n st s) (omega arith) ∙ run-suc env n m st st' s t e h k

pub Reaches-trans :
    (env : GraphEnv) (i j : ℕ) (n m l : NodeName) (st st' st'' : CompensationState) (s t u : System)
    → Reaches env i n st s m st' t
    → Reaches env j m st' t l st'' u
    → Reaches env (i + j) n st s l st'' u
Reaches-trans env i j n m l st st' st'' s t u p q k =
    ap (λ x. run x env n st s) (omega arith) ∙ p (j + k) ∙ q k

-- A result of this step.
abbrev IsFor : TransactionLogEntry → Result StepResult → Type 0
IsFor e (ok r) = r.step_id ≡ e.step_id
IsFor e (raised x) = ⊥

request_refund-IsFor :
    (env : GraphEnv) (st : CompensationState) (e : TransactionLogEntry) (a : ℤ) (s : System)
    → IsFor e (request_refund env st e a s).0
unfolding request_refund refund_answered merchant_failed is_accepted
request_refund-IsFor env st e a s = ground arith

attempt_step-IsFor :
    (env : GraphEnv) (st : CompensationState) (e : TransactionLogEntry) (s : System)
    → IsFor e (attempt_step env st e s).0
unfolding attempt_step refund_or_halt
attempt_step-IsFor env st e s =
    let whole = request_refund-IsFor env st e e.actual.amount s in
    let part = λ (a : ℤ). request_refund-IsFor env st e a s in ground arith

-- The state of the graph after one step was undone.
abbrev pub Undone :
    TransactionLogEntry → List TransactionLogEntry → CompensationState → CompensationState → Type 0
Undone e rest st st' =
    (st'.workflow_id ≡ st.workflow_id)
    × (st'.failing_step ≡ st.failing_step)
    × (st'.steps_to_undo ≡ rest)
    × ((r : StepResult) × (r.step_id ≡ e.step_id)
        × (st'.compensation_results ≡ st.compensation_results ++ r ∷ []))

abbrev chosen :
    CompensationState → TransactionLogEntry → List TransactionLogEntry → CompensationState
chosen st e rest = record st {
  current_step = some e;
  steps_to_undo = rest;
  policy_text = none;
  policy_terms = none;
  refund_amount = none;
}

-- A state with this step at hand.
abbrev pub Holds :
    CompensationState → TransactionLogEntry → List TransactionLogEntry → CompensationState → Type 0
Holds st e rest x =
    (x.workflow_id ≡ st.workflow_id)
    × (x.failing_step ≡ st.failing_step)
    × (x.steps_to_undo ≡ rest)
    × (x.current_step ≡ some e)
    × (x.compensation_results ≡ st.compensation_results)

abbrev pub recorded :
    CompensationState → Result StepResult × System → Result CompensationState × System
recorded x p =
    ((λ (z : System). p) >>= (λ r. do
      trace x.workflow_id "attempt_refund" "end"
      pure (record x { compensation_results = x.compensation_results ++ r ∷ [] })))
      p.1

recorded-Undone :
    (st x : CompensationState) (e : TransactionLogEntry) (rest : List TransactionLogEntry)
    (p : Result StepResult × System)
    → Holds st e rest x
    → IsFor e p.0
    → (st' : CompensationState) × (t : System) × (recorded x p ≡ (ok st', t)) × Undone e rest st st'
recorded-Undone st x e rest (raised y, u) h g = absurd g
recorded-Undone st x e rest (ok r, u) (a, b, c, d, f) g =
    (_, _, refl, (a, b, c, (r, g, ap (λ rs. rs ++ r ∷ []) f)))

abbrev pub started : CompensationState → System → System
started x s =
    write_compensation_trace x.workflow_id
      (fields (("node", str "attempt_refund") ∷ ("status", str "start") ∷ [])) s

pub attempt_holds :
    (env : GraphEnv) (x : CompensationState) (e : TransactionLogEntry) (s : System)
    → x.current_step ≡ some e
    → attempt_refund_node env x s ≡ recorded x (attempt_step env x e (started x s))
unfolding attempt_refund_node
attempt_holds env x e s d = rw (d, attempt_refund_node) refl

pub attempt_result :
    (env : GraphEnv) (st x : CompensationState) (e : TransactionLogEntry)
    (rest : List TransactionLogEntry) (s : System)
    → Holds st e rest x
    → (st' : CompensationState) × (t : System) × (attempt_refund_node env x s ≡ (ok st', t))
      × Undone e rest st st'
attempt_result env st x e rest s h =
    let u = started x s in
    let (st', t, same, undone) =
      recorded-Undone st x e rest (attempt_step env x e u) h (attempt_step-IsFor env x e u) in
    (st', t, attempt_holds env x e s h.3 ∙ same, undone)
