-- ===== src/Compensation/Graph/Loop.antt =====
-- One round of the loop: every node keeps the step at hand, and the round undoes that step.
use revert_x.Prelude.{
  ℕ, ◌+◌, ◌≤◌, ◌≡◌, refl, ap, none, some, List, [], ◌∷◌, arith, is_some, Bool-cases, inl, inr,
}
use revert_x.Python.{Result, ok, raised}
use revert_x.Schemas.{TransactionLogEntry}
use revert_x.System.{System}
use revert_x.Compensation.State.{CompensationState, GraphEnv}
use revert_x.Compensation.Select.{select_next_step_to_undo}
use revert_x.Compensation.Policy.{
  fetch_policy, extract_policy_terms_node, compute_refund_amount_node, has_text, fetched,
}
use revert_x.Compensation.Graph.{
  NodeName, select, fetch, extract, compute, attempt, classify, node, next, route_after_select,
  route_after_fetch_policy, route_loop_or_end,
}
use revert_x.Compensation.Graph.Laws.{
  Reaches, Reaches-step, Reaches-trans, Undone, Holds, attempt_result,
}

-- Every node between keeps the step at hand.
abbrev Keeps :
    CompensationState
    → TransactionLogEntry
    → List TransactionLogEntry
    → Result CompensationState
    → Type 0
Keeps st e rest (ok y) = Holds st e rest y
Keeps st e rest (raised x) = ⊥

Keeps-ok :
    (st : CompensationState) (e : TransactionLogEntry) (rest : List TransactionLogEntry)
    (q : Result CompensationState × System)
    → Keeps st e rest q.0
    → (y : CompensationState) × (t : System) × (q ≡ (ok y, t)) × Holds st e rest y
Keeps-ok st e rest (ok y, t) h = (y, t, refl, h)
Keeps-ok st e rest (raised x, t) h = absurd h

module _ (env : GraphEnv) (st x : CompensationState) (e : TransactionLogEntry)
    (rest : List TransactionLogEntry) (s : System) (h : Holds st e rest x) where
  compute-Keeps : Keeps st e rest (compute_refund_amount_node env x s).0
  unfolding compute_refund_amount_node
  compute-Keeps = let (a, b, c, d, f) = h in ground arith

  extract-Keeps : Keeps st e rest (extract_policy_terms_node env x s).0
  unfolding extract_policy_terms_node
  extract-Keeps = let (a, b, c, d, f) = h in ground arith

  fetch-Keeps : Keeps st e rest (fetch_policy env x s).0
  unfolding fetch_policy fetched
  fetch-Keeps = let (a, b, c, d, f) = h in ground arith

selected_fetch :
    (y : CompensationState) (e : TransactionLogEntry)
    → y.current_step ≡ some e
    → route_after_select y ≡ fetch
unfolding route_after_select
selected_fetch y e d = ground arith

pub selected_none :
    (y : CompensationState) → y.current_step ≡ none → route_after_select y ≡ classify
unfolding route_after_select
selected_none y d = ground arith

pub loop_on :
    (y : CompensationState) (e : TransactionLogEntry) (rest : List TransactionLogEntry)
    → y.steps_to_undo ≡ e ∷ rest
    → route_loop_or_end y ≡ select
unfolding route_loop_or_end
loop_on y e rest d = ground arith

pub loop_out : (y : CompensationState) → y.steps_to_undo ≡ [] → route_loop_or_end y ≡ classify
unfolding route_loop_or_end
loop_out y d = ground arith

-- The rest of a step: it ends at the route out of the loop, in at most so many steps.
abbrev pub Undoes :
    GraphEnv
    → ℕ
    → NodeName
    → CompensationState
    → TransactionLogEntry
    → List TransactionLogEntry
    → CompensationState
    → System
    → Type 0
Undoes env bound n st e rest x s =
    (j : ℕ) × (j ≤ bound)
    × (y : CompensationState) × (t : System) × Reaches env j n x s (route_loop_or_end y) y t
    × Undone e rest st y

-- One node, and then the rest.
before :
    (env : GraphEnv) (bound : ℕ) (n m : NodeName) (st x y : CompensationState)
    (e : TransactionLogEntry) (rest : List TransactionLogEntry) (s t : System)
    → node n env x s ≡ (ok y, t)
    → next n y ≡ some m
    → Undoes env bound m st e rest y t
    → Undoes env (1 + bound) n st e rest x s
before env bound n m st x y e rest s t h k (j, b, z, u, r, w) = (
  1 + j,
  omega arith,
  z,
  u,
  Reaches-trans env 1 j n m (route_loop_or_end z) x y z s t u (Reaches-step env n m x y s t h k) r,
  w,
)

module _ (env : GraphEnv) (st : CompensationState) (e : TransactionLogEntry)
    (rest : List TransactionLogEntry) where
  from_attempt :
      (x : CompensationState) (s : System) → Holds st e rest x → Undoes env 1 attempt st e rest x s
  from_attempt x s h =
      let (y, t, same, undone) = attempt_result env st x e rest s h in
      (
        1,
        omega arith,
        y,
        t,
        Reaches-step env attempt (route_loop_or_end y) x y s t (unfold node in same)
            (unfold next in refl),
        undone,
      )

  from_compute :
      (x : CompensationState) (s : System) → Holds st e rest x → Undoes env 2 compute st e rest x s
  from_compute x s h =
      let (y, t, same, held) =
        Keeps-ok st e rest (compute_refund_amount_node env x s)
          (compute-Keeps env st x e rest s h) in
      before env 1 compute attempt st x y e rest s t (unfold node in same) (unfold next in refl)
        (from_attempt y t held)

  from_extract :
      (x : CompensationState) (s : System) → Holds st e rest x → Undoes env 3 extract st e rest x s
  from_extract x s h =
      let (y, t, same, held) =
        Keeps-ok st e rest (extract_policy_terms_node env x s)
          (extract-Keeps env st x e rest s h) in
      before env 2 extract compute st x y e rest s t (unfold node in same) (unfold next in refl)
        (from_compute y t held)

  weaken :
      (a b : ℕ) (n : NodeName) (x : CompensationState) (s : System)
      → a ≤ b
      → Undoes env a n st e rest x s
      → Undoes env b n st e rest x s
  weaken a b n x s h (j, k, y, t, r, u) = (j, omega arith, y, t, r, u)

  from_route :
      (y : CompensationState) (t : System)
      → Holds st e rest y
      → Undoes env 3 (route_after_fetch_policy y) st e rest y t
  unfolding route_after_fetch_policy
  from_route y t h = elim (Bool-cases (has_text y.policy_text)) [
    | inl yes_text ↦ rw yes_text (from_extract y t h)
    | inr no_text ↦ rw no_text (elim (Bool-cases (is_some y.policy_terms)) [
      | inl a ↦ rw a (weaken 2 3 compute y t (omega arith) (from_compute y t h))
      | inr b ↦ rw b (weaken 1 3 attempt y t (omega arith) (from_attempt y t h))
    ])
  ]

  from_fetch :
      (x : CompensationState) (s : System) → Holds st e rest x → Undoes env 4 fetch st e rest x s
  from_fetch x s h =
      let (y, t, same, held) =
        Keeps-ok st e rest (fetch_policy env x s) (fetch-Keeps env st x e rest s h) in
      before env 3 fetch (route_after_fetch_policy y) st x y e rest s t (unfold node in same)
        (unfold next in refl) (from_route y t held)

  select-Keeps :
      (s : System)
      → st.steps_to_undo ≡ e ∷ rest
      → Keeps st e rest (select_next_step_to_undo env st s).0
  unfolding select_next_step_to_undo
  select-Keeps s h = ground arith

  pub from_select : (s : System) → st.steps_to_undo ≡ e ∷ rest → Undoes env 5 select st e rest st s
  from_select s h =
      let (y, t, same, held) =
        Keeps-ok st e rest (select_next_step_to_undo env st s) (select-Keeps s h) in
      let (a, b, c, d, f) = held in
      before env 4 select fetch st st y e rest s t (unfold node in same)
        (unfold next in ap some (selected_fetch y e d)) (from_fetch y t held)
