-- ===== src/Proxy/Pay/Refusal.antt =====
-- A payment that the budget does not allow.
use revert_x.Prelude.{
  ◌≡◌, refl, ap, sym, false, some, [], ◌∷◌, ◌++◌, arith, if◌then◌else◌, subst, Bool-cases, inl, inr,
}
use revert_x.Int.{ℤ, ◌+ℤ◌, ◌≤ℤ◌}
use revert_x.Python.{Result, ok}
use revert_x.Db.{Workflow}
use revert_x.Db.Budget.Laws.{budget, reserve_budget-Granted}
use revert_x.Db.Steps.{write_transaction_step, step_row}
use revert_x.Schemas.{ExpectedPayment}
use revert_x.System.{System, CompensationRequest, publish_event}
use revert_x.Proxy.Pay.Env.{PayEnv, PayRequest, HttpResponse}
use revert_x.Proxy.Pay.Handler.{mandate_exceeded, failing_entry, reserve}
use revert_x.Proxy.Pay.Budget.{reservation, reserve_refused, refused-same}

-- The response is a 403; one ledger row is added, of a failed payment; the budgets do not change;
-- and the compensation is asked for, once, exactly if the mode is on.
abbrev pub Refused :
    PayEnv → PayRequest → ExpectedPayment → System → Result HttpResponse × System → Type 0
Refused env req expected s (r, t) =
    let entry = failing_entry env req expected in
    let request : CompensationRequest = record {
      workflow_id = req.workflow_id;
      failing_step = entry;
    } in
    ((answer : HttpResponse) × (r ≡ ok answer) × (answer.status_code ≡ 403))
    × (t.db.workflows ≡ s.db.workflows)
    × (t.db.transaction_steps
        ≡ s.db.transaction_steps ++ step_row entry (some req.idempotency_key) ∷ [])
    × (t.compensation_requests ≡ (
        if s.aegis_enabled
        then s.compensation_requests ++ request ∷ []
        else s.compensation_requests))

mandate_exceeded-Refused :
    (env : PayEnv) (req : PayRequest) (expected : ExpectedPayment) (used limit : ℤ) (s : System)
    → Refused env req expected s (mandate_exceeded env req expected used limit s)
unfolding mandate_exceeded write_transaction_step publish_event
mandate_exceeded-Refused env req expected used limit s =
    ((_, refl, refl), ground arith, ground arith, ground arith)

module _ (env : PayEnv) (req : PayRequest) (expected : ExpectedPayment) (s : System) where
  abbrev Over : Type 0
  Over =
      (w : Workflow)
      → budget req.workflow_id s.db ≡ some w
      → ¬ (w.budget_used +ℤ expected.amount ≤ℤ w.budget_limit)

  over_refused : Over → (reservation env req expected s).0.0 ≡ false
  over_refused over = elim (Bool-cases (reservation env req expected s).0.0) [
    | inr n ↦ n
    | inl y ↦
        let q = reservation env req expected s in
        let (w, a, b, _, _, _) =
          reserve_budget-Granted req.workflow_id expected.amount q.0.1 q.0.2 s.db q.1
            (ap (λ x. ((x, q.0.1, q.0.2), q.1)) y) in
        absurd (over w a b)
  ]

-- A payment over the limit of its workflow, or of an unknown workflow, is refused with a status of
-- 403: one ledger row is added, of a failed payment, no budget changes, and the compensation of the
-- workflow is asked for, once, exactly if the mode is on.
pub reserve-Refused :
    (env : PayEnv) (req : PayRequest) (expected : ExpectedPayment) (s : System)
    → ((w : Workflow)
        → budget req.workflow_id s.db ≡ some w
        → ¬ (w.budget_used +ℤ expected.amount ≤ℤ w.budget_limit))
    → Refused env req expected s (reserve env req expected s)
reserve-Refused env req expected s over =
    let n = over_refused env req expected s over in
    let q = reservation env req expected s in
    subst (λ x. Refused env req expected s x) (sym (reserve_refused env req expected s n))
      (subst
        (λ db.
          Refused env req expected s
            (mandate_exceeded env req expected q.0.1 q.0.2 (record s { db = db })))
        (sym (refused-same env req expected s n))
        (mandate_exceeded-Refused env req expected q.0.1 q.0.2 s))
