-- ===== src/Proxy/Pay/Budget.antt =====
-- What a request to `/pay` does to the budgets, from the first check to the response.
use revert_x.Prelude.{
  ◌≡◌, ◌⊎◌, refl, sym, ap, subst, ◌∙◌, Bool, true, false, some, [], ◌∷◌, ◌++◌, arith, ◌==◌, inl,
  inr, Bool-cases, if◌then◌else◌,
}
use revert_x.Int.{ℤ}
use revert_x.Python.{Result, ok, raised}
use revert_x.Json.{float, str}
use revert_x.Dict.{Dict, lookup}
use revert_x.Schemas.{ExpectedPayment}
use revert_x.Db.{Db, Workflow}
use revert_x.Db.Budget.{reserve_budget, add_budget}
use revert_x.Db.Budget.Laws.{budget, spend, reserve_budget-Granted, reserve_budget_refused}
use revert_x.Db.Steps.{write_transaction_step, step_row}
use revert_x.System.{System, fields, publish_event}
use revert_x.Authorization.Authorize.{Decision, allowed, blocked, authorize}
use revert_x.Values.{to_float}
use revert_x.Proxy.Pay.Env.{PayEnv, PayRequest, HttpResponse}
use revert_x.Proxy.Pay.Handler.{
  rate_limit, expected_payment, auth_request, mandate_exceeded, failing_entry, pay_merchant,
  reserve, pay_new, replay_or, pay,
}
use revert_x.Proxy.Pay.Quiet.{Untouched, authorize-Quiet}
use revert_x.Proxy.Pay.Finish.{charged_by, spend_zero}
use revert_x.Proxy.Pay.Paid.{Charged, Accounted, pay_merchant-Accounted}

module _ (env : PayEnv) (req : PayRequest) (expected : ExpectedPayment) where
  -- The entry of a refused payment, which nothing is charged for.
  mandate_exceeded-Charged :
      (s : System) (used limit : ℤ)
      → Charged req s.db (mandate_exceeded env req expected used limit s).1.db
  unfolding mandate_exceeded failing_entry write_transaction_step publish_event
  mandate_exceeded-Charged s used limit = record {
    entry = failing_entry env req expected;
    same_workflow = refl;
    row = ground arith;
    budgets = λ j. ground (arith, spend_zero (budget j s.db));
  }

module _ (env : PayEnv) (req : PayRequest) (expected : ExpectedPayment) (s : System) where
  abbrev pub reservation : (Bool × ℤ × ℤ) × Db
  reservation = reserve_budget req.workflow_id expected.amount s.db

  abbrev pub attempted : System
  attempted =
      publish_event req.workflow_id "payment_attempt"
        (fields (
          ("merchant_id", str req.merchant_id)
          ∷ ("amount", float expected.amount)
          ∷ ("payee", str expected.payee)
          ∷ ("item", str expected.item)
          ∷ []))
        (record s { db = reservation.1 })

  pub reserve_granted :
      reservation.0.0 ≡ true → reserve env req expected s ≡ pay_merchant env req expected attempted
  unfolding reserve
  reserve_granted e = rw e refl

  pub reserve_refused :
      reservation.0.0 ≡ false
      → reserve env req expected s
        ≡ mandate_exceeded env req expected reservation.0.1 reservation.0.2
            (record s { db = reservation.1 })
  unfolding reserve
  reserve_refused e = rw e refl

  pub attempted-held :
      reservation.0.0 ≡ true → attempted.db ≡ add_budget req.workflow_id expected.amount s.db
  unfolding publish_event
  attempted-held e =
      let (w, a, b, c, d, h) =
        reserve_budget-Granted req.workflow_id expected.amount reservation.0.1 reservation.0.2 s.db
          reservation.1 (ap (λ x. ((x, reservation.0.1, reservation.0.2), reservation.1)) e) in
      h

  pub refused-same : reservation.0.0 ≡ false → reservation.1 ≡ s.db
  refused-same e =
      (reserve_budget_refused req.workflow_id expected.amount reservation.0.1 reservation.0.2 s.db
        reservation.1 (ap (λ x. ((x, reservation.0.1, reservation.0.2), reservation.1)) e)).0

  reserve-Accounted :
      (r : HttpResponse) (t : System)
      → reserve env req expected s ≡ (ok r, t)
      → Accounted req s.db t.db
  reserve-Accounted r t f = elim (Bool-cases reservation.0.0) [
    | inl y ↦
        let h = attempted-held y in
        pay_merchant-Accounted env req expected s.db attempted r t
          (ap (λ x. x.workflows) h, ap (λ x. x.transaction_steps) h) (sym (reserve_granted y) ∙ f)
    | inr n ↦
        let u = record s { db = reservation.1 } in
        inl (
          subst (λ x. Charged req x t.db) (refused-same n)
            (subst (λ x. Charged req u.db x)
              (sym (ap (λ (p : Result HttpResponse × System). p.1.db) (reserve_refused n))
                ∙ ap (λ (p : Result HttpResponse × System). p.1.db) f)
              (mandate_exceeded-Charged env req expected u reservation.0.1 reservation.0.2)))
  ]

pub Charged-from :
    (req : PayRequest) (a b c : Db) → Untouched a b → Charged req b c → Charged req a c
Charged-from req a b c (ws, ss) k = record {
  entry = k.entry;
  same_workflow = k.same_workflow;
  row = k.row ∙ ap (λ x. x ++ step_row k.entry (some req.idempotency_key) ∷ []) ss;
  budgets = λ j.
      k.budgets j
      ∙ ap
          (λ (ws : Dict Workflow).
            if req.workflow_id == j then spend (charged_by k.entry) (lookup j ws) else lookup j ws)
          ws;
}

Accounted-from :
    (req : PayRequest) (a b c : Db) → Untouched a b → Accounted req b c → Accounted req a c
Accounted-from req a b c same (inl k) = inl (Charged-from req a b c same k)
Accounted-from req a b c (ws, ss) (inr (p, q)) = inr ((λ j. p j ∙ ap (lookup j) ws), q ∙ ss)

abbrev pub checks : PayEnv → PayRequest → ℤ → System → Result Decision × System
checks env req amount s = authorize env.auth (auth_request req (expected_payment req amount)) s

pub pay_new-checks :
    (env : PayEnv) (req : PayRequest) (amount : ℤ) (s : System) (d : Result Decision)
    → to_float env.parse_float req.amount ≡ ok amount
    → (checks env req amount s).0 ≡ d
    → (r : HttpResponse) (t : System) → pay_new env req s ≡ (ok r, t)
    → (reserve env req (expected_payment req amount) (checks env req amount s).1 ≡ (ok r, t))
      ⊎ ((t ≡ (checks env req amount s).1) × (r.status_code ≡ 403))
unfolding pay_new
pay_new-checks env req amount s (raised x) e h r t f = absurd (ground arith)
pay_new-checks env req amount s (ok allowed) e h r t f = inl (ground arith)
pay_new-checks env req amount s (ok (blocked x)) e h r t f = inr (ground arith, ground arith)

pub pay_new-Accounted :
    (env : PayEnv) (req : PayRequest) (s : System) (a : Result ℤ)
    → to_float env.parse_float req.amount ≡ a
    → (r : HttpResponse) (t : System) → pay_new env req s ≡ (ok r, t)
    → Accounted req s.db t.db
pay_new-Accounted env req s (raised x) e r t f = absurd (unfold pay_new in ground arith)
pay_new-Accounted env req s (ok amount) e r t f =
    let u = (checks env req amount s).1 in
    let quiet = authorize-Quiet env.auth (auth_request req (expected_payment req amount)) s in
    elim (pay_new-checks env req amount s (checks env req amount s).0 e refl r t f) [
      | inl g ↦
          Accounted-from req s.db u.db t.db quiet
            (reserve-Accounted env req (expected_payment req amount) u r t g)
      | inr (same, _) ↦
          subst (λ x. Accounted req s.db x.db) (sym same)
            (Accounted-from req s.db u.db u.db quiet (inr ((λ j. refl), refl)))
    ]

pay_cases :
    (env : PayEnv) (req : PayRequest) (s : System) (r : HttpResponse) (t : System)
    → pay env req s ≡ (ok r, t)
    → (t.db ≡ s.db) ⊎ (pay_new env req (rate_limit req.workflow_id s).1 ≡ (ok r, t))
unfolding pay rate_limit replay_or
pay_cases env req s r t f = ground arith

-- A request that is answered leaves the ledger and the budgets in step: either it added one row for
-- its own workflow, whose budget was charged with what that row says was settled or is held, and no
-- other budget changed; or it added no row and changed no budget.
pub pay-Accounted :
    (env : PayEnv) (req : PayRequest) (s : System) (r : HttpResponse) (t : System)
    → pay env req s ≡ (ok r, t)
    → Accounted req s.db t.db
pay-Accounted env req s r t f = elim (pay_cases env req s r t f) [
  | inl same ↦
      inr ((λ j. ap (λ (db : Db). budget j db) same), ap (λ (db : Db). db.transaction_steps) same)
  | inr g ↦
      unfold rate_limit in pay_new-Accounted env req (rate_limit req.workflow_id s).1 _ refl r t g
]
