-- ===== src/Proxy/Pay/Raised.antt =====
-- What a handler of `/pay` that raises leaves behind.
use revert_x.Prelude.{
  ℕ, String, ◌≡◌, refl, sym, ap, subst, ◌⊎◌, ◌∙◌, false, Option, none, some, arith, ◌==◌, inl, inr,
  contains, Bool-cases,
}
use revert_x.Int.{ℤ, ◌-ℤ◌}
use revert_x.Json.{Json}
use revert_x.Python.{Result, ok, raised, Exc}
use revert_x.Dict.{lookup, lookup-update}
use revert_x.Schemas.{ExpectedPayment}
use revert_x.Db.{Db}
use revert_x.Db.Budget.{add_budget, add_used, sub_used, commit_budget, rollback_budget}
use revert_x.Db.Budget.Laws.{budget, budget-add_budget}
use revert_x.System.{System, on_db}
use revert_x.Authorization.Authorize.{Decision, allowed, blocked, real_payout_merchant_ids}
use revert_x.Merchants.Registry.{merchant_port}
use revert_x.Values.{to_float}
use revert_x.Proxy.Pay.Env.{PayEnv, PayRequest}
use revert_x.Proxy.Pay.Payout.{pay_by_payout}
use revert_x.Proxy.Pay.Settle.{Charge, read_charge, settle_budget, record_entry, finish}
use revert_x.Proxy.Pay.Handler.{
  expected_payment, auth_request, mandate_exceeded, charge_merchant, pay_merchant, reserve, pay_new,
}
use revert_x.Proxy.Pay.Quiet.{Untouched, authorize-Quiet, pay_by_payout-Quiet}
use revert_x.Proxy.Pay.Paid.{payout_then_finish, charge_then_finish}
use revert_x.Proxy.Pay.Budget.{
  reservation, attempted, attempted-held, reserve_granted, reserve_refused, checks,
}

-- No ledger row was added, and no budget but the one of the workflow differs.
abbrev pub Spared : String → Db → Db → Type 0
Spared wid db db' =
    (db'.transaction_steps ≡ db.transaction_steps)
    × ((j : String) → (wid == j) ≡ false → budget j db' ≡ budget j db)

module _ (wid : String) where
  Spared-trans : (a b c : Db) → Spared wid a b → Spared wid b c → Spared wid a c
  Spared-trans a b c (p, q) (p', q') = (p' ∙ p, λ j n. q' j n ∙ q j n)

  Untouched-Spared : (a b : Db) → Untouched a b → Spared wid a b
  Untouched-Spared a b (ws, ss) = (ss, λ j n. ap (lookup j) ws)

  add_budget-Spared : (a : ℤ) (db : Db) → Spared wid db (add_budget wid a db)
  add_budget-Spared a db = (refl, λ j n. ground (arith, budget-add_budget wid j a db))

  settle_budget-Spared : (a : ℤ) (c : Charge) (db : Db) → Spared wid db (settle_budget wid a c db)
  unfolding settle_budget commit_budget rollback_budget
  settle_budget-Spared a c db = (
    ground arith,
    λ j n.
        let more = lookup-update wid j (add_used (c.actual_amount -ℤ a)) db.workflows in
        let less = lookup-update wid j (sub_used a) db.workflows in ground arith,
  )

module _ (env : PayEnv) (req : PayRequest) (expected : ExpectedPayment) (e : Exc) (t : System) where
  read-Spared :
      (m : Json) (code : ℤ) (row : Option ℕ) (s : System) (c : Result Charge)
      → read_charge env expected m code ≡ c
      → finish env req expected (m, code, row) s ≡ (raised e, t)
      → Spared req.workflow_id s.db t.db
  unfolding finish record_entry
  read-Spared m code row s (raised x) o f =
      let same : s ≡ t = ground arith in
      subst (λ (u : System). Spared req.workflow_id s.db u.db) same (refl, λ j n. refl)
  read-Spared m code row s (ok c) o f =
      let same : on_db (settle_budget req.workflow_id expected.amount c) s ≡ t = ground arith in
      subst (λ (u : System). Spared req.workflow_id s.db u.db) same
        (settle_budget-Spared req.workflow_id expected.amount c s.db)

  finish-Spared :
      (m : Json × ℤ × Option ℕ) (s : System)
      → finish env req expected m s ≡ (raised e, t)
      → Spared req.workflow_id s.db t.db
  finish-Spared (m, code, row) s f =
      read-Spared m code row s (read_charge env expected m code) refl f

  charged-Spared :
      (s : System) (port : Option ℕ)
      → merchant_port req.merchant_id ≡ port
      → contains req.merchant_id real_payout_merchant_ids ≡ false
      → pay_merchant env req expected s ≡ (raised e, t)
      → Spared req.workflow_id s.db t.db
  unfolding pay_merchant
  charged-Spared s none o n f = absurd (ground arith)
  charged-Spared s (some port) o n f =
      finish-Spared (charge_merchant env expected port) s
        (sym (charge_then_finish env req expected s.db s port o n) ∙ f)

  pay_merchant-Spared :
      (s : System)
      → pay_merchant env req expected s ≡ (raised e, t)
      → Spared req.workflow_id s.db t.db
  pay_merchant-Spared s f =
      let p = pay_by_payout env req expected.payee expected.currency expected.amount s in
      let (m, h, q) =
        pay_by_payout-Quiet env req expected.payee expected.currency expected.amount s in
      elim (Bool-cases (contains req.merchant_id real_payout_merchant_ids)) [
        | inl y ↦
            Spared-trans req.workflow_id s.db p.1.db t.db
              (Untouched-Spared req.workflow_id s.db p.1.db q)
              (finish-Spared m p.1 (sym (payout_then_finish env req expected s.db s m y h) ∙ f))
        | inr n ↦ charged-Spared s (merchant_port req.merchant_id) refl n f
      ]

  reserve-Spared :
      (s : System) → reserve env req expected s ≡ (raised e, t) → Spared req.workflow_id s.db t.db
  reserve-Spared s f = elim (Bool-cases (reservation env req expected s).0.0) [
    | inl y ↦
        let u = attempted env req expected s in
        Spared-trans req.workflow_id s.db u.db t.db
          (subst (Spared req.workflow_id s.db) (sym (attempted-held env req expected s y))
            (add_budget-Spared req.workflow_id expected.amount s.db))
          (pay_merchant-Spared u (sym (reserve_granted env req expected s y) ∙ f))
    | inr n ↦
        let g = sym (reserve_refused env req expected s n) ∙ f in
        absurd (unfold mandate_exceeded in ground arith)
  ]

pay_new_raised :
    (env : PayEnv) (req : PayRequest) (amount : ℤ) (s : System) (d : Result Decision) (e : Exc)
    (t : System)
    → to_float env.parse_float req.amount ≡ ok amount
    → (checks env req amount s).0 ≡ d
    → pay_new env req s ≡ (raised e, t)
    → (reserve env req (expected_payment req amount) (checks env req amount s).1 ≡ (raised e, t))
      ⊎ ((checks env req amount s).1 ≡ t)
unfolding pay_new
pay_new_raised env req amount s (raised x) e t o h f = inr (ground arith)
pay_new_raised env req amount s (ok allowed) e t o h f = inl (ground arith)
pay_new_raised env req amount s (ok (blocked x)) e t o h f = absurd (ground arith)

-- A request whose handler raises adds no row, and changes no other workflow's budget.
pub pay_new-Spared :
    (env : PayEnv) (req : PayRequest) (s : System) (a : Result ℤ) (e : Exc) (t : System)
    → to_float env.parse_float req.amount ≡ a
    → pay_new env req s ≡ (raised e, t)
    → Spared req.workflow_id s.db t.db
pay_new-Spared env req s (raised x) e t o f =
    let same : s ≡ t = unfold pay_new in ground arith in
    subst (λ (u : System). Spared req.workflow_id s.db u.db) same (refl, λ j n. refl)
pay_new-Spared env req s (ok amount) e t o f =
    let u = (checks env req amount s).1 in
    let quiet =
      Untouched-Spared req.workflow_id s.db u.db
        (authorize-Quiet env.auth (auth_request req (expected_payment req amount)) s) in
    elim (pay_new_raised env req amount s (checks env req amount s).0 e t o refl f) [
      | inl g ↦
          Spared-trans req.workflow_id s.db u.db t.db quiet
            (reserve-Spared env req (expected_payment req amount) e t u g)
      | inr same ↦ subst (λ (v : System). Spared req.workflow_id s.db v.db) same quiet
    ]
