-- ===== src/Proxy/Pay/Paid.antt =====
-- What a payment does to the budgets, once its money is reserved.
use revert_x.Prelude.{
  ℕ, String, ◌≡◌, ◌⊎◌, refl, sym, ap, subst, ◌∙◌, true, false, Option, none, some, [], ◌∷◌, ◌++◌,
  arith, ◌==◌, contains, inl, inr, Bool-cases, if◌then◌else◌,
}
use revert_x.Int.{ℤ}
use revert_x.Python.{Result, ok, bind-ok}
use revert_x.Json.{Json}
use revert_x.Dict.{lookup}
use revert_x.Schemas.{ExpectedPayment, TransactionLogEntry}
use revert_x.Db.{Db}
use revert_x.Db.Budget.{rollback_budget, commit_budget, add_budget}
use revert_x.Db.Budget.Laws.{budget, spend, rollback-reserve}
use revert_x.Db.Steps.{step_row}
use revert_x.System.{System}
use revert_x.Authorization.Authorize.{real_payout_merchant_ids}
use revert_x.Merchants.Registry.{merchant_port}
use revert_x.Proxy.Pay.Env.{PayEnv, PayRequest, HttpResponse}
use revert_x.Proxy.Pay.Payout.{pay_by_payout}
use revert_x.Proxy.Pay.Settle.{Charge, settle_budget, finish}
use revert_x.Proxy.Pay.Handler.{charge_merchant, pay_merchant}
use revert_x.Proxy.Pay.Quiet.{Untouched, trans, pay_by_payout-Quiet}
use revert_x.Proxy.Pay.Finish.{charged_by, Finished, finish-Finished, settle_budget-charged}

-- One ledger row was added, for this workflow, and the budget of the workflow was charged with what
-- the row says.
pub record Charged (req : PayRequest) (db db' : Db) : Type 0 where
  pub entry : TransactionLogEntry
  pub same_workflow : entry.workflow_id ≡ req.workflow_id
  pub row :
      db'.transaction_steps ≡ db.transaction_steps ++ step_row entry (some req.idempotency_key) ∷ []
  pub budgets :
      (j : String)
      → budget j db'
        ≡ (if req.workflow_id == j then spend (charged_by entry) (budget j db) else budget j db)

abbrev pub Uncharged : Db → Db → Type 0
Uncharged db db' =
    ((j : String) → budget j db' ≡ budget j db) × (db'.transaction_steps ≡ db.transaction_steps)

-- What an answered request leaves behind.
abbrev pub Accounted : PayRequest → Db → Db → Type 0
Accounted req db db' = Charged req db db' ⊎ Uncharged db db'

settle_budget-budget :
    (wid j : String) (a : ℤ) (c : Charge) (db db' : Db)
    → db'.workflows ≡ db.workflows
    → budget j (settle_budget wid a c db') ≡ budget j (settle_budget wid a c db)
unfolding settle_budget commit_budget rollback_budget
settle_budget-budget wid j a c db db' h = ground arith

-- From a state that has the reservation, to the one that `finish` leaves.
module _ (env : PayEnv) (req : PayRequest) (expected : ExpectedPayment) (db : Db) where
  abbrev pub held : Db
  held = add_budget req.workflow_id expected.amount db

  settle_budget-steps :
      (c : Charge) (x : Db)
      → (settle_budget req.workflow_id expected.amount c x).transaction_steps ≡ x.transaction_steps
  unfolding settle_budget commit_budget rollback_budget
  settle_budget-steps c x = ground arith

  pub Finished-Charged :
      (s : System) (r : HttpResponse) (t : System)
      → Untouched held s.db
      → Finished env req expected s r t
      → Charged req db t.db
  Finished-Charged s r t (ws, ss) f =
      let (a, b, c, d, e) = f.recorded in
      record {
        entry = f.entry;
        same_workflow = f.same_workflow;
        row =
            c
            ∙ ap (λ x. x ++ step_row f.entry (some req.idempotency_key) ∷ [])
                (settle_budget-steps f.charge s.db ∙ ss);
        budgets = λ j.
            ap (lookup j) b
            ∙ settle_budget-budget req.workflow_id j expected.amount f.charge held s.db ws
            ∙ subst
                (λ x.
                  budget j
                    (settle_budget req.workflow_id x f.charge (add_budget req.workflow_id x db))
                  ≡ (if req.workflow_id == j
                      then spend (charged_by f.entry) (budget j db)
                      else budget j db))
                (ap (λ x. x.amount) f.same_expected)
                (settle_budget-charged req.workflow_id j f.entry f.charge db f.same_amount
                  f.same_status);
      }

  unknown_merchant-Uncharged :
      (s : System)
      → Untouched held s.db
      → Uncharged db (rollback_budget req.workflow_id expected.amount s.db)
  unfolding rollback_budget
  unknown_merchant-Uncharged s (ws, ss) =
      (λ j. ground (arith, rollback-reserve req.workflow_id j expected.amount db), ss)

  pub payout_then_finish :
      (s : System) (m : Json × ℤ × Option ℕ)
      → contains req.merchant_id real_payout_merchant_ids ≡ true
      → (pay_by_payout env req expected.payee expected.currency expected.amount s).0 ≡ ok m
      → pay_merchant env req expected s
        ≡ finish env req expected m
            (pay_by_payout env req expected.payee expected.currency expected.amount s).1
  unfolding pay_merchant
  payout_then_finish s m y e = rw y (
      bind-ok (pay_by_payout env req expected.payee expected.currency expected.amount)
        (λ x. finish env req expected x) s m e)

  pub charge_then_finish :
      (s : System) (port : ℕ)
      → merchant_port req.merchant_id ≡ some port
      → contains req.merchant_id real_payout_merchant_ids ≡ false
      → pay_merchant env req expected s
        ≡ finish env req expected (charge_merchant env expected port) s
  unfolding pay_merchant
  charge_then_finish s port o n = rw n (rw o refl)

  no_merchant :
      (s : System)
      → merchant_port req.merchant_id ≡ none
      → contains req.merchant_id real_payout_merchant_ids ≡ false
      → (pay_merchant env req expected s).1.db
        ≡ rollback_budget req.workflow_id expected.amount s.db
  unfolding pay_merchant
  no_merchant s o n = rw n (rw o refl)

  pub paid_by_payout :
      (s : System) (r : HttpResponse) (t : System)
      → Untouched held s.db
      → contains req.merchant_id real_payout_merchant_ids ≡ true
      → pay_merchant env req expected s ≡ (ok r, t)
      → Charged req db t.db
  paid_by_payout s r t h y f =
      let p = pay_by_payout env req expected.payee expected.currency expected.amount s in
      let (m, e, q) =
        pay_by_payout-Quiet env req expected.payee expected.currency expected.amount s in
      Finished-Charged p.1 r t (trans held s.db p.1.db h q)
        (finish-Finished env req expected m p.1 r t (sym (payout_then_finish s m y e) ∙ f))

  paid_by_charge :
      (s : System) (r : HttpResponse) (t : System) (port : Option ℕ)
      → merchant_port req.merchant_id ≡ port
      → Untouched held s.db
      → contains req.merchant_id real_payout_merchant_ids ≡ false
      → pay_merchant env req expected s ≡ (ok r, t)
      → Accounted req db t.db
  paid_by_charge s r t none o h n f = inr (
      subst (λ x. Uncharged db x)
        (sym (no_merchant s o n) ∙ ap (λ (p : Result HttpResponse × System). p.1.db) f)
        (unknown_merchant-Uncharged s h))
  paid_by_charge s r t (some port) o h n f = inl (
      Finished-Charged s r t h (
        finish-Finished env req expected (charge_merchant env expected port) s r t
          (sym (charge_then_finish s port o n) ∙ f)))

  pub pay_merchant-Accounted :
      (s : System) (r : HttpResponse) (t : System)
      → Untouched held s.db
      → pay_merchant env req expected s ≡ (ok r, t)
      → Accounted req db t.db
  pay_merchant-Accounted s r t h f =
      elim (Bool-cases (contains req.merchant_id real_payout_merchant_ids)) [
        | inl y ↦ inl (paid_by_payout s r t h y f)
        | inr n ↦ paid_by_charge s r t (merchant_port req.merchant_id) refl h n f
      ]
