-- ===== src/Proxy/Pay/Finish.antt =====
-- What the second half of `/pay` does to the budget and to the ledger.
use revert_x.Prelude.{
  ℕ, String, ◌≡◌, refl, ap, subst₂, Option, none, some, [], ◌∷◌, ◌++◌, arith, ◌==◌, if◌then◌else◌,
}
use revert_x.Int.{ℤ, pos, +ℤ-zero}
use revert_x.Python.{Result, ok, raised}
use revert_x.Json.{Json, str}
use revert_x.Schemas.{ExpectedPayment, ActualPayment, TransactionLogEntry}
use revert_x.Db.{Db, Workflow}
use revert_x.Dict.{insert, insert_new}
use revert_x.Db.Steps.{write_transaction_step, save_idempotency_response, step_row}
use revert_x.Db.Payouts.{set_pending_payout_step_id}
use revert_x.Db.Budget.{add_budget}
use revert_x.Db.Budget.Laws.{budget, spend, rollback-reserve, commit-reserve, budget-add_budget}
use revert_x.System.{System, on_db}
use revert_x.Values.{to_text}
use revert_x.Proxy.Pay.Env.{PayEnv, PayRequest, HttpResponse}
use revert_x.Proxy.Pay.Settle.{
  Charge, read_charge, settle_budget, actual_payment, record_entry, payment_entry, finish,
}

-- What a ledger entry says that its workflow was charged: the settled amount, or, while the outcome
-- is open, the amount that is held.
abbrev pub charged_by : TransactionLogEntry → ℤ
charged_by e =
    if e.actual.status == "settled"
    then e.actual.amount
    else if e.actual.status == "pending"
    then e.expected.amount
    else pos 0

-- The state after the entry is made, and the response.
abbrev pub Recorded : PayRequest → TransactionLogEntry → System → HttpResponse → System → Type 0
Recorded req e s r t =
    (r.status_code ≡ 200)
    × (t.db.workflows ≡ s.db.workflows)
    × (t.db.transaction_steps
        ≡ s.db.transaction_steps ++ step_row e (some req.idempotency_key) ∷ [])
    × (t.idem ≡ insert req.idempotency_key r.body s.idem)
    × (t.db.idempotency_keys ≡ insert_new req.idempotency_key r.body s.db.idempotency_keys)

pub record_entry-Recorded :
    (req : PayRequest) (e : TransactionLogEntry) (m : Json) (row : Option ℕ) (s : System)
    → (r : HttpResponse) × ((record_entry req e m row s).0 ≡ ok r)
      × Recorded req e s r (record_entry req e m row s).1
unfolding record_entry write_transaction_step save_idempotency_response set_pending_payout_step_id
record_entry-Recorded req e m none s = (_, refl, (refl, refl, refl, refl, refl))
record_entry-Recorded req e m (some k) s = (_, refl, (refl, refl, refl, refl, refl))

-- A payment that went through: the entry that was made of the merchant's answer, and the budget
-- settled by that answer.
pub record Finished (env : PayEnv) (req : PayRequest) (expected : ExpectedPayment) (s : System)
    (r : HttpResponse) (t : System) : Type 0 where
  pub charge : Charge
  pub entry : TransactionLogEntry
  pub same_workflow : entry.workflow_id ≡ req.workflow_id
  pub same_expected : entry.expected ≡ expected
  pub same_amount : entry.actual.amount ≡ charge.actual_amount
  pub same_status : charge.actual_status ≡ str entry.actual.status
  pub recorded :
      Recorded req entry (on_db (settle_budget req.workflow_id expected.amount charge) s) r t

text_of : (v : Json) (x : String) → to_text v ≡ ok x → v ≡ str x
text_of (str y) x h = cc
text_of v x h = absurd (ground arith)

actual_payment_fields :
    (currency : String) (c : Charge) (a : ActualPayment)
    → actual_payment currency c ≡ ok a
    → (a.amount ≡ c.actual_amount) × (c.actual_status ≡ str a.status)
unfolding actual_payment
actual_payment_fields currency c a h = (ground arith, ground arith)

record_entry-inv :
    (req : PayRequest) (e : TransactionLogEntry) (m : Json) (row : Option ℕ) (s : System)
    (r : HttpResponse) (t : System)
    → record_entry req e m row s ≡ (ok r, t)
    → Recorded req e s r t
record_entry-inv req e m row s r t h =
    let (r', a, b) = record_entry-Recorded req e m row s in
    let same : r' ≡ r = cc in
    subst₂ (λ x y. Recorded req e s x y) same (ap (λ (p : Result HttpResponse × System). p.1) h) b

module _ (env : PayEnv) (req : PayRequest) (expected : ExpectedPayment) (m : Json) (code : ℤ)
    (row : Option ℕ) (s : System) (r : HttpResponse) (t : System) where
  abbrev settled : Charge → System
  settled c = on_db (settle_budget req.workflow_id expected.amount c) s

  finish_with :
      (c : Charge) (a : Result ActualPayment)
      → actual_payment expected.currency c ≡ a
      → read_charge env expected m code ≡ ok c
      → finish env req expected (m, code, row) s ≡ (ok r, t)
      → Finished env req expected s r t
  unfolding finish
  finish_with c (raised x) e f h = absurd (ground arith)
  finish_with c (ok a) e f h =
      let entry = payment_entry env req expected a c.raw_response in
      let (amounts, statuses) = actual_payment_fields expected.currency c a e in
      record {
        charge = c;
        entry = entry;
        same_workflow = refl;
        same_expected = refl;
        same_amount = amounts;
        same_status = statuses;
        recorded = record_entry-inv req entry m row (settled c) r t (ground arith);
      }

  finish_read :
      (x : Result Charge)
      → read_charge env expected m code ≡ x
      → finish env req expected (m, code, row) s ≡ (ok r, t)
      → Finished env req expected s r t
  unfolding finish
  finish_read (raised x) f h = absurd (ground arith)
  finish_read (ok c) f h = finish_with c (actual_payment expected.currency c) refl f h

pub finish-Finished :
    (env : PayEnv) (req : PayRequest) (expected : ExpectedPayment) (m : Json × ℤ × Option ℕ)
    (s : System) (r : HttpResponse) (t : System)
    → finish env req expected m s ≡ (ok r, t)
    → Finished env req expected s r t
finish-Finished env req expected (m, code, row) s r t h =
    finish_read env req expected m code row s r t (read_charge env expected m code) refl h

pub spend_zero : (o : Option Workflow) → spend (pos 0) o ≡ o
spend_zero none = refl
spend_zero (some w) = ground (arith, +ℤ-zero w.budget_used)

-- The budget after the settlement of a reservation is what the entry says.
pub settle_budget-charged :
    (wid j : String) (e : TransactionLogEntry) (c : Charge) (db : Db)
    → e.actual.amount ≡ c.actual_amount
    → c.actual_status ≡ str e.actual.status
    → budget j (settle_budget wid e.expected.amount c (add_budget wid e.expected.amount db))
      ≡ (if wid == j then spend (charged_by e) (budget j db) else budget j db)
unfolding settle_budget
settle_budget-charged wid j e c db same_amount same_status = ground (
  arith,
  commit-reserve wid j e.expected.amount c.actual_amount db,
  rollback-reserve wid j e.expected.amount db,
  budget-add_budget wid j e.expected.amount db,
  spend_zero (budget j db),
)
