-- ===== src/Proxy/Pay/Overlap.antt =====
-- Requests to `/pay` with one idempotency key that overlap. The handler of proxy/mcp_proxy.py looks
-- for a stored response when a request comes in, and stores one when the payment is over; it awaits
-- the database, the gateway and the merchant between the two.
use revert_x.Prelude.{
  ℕ, ◌≡◌, refl, sym, ap, ◌∙◌, Option, none, some, List, append-nil, eq_refl, [], ◌∷◌, ◌++◌, false,
  arith, contains, inl, inr, Bool-cases, String, ◌==◌,
}
use revert_x.Int.{ℤ}
use revert_x.Python.{Result, ok, raised, Exc}
use revert_x.Dict.{lookup}
use revert_x.Schemas.{TransactionLogEntry}
use revert_x.Db.{Db}
use revert_x.Db.Steps.{get_idempotency_response, step_row}
use revert_x.System.{System}
use revert_x.Authorization.Authorize.{real_payout_merchant_ids}
use revert_x.Merchants.Registry.{merchant_port}
use revert_x.Schemas.{ExpectedPayment}
use revert_x.Values.{to_float}
use revert_x.Proxy.Pay.Env.{PayEnv, PayRequest, HttpResponse}
use revert_x.Proxy.Pay.Handler.{
  rate_limit, expected_payment, auth_request, mandate_exceeded, charge_merchant, pay_merchant,
  reserve, pay_new,
}
use revert_x.Proxy.Pay.Quiet.{Untouched, authorize-Quiet}
use revert_x.Proxy.Pay.Finish.{charged_by, finish-Finished}
use revert_x.Proxy.Pay.Paid.{Charged, held, Finished-Charged, paid_by_payout, charge_then_finish}
use revert_x.Proxy.Pay.Budget.{
  reservation, attempted, attempted-held, reserve_granted, reserve_refused, checks, pay_new-checks,
  Charged-from, pay_new-Accounted,
}
use mathlib.Core.List.{append_assoc}
use revert_x.Db.Budget.Laws.{budget, spend}
use revert_x.Proxy.Pay.Raised.{Spared, pay_new-Spared}
use revert_x.Proxy.Pay.Books.{InBooksAt, InBooksAt-step}
use revert_x.Proxy.Pay.Replay.{WithinRate}

-- The shared state, and the requests that found no stored response and are not answered yet.
pub record Pool : Type 0 where
  pub system : System
  pub waiting : List (PayEnv × PayRequest)

-- A request comes in and is looked up, or a waiting one is handled: it is answered, or it raises.
pub data Turn (p : Pool) : Pool → Type 0 where
  look :
      (env : PayEnv) (req : PayRequest)
      → WithinRate req p.system
      → lookup req.idempotency_key p.system.idem ≡ none
      → get_idempotency_response req.idempotency_key p.system.db ≡ none
      → Turn p (record {
        system = (rate_limit req.workflow_id p.system).1;
        waiting = p.waiting ++ (env, req) ∷ [];
      })
  go :
      (before : List (PayEnv × PayRequest)) (env : PayEnv) (req : PayRequest)
      (after : List (PayEnv × PayRequest)) (r : HttpResponse) (t : System)
      → p.waiting ≡ before ++ (env, req) ∷ after
      → pay_new env req p.system ≡ (ok r, t)
      → Turn p (record { system = t; waiting = before ++ after })
  broke :
      (before : List (PayEnv × PayRequest)) (env : PayEnv) (req : PayRequest)
      (after : List (PayEnv × PayRequest)) (e : Exc) (t : System)
      → p.waiting ≡ before ++ (env, req) ∷ after
      → pay_new env req p.system ≡ (raised e, t)
      → Turn p (record { system = t; waiting = before ++ after })

pub data Turns (p : Pool) : Pool → Type 0 where
  here : Turns p p
  next : {q r : Pool} → Turns p q → Turn q r → Turns p r

module _ (env : PayEnv) (req : PayRequest) (expected : ExpectedPayment) where
  charge-Charged :
      (db : Db) (s : System) (r : HttpResponse) (t : System) (port : Option ℕ)
      → merchant_port req.merchant_id ≡ port
      → Untouched (held env req expected db) s.db
      → contains req.merchant_id real_payout_merchant_ids ≡ false
      → pay_merchant env req expected s ≡ (ok r, t)
      → r.status_code ≡ 200
      → Charged req db t.db
  unfolding pay_merchant
  charge-Charged db s r t none o h n f code = absurd (ground arith)
  charge-Charged db s r t (some port) o h n f code = Finished-Charged env req expected db s r t h (
      finish-Finished env req expected (charge_merchant env expected port) s r t
        (sym (charge_then_finish env req expected db s port o n) ∙ f))

  reserve-Charged :
      (s : System) (r : HttpResponse) (t : System)
      → reserve env req expected s ≡ (ok r, t)
      → r.status_code ≡ 200
      → Charged req s.db t.db
  reserve-Charged s r t f code = elim (Bool-cases (reservation env req expected s).0.0) [
    | inl y ↦
        let u = attempted env req expected s in
        let h = attempted-held env req expected s y in
        let same : Untouched (held env req expected s.db) u.db =
          (ap (λ x. x.workflows) h, ap (λ x. x.transaction_steps) h) in
        let g = sym (reserve_granted env req expected s y) ∙ f in
        elim (Bool-cases (contains req.merchant_id real_payout_merchant_ids)) [
          | inl p ↦ paid_by_payout env req expected s.db u r t same p g
          | inr n ↦ charge-Charged s.db u r t (merchant_port req.merchant_id) refl same n g code
        ]
    | inr n ↦
        let g = sym (reserve_refused env req expected s n) ∙ f in
        absurd (unfold mandate_exceeded in ground arith)
  ]

-- A payment that is answered with a 200 was charged.
pay_new-Charged :
    (env : PayEnv) (req : PayRequest) (s : System) (a : Result ℤ)
    → to_float env.parse_float req.amount ≡ a
    → (r : HttpResponse) (t : System) → pay_new env req s ≡ (ok r, t)
    → r.status_code ≡ 200
    → Charged req s.db t.db
pay_new-Charged env req s (raised x) e r t f code = absurd (unfold pay_new in ground arith)
pay_new-Charged env req s (ok amount) e r t f code =
    let expected = expected_payment req amount in
    let u = (checks env req amount s).1 in
    elim (pay_new-checks env req amount s (checks env req amount s).0 e refl r t f) [
      | inl g ↦
          Charged-from req s.db u.db t.db (authorize-Quiet env.auth (auth_request req expected) s)
            (reserve-Charged env req expected u r t g code)
      | inr (same, refusal) ↦ absurd (omega arith)
    ]

-- No turn of a request of the workflow ends with an exception.
abbrev pub NoneRaised : {p q : Pool} → String → Turns p q → Type 0
NoneRaised j here = Unit
NoneRaised j (next turns (look env req w a b)) = NoneRaised j turns
NoneRaised j (next turns (go before env req after r t e f)) = NoneRaised j turns
NoneRaised j (next turns (broke before env req after x t e f)) =
    ((req.workflow_id == j) ≡ false) × NoneRaised j turns

InBooksAt-Spared :
    (j wid : String) (s t u : System)
    → InBooksAt j s t
    → Spared wid t.db u.db
    → (wid == j) ≡ false
    → InBooksAt j s u
InBooksAt-Spared j wid s t u (rows, e, h) (p, q) n = (rows, p ∙ e, q j n ∙ h)

-- However requests overlap, with their keys looked up long before they are paid, and whichever
-- handlers raise: if none of a workflow's own requests raises, the ledger has some rows more, and
-- the budget of the workflow was charged with exactly what its rows among them say.
pub Turns-InBooks :
    {p q : Pool} (j : String) (turns : Turns p q)
    → NoneRaised j turns
    → InBooksAt j p.system q.system
unfolding rate_limit
Turns-InBooks {p} j here n = ([], sym (append-nil p.system.db.transaction_steps), refl)
Turns-InBooks {p} j (next {q = q} turns (look env req w a b)) n = Turns-InBooks j turns n
Turns-InBooks {p} j (next {q = q} turns (go before env req after r t e f)) n =
    InBooksAt-step j p.system q.system t req (Turns-InBooks j turns n)
      (pay_new-Accounted env req q.system (to_float env.parse_float req.amount) refl r t f)
Turns-InBooks {p} j (next {q = q} turns (broke before env req after x t e f)) (other, n) =
    InBooksAt-Spared j req.workflow_id p.system q.system t (Turns-InBooks j turns n)
      (pay_new-Spared env req q.system (to_float env.parse_float req.amount) x t refl f) other

Charged-self :
    (req : PayRequest) (db db' : Db) (c : Charged req db db')
    → budget req.workflow_id db' ≡ spend (charged_by c.entry) (budget req.workflow_id db)
Charged-self req db db' c = c.budgets req.workflow_id ∙ rw (eq_refl req.workflow_id) refl

-- Two requests with the same key, neither of which has a stored response when it comes in, are both
-- paid if they overlap: they can take turns so that, if the payments are answered with a 200, the
-- ledger has two rows under the one key, and the budget was charged with what both of them say.
pub overlap_charges_twice :
    (env env' : PayEnv) (req : PayRequest) (s : System) (r r' : HttpResponse) (t t' : System)
    → let u = (rate_limit req.workflow_id s).1 in
      WithinRate req s
      → WithinRate req u
      → lookup req.idempotency_key s.idem ≡ none
      → get_idempotency_response req.idempotency_key s.db ≡ none
      → pay_new env req (rate_limit req.workflow_id u).1 ≡ (ok r, t)
      → pay_new env' req t ≡ (ok r', t')
      → r.status_code ≡ 200
      → r'.status_code ≡ 200
      → Turns (record { system = s; waiting = [] }) (record { system = t'; waiting = [] })
        × ((e e' : TransactionLogEntry) × (t'.db.transaction_steps
              ≡ s.db.transaction_steps
                ++ step_row e (some req.idempotency_key)
                  ∷ step_row e' (some req.idempotency_key)
                  ∷ [])
            × (budget req.workflow_id t'.db
                ≡ spend (charged_by e') (spend (charged_by e) (budget req.workflow_id s.db))))
unfolding rate_limit
overlap_charges_twice env env' req s r r' t t' w w' a b f f' code code' =
    let u = (rate_limit req.workflow_id s).1 in
    let v = (rate_limit req.workflow_id u).1 in
    let c = pay_new-Charged env req v (to_float env.parse_float req.amount) refl r t f code in
    let c' =
      pay_new-Charged env' req t (to_float env'.parse_float req.amount) refl r' t' f' code' in
    (
      next
          (next (next (next here (look env req w a b)) (look env' req w' a b))
            (go [] env req ((env', req) ∷ []) r t refl f))
          (go [] env' req [] r' t' refl f'),
      (
        c.entry,
        c'.entry,
        c'.row
            ∙ ap (λ l. l ++ step_row c'.entry (some req.idempotency_key) ∷ []) c.row
            ∙ append_assoc s.db.transaction_steps (step_row c.entry (some req.idempotency_key) ∷ [])
                (step_row c'.entry (some req.idempotency_key) ∷ []),
        Charged-self req t.db t'.db c'
            ∙ ap (spend (charged_by c'.entry)) (Charged-self req s.db t.db c),
      ),
    )
