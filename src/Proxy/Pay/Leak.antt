-- ===== src/Proxy/Pay/Leak.antt =====
-- An answer of the merchant that the handler cannot read, once the money is reserved.
use revert_x.Prelude.{
  ℕ, String, ◌≡◌, refl, ap, ◌∙◌, true, false, Option, none, some, arith, ◌==◌, contains,
  if◌then◌else◌,
}
use revert_x.Int.{pos}
use revert_x.Python.{Result, ok, raised, type_error}
use revert_x.Json.{null, obj, Fields, get}
use revert_x.Db.{Db}
use revert_x.Db.Budget.Laws.{budget, spend, budget-add_budget}
use revert_x.Schemas.{ExpectedPayment}
use revert_x.System.{System}
use revert_x.Authorization.Authorize.{real_payout_merchant_ids}
use revert_x.Merchants.Registry.{merchant_port}
use revert_x.Proxy.Pay.Env.{PayEnv, PayRequest, HttpResponse}
use revert_x.Proxy.Pay.Settle.{finish, read_charge}
use revert_x.Proxy.Pay.Handler.{charge_merchant, reserve}
use revert_x.Proxy.Pay.Budget.{reservation, attempted, reserve_granted, attempted-held}
use revert_x.Proxy.Pay.Paid.{charge_then_finish}

unreadable :
    (env : PayEnv) (expected : ExpectedPayment) (m : Fields)
    → get "amount" m ≡ some null
    → read_charge env expected (obj m) (pos 200) ≡ raised type_error
unfolding read_charge
unreadable env expected m h = rw h refl

finish_unreadable :
    (env : PayEnv) (req : PayRequest) (expected : ExpectedPayment) (m : Fields) (row : Option ℕ)
    (s : System)
    → get "amount" m ≡ some null
    → finish env req expected (obj m, pos 200, row) s ≡ (raised type_error, s)
unfolding finish
finish_unreadable env req expected m row s h = rw (unreadable env expected m h) refl

charge_answered :
    (env : PayEnv) (expected : ExpectedPayment) (port : ℕ) (m : Fields)
    → env.charge port expected.amount expected.item ≡ ok (pos 200, obj m)
    → charge_merchant env expected port ≡ (obj m, pos 200, none)
unfolding charge_merchant
charge_answered env expected port m h = ground arith

-- A mock merchant that answers 200 with an amount of `null` makes the handler raise after the
-- reservation: the workflow's budget stays charged with the whole amount, and no ledger row says so.
pub reserve-unreadable :
    (env : PayEnv) (req : PayRequest) (expected : ExpectedPayment) (s : System) (port : ℕ)
    (m : Fields)
    → (reservation env req expected s).0.0 ≡ true
    → contains req.merchant_id real_payout_merchant_ids ≡ false
    → merchant_port req.merchant_id ≡ some port
    → env.charge port expected.amount expected.item ≡ ok (pos 200, obj m)
    → get "amount" m ≡ some null
    → let (r, t) = reserve env req expected s in
      (r ≡ raised type_error)
      × (t.db.transaction_steps ≡ s.db.transaction_steps)
      × ((j : String)
          → budget j t.db ≡ (
              if req.workflow_id == j
              then spend expected.amount (budget j s.db)
              else budget j s.db))
reserve-unreadable env req expected s port m granted mock known answer h =
    let u = attempted env req expected s in
    let told : charge_merchant env expected port ≡ (obj m, pos 200, none) =
      charge_answered env expected port m answer in
    let same : reserve env req expected s ≡ (raised type_error, u) =
      reserve_granted env req expected s granted
      ∙ charge_then_finish env req expected s.db u port known mock
      ∙ ap (λ x. finish env req expected x u) told
      ∙ finish_unreadable env req expected m none u h in
    let held = attempted-held env req expected s granted in
    let after = ap (λ (p : Result HttpResponse × System). p.1.db) same ∙ held in
    (
      ap (λ (p : Result HttpResponse × System). p.0) same,
      ap (λ (db : Db). db.transaction_steps) after,
      λ j. ap (budget j) after ∙ budget-add_budget req.workflow_id j expected.amount s.db,
    )
