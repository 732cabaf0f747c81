-- ===== src/Examples/Pay.antt =====
-- The theorems on `/pay` at a concrete deployment.
use revert_x.Prelude.{
  List, ◌∷◌, String, ◌≡◌, ◌≢◌, refl, true, some, [], arith, if◌then◌else◌, ◌==◌, ◌↔◌,
}
use revert_x.Int.{pos, ◌+ℤ◌, ◌-ℤ◌, ◌≤ℤ◌}
use revert_x.Json
use revert_x.Json.{Fields}
use revert_x.Python.{Result, ok, raised, type_error}
use revert_x.Schemas.{ExpectedPayment, duplicate_settlement}
use revert_x.Db.{Workflow}
use revert_x.Db.Steps.{get_idempotency_response, save_idempotency_response, write_transaction_step}
use revert_x.Db.Budget.{reserve_budget, commit_budget}
use revert_x.Db.Budget.Laws.{budget, spend}
use revert_x.Authorization.Wallet.{can_spend, get_wallet, record_spend}
use revert_x.Authorization.Policy.{all_passed, evaluate}
use revert_x.Merchants.Registry.{merchant_port}
use revert_x.System.{System, Frame}
use revert_x.Authorization.Authorize.{authorize, allowed}
use revert_x.Authorization.Authorize.Daily.{IsWithinDay, authorize-IsWithinDay}
use revert_x.Authorization.Authorize.Rules.{IsAuthorized}
use revert_x.Authorization.Authorize.Laws.{authorize_lem, wallet_of, loaded, charged}
use revert_x.Proxy.Pay.Env.{PayEnv, PayRequest, HttpResponse}
use revert_x.Proxy.Pay.Handler.{pay, reserve, expected_payment, rate_limit}
use revert_x.Proxy.Pay.Settle.{finish, reconcile_entry}
use revert_x.Proxy.Pay.Budget.{pay-Accounted, reservation}
use revert_x.Proxy.Pay.Paid.{Accounted}
use revert_x.Proxy.Pay.Replay.{pay-replayed, WithinRate, after}
use revert_x.Proxy.Pay.Refusal.{Refused, reserve-Refused}
use revert_x.Proxy.Pay.Leak.{reserve-unreadable}
use revert_x.Proxy.Pay.Duplicates.{reconcile_entry_never_duplicate}
use revert_x.Examples.World.{
  world, empty_db, ledger_db, hotel_entry, pay_env, null_env, null_amount, pay_request, auth_env,
  small_request,
}

abbrev start : System
start = world empty_db

paid : Result HttpResponse × System
paid = pay pay_env pay_request start

response_of : Result HttpResponse → HttpResponse
response_of (ok r) = r
response_of (raised e) = record { status_code = 0; body = Fields.end }

abbrev response : HttpResponse
response = response_of paid.0

answered : pay pay_env pay_request start ≡ (ok response, paid.1)
unfolding paid pay authorize response_of get_idempotency_response can_spend get_wallet ◌-ℤ◌
    all_passed evaluate reserve_budget record_spend ◌+ℤ◌ merchant_port finish
answered = refl

settled_200 : response.status_code ≡ 200
unfolding paid pay authorize response_of get_idempotency_response can_spend get_wallet ◌-ℤ◌
    all_passed evaluate reserve_budget record_spend ◌+ℤ◌ merchant_port finish
settled_200 = refl

pay-Accounted_example : Accounted pay_request start.db paid.1.db
pay-Accounted_example = pay-Accounted pay_env pay_request start response paid.1 answered

-- A request of the same workflow that has no key of its own to find, and raises.
abbrev later : List (PayEnv × PayRequest)
later = (null_env, record pay_request { amount = Json.null; idempotency_key = "key-2" }) ∷ []

within_rate : WithinRate pay_request (after later paid.1)
unfolding paid pay authorize response_of get_idempotency_response can_spend get_wallet ◌-ℤ◌
    all_passed evaluate reserve_budget record_spend ◌+ℤ◌ merchant_port finish
    save_idempotency_response write_transaction_step commit_budget
within_rate = refl

pay-replayed_example :
    let u = after later paid.1 in
    pay null_env pay_request u ≡ (ok response, (rate_limit "wf-1" u).1)
pay-replayed_example =
    pay-replayed pay_env null_env pay_request pay_request start response paid.1 later answered
      settled_200 refl within_rate

-- A charge of 1000 rupees, and one of 9000, which is over what is left.
abbrev expected : ExpectedPayment
expected = expected_payment pay_request (pos 100000)

abbrev too_much : ExpectedPayment
too_much = record expected { amount = pos 900000 }

over_limit :
    (w : Workflow)
    → budget "wf-1" start.db ≡ some w
    → ¬ (w.budget_used +ℤ pos 900000 ≤ℤ w.budget_limit)
unfolding ◌+ℤ◌
over_limit w e = ground arith

reserve-Refused_example :
    Refused pay_env pay_request too_much start (reserve pay_env pay_request too_much start)
reserve-Refused_example = reserve-Refused pay_env pay_request too_much start over_limit

granted : (reservation null_env pay_request expected start).0.0 ≡ true
unfolding reserve_budget ◌+ℤ◌
granted = refl

merchant_a_port : merchant_port "merchant_a" ≡ some 8001
unfolding merchant_port
merchant_a_port = refl

reserve-unreadable_example :
    let (r, t) = reserve null_env pay_request expected start in
    (r ≡ raised type_error)
    × (t.db.transaction_steps ≡ [])
    × ((j : String)
        → budget j t.db
          ≡ (if "wf-1" == j then spend (pos 100000) (budget j start.db) else budget j start.db))
reserve-unreadable_example =
    reserve-unreadable null_env pay_request expected start 8001 null_amount granted refl
      merchant_a_port refl refl

-- The same answer, to a whole request.
broken : Result HttpResponse × System
broken = pay null_env pay_request start

authorize-IsWithinDay_example : IsWithinDay (authorize auth_env small_request start).1.db
authorize-IsWithinDay_example =
    authorize-IsWithinDay auth_env small_request start
      (record { within = λ agent w e. absurd (ground arith) })

authorize_lem_example :
    let (r, t) = authorize auth_env small_request start in
    ((r ≡ ok allowed)
      ↔ IsAuthorized auth_env small_request (wallet_of auth_env small_request empty_db))
    × (t.db ≡ charged small_request r (loaded auth_env small_request empty_db))
    × Frame start t
authorize_lem_example = authorize_lem auth_env small_request start

reconcile_entry_never_duplicate_example :
    (reconcile_entry hotel_entry ledger_db).mismatch_type ≢ some duplicate_settlement
reconcile_entry_never_duplicate_example = reconcile_entry_never_duplicate hotel_entry ledger_db
