-- ===== src/Examples/Overlap.antt =====
-- The theorems on overlapping requests, payments and threads at concrete inputs.
use revert_x.Prelude.{
  ◌+◌, ◌*◌, ◌≤◌, ◌≡◌, ◌⊎◌, refl, String, true, none, some, List, [], ◌∷◌, ◌++◌, arith, length,
}
use revert_x.Int.{pos, ◌+ℤ◌, ◌-ℤ◌, ◌≤ℤ◌}
use revert_x.Python.{Result, ok, raised, type_error}
use revert_x.Json
use revert_x.Json.{Fields}
use revert_x.Dict.{lookup}
use revert_x.Schemas.{TransactionLogEntry}
use revert_x.Db.{Db, WalletRow}
use revert_x.Db.Wallets.{default_wallet}
use revert_x.Db.Budget.{reserve_budget, commit_budget}
use revert_x.Db.Budget.Laws.{budget, spend}
use revert_x.Db.Steps.{
  step_row, get_idempotency_response, write_transaction_step, save_idempotency_response,
}
use revert_x.System.{System}
use revert_x.Merchants.Registry.{merchant_port}
use revert_x.Authorization.Wallet.{can_spend, get_wallet, record_spend}
use revert_x.Authorization.Wallet.Overlap.{InFlight, check, Reach, total}
use revert_x.Authorization.Wallet.Overlap.Bounded.{overlap_bounded}
use revert_x.Authorization.Wallet.Overlap.Overshoot.{overlap_overshoots}
use revert_x.Authorization.Policy.{all_passed, evaluate}
use revert_x.Authorization.Authorize.{authorize}
use revert_x.Engine.PolicyExtractor.{live_chunks, forward}
use revert_x.Engine.PolicyExtractor.Relay
use revert_x.Engine.PolicyExtractor.Relay.{Relay, Run, relay_start}
use revert_x.Engine.PolicyExtractor.Relay.Ends.{relay_ends}
use revert_x.Proxy.Pay.Env.{HttpResponse, PayRequest}
use revert_x.Proxy.Pay.Settle.{finish}
use revert_x.Proxy.Pay.Finish.{charged_by}
use revert_x.Proxy.Pay.Handler.{rate_limit, pay_new}
use revert_x.Proxy.Pay.Books.{InBooksAt}
use revert_x.Proxy.Pay.Overlap.{
  Turns, here, next, look, go, broke, NoneRaised, Turns-InBooks, overlap_charges_twice,
}
use revert_x.Examples.World.{world, empty_db, pay_env, pay_request}

abbrev start : System
start = world empty_db

-- The first chunk is put and taken, before an empty chunk and the sentinel.
abbrev chunks : List String
chunks = "a" ∷ "" ∷ []

abbrev relayed : Relay
relayed = record (relay_start chunks start) {
  todo = "" ∷ [];
  system = forward "wf-1" ("a" ∷ []) start;
}

relay_run : Run "wf-1" (relay_start chunks start) 2 relayed
unfolding forward
relay_run =
    Run.next (Run.next Run.here (Relay.put_chunk "a" ("" ∷ []) refl refl))
      (Relay.take_chunk "a" [] refl refl)

relay_ends_example :
    (2 ≤ 2 * length chunks + 2)
    × (((relayed.ended ≡ true) × (relayed.system ≡ forward "wf-1" (live_chunks chunks) start))
        ⊎ ((u : Relay) × Relay.Step "wf-1" relayed u))
relay_ends_example = relay_ends "wf-1" chunks start relay_run

-- 70000 of 75000 rupees are spent on day 7.
abbrev spent_row : WalletRow
spent_row = record {
  per_txn_limit = pos 2500000;
  daily_limit = pos 7500000;
  spent_today = pos 7000000;
  last_reset = 7;
}

abbrev spent_db : Db
spent_db = record empty_db { agent_wallet = ("agent", spent_row) ∷ [] }

fits : can_spend (pos 400000) spent_row ≡ true
unfolding can_spend ◌-ℤ◌
fits = refl

checked :
    Reach default_wallet 7 "agent" 1
      (record { db = spent_db; amounts = [] })
      (record { db = spent_db; amounts = pos 400000 ∷ [] })
unfolding get_wallet can_spend ◌-ℤ◌
checked = Reach.next Reach.here (check (pos 400000) (omega arith) refl)

overlap_bounded_example :
    (row : WalletRow) × (lookup "agent" spent_db.agent_wallet ≡ some row)
    × (row.spent_today +ℤ total (pos 400000 ∷ []) ≤ℤ pos (7500000 + 1 * 2500000))
overlap_bounded_example =
    overlap_bounded default_wallet 7 "agent" 1 7500000 2500000 spent_db spent_row
      (record { db = spent_db; amounts = pos 400000 ∷ [] }) refl refl refl refl (omega arith)
      checked

over : pos 7500000 +ℤ pos 1 ≤ℤ pos 7000000 +ℤ pos 400000 +ℤ pos 400000
unfolding ◌+ℤ◌
over = omega arith

overlap_overshoots_example :
    (g : InFlight) × Reach default_wallet 7 "agent" 1 (record { db = spent_db; amounts = [] }) g
    × (g.amounts ≡ [])
    × ((row : WalletRow) × (lookup "agent" g.db.agent_wallet ≡ some row)
        × (row.daily_limit +ℤ pos 1 ≤ℤ row.spent_today))
overlap_overshoots_example =
    overlap_overshoots default_wallet 7 1 "agent" spent_db spent_row (pos 400000) (pos 400000)
      (omega arith) refl refl fits fits over

abbrev counted : System
counted = (rate_limit "wf-1" (rate_limit "wf-1" start).1).1

abbrev first : System
first = (pay_new pay_env pay_request counted).1

abbrev second : System
second = (pay_new pay_env pay_request first).1

response_of : Result HttpResponse → HttpResponse
response_of (ok r) = r
response_of (raised e) = record { status_code = 0; body = Fields.end }

abbrev answer : HttpResponse
answer = response_of (pay_new pay_env pay_request counted).0

abbrev answer_again : HttpResponse
answer_again = response_of (pay_new pay_env pay_request first).0

paid : pay_new pay_env pay_request counted ≡ (ok answer, first)
unfolding rate_limit pay_new authorize response_of get_idempotency_response can_spend get_wallet
    ◌-ℤ◌ all_passed evaluate reserve_budget record_spend ◌+ℤ◌ merchant_port finish
paid = refl

paid_again : pay_new pay_env pay_request first ≡ (ok answer_again, second)
unfolding rate_limit pay_new authorize response_of get_idempotency_response can_spend get_wallet
    ◌-ℤ◌ all_passed evaluate reserve_budget record_spend ◌+ℤ◌ merchant_port finish
    save_idempotency_response write_transaction_step commit_budget
paid_again = refl

code : answer.status_code ≡ 200
unfolding rate_limit pay_new authorize response_of get_idempotency_response can_spend get_wallet
    ◌-ℤ◌ all_passed evaluate reserve_budget record_spend ◌+ℤ◌ merchant_port finish
code = refl

code_again : answer_again.status_code ≡ 200
unfolding rate_limit pay_new authorize response_of get_idempotency_response can_spend get_wallet
    ◌-ℤ◌ all_passed evaluate reserve_budget record_spend ◌+ℤ◌ merchant_port finish
    save_idempotency_response write_transaction_step commit_budget
code_again = refl

unseen : get_idempotency_response "key-1" start.db ≡ none
unfolding get_idempotency_response
unseen = refl

overlap_charges_twice_example :
    Turns (record { system = start; waiting = [] }) (record { system = second; waiting = [] })
    × ((e e' : TransactionLogEntry) × (second.db.transaction_steps
          ≡ start.db.transaction_steps
            ++ step_row e (some "key-1") ∷ step_row e' (some "key-1") ∷ [])
        × (budget "wf-1" second.db
            ≡ spend (charged_by e') (spend (charged_by e) (budget "wf-1" start.db))))
unfolding rate_limit
overlap_charges_twice_example =
    overlap_charges_twice pay_env pay_env pay_request start answer answer_again first second refl
      refl refl unseen paid paid_again code code_again

-- A request of another workflow, whose amount is no number.
abbrev unusable : PayRequest
unusable = record pay_request {
  workflow_id = "wf-2";
  amount = Json.null;
  idempotency_key = "key-2";
}

abbrev other_counted : System
other_counted = (rate_limit "wf-2" start).1

abbrev both_counted : System
both_counted = (rate_limit "wf-1" other_counted).1

abbrev third : System
third = (pay_new pay_env pay_request both_counted).1

abbrev third_answer : HttpResponse
third_answer = response_of (pay_new pay_env pay_request both_counted).0

broken : pay_new pay_env unusable both_counted ≡ (raised type_error, both_counted)
unfolding pay_new
broken = refl

paid_beside : pay_new pay_env pay_request both_counted ≡ (ok third_answer, third)
unfolding rate_limit pay_new authorize response_of get_idempotency_response can_spend get_wallet
    ◌-ℤ◌ all_passed evaluate reserve_budget record_spend ◌+ℤ◌ merchant_port finish
paid_beside = refl

unseen_other : get_idempotency_response "key-2" start.db ≡ none
unfolding get_idempotency_response
unseen_other = refl

abbrev taken :
    Turns (record { system = start; waiting = [] }) (record { system = third; waiting = [] })
unfolding rate_limit
taken =
    next
      (next
        (next (next here (look pay_env unusable refl refl unseen_other))
          (look pay_env pay_request refl refl unseen))
        (broke [] pay_env unusable ((pay_env, pay_request) ∷ []) type_error both_counted refl
          broken))
      (go [] pay_env pay_request [] third_answer third refl paid_beside)

none_raised : NoneRaised "wf-1" taken
unfolding taken
none_raised = (refl, tt)

Turns-InBooks_example : InBooksAt "wf-1" start third
Turns-InBooks_example = Turns-InBooks "wf-1" taken none_raised
