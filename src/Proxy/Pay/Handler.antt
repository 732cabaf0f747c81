-- ===== src/Proxy/Pay/Handler.antt =====
-- The `/pay` handler itself: the limit on requests, the stored responses, the authorization, the
-- reservation, and the payment.
use revert_x.Prelude.{
  ℕ, ◌+◌, String, Bool, true, false, Option, none, some, [], ◌∷◌, ◌++◌, ltb, get_or, contains,
  if◌then◌else◌,
}
use revert_x.Int.{ℤ, pos}
use revert_x.Python.{ok, raised, timeout, Exec, pure, lift, modify, ◌>>=◌, ◌>>◌}
use revert_x.Json.{Json, int, float, str, obj, Fields, end}
use revert_x.Dict.{lookup, insert}
use revert_x.Schemas.{ExpectedPayment, TransactionLogEntry}
use revert_x.Db.Budget.{reserve_budget, rollback_budget}
use revert_x.Db.Steps.{write_transaction_step, get_idempotency_response}
use revert_x.System.{System, CompensationRequest, publish_event, on_db, fields}
use revert_x.Merchants.Registry.{merchant_port, merchant_payee}
use revert_x.Authorization.Authorize.{
  AuthRequest, allowed, blocked, real_payout_merchant_ids, authorize,
}
use revert_x.Values.{to_float}
use revert_x.Proxy.Pay.Env.{PayEnv, PayRequest, HttpResponse}
use revert_x.Proxy.Pay.Payout.{pay_by_payout}
use revert_x.Proxy.Pay.Settle.{finish}

abbrev pub respond : ℕ → Fields → HttpResponse
respond code body = record { status_code = code; body = body }

-- Step 0: the number of requests in the window, this one included. The window's end, when Redis
-- drops the counter, is an event of the environment.
unfoldable pub rate_limit : String → Exec System ℕ
rate_limit wid s =
    let count = get_or (lookup wid s.rate_limit) 0 + 1 in
    (ok count, record s { rate_limit = insert wid count s.rate_limit })

abbrev pub expected_payment : PayRequest → ℤ → ExpectedPayment
expected_payment req amount = record {
  amount = amount;
  currency = get_or req.currency "INR";
  payee = get_or req.payee (merchant_payee req.merchant_id);
  item = get_or req.item "";
}

abbrev pub auth_request : PayRequest → ExpectedPayment → AuthRequest
auth_request req expected = record {
  workflow_id = req.workflow_id;
  agent_id = "primary_agent";
  amount = expected.amount;
  category = get_or req.category "vendor_payment";
  recipient_id = expected.payee;
  merchant_id = req.merchant_id;
}

-- The entry of a payment that the budget did not allow.
unfoldable pub failing_entry : PayEnv → PayRequest → ExpectedPayment → TransactionLogEntry
failing_entry env req expected = record {
  step_id = env.step_id;
  workflow_id = req.workflow_id;
  action_type = "payment";
  merchant_id = req.merchant_id;
  expected = expected;
  actual = record {
    amount = expected.amount;
    currency = expected.currency;
    payee = expected.payee;
    settlement_ref = "";
    status = "failed";
  };
  raw_gateway_response =
      fields (("status_code", int (pos 403)) ∷ ("error_type", str "mandate_limit_exceeded") ∷ []);
}

-- Step 2, refused: the entry is written, and the compensation is asked for if the mode is on.
unfoldable pub mandate_exceeded :
    PayEnv → PayRequest → ExpectedPayment → ℤ → ℤ → Exec System HttpResponse
unfolding failing_entry publish_event
mandate_exceeded env req expected used limit s =
    let wid = req.workflow_id in
    let entry = failing_entry env req expected in
    let t =
      publish_event wid "mandate_exceeded"
        (fields (
          ("step_id", str entry.step_id)
          ∷ ("amount", float expected.amount)
          ∷ ("merchant_id", str req.merchant_id)
          ∷ ("budget_used", float used)
          ∷ ("budget_limit", float limit)
          ∷ []))
        (publish_event wid "step_written"
          (fields (("step_id", str entry.step_id) ∷ ("merchant_id", str entry.merchant_id) ∷ []))
          (on_db (write_transaction_step entry (some req.idempotency_key)) s)) in
    let request : CompensationRequest = record { workflow_id = wid; failing_step = entry } in
    (
      ok (
          respond 403 (
            fields (
              ("error_type", str "mandate_limit_exceeded")
              ∷ ("step_id", str entry.step_id)
              ∷ ("status_code", int (pos 403))
              ∷ []))),
      if t.aegis_enabled
          then record t { compensation_requests = t.compensation_requests ++ request ∷ [] }
          else publish_event wid "aegis_disabled_no_compensation"
              (fields (("workflow_id", str wid) ∷ [])) t,
    )

-- The answer of a mock merchant: a timeout is a 408, any other exception a 503.
unfoldable pub charge_merchant : PayEnv → ExpectedPayment → ℕ → Json × ℤ × Option ℕ
charge_merchant env expected port = elim (env.charge port expected.amount expected.item) [
  | ok (code, body) ↦ (body, code, none)
  | raised timeout ↦ (obj (fields (("error_type", str "timeout") ∷ [])), pos 408, none)
  | raised _ ↦ (obj (fields (("error", str "") ∷ [])), pos 503, none)
]

-- Step 3 with what follows: the money is reserved.
unfoldable pub pay_merchant : PayEnv → PayRequest → ExpectedPayment → Exec System HttpResponse
unfolding charge_merchant
pay_merchant env req expected =
    if contains req.merchant_id real_payout_merchant_ids
    then (do
      r ← pay_by_payout env req expected.payee expected.currency expected.amount
      finish env req expected r)
    else (elim (merchant_port req.merchant_id) [
      | none ↦
          modify (on_db (rollback_budget req.workflow_id expected.amount))
          >> pure (respond 404 (fields (("error", str "Unknown merchant") ∷ [])))
      | some port ↦ finish env req expected (charge_merchant env expected port)
    ])

unfoldable pub reserve : PayEnv → PayRequest → ExpectedPayment → Exec System HttpResponse
unfolding mandate_exceeded pay_merchant publish_event
reserve env req expected s =
    let ((reserved, used, limit), db') = reserve_budget req.workflow_id expected.amount s.db in
    let t = record s { db = db' } in
    if reserved
    then pay_merchant env req expected (
        publish_event req.workflow_id "payment_attempt"
          (fields (
            ("merchant_id", str req.merchant_id)
            ∷ ("amount", float expected.amount)
            ∷ ("payee", str expected.payee)
            ∷ ("item", str expected.item)
            ∷ []))
          t)
    else mandate_exceeded env req expected used limit t

-- A request with a new key.
unfoldable pub pay_new : PayEnv → PayRequest → Exec System HttpResponse
unfolding reserve
pay_new env req = do
  amount ← lift (to_float env.parse_float req.amount)
  let expected = expected_payment req amount
  d ← authorize env.auth (auth_request req expected)
  elim d [
    | allowed ↦ reserve env req expected
    | blocked source ↦ pure (
        respond 403 (
          fields (
            ("status_code", int (pos 403))
            ∷ ("error_type", str "authorization_blocked")
            ∷ ("trace_id", str env.auth.trace_id)
            ∷ [])))
  ]

abbrev pub nonempty : Fields → Bool
nonempty end = false
nonempty _ = true

-- Steps 1 and 1b: a stored response is returned as it is; one that only the database has is put
-- back into Redis.
unfoldable pub replay_or : PayEnv → PayRequest → Exec System HttpResponse
unfolding pay_new
replay_or env req s = elim (lookup req.idempotency_key s.idem) [
  | some body ↦ (ok (respond 200 body), s)
  | none ↦ elim (get_idempotency_response req.idempotency_key s.db) [
    | none ↦ pay_new env req s
    | some body ↦
        if nonempty body
        then (ok (respond 200 body), record s { idem = insert req.idempotency_key body s.idem })
        else pay_new env req s
  ]
]

unfoldable pub pay : PayEnv → PayRequest → Exec System HttpResponse
unfolding rate_limit replay_or
pay env req = do
  count ← rate_limit req.workflow_id
  if ltb 50 count
      then pure (respond 429 (fields (("error", str "Too Many Requests") ∷ [])))
      else replay_or env req
