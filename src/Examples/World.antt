-- ===== src/Examples/World.antt =====
-- A deployment, a request and a ledger to run the program on.
use revert_x.Prelude.{true, false, none, some, [], ◌∷◌}
use revert_x.Int.{pos}
use revert_x.Python.{ok, raised, timeout}
use revert_x.Json.{null, int, float, str, obj, Fields}
use revert_x.Schemas.{TransactionLogEntry}
use revert_x.Db.{Db, open_state, PendingPayout, pending}
use revert_x.Db.Wallets.{default_wallet}
use revert_x.System.{System, fields}
use revert_x.Authorization.Policy.{default_policy_config}
use revert_x.Authorization.Authorize.{AuthEnv, AuthRequest}
use revert_x.Proxy.Pay.Env.{PayEnv, PayRequest}
use revert_x.Compensation.State.{GraphEnv}
use revert_x.Workers.PendingPayout.{WorkerEnv}

abbrev pub hotel_entry : TransactionLogEntry
hotel_entry = record {
  step_id = "step-hotel";
  workflow_id = "wf-1";
  action_type = "payment";
  merchant_id = "merchant_b";
  expected = record { amount = pos 800000; currency = "INR"; payee = "Hotel"; item = "room" };
  actual = record {
    amount = pos 800000;
    currency = "INR";
    payee = "Hotel";
    settlement_ref = "ref-hotel";
    status = "settled";
  };
  raw_gateway_response = fields (("status_code", int (pos 200)) ∷ []);
}

abbrev pub crm_entry : TransactionLogEntry
crm_entry = record hotel_entry { step_id = "step-crm"; merchant_id = "merchant_a" }

abbrev pub refused_entry : TransactionLogEntry
refused_entry = record hotel_entry {
  step_id = "step-fail";
  actual = record hotel_entry.actual { status = "failed"; settlement_ref = "" };
  raw_gateway_response =
      fields (("status_code", int (pos 403)) ∷ ("error_type", str "mandate_limit_exceeded") ∷ []);
}

abbrev pub empty_db : Db
empty_db = record {
  workflows =
      ("wf-1", record { budget_limit = pos 2000000; budget_used = pos 1600000; status = "active" })
      ∷ [];
  transaction_steps = [];
  idempotency_keys = [];
  dlq_refunds = [];
  circuit_breakers = [];
  pending_payouts = [];
  next_payout = 1;
  agent_wallet = [];
}

abbrev pub ledger_db : Db
ledger_db = record empty_db {
  transaction_steps =
      (record { full_entry = crm_entry; action_type = "payment"; idempotency_key = none })
      ∷ (record { full_entry = hotel_entry; action_type = "payment"; idempotency_key = none })
      ∷ (record { full_entry = refused_entry; action_type = "payment"; idempotency_key = none })
      ∷ [];
}

abbrev pub world : Db → System
world db = record {
  db = db;
  idem = [];
  rate_limit = [];
  compensation_trace = [];
  events = [];
  compensation_requests = [];
  aegis_enabled = true;
}

abbrev pub auth_env : AuthEnv
auth_env = record {
  defaults = default_wallet;
  config = default_policy_config;
  force_insufficient = false;
  today = 7;
  trace_id = "trace";
  available_balance = ok (pos 9000000);
}

abbrev pub small_request : AuthRequest
small_request = record {
  workflow_id = "wf-1";
  agent_id = "primary_agent";
  amount = pos 100000;
  category = "vendor_payment";
  recipient_id = "CRM Corp";
  merchant_id = "merchant_a";
}

-- A merchant that settles what it is asked for.
abbrev pub pay_env : PayEnv
pay_env = record {
  auth = auth_env;
  step_id = "step-1";
  force_pending = false;
  downstream_force_fail = false;
  self_account_set = true;
  poll_attempts = 3;
  parse_float = λ t. none;
  charge = λ port amount item. ok (
    pos 200,
    obj (
        fields (
          ("status", str "settled")
          ∷ ("amount", float amount)
          ∷ ("settlement_ref", str "ref-1")
          ∷ [])),
  );
  create_payout = raised timeout;
  get_payout = λ i. ok "processed";
  reverse_payout = raised timeout;
}

-- A merchant that answers with no amount.
abbrev pub null_amount : Fields
null_amount = fields (("status", str "settled") ∷ ("amount", null) ∷ [])

abbrev pub null_env : PayEnv
null_env = record pay_env { charge = λ port amount item. ok (pos 200, obj null_amount) }

abbrev pub pay_request : PayRequest
pay_request = record {
  workflow_id = "wf-1";
  merchant_id = "merchant_a";
  idempotency_key = "key-1";
  amount = float (pos 100000);
  payee = none;
  item = none;
  currency = none;
  category = none;
}

abbrev pub graph_env : GraphEnv
graph_env = record {
  policy = λ port. ok "Refunds with a penalty of 10%.";
  sanitize = λ t. t;
  extract = λ t.
      ok (record { refundable = true; penalty_percentage = some (pos 1000); is_fail_safe = false });
  refund = λ port body. ok (pos 200, obj (fields (("status", str "refunded") ∷ [])));
  step_id = "refund-1";
}

abbrev pub silent_graph_env : GraphEnv
silent_graph_env = record graph_env { refund = λ port body. raised timeout }

abbrev pub open_payout : PendingPayout
open_payout = record {
  id = 1;
  workflow_id = "wf-1";
  merchant_id = "merchant_rzp";
  payee = "Vendor";
  amount = pos 100000;
  currency = "INR";
  payout_id = "pout_1";
  step_id = "step-1";
  razorpay_status = "queued";
  checks_done = 2;
  status = pending;
}

abbrev pub worker_env : WorkerEnv
worker_env = record { get_payout = λ id i. ok "queued"; step_id = "resolution-1"; max_checks = 3 }

abbrev pub open_breaker_db : Db
open_breaker_db = record ledger_db {
  circuit_breakers = ("merchant_b", record { failures = 3; state = open_state }) ∷ [];
}
