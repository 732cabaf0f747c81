-- ===== src/Db/Tables.antt =====
-- The rows of the tables that `run_migrations` of db/client.py creates.
use revert_x.Prelude.{ℕ, String, Option, List}
use revert_x.Int.{ℤ}
use revert_x.Dict.{Dict}
use revert_x.Json.{Fields}
use revert_x.Schemas.{TransactionLogEntry}

pub record Workflow : Type 0 where
  pub budget_limit : ℤ
  pub budget_used : ℤ
  pub status : String

-- `full_entry` holds the other columns too, but for `action_type`, which has a column of its own.
pub record StepRow : Type 0 where
  pub full_entry : TransactionLogEntry
  pub action_type : String
  pub idempotency_key : Option String

pub record DlqRefund : Type 0 where
  pub workflow_id : String
  pub merchant_id : String
  pub step_id : String
  pub amount : ℤ
  pub settlement_ref : String

-- The states 'closed' and 'open' of a circuit breaker.
pub data BreakerState : Type 0 where
  closed_state open_state : BreakerState

pub record CircuitBreaker : Type 0 where
  pub failures : ℕ
  pub state : BreakerState

pub data PayoutState : Type 0 where
  pending resolved_settled resolved_failed exhausted : PayoutState

pub record PendingPayout : Type 0 where
  pub id : ℕ
  pub workflow_id : String
  pub merchant_id : String
  pub payee : String
  pub amount : ℤ
  pub currency : String
  pub payout_id : String
  pub step_id : String
  pub razorpay_status : String
  pub checks_done : ℕ
  pub status : PayoutState

-- `last_reset` counts days.
pub record WalletRow : Type 0 where
  pub per_txn_limit : ℤ
  pub daily_limit : ℤ
  pub spent_today : ℤ
  pub last_reset : ℕ

-- `next_payout` is the sequence behind the serial key of `pending_payouts`.
pub record Db : Type 0 where
  pub workflows : Dict Workflow
  pub transaction_steps : List StepRow
  pub idempotency_keys : Dict Fields
  pub dlq_refunds : List DlqRefund
  pub circuit_breakers : Dict CircuitBreaker
  pub pending_payouts : List PendingPayout
  pub next_payout : ℕ
  pub agent_wallet : Dict WalletRow
