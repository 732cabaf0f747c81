-- ===== src/Workers/PendingPayout.antt =====
-- compensating_agent/pending_payout_worker.py: one pass over the payouts whose outcome is open. The
-- waiting between passes is left out. The gateway is a parameter: for each payout, the answers to the
-- GETs of it in turn.
pub mod Laws
pub mod Checked
pub mod Closing
pub mod Passes
use revert_x.Prelude.{
  ℕ, zero, suc, String, Bool, true, false, Option, none, some, List, [], ◌∷◌, leb, if◌then◌else◌,
}
use revert_x.Int.{ℤ, pos}
use revert_x.Python.{Exc, Result, ok, raised, Exec, pure, lift, modify, catch, ◌>>=◌, ◌>>◌}
use revert_x.Json.{Json, int, str, float}
use revert_x.Schemas.{TransactionLogEntry}
use revert_x.Db.{Db, PayoutState, resolved_settled, resolved_failed, exhausted, PendingPayout}
use revert_x.Db.Budget.{commit_budget, rollback_budget}
use revert_x.Db.Payouts.{get_open_pending_payouts, touch_pending_payout, resolve_pending_payout}
use revert_x.Db.Steps.{write_transaction_step}
use revert_x.System.{System, publish_event, on_db, fields}
use revert_x.Razorpayx.Client.{
  Classification, processed, failed, non_terminal, PayoutPollResult, poll_payout,
}

-- What a pass depends on: the gateway, the id of a new ledger row, and the limit on checks, which is
-- 3 unless the deployment sets another.
pub record WorkerEnv : Type 0 where
  pub get_payout : String → ℕ → Result String
  pub step_id : String
  pub max_checks : ℕ

pub resolution_entry : WorkerEnv → PendingPayout → String → String → TransactionLogEntry
resolution_entry env row status razorpay_status = record {
  step_id = env.step_id;
  workflow_id = row.workflow_id;
  action_type = "payout_resolution";
  merchant_id = row.merchant_id;
  expected = record { amount = row.amount; currency = row.currency; payee = row.payee; item = "" };
  actual = record {
    amount = row.amount;
    currency = row.currency;
    payee = row.payee;
    settlement_ref = row.payout_id;
    status = status;
  };
  raw_gateway_response = fields (
      ("razorpay_status", str razorpay_status)
      ∷ ("resolved_from", str "pending_payout_worker")
      ∷ []);
}

pub write_resolution_step : WorkerEnv → PendingPayout → String → String → System → System
unfolding resolution_entry publish_event
write_resolution_step env row status razorpay_status s =
    let entry = resolution_entry env row status razorpay_status in
    publish_event row.workflow_id "step_written"
      (fields (("step_id", str entry.step_id) ∷ ("merchant_id", str entry.merchant_id) ∷ []))
      (on_db (write_transaction_step entry none) s)

publish_resolved : PendingPayout → String → String → System → System
unfolding publish_event
publish_resolved row resolution razorpay_status = publish_event row.workflow_id "payout_resolved" (
    fields (
      ("merchant_id", str row.merchant_id)
      ∷ ("settlement_ref", str row.payout_id)
      ∷ ("pending_payout_id", int (pos row.id))
      ∷ ("resolution", str resolution)
      ∷ ("razorpay_status", str razorpay_status)
      ∷ []))

-- The payout went through: the hold becomes the charge.
pub close_settled : WorkerEnv → PendingPayout → String → System → System
unfolding write_resolution_step publish_resolved
close_settled env row status s = publish_resolved row "settled" status (
    write_resolution_step env row "settled" status (
      on_db (resolve_pending_payout row.id resolved_settled status)
        (on_db (commit_budget row.workflow_id row.amount row.amount) s)))

-- The payout failed: the hold is released.
pub close_failed : WorkerEnv → PendingPayout → String → System → System
unfolding write_resolution_step publish_resolved
close_failed env row status s = publish_resolved row "failed" status (
    write_resolution_step env row "failed" status (
      on_db (resolve_pending_payout row.id resolved_failed status)
        (on_db (rollback_budget row.workflow_id row.amount) s)))

-- Still open: one more check is counted, and the last one gives up.
pub keep_open : WorkerEnv → PendingPayout → String → System → System
unfolding publish_event
keep_open env row status s =
    let (checks_done, db') = touch_pending_payout row.id status s.db in
    let t = record s { db = db' } in
    if leb env.max_checks checks_done
    then publish_event row.workflow_id "payout_resolution_exhausted"
        (fields (
          ("merchant_id", str row.merchant_id)
          ∷ ("settlement_ref", str row.payout_id)
          ∷ ("pending_payout_id", int (pos row.id))
          ∷ ("razorpay_status", str status)
          ∷ ("checks_done", int (pos checks_done))
          ∷ []))
        (on_db (resolve_pending_payout row.id exhausted status) t)
    else t

pub close : WorkerEnv → PendingPayout → PayoutPollResult → System → System
unfolding close_settled close_failed keep_open
close env row r s = elim r.classification [
  | processed ↦ close_settled env row r.razorpay_status s
  | failed ↦ close_failed env row r.razorpay_status s
  | non_terminal ↦ keep_open env row r.razorpay_status s
]

unfoldable pub recheck_one : WorkerEnv → PendingPayout → Exec System (Unit {0})
unfolding close
recheck_one env row s = elim (poll_payout (env.get_payout row.payout_id) 0) [
  | raised e ↦ (raised e, s)
  | ok r ↦ (ok tt, close env row r s)
]

unfoldable pub recheck_all : WorkerEnv → List PendingPayout → System → System
unfolding recheck_one
recheck_all env [] s = s
recheck_all env (row ∷ rows) s =
    recheck_all env rows (catch (recheck_one env row) (λ e. pure tt) s).1

-- An exception in one row is logged, and the pass goes on.
unfoldable pub run_once : WorkerEnv → System → System
unfolding recheck_all
run_once env s = recheck_all env (get_open_pending_payouts s.db) s

-- The loop of `main`, cut off after so many passes; the k-th pass has its own answers.
unfoldable pub passes : (ℕ → WorkerEnv) → ℕ → System → System
unfolding run_once
passes env zero s = s
passes env (suc k) s = run_once (env k) (passes env k s)
