-- ===== src/Db/Steps/Laws.antt =====
-- The metrics of db/client.py over any ledger that its insert has written.
use revert_x.Prelude.{String, ◌≡◌, refl, false, Option, List, [], ◌∷◌, ◌++◌, arith, keep}
use revert_x.Int.{pos}
use revert_x.Schemas.{TransactionLogEntry}
use revert_x.Db.Tables.{StepRow, Db}
use revert_x.Db.Steps.{write_transaction_step, is_refund_row, get_session_metrics, step_row}

-- The ledger was written by `write_transaction_step` alone, from an empty table.
pub data Written : Db → Type 0 where
  fresh : (db : Db) → db.transaction_steps ≡ [] → Written db
  write :
      (e : TransactionLogEntry) (key : Option String) {db : Db}
      → Written db
      → Written (write_transaction_step e key db)

keep-append :
    (r : StepRow) (rows : List StepRow)
    → is_refund_row r ≡ false
    → keep is_refund_row rows ≡ []
    → keep is_refund_row (rows ++ r ∷ []) ≡ []
keep-append r [] h k = ground arith
keep-append r (x ∷ rows) h k = ground (arith, keep-append r rows h)

payment_row :
    (e : TransactionLogEntry) (key : Option String) → is_refund_row (step_row e key) ≡ false
unfolding is_refund_row
payment_row e key = refl

no_refund_rows : {db : Db} → Written db → keep is_refund_row db.transaction_steps ≡ []
unfolding write_transaction_step
no_refund_rows (fresh db e) = rw e refl
no_refund_rows (write e key {db = db} w) =
    keep-append (step_row e key) db.transaction_steps (payment_row e key) (no_refund_rows w)

-- Whatever steps were written to the ledger, refunds included, the metrics of the session count no
-- recovered amount and no workflow: the insert leaves the column `action_type` at its default, and
-- the metrics look for 'refund' there.
pub get_session_metrics_zero : {db : Db} → Written db → get_session_metrics db ≡ (pos 0, 0)
unfolding get_session_metrics
get_session_metrics_zero {db} w = rw (no_refund_rows w) refl
