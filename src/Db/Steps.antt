-- ===== src/Db/Steps.antt =====
-- The ledger of steps, the stored responses and the queue of lost refunds: the queries of
-- db/client.py on `transaction_steps`, `idempotency_keys` and `dlq_refunds`. An entry stands in its
-- row as it is, without the text in JSON between, and the rows in the order in which they came.
pub mod Laws
use revert_x.Prelude.{
  ℕ, suc, String, Bool, true, false, Option, none, some, List, [], ◌∷◌, ◌++◌, map, ◌==◌, ◌&&◌, keep,
  length, contains, if◌then◌else◌,
}
use revert_x.Int.{ℤ, pos, ◌+ℤ◌}
use revert_x.Dict.{lookup, insert_new}
use revert_x.Json.{Fields}
use revert_x.Schemas.{TransactionLogEntry}
use revert_x.Db.Tables.{StepRow, DlqRefund, Db}

-- The `INSERT` names no `action_type`: the column takes its default.
abbrev pub step_row : TransactionLogEntry → Option String → StepRow
step_row entry idem_key = record {
  full_entry = entry;
  action_type = "payment";
  idempotency_key = idem_key;
}

unfoldable pub write_transaction_step : TransactionLogEntry → Option String → Db → Db
write_transaction_step entry idem_key db = record db {
  transaction_steps = db.transaction_steps ++ step_row entry idem_key ∷ [];
}

-- `SELECT full_entry ... WHERE workflow_id = wid ORDER BY created_at ASC`
pub entries_of : String → List StepRow → List TransactionLogEntry
entries_of wid [] = []
entries_of wid (r ∷ rows) =
    let rest = entries_of wid rows in
    if r.full_entry.workflow_id == wid then r.full_entry ∷ rest else rest

unfoldable pub get_workflow_steps : String → Db → List TransactionLogEntry
unfolding entries_of
get_workflow_steps wid db = entries_of wid db.transaction_steps

unfoldable pub get_idempotency_response : String → Db → Option Fields
get_idempotency_response key db = lookup key db.idempotency_keys

unfoldable pub save_idempotency_response : String → Fields → Db → Db
save_idempotency_response key body db = record db {
  idempotency_keys = insert_new key body db.idempotency_keys;
}

unfoldable pub write_dlq_entry : DlqRefund → Db → Db
write_dlq_entry e db = record db { dlq_refunds = db.dlq_refunds ++ e ∷ [] }

-- `WHERE action_type = 'refund' AND actual->>'status' = 'refunded'`
is_refund_row : StepRow → Bool
is_refund_row r = (r.action_type == "refund") && (r.full_entry.actual.status == "refunded")

-- `SUM(amount)` of the rows.
sum_amounts : List StepRow → ℤ
sum_amounts [] = pos 0
sum_amounts (r ∷ rows) = r.full_entry.actual.amount +ℤ sum_amounts rows

-- `COUNT(DISTINCT workflow_id)`, with the workflows already counted.
count_workflows : List String → List StepRow → ℕ
count_workflows seen [] = 0
count_workflows seen (r ∷ rows) =
    let wid = r.full_entry.workflow_id in
    let rest = count_workflows seen rows in
    let more = count_workflows (wid ∷ seen) rows in if contains wid seen then rest else suc more

-- The total recovered and the number of workflows resolved.
pub get_session_metrics : Db → ℤ × ℕ
unfolding is_refund_row sum_amounts count_workflows
get_session_metrics db =
    let rows = keep is_refund_row db.transaction_steps in
    (sum_amounts rows, count_workflows [] rows)
