-- ===== src/Db/Lifecycle.antt =====
-- `reset_workflow` and `reset_database_for_testing` of db/client.py. The checkpoint tables, which
-- `reset_workflow` clears too, belong to the library that writes them.
use revert_x.Prelude.{String, [], not, keep, ◌==◌}
use revert_x.Dict.{erase}
use revert_x.Db.Tables.{Db}
use revert_x.Db.Wallets.{WalletDefaults, run_migrations}

unfoldable pub reset_workflow : String → Db → Db
reset_workflow wid db = record db {
  transaction_steps = keep (λ r. not (r.full_entry.workflow_id == wid)) db.transaction_steps;
  dlq_refunds = keep (λ d. not (d.workflow_id == wid)) db.dlq_refunds;
  workflows = erase wid db.workflows;
}

-- `DROP TABLE transaction_steps`, and the table anew.
unfoldable pub reset_database_for_testing : WalletDefaults → Db → Db
reset_database_for_testing d db = run_migrations d (record db { transaction_steps = [] })
