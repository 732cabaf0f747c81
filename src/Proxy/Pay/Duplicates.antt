-- ===== src/Proxy/Pay/Duplicates.antt =====
-- The reconciliation that `/pay` runs never finds a duplicate settlement.
use revert_x.Prelude.{
  String, ◌≡◌, ◌≢◌, refl, false, not, some, List, [], ◌∷◌, arith, ◌==◌, eq_iff, keep, contains,
}
use revert_x.Schemas.{TransactionLogEntry, duplicate_settlement}
use revert_x.Engine.Reconciliation.{reconcile}
use revert_x.Db.{Db}
use revert_x.Proxy.Pay.Settle.{seen_settlement_refs, reconcile_entry}

contains-keep_ne :
    (ref : String) (xs : List String) → contains ref (keep (λ r. not (r == ref)) xs) ≡ false
contains-keep_ne ref [] = refl
contains-keep_ne ref (x ∷ xs) = ground (arith, contains-keep_ne ref xs, eq_iff x ref, eq_iff ref x)

-- Without the reference among those seen there is no such mismatch.
reconcile_fresh :
    (entry : TransactionLogEntry) (seen : List String)
    → contains entry.actual.settlement_ref seen ≡ false
    → (reconcile entry seen).mismatch_type ≢ some duplicate_settlement
unfolding reconcile
reconcile_fresh entry seen h e = ground arith

-- Whatever the ledger holds, a payment is never reported as a duplicate settlement: the handler
-- takes the payment's own reference out of the references seen before it compares.
pub reconcile_entry_never_duplicate :
    (entry : TransactionLogEntry) (db : Db)
    → (reconcile_entry entry db).mismatch_type ≢ some duplicate_settlement
unfolding reconcile_entry
reconcile_entry_never_duplicate entry db =
    reconcile_fresh entry _
      (contains-keep_ne entry.actual.settlement_ref (seen_settlement_refs entry.workflow_id db))
