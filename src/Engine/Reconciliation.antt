-- ===== src/Engine/Reconciliation.antt =====
-- engine/reconciliation.py: the comparison of what was expected with what the gateway did.
pub mod Laws
use revert_x.Prelude.{
  String, Bool, true, false, not, Option, none, some, List, ◌∷◌, [], ◌==◌, ◌||◌, contains, get_or,
  if◌then◌else◌,
}
use revert_x.Int.{ℤ, pos, leb_ℤ, eqb_ℤ}
use revert_x.Json.{Json, int, str, Fields, get, as_int, is_text}
use revert_x.Schemas.{
  TransactionLogEntry, Mismatch, hard_error, amount_mismatch, payee_mismatch, pending_unconfirmed,
  duplicate_settlement, ReconciliationResult,
}

-- The `error_type`s of check 1.
unfoldable pub is_hard_error_type : Json → Bool
is_hard_error_type v =
    is_text "timeout" v
    || is_text "connection_reset" v
    || is_text "network_error" v
    || is_text "mandate_limit_exceeded" v

-- `isinstance(status_code, int) and status_code >= 400`
unfoldable pub is_error_status : Json → Bool
is_error_status v = elim (as_int v) [ none ↦ false | some n ↦ leb_ℤ (pos 400) n ]

abbrev mismatch : TransactionLogEntry → Mismatch → ReconciliationResult
mismatch entry m = record { step_id = entry.step_id; matched = false; mismatch_type = some m }

-- The checks in order; the first that fails names the mismatch.
unfoldable pub reconcile : TransactionLogEntry → List String → ReconciliationResult
reconcile entry seen =
    let raw = entry.raw_gateway_response in
    if is_hard_error_type (get_or (get "error_type" raw) (str ""))
    then mismatch entry hard_error
    else if is_error_status (get_or (get "status_code" raw) (int (pos 200)))
    then mismatch entry hard_error
    else if not (eqb_ℤ entry.expected.amount entry.actual.amount)
    then mismatch entry amount_mismatch
    else if not (entry.expected.payee == entry.actual.payee)
    then mismatch entry payee_mismatch
    else if entry.actual.status == "pending"
    then mismatch entry pending_unconfirmed
    else if not (entry.actual.status == "settled")
    then mismatch entry hard_error
    else if contains entry.actual.settlement_ref seen
    then mismatch entry duplicate_settlement
    else record { step_id = entry.step_id; matched = true; mismatch_type = none }
