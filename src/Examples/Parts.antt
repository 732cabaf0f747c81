-- ===== src/Examples/Parts.antt =====
-- The theorems on the parts of the proxy and of the graph at concrete inputs.
use revert_x.Prelude.{
  ℕ, zero, suc, ◌+◌, ◌*◌, ◌-◌, ◌≤◌, String, ◌≡◌, ◌↔◌, refl, true, none, some, [], ◌∷◌, arith,
}
use revert_x.Int.{pos, ◌≤ℤ◌, ◌+ℤ◌, ◌-ℤ◌}
use revert_x.Python.{Result, ok}
use revert_x.Json.{int, str, Fields}
use revert_x.System.{fields}
use revert_x.Schemas.{TransactionLogEntry, FaultClassification, network_fault}
use revert_x.Engine.Reconciliation.{reconcile}
use revert_x.Engine.Reconciliation.Laws.{IsClean, reconcile-matched_iff}
use revert_x.Engine.FaultClassifier.{classify_fault}
use revert_x.Engine.FaultClassifier.Laws.{IsHashable, NetworkEvidence, classify_fault_network_iff}
use revert_x.RefundMath.{compute_refund}
use revert_x.RefundMath.Bounds.{compute_refund_bounds}
use revert_x.Db.{open_state}
use revert_x.Db.Budget.{reserve_budget}
use revert_x.Db.Budget.Laws.{IsWithinLimits, reserve_budget-IsWithinLimits}
use revert_x.Db.Steps.{write_transaction_step, get_session_metrics}
use revert_x.Db.Steps.Laws.{Written, fresh, write, get_session_metrics_zero}
use revert_x.Db.Breakers.{check_circuit_breaker}
use revert_x.Db.Breakers.Laws.{failure, reports, failures, check_circuit_breaker-reports}
use revert_x.Razorpayx.Client.{PayoutPollResult, processed}
use revert_x.Examples.World.{empty_db, hotel_entry}

reconcile-matched_iff_example :
    ((reconcile hotel_entry ("ref-other" ∷ [])).matched ≡ true)
    ↔ IsClean hotel_entry ("ref-other" ∷ [])
reconcile-matched_iff_example = reconcile-matched_iff hotel_entry ("ref-other" ∷ [])

-- A response of status 503 with an error type.
abbrev gateway_down : Fields
gateway_down = fields (("status_code", int (pos 503)) ∷ ("error_type", str "unavailable") ∷ [])

gateway_down-IsHashable : IsHashable gateway_down
gateway_down-IsHashable = record { hashable = λ v e. ground arith }

classify_fault_network_iff_example :
    (c : FaultClassification) × (classify_fault "step-1" gateway_down ≡ ok c)
    × (c.step_id ≡ "step-1")
    × ((c.fault_type ≡ network_fault) ↔ NetworkEvidence gateway_down)
classify_fault_network_iff_example =
    classify_fault_network_iff "step-1" gateway_down gateway_down-IsHashable

compute_refund_bounds_example :
    (r : ℕ) × (compute_refund (pos 800000) (some (pos 1000)) true ≡ some (pos r))
    × (r ≤ 800000)
    × (r * 10000 ≤ 800000 * (10000 - 1000) + 5000)
    × (800000 * (10000 - 1000) ≤ r * 10000 + 5000)
compute_refund_bounds_example = compute_refund_bounds 800000 1000 (omega arith)

empty_db-IsWithinLimits : IsWithinLimits empty_db
empty_db-IsWithinLimits = record { within = λ j w e. ground arith }

reserve_budget-IsWithinLimits_example :
    IsWithinLimits (reserve_budget "wf-1" (pos 400000) empty_db).1
reserve_budget-IsWithinLimits_example =
    reserve_budget-IsWithinLimits "wf-1" (pos 400000) empty_db empty_db-IsWithinLimits

-- The merchant charges 5000 rupees more than was reserved.
overshoot : ¬ (pos 1600000 +ℤ (pos 900000 -ℤ pos 400000) ≤ℤ pos 2000000)
unfolding ◌+ℤ◌ ◌-ℤ◌
overshoot = omega arith

check_circuit_breaker-reports_example :
    (check_circuit_breaker "m"
        (reports (failure "m" ∷ failure "n" ∷ failure "m" ∷ failure "m" ∷ []) empty_db)
      ≡ open_state)
    ↔ (3 ≤ failures "m" (failure "m" ∷ failure "n" ∷ failure "m" ∷ failure "m" ∷ []))
check_circuit_breaker-reports_example =
    check_circuit_breaker-reports "m" (failure "m" ∷ failure "n" ∷ failure "m" ∷ failure "m" ∷ [])
      empty_db refl

-- Two open answers, and then the payout is processed.
abbrev gateway : ℕ → Result String
gateway zero = ok "queued"
gateway (suc zero) = ok "processing"
gateway _ = ok "processed"

abbrev two_polls : PayoutPollResult
two_polls = record { classification = processed; attempts_made = 2; razorpay_status = "processed" }

-- A ledger with a row that says "refunded".
abbrev refund_entry : TransactionLogEntry
refund_entry = record hotel_entry { actual = record hotel_entry.actual { status = "refunded" } }

refund_written : Written (write_transaction_step refund_entry none empty_db)
refund_written = write refund_entry none (fresh empty_db refl)

get_session_metrics_zero_example :
    get_session_metrics (write_transaction_step refund_entry none empty_db) ≡ (pos 0, 0)
get_session_metrics_zero_example = get_session_metrics_zero refund_written
