-- ===== src/Db/Breakers.antt =====
-- The circuit breakers: `record_merchant_failure`, `check_circuit_breaker` and
-- `reset_circuit_breaker` of db/client.py.
pub mod Laws
use revert_x.Prelude.{ℕ, ◌+◌, String, Option, none, some, leb, ◌==◌, if◌then◌else◌}
use revert_x.Dict.{lookup, insert, update}
use revert_x.Db.Tables.{BreakerState, closed_state, open_state, CircuitBreaker, Db}

-- The row after one more failure: the third opens the breaker.
pub fail_again : Option CircuitBreaker → CircuitBreaker
fail_again none = record { failures = 1; state = closed_state }
fail_again (some b) = record {
  failures = b.failures + 1;
  state = if leb 3 (b.failures + 1) then open_state else b.state;
}

unfoldable pub record_merchant_failure : String → Db → BreakerState × Db
unfolding fail_again
record_merchant_failure merchant db =
    let row = fail_again (lookup merchant db.circuit_breakers) in
    (row.state, record db { circuit_breakers = insert merchant row db.circuit_breakers })

unfoldable pub check_circuit_breaker : String → Db → BreakerState
check_circuit_breaker merchant db = elim (lookup merchant db.circuit_breakers) [
  | none ↦ closed_state
  | some b ↦ b.state
]

unfoldable pub reset_circuit_breaker : String → Db → Db
reset_circuit_breaker merchant db = record db {
  circuit_breakers =
      update merchant (λ b. record { failures = 0; state = closed_state }) db.circuit_breakers;
}
