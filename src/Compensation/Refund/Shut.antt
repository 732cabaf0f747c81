-- ===== src/Compensation/Refund/Shut.antt =====
-- An attempt to refund a step while the circuit breaker of a merchant is open.
use revert_x.Prelude.{
  String, Bool, true, false, ◌≡◌, ◌⊎◌, refl, Option, none, some, arith, subst, sym, ◌==◌, eq_iff,
}
use revert_x.Int.{ℤ, pos}
use revert_x.Python.{Result, ok, raised}
use revert_x.Schemas.{TransactionLogEntry}
use revert_x.Db.{Db, closed_state, open_state}
use revert_x.Db.Breakers.{
  check_circuit_breaker, fail_again, record_merchant_failure, reset_circuit_breaker,
}
use revert_x.Db.Steps.{write_dlq_entry, write_transaction_step}
use revert_x.Dict.{lookup, lookup-insert, lookup-update}
use revert_x.System.{System, publish_event}
use revert_x.Compensation.State.{CompensationState, StepResult, dlq, GraphEnv, PolicyTerms}
use revert_x.Compensation.Refund.{
  attempt_step, refund_or_halt, request_refund, refund_answered, merchant_failed, is_accepted,
  dlq_row,
}

-- The breaker of the merchant is open.
abbrev pub IsShut : String → Db → Type 0
IsShut m db = check_circuit_breaker m db ≡ open_state

-- A result of another merchant, or one that went to the queue of lost refunds.
abbrev pub IsLost : String → StepResult → Type 0
IsLost m r = ((r.merchant_id == m) ≡ false) ⊎ ((r.outcome ≡ dlq) × (r.amount_recovered ≡ pos 0))

-- Reports on one merchant leave the breaker of another one alone.
other_reset :
    (k m : String) (db : Db)
    → (k == m) ≡ false
    → check_circuit_breaker m (reset_circuit_breaker k db) ≡ check_circuit_breaker m db
unfolding check_circuit_breaker reset_circuit_breaker
other_reset k m db n = ground (
  arith,
  lookup-update k m (λ b. record { failures = 0; state = closed_state }) db.circuit_breakers,
)

other_failure :
    (k m : String) (db : Db)
    → (k == m) ≡ false
    → check_circuit_breaker m (record_merchant_failure k db).1 ≡ check_circuit_breaker m db
unfolding check_circuit_breaker record_merchant_failure
other_failure k m db n =
    ground
      (arith, lookup-insert k m (fail_again (lookup k db.circuit_breakers)) db.circuit_breakers)

abbrev pub LostStep : String → Result StepResult × System → Type 0
LostStep m (ok r, t) = IsShut m t.db × IsLost m r
LostStep m (raised e, t) = IsShut m t.db

module _ (m : String) (env : GraphEnv) (st : CompensationState) (e : TransactionLogEntry)
    (s : System) (o : IsShut m s.db) where
  own-Lost : e.merchant_id ≡ m → LostStep m (attempt_step env st e s)
  unfolding attempt_step dlq_row write_dlq_entry check_circuit_breaker
  own-Lost same =
      let shut : check_circuit_breaker e.merchant_id s.db ≡ open_state =
        subst (λ k. IsShut k s.db) (sym same) o in
      ground (arith, shut)

  other-request : (a : ℤ) → (e.merchant_id == m) ≡ false → LostStep m (request_refund env st e a s)
  unfolding request_refund refund_answered merchant_failed is_accepted dlq_row write_dlq_entry
      write_transaction_step publish_event check_circuit_breaker
  other-request a n =
      ground (arith, other_reset e.merchant_id m s.db n, other_failure e.merchant_id m s.db n)

  halt-Lost :
      (a : Option ℤ) (p : Option PolicyTerms)
      → st.refund_amount ≡ a
      → st.policy_terms ≡ p
      → (e.merchant_id == m) ≡ false
      → LostStep m (refund_or_halt env st e s)
  unfolding refund_or_halt publish_event
  halt-Lost (some a) p d g n = let part = other-request a n in ground (arith, d)
  halt-Lost none none d g n = let whole = other-request e.actual.amount n in ground (arith, d, g)
  halt-Lost none (some terms) d g n = ground (arith, d, g)

  other-Lost : (e.merchant_id == m) ≡ false → LostStep m (attempt_step env st e s)
  unfolding attempt_step dlq_row write_dlq_entry check_circuit_breaker
  other-Lost n =
      let closed = halt-Lost st.refund_amount st.policy_terms refl refl n in ground (arith, closed)

  pub attempt_step-Lost :
      (b : Bool) → (e.merchant_id == m) ≡ b → LostStep m (attempt_step env st e s)
  attempt_step-Lost true y = own-Lost ((eq_iff e.merchant_id m).0 y)
  attempt_step-Lost false n = other-Lost n
