-- ===== src/Db/Breakers/Laws.antt =====
-- When the circuit breaker of a merchant is open.
use revert_x.Prelude.{
  ℕ, suc, ◌≤◌, String, ◌≡◌, ◌↔◌, refl, Option, none, some, List, [], ◌∷◌, arith, eq_iff, ◌==◌,
  Option-cases, Bool-cases, sym, subst, inl, inr, if◌then◌else◌,
}
use revert_x.Dict.{lookup, map_some, lookup-insert, lookup-update}
use revert_x.Db.Tables.{closed_state, open_state, CircuitBreaker, Db}
use revert_x.Db.Breakers.{
  fail_again, record_merchant_failure, check_circuit_breaker, reset_circuit_breaker,
}

-- What the program reports of a merchant, in the order in which it does.
pub data Report : Type 0 where
  failure answered : String → Report

pub report : Report → Db → Db
report (failure m) db = (record_merchant_failure m db).1
report (answered m) db = reset_circuit_breaker m db

pub reports : List Report → Db → Db
unfolding report
reports [] db = db
reports (r ∷ rs) db = reports rs (report r db)

-- The failures of a merchant since its last answer, as the reports tell it.
failures_since : String → ℕ → List Report → ℕ
failures_since m n [] = n
failures_since m n (failure j ∷ rs) = failures_since m (if j == m then suc n else n) rs
failures_since m n (answered j ∷ rs) = failures_since m (if j == m then 0 else n) rs

pub failures : String → List Report → ℕ
unfolding failures_since
failures m rs = failures_since m 0 rs

-- The row counts the failures, and is open from the third on.
abbrev Counts : ℕ → Option CircuitBreaker → Type 0
Counts n none = n ≡ 0
Counts n (some b) = (b.failures ≡ n) × ((b.state ≡ open_state) ↔ (3 ≤ n))

abbrev breaker : String → Db → Option CircuitBreaker
breaker m db = lookup m db.circuit_breakers

fail_again-Counts :
    (n : ℕ) (o : Option CircuitBreaker) → Counts n o → Counts (suc n) (some (fail_again o))
unfolding fail_again
fail_again-Counts n none h = ground arith
fail_again-Counts n (some b) h = ground arith

reset-Counts :
    (n : ℕ) (o : Option CircuitBreaker)
    → Counts n o
    → Counts 0 (map_some (λ b. record { failures = 0; state = closed_state }) o)
reset-Counts n none h = refl
reset-Counts n (some b) h = ground arith

module _ (m j : String) (n : ℕ) (db : Db) (h : Counts n (breaker m db)) where
  Counts-failure : Counts (if j == m then suc n else n) (breaker m (report (failure j) db))
  unfolding report record_merchant_failure
  Counts-failure = elim (Bool-cases (j == m)) [
    | inl y ↦
        let e : m ≡ j = sym ((eq_iff j m).0 y) in
        rw (lookup-insert, y)
          (fail_again-Counts n (breaker j db) (subst (λ x. Counts n (breaker x db)) e h))
    | inr u ↦ rw (lookup-insert, u) h
  ]

  Counts-answered : Counts (if j == m then 0 else n) (breaker m (report (answered j) db))
  unfolding report reset_circuit_breaker
  Counts-answered = elim (Bool-cases (j == m)) [
    | inl y ↦ rw (lookup-update, y) (reset-Counts n (breaker m db) h)
    | inr u ↦ rw (lookup-update, u) h
  ]

reports-Counts :
    (m : String) (n : ℕ) (rs : List Report) (db : Db)
    → Counts n (breaker m db)
    → Counts (failures_since m n rs) (breaker m (reports rs db))
unfolding reports failures_since
reports-Counts m n [] db h = h
reports-Counts m n (failure j ∷ rs) db h =
    reports-Counts m (if j == m then suc n else n) rs (report (failure j) db)
      (Counts-failure m j n db h)
reports-Counts m n (answered j ∷ rs) db h =
    reports-Counts m (if j == m then 0 else n) rs (report (answered j) db)
      (Counts-answered m j n db h)

open_iff :
    (m : String) (n : ℕ) (db : Db)
    → Counts n (breaker m db)
    → (check_circuit_breaker m db ≡ open_state) ↔ (3 ≤ n)
unfolding check_circuit_breaker
open_iff m n db h = elim (Option-cases (breaker m db)) [
  | inl e ↦ (λ o. ground arith, λ o. ground arith)
  | inr (b, e) ↦ (λ o. ground arith, λ o. ground arith)
]

-- The breaker of a merchant that starts with no row is open exactly if the merchant has failed
-- three times or more since it last answered, whatever the reports on other merchants.
pub check_circuit_breaker-reports :
    (m : String) (rs : List Report) (db : Db)
    → lookup m db.circuit_breakers ≡ none
    → (check_circuit_breaker m (reports rs db) ≡ open_state) ↔ (3 ≤ failures m rs)
unfolding failures
check_circuit_breaker-reports m rs db e =
    open_iff m (failures_since m 0 rs) (reports rs db) (reports-Counts m 0 rs db (rw e refl))
