-- ===== src/Demo/BatchEval/Laws.antt =====
-- The counts of the evaluation add up.
use revert_x.Prelude.{
  ℕ, suc, ◌+◌, ◌≤◌, ◌≡◌, refl, subst, String, Bool, true, false, List, [], ◌∷◌, length,
  length-append, arith,
}
use revert_x.Python.{Result, ok, raised, and_then}
use revert_x.Dict.{Dict}
use revert_x.Schemas.{
  TransactionLogEntry, FaultType, FaultClassification, network_fault, agent_fault,
}
use revert_x.Engine.FaultClassifier.{classify_fault}
use revert_x.Demo.Scenarios.{no_mismatch, fault, Labelled}
use revert_x.Demo.BatchEval.{
  Tally, false_positive, false_negative, false_dispute, under_filing, count_clean, count_fault,
  count_mismatch, count_record, eval_from, no_tally,
}

-- The counts of `n` records: each is clean or a mismatch, and each is counted right or listed as
-- unresolved; a false dispute is listed.
abbrev pub AddsUp : ℕ → Tally → Type 0
AddsUp n t =
    (t.clean_count + t.mismatch_count ≡ n)
    × (a b : ℕ) × (t.clean_correct + a ≡ t.clean_count)
    × (t.fault_correct + b ≡ t.mismatch_count)
    × (a + b ≡ length t.unresolved)
    × (t.fault_correct + t.false_disputes ≤ t.mismatch_detected)
    × (t.mismatch_detected ≤ t.mismatch_count)

count_clean-AddsUp :
    (n : ℕ) (step : String) (matched : Bool) (t : Tally)
    → AddsUp n t
    → AddsUp (suc n) (count_clean step matched t)
unfolding count_clean
count_clean-AddsUp n step true t (p, a, b, q, r, u, v, w) =
    (omega arith, a, b, omega arith, r, u, v, w)
count_clean-AddsUp n step false t (p, a, b, q, r, u, v, w) = (
  omega arith,
  suc a,
  b,
  omega arith,
  r,
  omega (arith, length-append t.unresolved ((step, false_positive) ∷ [])),
  v,
  w,
)

-- A detected mismatch more, before it is classified.
abbrev detected : Tally → Tally
detected t = record t {
  mismatch_count = suc t.mismatch_count;
  mismatch_detected = suc t.mismatch_detected;
}

count_fault-AddsUp :
    (n : ℕ) (step : String) (truth predicted : FaultType) (t : Tally)
    → AddsUp n t
    → AddsUp (suc n) (count_fault step truth predicted (detected t))
unfolding count_fault
count_fault-AddsUp n step network_fault network_fault t (p, a, b, q, r, u, v, w) =
    (omega arith, a, b, q, omega arith, u, omega arith, omega arith)
count_fault-AddsUp n step agent_fault agent_fault t (p, a, b, q, r, u, v, w) =
    (omega arith, a, b, q, omega arith, u, omega arith, omega arith)
count_fault-AddsUp n step agent_fault network_fault t (p, a, b, q, r, u, v, w) = (
  omega arith,
  a,
  suc b,
  q,
  omega arith,
  omega (arith, length-append t.unresolved ((step, false_dispute) ∷ [])),
  omega arith,
  omega arith,
)
count_fault-AddsUp n step network_fault agent_fault t (p, a, b, q, r, u, v, w) = (
  omega arith,
  a,
  suc b,
  q,
  omega arith,
  omega (arith, length-append t.unresolved ((step, under_filing) ∷ [])),
  omega arith,
  omega arith,
)

abbrev pub Evaluated : ℕ → Result Tally → Type 0
Evaluated n (ok t) = AddsUp n t
Evaluated n (raised e) = Unit

classified-Evaluated :
    (n : ℕ) (step : String) (truth : FaultType) (t : Tally) (c : Result FaultClassification)
    → AddsUp n t
    → Evaluated (suc n) (and_then c (λ c'. ok (count_fault step truth c'.fault_type (detected t))))
classified-Evaluated n step truth t (ok c) h = count_fault-AddsUp n step truth c.fault_type t h
classified-Evaluated n step truth t (raised e) h = tt

count_mismatch-Evaluated :
    (n : ℕ) (entry : TransactionLogEntry) (truth : FaultType) (matched : Bool) (t : Tally)
    → AddsUp n t
    → Evaluated (suc n) (count_mismatch entry truth matched t)
unfolding count_mismatch
count_mismatch-Evaluated n entry truth true t (p, a, b, q, r, u, v, w) = (
  omega arith,
  a,
  suc b,
  q,
  omega arith,
  omega (arith, length-append t.unresolved ((entry.step_id, false_negative) ∷ [])),
  v,
  omega arith,
)
count_mismatch-Evaluated n entry truth false t h =
    classified-Evaluated n entry.step_id truth t
      (classify_fault entry.step_id entry.raw_gateway_response) h

count_record-Evaluated :
    (n : ℕ) (r : Labelled) (matched : Bool) (t : Tally)
    → AddsUp n t
    → Evaluated (suc n) (count_record r matched t)
unfolding count_record
count_record-Evaluated n r matched t h =
    elim r.label
      as (λ l. Evaluated (suc n) (elim l as (λ _. Result Tally) [
        | no_mismatch ↦ ok (count_clean r.entry.step_id matched t)
        | fault truth ↦ count_mismatch r.entry truth matched t
      ])) [
        | no_mismatch ↦ count_clean-AddsUp n r.entry.step_id matched t h
        | fault truth ↦ count_mismatch-Evaluated n r.entry truth matched t h
      ]

and_then-Evaluated :
    (n m : ℕ) (c : Result Tally) (f : Tally → Result Tally)
    → Evaluated n c
    → ((t : Tally) → AddsUp n t → Evaluated m (f t))
    → Evaluated m (and_then c f)
and_then-Evaluated n m (ok t) f h k = k t h
and_then-Evaluated n m (raised e) f h k = tt

eval_from-Evaluated :
    (n m : ℕ) (rs : List Labelled) (seen_refs : Dict (List String)) (t : Tally)
    → n + length rs ≡ m
    → AddsUp n t
    → Evaluated m (eval_from rs seen_refs t)
unfolding eval_from
eval_from-Evaluated n m [] seen_refs t e h = subst (λ k. AddsUp k t) (omega (arith, e)) h
eval_from-Evaluated n m (r ∷ rs) seen_refs t e h =
    and_then-Evaluated (suc n) m _ _ (count_record-Evaluated n r _ t h)
      (λ t' h'. eval_from-Evaluated (suc n) m rs _ t' (omega (arith, e)) h')

-- The evaluation of any list of labelled records that ends without an exception has counted each
-- record once, as clean or as a mismatch; each is right or listed as unresolved; and the false
-- disputes are at most the detected mismatches that were not classified right.
pub eval_from-AddsUp :
    (rs : List Labelled) (t : Tally) → eval_from rs [] no_tally ≡ ok t → AddsUp (length rs) t
eval_from-AddsUp rs t e = subst (Evaluated (length rs)) e (
    eval_from-Evaluated 0 (length rs) rs [] no_tally (omega arith)
      (refl, 0, 0, refl, refl, refl, omega arith, omega arith))
