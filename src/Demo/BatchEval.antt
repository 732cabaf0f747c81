-- ===== src/Demo/BatchEval.antt =====
-- test_harness/run_batch_eval.py: the reconciliation and the classifier on labelled records, and the
-- report on them. A rate counts ten-thousandths, to which the code rounds.
pub mod Laws
pub mod Rates
use revert_x.Prelude.{
  ℕ, zero, suc, ◌+◌, String, Bool, true, false, Option, none, some, List, [], ◌∷◌, ◌++◌, get_or,
  ◌==◌, ◌*◌, ◌/◌, ◌%◌, ltb, length, if◌then◌else◌,
}
use revert_x.Python.{Result, ok, raised, and_then}
use revert_x.Dict.{Dict, lookup, insert}
use revert_x.Schemas.{TransactionLogEntry, FaultType, network_fault, agent_fault}
use revert_x.Engine.Reconciliation.{reconcile}
use revert_x.Engine.FaultClassifier.{classify_fault}
use revert_x.Demo.Scenarios.{Label, no_mismatch, fault, Labelled, Fresh, generate}

-- The `issue` of an unresolved record.
pub data Issue : Type 0 where
  false_positive false_negative false_dispute under_filing : Issue

pub record Tally : Type 0 where
  pub clean_count : ℕ
  pub clean_correct : ℕ
  pub mismatch_count : ℕ
  pub mismatch_detected : ℕ
  pub fault_correct : ℕ
  pub false_disputes : ℕ
  pub unresolved : List (String × Issue)

abbrev unresolved_as : String → Issue → Tally → Tally
unresolved_as step issue t = record t { unresolved = t.unresolved ++ (step, issue) ∷ [] }

-- A record that is labelled clean.
unfoldable pub count_clean : String → Bool → Tally → Tally
count_clean step matched t =
    let u = record t { clean_count = suc t.clean_count } in
    if matched
    then record u { clean_correct = suc u.clean_correct }
    else unresolved_as step false_positive u

-- The truth and the prediction of a mismatch that was detected.
unfoldable pub count_fault : String → FaultType → FaultType → Tally → Tally
count_fault step network_fault network_fault t = record t { fault_correct = suc t.fault_correct }
count_fault step agent_fault agent_fault t = record t { fault_correct = suc t.fault_correct }
count_fault step agent_fault network_fault t =
    unresolved_as step false_dispute (record t { false_disputes = suc t.false_disputes })
count_fault step network_fault agent_fault t = unresolved_as step under_filing t

-- A record that is labelled with a fault; only a detected mismatch is classified.
unfoldable pub count_mismatch : TransactionLogEntry → FaultType → Bool → Tally → Result Tally
unfolding count_fault
count_mismatch entry truth matched t =
    let u = record t { mismatch_count = suc t.mismatch_count } in
    if matched
    then ok (unresolved_as entry.step_id false_negative u)
    else and_then (classify_fault entry.step_id entry.raw_gateway_response) (λ c. ok (
        count_fault entry.step_id truth c.fault_type
          (record u { mismatch_detected = suc u.mismatch_detected })))

unfoldable pub count_record : Labelled → Bool → Tally → Result Tally
unfolding count_clean count_mismatch
count_record r matched t = elim r.label [
  | no_mismatch ↦ ok (count_clean r.entry.step_id matched t)
  | fault truth ↦ count_mismatch r.entry truth matched t
]

-- The references of a workflow with that of the entry; an empty one is not kept.
abbrev add_ref : TransactionLogEntry → List String → List String
add_ref entry seen =
    if entry.actual.settlement_ref == "" then seen else entry.actual.settlement_ref ∷ seen

unfoldable pub eval_from : List Labelled → Dict (List String) → Tally → Result Tally
unfolding count_record
eval_from [] seen_refs t = ok t
eval_from (r ∷ rs) seen_refs t =
    let wid = r.entry.workflow_id in
    let seen = get_or (lookup wid seen_refs) [] in
    and_then (count_record r (reconcile r.entry seen).matched t)
      (eval_from rs (insert wid (add_ref r.entry seen) seen_refs))

abbrev pub no_tally : Tally
no_tally = record {
  clean_count = 0;
  clean_correct = 0;
  mismatch_count = 0;
  mismatch_detected = 0;
  fault_correct = 0;
  false_disputes = 0;
  unresolved = [];
}

-- The quotient `q` with remainder `r` over `d`, rounded to the nearest, to the even one at a half.
unfoldable pub half_even : ℕ → ℕ → ℕ → ℕ
half_even d q r = if ltb (2 * r) d then q else if ltb d (2 * r) then q + 1 else q + q % 2

-- `round(n / d, 4)`, and 0 if there is nothing to divide by.
unfoldable pub rate : ℕ → ℕ → ℕ
unfolding half_even
rate n zero = 0
rate n (suc d) = half_even (suc d) (n * 10000 / suc d) (n * 10000 % suc d)

pub record Report : Type 0 where
  pub total_records : ℕ
  pub clean_records : ℕ
  pub mismatch_records : ℕ
  pub match_rate : ℕ
  pub mismatch_detection_rate : ℕ
  pub fault_classification_accuracy : ℕ
  pub false_dispute_rate : ℕ
  pub false_disputes_count : ℕ
  pub unresolved_count : ℕ
  pub unresolved : List (String × Issue)

abbrev pub report_of : ℕ → Tally → Report
report_of total t = record {
  total_records = total;
  clean_records = t.clean_count;
  mismatch_records = t.mismatch_count;
  match_rate = rate t.clean_correct t.clean_count;
  mismatch_detection_rate = rate t.mismatch_detected t.mismatch_count;
  fault_classification_accuracy = rate t.fault_correct t.mismatch_count;
  false_dispute_rate = rate t.false_disputes t.mismatch_count;
  false_disputes_count = t.false_disputes;
  unresolved_count = length t.unresolved;
  unresolved = t.unresolved;
}

-- The report on these records.
unfoldable pub report : List Labelled → Result Report
unfolding eval_from rate
report rs = and_then (eval_from rs [] no_tally) (λ t. ok (report_of (length rs) t))

unfoldable pub run_eval : Fresh → Result Report
unfolding report generate
run_eval f = report (generate f)
