-- ===== src/Examples/Demo.antt =====
-- The theorems on the demonstrations at concrete inputs.
use revert_x.Prelude.{ℕ, zero, suc, String, ◌≡◌, refl, none, List, [], ◌∷◌, ◌++◌, length, ap}
use Prim.Native.String
use revert_x.Python.{ok, and_then}
use revert_x.Schemas.{TransactionLogEntry, agent_fault}
use revert_x.Db.Steps.{step_row}
use revert_x.Engine.Reconciliation.{reconcile, is_hard_error_type, is_error_status}
use revert_x.Engine.FaultClassifier.{classify_fault, is_network_status, status_within}
use revert_x.Merchants.Domain
use revert_x.Demo.SilentBreak.{Scene, main}
use revert_x.Demo.SilentBreak.Laws.{IsNetworkFault, main_caught}
use revert_x.Demo.Scenarios.{
  Labelled, no_mismatch, fault, Fresh, generate, clean, amount_off, payee_off, gateway_off,
  network_errors, duplicate,
}
use revert_x.Demo.BatchEval.{Tally, eval_from, no_tally, report, report_of}
use revert_x.Demo.BatchEval.Rates.{Bounded, report-Bounded}
use revert_x.Examples.World.{world, empty_db}

abbrev scene : Scene
scene = record { system = world empty_db; charges = [] }

main_caught_example :
    (e : TransactionLogEntry) × (u : Scene) × (main "wf-9" "domain_1" "step-9" 7 scene ≡ (ok tt, u))
    × (u.system.db.transaction_steps ≡ [] ++ step_row e none ∷ [])
    × (u.system.compensation_requests
        ≡ [] ++ (record { workflow_id = "wf-9"; failing_step = e }) ∷ [])
    × (e.actual.settlement_ref ≡ "domain_1")
    × (e.actual.status ≡ "settled")
    × IsNetworkFault e
main_caught_example =
    main_caught "wf-9" "domain_1" "step-9" 7 scene refl refl (unfold Domain.internal_ledger in refl)

-- Names with a tally mark for each.
abbrev marked : String → ℕ → String
marked s zero = s
marked s (suc k) = marked (String.◌++◌ s "i") k

abbrev fresh : Fresh
fresh = record {
  step_id = marked "step";
  workflow_id = marked "wf";
  settlement_ref = marked "ref";
  shared_workflow = "shared";
  duplicate_ref = "duplicate";
}

generated : length (generate fresh) ≡ 51
unfolding generate
generated = refl

-- One record of each kind, and a settlement that comes twice.
abbrev sample : List Labelled
sample =
    clean fresh 0 ∷ amount_off fresh 0 ∷ payee_off fresh 0 ("Grand Motel" ∷ [])
    ++ gateway_off fresh 0 network_errors
    ++ duplicate fresh no_mismatch 0 ∷ duplicate fresh (fault agent_fault) 1 ∷ []

-- The clean records match, and the other ones are detected and classified right.
abbrev perfect : Tally
perfect = record {
  clean_count = 2;
  clean_correct = 2;
  mismatch_count = 7;
  mismatch_detected = 7;
  fault_correct = 7;
  false_disputes = 0;
  unresolved = [];
}

evaluated : eval_from sample [] no_tally ≡ ok perfect
unfolding eval_from reconcile is_hard_error_type is_error_status classify_fault is_network_status
    status_within
evaluated = refl

reported : report sample ≡ ok (report_of (length sample) perfect)
unfolding report
reported = ap (λ r. and_then r (λ t. ok (report_of (length sample) t))) evaluated

report-Bounded_example : Bounded (length sample) (report_of (length sample) perfect)
report-Bounded_example = report-Bounded sample (report_of (length sample) perfect) reported
