-- ===== src/Examples/Saga.antt =====
-- The theorems on the compensation and on the workers at a concrete ledger.
use revert_x.Prelude.{
  ◌↔◌, Bool, true, false, ◌+◌, ◌*◌, ◌≤◌, ◌≡◌, ◌⊎◌, refl, some, [], ◌∷◌, map, length, arith,
}
use revert_x.Int.{pos}
use revert_x.Python.{ok}
use revert_x.Schemas.{FaultClassification, agent_fault, no_gateway_error}
use revert_x.Engine.FaultClassifier.{classify_fault, is_network_status}
use revert_x.Db.{PendingPayout}
use revert_x.Db.Breakers.{check_circuit_breaker}
use revert_x.Db.Steps.{get_workflow_steps}
use revert_x.System.{System}
use revert_x.RefundMath.{compute_refund}
use revert_x.Razorpayx.Client.{poll_payout, non_terminal}
use revert_x.Compensation.State.{CompensationState, dlq, non_refundable}
use revert_x.Compensation.Policy.{fail_safe, refund_of}
use revert_x.Compensation.Refund.{attempt_step, result}
use revert_x.Compensation.Refund.Laws.{attempt_step-refused}
use revert_x.Compensation.Graph.{classify, run_compensation, initial_state}
use revert_x.Compensation.Graph.Verdict.{Concludes, run-Concludes}
use revert_x.Engine.FaultClassifier.Laws.{IsHashable, NetworkEvidence}
use revert_x.Compensation.Graph.Finish.{steps_of}
use revert_x.Compensation.Refund.Shut.{IsShut}
use revert_x.Compensation.Graph.ShutOut.{AllLost, run_compensation-AllLost}
use revert_x.Compensation.Graph.Results.{AllHonest, run_compensation-AllHonest}
use revert_x.Workers.PendingPayout.{recheck_one}
use revert_x.Workers.PendingPayout.Laws.{CheckedBy, recheck_one-Checked}
use revert_x.Db.Payouts.{is_pending}
use revert_x.Workers.PendingPayout.{passes}
use revert_x.Workers.PendingPayout.Checked.{payout_row}
use revert_x.Workers.PendingPayout.Passes.{passes_close}
use revert_x.Examples.World.{
  world, empty_db, ledger_db, open_breaker_db, hotel_entry, refused_entry, graph_env,
  silent_graph_env, open_payout, worker_env,
}

abbrev start : System
start = world ledger_db

abbrev verdict : FaultClassification
verdict = record {
  step_id = "step-fail";
  fault_type = agent_fault;
  classification_basis = no_gateway_error;
}

classified : classify_fault "step-fail" refused_entry.raw_gateway_response ≡ ok verdict
unfolding classify_fault is_network_status
classified = refl

two_steps : 4 + 5 * length (steps_of "wf-1" refused_entry start) ≤ 25
unfolding get_workflow_steps
two_steps = omega arith

run_compensation-AllHonest_example :
    (z : CompensationState) × (u : System) × (run_compensation 25 graph_env "wf-1" refused_entry
        start
      ≡ (ok (some z), u))
    × (map (λ r. r.step_id) z.compensation_results
        ≡ map (λ e. e.step_id) (steps_of "wf-1" refused_entry start))
    × AllHonest z
run_compensation-AllHonest_example =
    run_compensation-AllHonest 25 graph_env "wf-1" refused_entry start verdict two_steps classified

-- The same ledger, with the breaker of the hotel open.
abbrev shut_out : System
shut_out = world open_breaker_db

hotel_breaker : IsShut "merchant_b" open_breaker_db
unfolding check_circuit_breaker
hotel_breaker = refl

two_more : 4 + 5 * length (steps_of "wf-1" refused_entry shut_out) ≤ 25
unfolding get_workflow_steps
two_more = omega arith

run_compensation-AllLost_example :
    (z : CompensationState) × (u : System) × (run_compensation 25 graph_env "wf-1" refused_entry
        shut_out
      ≡ (ok (some z), u))
    × (map (λ r. r.step_id) z.compensation_results
        ≡ map (λ e. e.step_id) (steps_of "wf-1" refused_entry shut_out))
    × AllLost "merchant_b" z
    × IsShut "merchant_b" u.db
run_compensation-AllLost_example =
    run_compensation-AllLost 25 graph_env "wf-1" "merchant_b" refused_entry shut_out verdict
      two_more classified hotel_breaker

-- The saga at the step of the hotel.
abbrev at_hotel : CompensationState
at_hotel = record (initial_state "wf-1" refused_entry) { current_step = some hotel_entry }

abbrev refused : CompensationState
refused = record at_hotel { policy_terms = some fail_safe }

no_refund : refused.refund_amount ≡ refund_of refused.policy_terms hotel_entry
unfolding refund_of compute_refund
no_refund = refl

attempt_step-refused_example :
    (attempt_step graph_env refused hotel_entry start
      ≡ attempt_step silent_graph_env refused hotel_entry start)
    × (((attempt_step graph_env refused hotel_entry start).0
          ≡ ok (result hotel_entry non_refundable (pos 0)))
        ⊎ ((attempt_step graph_env refused hotel_entry start).0
            ≡ ok (result hotel_entry dlq (pos 0))))
attempt_step-refused_example =
    attempt_step-refused graph_env silent_graph_env refused hotel_entry start fail_safe refl refl
      no_refund

-- The third check of a payout that is still queued.
abbrev waiting : System
waiting = world (record empty_db { pending_payouts = open_payout ∷ [] })

queued :
    poll_payout (worker_env.get_payout "pout_1") 0
    ≡ ok (record { classification = non_terminal; attempts_made = 0; razorpay_status = "queued" })
unfolding poll_payout
queued = refl

recheck_one-Checked_example :
    CheckedBy worker_env open_payout open_payout waiting
      (recheck_one worker_env open_payout waiting).1
      (ok (record { classification = non_terminal; attempts_made = 0; razorpay_status = "queued" }))
recheck_one-Checked_example =
    recheck_one-Checked worker_env open_payout open_payout waiting
      (ok (record { classification = non_terminal; attempts_made = 0; razorpay_status = "queued" }))
      refl queued

refused_entry-IsHashable : IsHashable refused_entry.raw_gateway_response
refused_entry-IsHashable = record { hashable = λ v e. ground arith }

run-Concludes_example :
    (complaint : Bool) × Concludes 2 graph_env classify
      (initial_state "wf-1" refused_entry)
      start
      complaint
    × ((complaint ≡ true) ↔ NetworkEvidence refused_entry.raw_gateway_response)
run-Concludes_example =
    run-Concludes 0 graph_env (initial_state "wf-1" refused_entry) start refused_entry-IsHashable
      refl refl

passes_close_example :
    (q : PendingPayout) × (payout_row 1 (passes (λ k. worker_env) 3 waiting).db ≡ some q)
    × (is_pending q.status ≡ false)
unfolding poll_payout
passes_close_example =
    passes_close (λ k. worker_env) 3 3 1 waiting open_payout (λ i id. (_, refl)) (λ i. refl)
      (omega arith) (omega arith) refl
