-- ===== src/Compensation/Refund/Laws.antt =====
-- What an attempt to refund one step gives back, and when it does not ask the merchant at all.
use revert_x.Prelude.{◌≡◌, ◌⊎◌, refl, false, some, arith}
use revert_x.Int.{ℤ, pos}
use revert_x.Python.{Result, ok, raised}
use revert_x.Schemas.{TransactionLogEntry}
use revert_x.RefundMath.{compute_refund}
use revert_x.System.{System}
use revert_x.Compensation.State.{
  CompensationState, StepResult, refunded, dlq, non_refundable, PolicyTerms, GraphEnv,
}
use revert_x.Compensation.Policy.{refund_of}
use revert_x.Compensation.Refund.{
  result, attempt_step, refund_or_halt, request_refund, refund_answered, merchant_failed,
  is_accepted,
}

-- What an answer of this action recovers.
abbrev NothingUnless : Result StepResult → Type 0
NothingUnless (ok r) = (r.outcome ≡ refunded) ⊎ (r.amount_recovered ≡ pos 0)
NothingUnless (raised x) = ⊥

request_refund-nothing :
    (env : GraphEnv) (st : CompensationState) (e : TransactionLogEntry) (a : ℤ) (s : System)
    → NothingUnless (request_refund env st e a s).0
unfolding request_refund refund_answered merchant_failed is_accepted
request_refund-nothing env st e a s = ground arith

attempt_step-NothingUnless :
    (env : GraphEnv) (st : CompensationState) (e : TransactionLogEntry) (s : System)
    → NothingUnless (attempt_step env st e s).0
unfolding attempt_step refund_or_halt
attempt_step-NothingUnless env st e s =
    let whole = request_refund-nothing env st e e.actual.amount s in
    let part = λ (a : ℤ). request_refund-nothing env st e a s in ground arith

result_of :
    (x : Result StepResult)
    → NothingUnless x
    → (r : StepResult) × (x ≡ ok r) × ((r.outcome ≡ refunded) ⊎ (r.amount_recovered ≡ pos 0))
result_of (ok r) h = (r, refl, h)
result_of (raised e) h = absurd h

-- An attempt always has a result, and one that is not "refunded" recovers nothing.
pub attempt_step-nothing :
    (env : GraphEnv) (st : CompensationState) (e : TransactionLogEntry) (s : System)
    → (r : StepResult) × ((attempt_step env st e s).0 ≡ ok r)
      × ((r.outcome ≡ refunded) ⊎ (r.amount_recovered ≡ pos 0))
attempt_step-nothing env st e s =
    result_of (attempt_step env st e s).0 (attempt_step-NothingUnless env st e s)

-- With terms that refuse the refund, also those that stand for a policy that could not be had, and
-- the amount that they allow: the merchant is not asked, whatever it would answer, and nothing is
-- recovered.
pub attempt_step-refused :
    (env env' : GraphEnv) (st : CompensationState) (e : TransactionLogEntry) (s : System)
    (terms : PolicyTerms)
    → terms.refundable ≡ false
    → st.policy_terms ≡ some terms
    → st.refund_amount ≡ refund_of st.policy_terms e
    → (attempt_step env st e s ≡ attempt_step env' st e s)
      × (((attempt_step env st e s).0 ≡ ok (result e non_refundable (pos 0)))
          ⊎ ((attempt_step env st e s).0 ≡ ok (result e dlq (pos 0))))
unfolding attempt_step refund_or_halt refund_of compute_refund
attempt_step-refused env env' st e s terms h k l = (ground arith, ground arith)
