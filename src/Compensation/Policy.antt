-- ===== src/Compensation/Policy.antt =====
-- `fetch_policy`, `extract_policy_terms_node` and `compute_refund_amount_node`. A failure of a
-- service becomes terms that refuse the refund.
use revert_x.Prelude.{String, Bool, true, false, Option, none, some, [], ◌∷◌, ◌==◌, if◌then◌else◌}
use revert_x.Int.{ℤ}
use revert_x.Python.{ok, raised, type_error, Exec, pure, raise, modify, ◌>>◌}
use revert_x.Json.{bool, str}
use revert_x.Schemas.{TransactionLogEntry}
use revert_x.RefundMath.{compute_refund}
use revert_x.Merchants.Registry.{has_policy, merchant_port}
use revert_x.System.{System, write_compensation_trace, publish_event, fields}
use revert_x.Compensation.State.{CompensationState, PolicyTerms, GraphEnv, Node, trace}

-- The terms when the policy could not be had.
abbrev pub fail_safe : PolicyTerms
fail_safe = record { refundable = false; penalty_percentage = none; is_fail_safe = true }

-- `state["current_step"]`, on which the nodes of a step rely.
abbrev pub with_step :
    CompensationState
    → (TransactionLogEntry → Exec System CompensationState)
    → Exec System CompensationState
with_step st k = elim st.current_step [ none ↦ raise type_error | some e ↦ k e ]

unfoldable pub fetched :
    GraphEnv → CompensationState → TransactionLogEntry → Exec System CompensationState
unfolding write_compensation_trace
fetched env st e = elim (env.policy (merchant_port e.merchant_id)) [
  | ok text ↦
      trace st.workflow_id "fetch_policy" "end"
      >> pure (record st { policy_text = some (env.sanitize text) })
  | raised x ↦
      trace st.workflow_id "fetch_policy" "error"
      >> pure (record st { policy_text = none; policy_terms = some fail_safe })
]

unfoldable pub fetch_policy : Node
unfolding write_compensation_trace fetched
fetch_policy env st = with_step st (λ e. do
  trace st.workflow_id "fetch_policy" "start"
  if has_policy e.merchant_id
      then fetched env st e
      else (trace st.workflow_id "fetch_policy" "skip" >> pure (record st { policy_text = none })))

abbrev read_terms : GraphEnv → CompensationState → String → Exec System CompensationState
read_terms env st text = elim (env.extract text) [
  | ok terms ↦
      trace st.workflow_id "extract_policy" "end" >> pure (record st { policy_terms = some terms })
  | raised x ↦
      trace st.workflow_id "extract_policy" "error"
      >> pure (record st { policy_terms = some fail_safe })
]

-- Whether there is a text to read: `if not policy_text`.
abbrev pub has_text : Option String → Bool
has_text none = false
has_text (some t) = if t == "" then false else true

unfoldable pub extract_policy_terms_node : Node
unfolding write_compensation_trace
extract_policy_terms_node env st = elim st.policy_text [
  | none ↦ pure (record st { policy_terms = none })
  | some text ↦
      if text == ""
      then pure (record st { policy_terms = none })
      else (trace st.workflow_id "extract_policy" "start" >> read_terms env st text)
]

-- The refund that the terms allow; no terms allow none.
unfoldable pub refund_of : Option PolicyTerms → TransactionLogEntry → Option ℤ
refund_of none e = none
refund_of (some t) e = compute_refund e.expected.amount t.penalty_percentage t.refundable

abbrev escalate : CompensationState → TransactionLogEntry → System → System
escalate st e s = elim st.policy_terms [
  | none ↦ s
  | some t ↦
      if t.is_fail_safe
      then publish_event st.workflow_id "human_escalation_required"
          (fields (("merchant_id", str e.merchant_id) ∷ ("step_id", str e.step_id) ∷ [])) s
      else s
]

abbrev fail_safe_flag : Option PolicyTerms → Bool
fail_safe_flag none = false
fail_safe_flag (some t) = t.is_fail_safe

unfoldable pub compute_refund_amount_node : Node
unfolding write_compensation_trace publish_event refund_of
compute_refund_amount_node env st = with_step st (λ e. do
  trace st.workflow_id "compute_refund_amount" "start"
  modify (
      publish_event st.workflow_id "math_computation"
        (fields (("is_fail_safe", bool (fail_safe_flag st.policy_terms)) ∷ [])))
  modify (escalate st e)
  trace st.workflow_id "compute_refund_amount" "end"
  pure (record st { refund_amount = refund_of st.policy_terms e }))
