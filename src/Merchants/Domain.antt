-- ===== src/Merchants/Domain.antt =====
-- mock_merchants/merchant_c_domain.py: a penalty of 10% in the first 48 hours; a charge can be made
-- to look like a timeout, and `internal_ledger` tells the truth.
use revert_x.Prelude.{
  ℕ, ◌-◌, String, Bool, none, some, List, [], ◌∷◌, ltb, keep, ◌==◌, if◌then◌else◌,
}
use revert_x.Int.{pos}
use revert_x.Json.{str, obj}
use revert_x.Dict.{lookup}
use revert_x.System.{fields}
use revert_x.Merchants.Shop.{
  Charge, Charges, ChargeRequest, RefundRequest, Answer, add_charge, settled, not_found, paid_back,
  amount_mismatch, is_off, less_penalty,
}

unfoldable pub charge : Bool → String → ℕ → ChargeRequest → Charges → Answer × Charges
unfolding add_charge
charge simulate_silent_timeout ref now req charges = (
  if simulate_silent_timeout
      then (pos 504, obj (fields (("error_type", str "timeout") ∷ [])))
      else settled "Domain Registrar" ref req.amount,
  add_charge ref now req charges,
)

unfoldable pub internal_ledger : String → Charges → List (String × Charge)
internal_ledger wid charges = keep (λ entry. entry.1.workflow_id == wid) charges

unfoldable pub refund : ℕ → RefundRequest → Charges → Answer
unfolding is_off less_penalty
refund now req charges = elim (lookup req.settlement_ref charges) [
  | none ↦ not_found
  | some c ↦
      if ltb (now - c.charged_at) 172800
      then (if is_off req.amount (less_penalty c.amount (pos 1000))
          then amount_mismatch
          else paid_back req.settlement_ref req.amount)
      else paid_back req.settlement_ref c.amount
]
