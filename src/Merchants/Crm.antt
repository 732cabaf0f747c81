-- ===== src/Merchants/Crm.antt =====
-- mock_merchants/merchant_a_crm.py: every charge is refunded in full.
use revert_x.Prelude.{ℕ, String, none, some}
use revert_x.Dict.{lookup}
use revert_x.Merchants.Shop.{
  Charges, ChargeRequest, RefundRequest, Answer, add_charge, settled, not_found, paid_back,
}

unfoldable pub charge : String → ℕ → ChargeRequest → Charges → Answer × Charges
unfolding add_charge
charge ref now req charges = (settled "CRM Corp" ref req.amount, add_charge ref now req charges)

unfoldable pub refund : RefundRequest → Charges → Answer
refund req charges = elim (lookup req.settlement_ref charges) [
  | none ↦ not_found
  | some c ↦ paid_back req.settlement_ref c.amount
]
