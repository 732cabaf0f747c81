-- ===== src/Merchants/Hotel.antt =====
-- mock_merchants/merchant_b_hotel.py: no refund in the first seven days.
use revert_x.Prelude.{ℕ, String, none, some, ltb, if◌then◌else◌}
use revert_x.Dict.{lookup}
use revert_x.Merchants.Shop.{
  Charges, ChargeRequest, RefundRequest, Answer, add_charge, settled, not_found, paid_back,
  rejected, days_since,
}

unfoldable pub charge : String → ℕ → ChargeRequest → Charges → Answer × Charges
unfolding add_charge
charge ref now req charges = (settled "Grand Hotel" ref req.amount, add_charge ref now req charges)

unfoldable pub refund : ℕ → RefundRequest → Charges → Answer
refund now req charges = elim (lookup req.settlement_ref charges) [
  | none ↦ not_found
  | some c ↦
      if ltb (days_since now c.charged_at) 7
      then rejected req.settlement_ref
      else paid_back req.settlement_ref c.amount
]
