-- ===== src/Merchants/Venue.antt =====
-- mock_merchants/merchant_f_venue.py: no refund at all.
use revert_x.Prelude.{ℕ, String, none, some}
use revert_x.Dict.{lookup}
use revert_x.Merchants.Shop.{
  Charges, ChargeRequest, RefundRequest, Answer, add_charge, settled, not_found, rejected,
}

unfoldable pub charge : String → ℕ → ChargeRequest → Charges → Answer × Charges
unfolding add_charge
charge ref now req charges =
    (settled "Riverside Events Hall" ref req.amount, add_charge ref now req charges)

unfoldable pub refund : RefundRequest → Charges → Answer
refund req charges = elim (lookup req.settlement_ref charges) [
  | none ↦ not_found
  | some c ↦ rejected req.settlement_ref
]
