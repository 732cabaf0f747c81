-- ===== src/Merchants/Catering.antt =====
-- mock_merchants/merchant_g_catering.py: a penalty of 50% in the first 3 days.
use revert_x.Prelude.{ℕ, String}
use revert_x.Int.{pos}
use revert_x.Merchants.Shop.{
  Charges, ChargeRequest, RefundRequest, Answer, add_charge, settled, penalty_refund,
}

unfoldable pub charge : String → ℕ → ChargeRequest → Charges → Answer × Charges
unfolding add_charge
charge ref now req charges =
    (settled "Spice Route Catering" ref req.amount, add_charge ref now req charges)

unfoldable pub refund : ℕ → RefundRequest → Charges → Answer
unfolding penalty_refund
refund now req charges = penalty_refund (pos 5000) 3 now req charges
