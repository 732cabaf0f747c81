-- ===== src/Merchants/Flaky.antt =====
-- mock_merchants/merchant_e_flaky.py: refunds in full, and a policy endpoint that fails at every
-- second call.
use revert_x.Prelude.{ℕ, ◌+◌, ◌/◌, ◌%◌, String, none, some, [], ◌∷◌, eqb, if◌then◌else◌}
use revert_x.Int.{pos}
use revert_x.Json.{str, obj}
use revert_x.Dict.{lookup}
use revert_x.System.{fields}
use revert_x.Merchants.Shop.{
  Charges, ChargeRequest, RefundRequest, Answer, add_charge, settled, not_found, paid_back,
}

unfoldable pub charge : String → ℕ → ChargeRequest → Charges → Answer × Charges
unfolding add_charge
charge ref now req charges =
    (settled "Apex Print & Signage" ref req.amount, add_charge ref now req charges)

unfoldable pub refund : RefundRequest → Charges → Answer
refund req charges = elim (lookup req.settlement_ref charges) [
  | none ↦ not_found
  | some c ↦ paid_back req.settlement_ref c.amount
]

abbrev pub policy_text : String
policy_text = "Orders are fully refundable if cancelled before the print run begins."

abbrev pub policy_answer : Answer
policy_answer = (pos 200, obj (fields (("policy", str policy_text) ∷ [])))

-- The seconds until the answer, the answer, and the number of calls so far.
unfoldable pub get_policy : ℕ → (ℕ × Answer) × ℕ
get_policy count =
    let call_number = count + 1 in
    (
      if eqb (call_number % 2) 1
          then (if eqb (call_number / 2 % 2) 0
              then (
                0,
                (pos 500, obj (fields (("detail", str "Internal error fetching policy") ∷ []))),
              )
              else (15, policy_answer))
          else (0, policy_answer),
      call_number,
    )
