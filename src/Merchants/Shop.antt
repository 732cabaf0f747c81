-- ===== src/Merchants/Shop.antt =====
-- What the mock merchants share: the charges in memory, the answers, and the refund under a penalty
-- that holds for some days, which two merchants have with other numbers. A merchant keeps of these
-- fields the ones that it reads; the time counts seconds, and the reference is fresh. The arithmetic
-- is exact: on floats, where a share ends in half a paisa, a merchant's amount can differ by a paisa
-- from the one that refund_math.py gives.
use revert_x.Prelude.{ℕ, ◌+◌, ◌-◌, ◌/◌, String, Bool, none, some, [], ◌∷◌, ltb, if◌then◌else◌}
use revert_x.Int.{ℤ, pos, pos_part, neg_part, ◌-ℤ◌, ◌*ℤ◌}
use revert_x.Json.{Json, int, float, str, obj}
use revert_x.Dict.{Dict, lookup, insert}
use revert_x.System.{fields}
use revert_x.RefundMath.{round}

pub record Charge : Type 0 where
  pub amount : ℤ
  pub charged_at : ℕ
  pub workflow_id : String

abbrev pub Charges : Type 0
Charges = Dict Charge

pub record ChargeRequest : Type 0 where
  pub amount : ℤ
  pub workflow_id : String

-- Three merchants read no amount.
pub record RefundRequest : Type 0 where
  pub settlement_ref : String
  pub amount : ℤ

-- The status code and the body.
abbrev pub Answer : Type 0
Answer = ℤ × Json

unfoldable pub add_charge : String → ℕ → ChargeRequest → Charges → Charges
add_charge ref now req charges =
    insert ref (record { amount = req.amount; charged_at = now; workflow_id = req.workflow_id })
      charges

abbrev pub settled : String → String → ℤ → Answer
settled payee ref amount = (
  pos 200,
  obj (
      fields (
        ("settlement_ref", str ref)
        ∷ ("status", str "settled")
        ∷ ("amount", float amount)
        ∷ ("payee", str payee)
        ∷ ("status_code", int (pos 200))
        ∷ [])),
)

abbrev pub not_found : Answer
not_found = (pos 404, obj (fields (("detail", str "Settlement ref not found") ∷ [])))

abbrev pub paid_back : String → ℤ → Answer
paid_back ref amount = (
  pos 200,
  obj (
      fields
        (("status", str "refunded") ∷ ("amount", float amount) ∷ ("settlement_ref", str ref) ∷ [])),
)

-- The server refuses with a 200; the reason is left out.
abbrev pub rejected : String → Answer
rejected ref =
    (pos 200, obj (fields (("status", str "rejected") ∷ ("settlement_ref", str ref) ∷ [])))

abbrev pub amount_mismatch : Answer
amount_mismatch = (pos 422, obj (fields (("detail", str "Refund amount mismatch.") ∷ [])))

-- `(now - at).days`
abbrev pub days_since : ℕ → ℕ → ℕ
days_since now at = (now - at) / 86400

-- `abs(x - y) > 0.01`, in paise.
unfoldable pub is_off : ℤ → ℤ → Bool
is_off x y = let d = x -ℤ y in ltb 1 (pos_part d + neg_part d)

-- `round(original * (1 - percentage / 100), 2)`
unfoldable pub less_penalty : ℤ → ℤ → ℤ
unfolding round
less_penalty original percentage = round (original *ℤ (pos 10000 -ℤ percentage))

unfoldable pub expected_refund : ℤ → ℕ → ℕ → Charge → ℤ
unfolding less_penalty
expected_refund percentage window now c =
    if ltb (days_since now c.charged_at) window then less_penalty c.amount percentage else c.amount

unfoldable pub penalty_refund : ℤ → ℕ → ℕ → RefundRequest → Charges → Answer
unfolding expected_refund is_off
penalty_refund percentage window now req charges = elim (lookup req.settlement_ref charges) [
  | none ↦ not_found
  | some c ↦
      if is_off req.amount (expected_refund percentage window now c)
      then amount_mismatch
      else paid_back req.settlement_ref req.amount
]
