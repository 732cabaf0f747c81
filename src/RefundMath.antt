-- ===== src/RefundMath.antt =====
-- refund_math.py. A percentage is an integer in hundredths of a percent (10% is 1000), an amount
-- an integer in paise; the arithmetic is exact, and `round` goes to the even neighbour at a half,
-- as Python's does on exact numbers; on floats a half may go either way, so that the code's result can
-- be another paisa there.
pub mod Bounds
use revert_x.Prelude.{
  ℕ, suc, ◌+◌, ◌/◌, ◌%◌, Bool, true, false, Option, none, some, ltb, eqb, if◌then◌else◌,
}
use revert_x.Int.{ℤ, pos, negsuc, ◌-ℤ◌, ◌*ℤ◌}

-- The nearest integer to n / 10000.
unfoldable pub round_ℕ : ℕ → ℕ
round_ℕ n =
    if ltb (n % 10000) 5000
    then n / 10000
    else if ltb 5000 (n % 10000)
    then n / 10000 + 1
    else n / 10000 + n / 10000 % 2

unfoldable pub round : ℤ → ℤ
unfolding round_ℕ
round (pos n) = pos (round_ℕ n)
round (negsuc n) = pos 0 -ℤ pos (round_ℕ (suc n))

-- `penalty_percentage or 0.0`
abbrev pub penalty_pct : Option ℤ → ℤ
penalty_pct none = pos 0
penalty_pct (some p) = p

unfoldable pub compute_refund : ℤ → Option ℤ → Bool → Option ℤ
unfolding round ◌-ℤ◌ ◌*ℤ◌
compute_refund original_amount penalty_percentage refundable =
    if refundable
    then some
        (round (original_amount *ℤ pos 10000 -ℤ original_amount *ℤ penalty_pct penalty_percentage))
    else none
