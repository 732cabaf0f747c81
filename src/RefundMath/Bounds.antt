-- ===== src/RefundMath/Bounds.antt =====
-- How large the refund of refund_math.py is.
use revert_x.Prelude.{ℕ, suc, ◌+◌, ◌-◌, ◌*◌, ◌≤◌, ◌≡◌, ap, true, none, some, arith}
use revert_x.Int.{pos, negsuc}
use revert_x.RefundMath.{round_ℕ, compute_refund}

-- Rounding is off by half a unit at most.
round_ℕ_near : (n : ℕ) → (round_ℕ n * 10000 ≤ n + 5000) × (n ≤ round_ℕ n * 10000 + 5000)
unfolding round_ℕ
round_ℕ_near n = ground arith

round_ℕ-le : (a n : ℕ) → n ≤ a * 10000 → round_ℕ n ≤ a
round_ℕ-le a n h = omega (arith, round_ℕ_near n)

times_le : (a p : ℕ) → p ≤ 10000 → a * p ≤ a * 10000
times_le a p h = grind arith

share_split : (a p : ℕ) → p ≤ 10000 → a * (10000 - p) + a * p ≡ a * 10000
share_split a p h =
    let e : 10000 - p + p ≡ 10000 = omega arith in omega (arith, ap (λ (t : ℕ). a * t) e)

-- The refund on numbers: what is left of a charge `a` after a penalty of `p` hundredths of 1%.
compute_refund_lem :
    (a p : ℕ)
    → p ≤ 10000
    → compute_refund (pos a) (some (pos p)) true ≡ some (pos (round_ℕ (a * 10000 - a * p)))
unfolding compute_refund
compute_refund_lem a p h = ground (arith, times_le a p h)

compute_refund_full : (a : ℕ) → compute_refund (pos a) none true ≡ some (pos a)
unfolding compute_refund
compute_refund_full a = ground arith

-- A penalty between 0% and 100% of a charge leaves a refund between nothing and the whole charge,
-- within half a paisa of the exact share that the penalty leaves.
pub compute_refund_bounds :
    (a p : ℕ)
    → p ≤ 10000
    → (r : ℕ) × (compute_refund (pos a) (some (pos p)) true ≡ some (pos r))
      × (r ≤ a)
      × (r * 10000 ≤ a * (10000 - p) + 5000)
      × (a * (10000 - p) ≤ r * 10000 + 5000)
compute_refund_bounds a p h = (
  round_ℕ (a * 10000 - a * p),
  compute_refund_lem a p h,
  round_ℕ-le a (a * 10000 - a * p) (omega arith),
  omega (arith, round_ℕ_near (a * 10000 - a * p), share_split a p h),
  omega (arith, round_ℕ_near (a * 10000 - a * p), share_split a p h),
)

product_ge : (a b : ℕ) → 100 ≤ a → 100 ≤ b → 10000 ≤ a * b
product_ge a b h k = grind arith

compute_refund_negative :
    (a p : ℕ)
    → compute_refund (pos a) (some (negsuc p)) true ≡ some (pos (round_ℕ (a * 10000 + a * suc p)))
unfolding compute_refund
compute_refund_negative a p = ground arith

-- A negative penalty is paid out on top: the refund of a charge of at least one rupee is more than
-- the charge as soon as the penalty is -1% or less.
compute_refund_above :
    (a p : ℕ)
    → 100 ≤ a
    → 100 ≤ suc p
    → (r : ℕ) × (compute_refund (pos a) (some (negsuc p)) true ≡ some (pos r)) × (a + 1 ≤ r)
compute_refund_above a p h k = (
  round_ℕ (a * 10000 + a * suc p),
  compute_refund_negative a p,
  omega (arith, round_ℕ_near (a * 10000 + a * suc p), product_ge a (suc p) h k),
)
