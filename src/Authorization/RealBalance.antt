-- ===== src/Authorization/RealBalance.antt =====
-- authorization/real_balance.py: whether the money is there. The balance is the gateway's answer.
use revert_x.Prelude.{String, Bool, ◌&&◌, ◌||◌, ◌==◌, not}
use revert_x.Int.{ℤ, ltb_ℤ}

pub record RealBalanceCheckResult : Type 0 where
  pub passes : Bool
  pub available : ℤ

-- `forced` is the switch REAL_BALANCE_DEMO_FORCE_INSUFFICIENT.
unfoldable pub check_real_balance : Bool → ℤ → String → ℤ → RealBalanceCheckResult
check_real_balance forced amount merchant available = record {
  passes = not (((merchant == "merchant_rzp_insufficient") && forced) || ltb_ℤ available amount);
  available = available;
}
