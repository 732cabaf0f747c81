-- ===== src/Authorization/Wallet.antt =====
-- authorization/wallet.py: how much the agent may move, for one payment and for one day.
pub mod Overlap
pub mod Loaded
use revert_x.Prelude.{ℕ, String, Bool, true, false, eqb, if◌then◌else◌}
use revert_x.Int.{ℤ, pos, ◌-ℤ◌, ltb_ℤ}
use revert_x.Db.{Db, WalletRow}
use revert_x.Db.Wallets.{WalletDefaults, fetch_wallet, reset_wallet_spend, increment_wallet_spend}

-- `max(daily_limit - spent_today, 0.0)`
unfoldable pub remaining_today : WalletRow → ℤ
remaining_today w =
    let left = w.daily_limit -ℤ w.spent_today in if ltb_ℤ (pos 0) left then left else pos 0

unfoldable pub can_spend : ℤ → WalletRow → Bool
unfolding remaining_today
can_spend amount w =
    if ltb_ℤ w.per_txn_limit amount
    then false
    else if ltb_ℤ (remaining_today w) amount
    then false
    else true

-- The row of a new day starts with nothing spent.
unfoldable pub roll_over : ℕ → WalletRow → WalletRow
roll_over today w =
    if eqb w.last_reset today then w else record w { spent_today = pos 0; last_reset = today }

unfoldable pub get_wallet : WalletDefaults → ℕ → String → Db → WalletRow × Db
unfolding fetch_wallet reset_wallet_spend roll_over
get_wallet defaults today agent db =
    let (row, db') = fetch_wallet defaults today agent db in
    (
      roll_over today row,
      if eqb row.last_reset today then db' else reset_wallet_spend agent today db',
    )

unfoldable pub record_spend : String → ℤ → Db → Db
unfolding increment_wallet_spend
record_spend agent amount = increment_wallet_spend agent amount
