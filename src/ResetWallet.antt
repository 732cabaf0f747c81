-- ===== src/ResetWallet.antt =====
-- reset_wallet.py: nothing spent today, and other limits if they are given.
pub mod Laws
use revert_x.Prelude.{ℕ, String, Option, none, some}
use revert_x.Int.{ℤ}
use revert_x.Dict.{lookup, update}
use revert_x.Db.{Db, WalletRow}
use revert_x.Db.Wallets.{reset_wallet_spend}

-- `UPDATE agent_wallet SET ... WHERE agent_id = agent`
abbrev pub update_wallet : String → (WalletRow → WalletRow) → Db → Db
update_wallet agent f db = record db { agent_wallet = update agent f db.agent_wallet }

unfoldable pub set_daily_limit : String → Option ℤ → Db → Db
set_daily_limit agent none db = db
set_daily_limit agent (some limit) db =
    update_wallet agent (λ w. record w { daily_limit = limit }) db

unfoldable pub set_per_txn_limit : String → Option ℤ → Db → Db
set_per_txn_limit agent none db = db
set_per_txn_limit agent (some limit) db =
    update_wallet agent (λ w. record w { per_txn_limit = limit }) db

-- `main`: the row that it shows at the end, and the table that it commits. The first statement is the
-- one of `reset_wallet_spend`, with the date of the database.
unfoldable pub reset_wallet : String → Option ℤ → Option ℤ → ℕ → Db → Option WalletRow × Db
unfolding reset_wallet_spend set_daily_limit set_per_txn_limit
reset_wallet agent daily_limit per_txn_limit today db =
    let db' =
      set_per_txn_limit agent per_txn_limit
        (set_daily_limit agent daily_limit (reset_wallet_spend agent today db)) in
    (lookup agent db'.agent_wallet, db')
