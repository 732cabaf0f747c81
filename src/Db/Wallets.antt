-- ===== src/Db/Wallets.antt =====
-- The wallet rows: `fetch_wallet`, `reset_wallet_spend` and `increment_wallet_spend` of
-- db/client.py, and the one-time bump of `run_migrations`.
use revert_x.Prelude.{ℕ, String, none, some, ◌&&◌, if◌then◌else◌, map}
use revert_x.Int.{ℤ, pos, ◌+ℤ◌, eqb_ℤ}
use revert_x.Dict.{lookup, insert_new, update}
use revert_x.Db.Tables.{WalletRow, Db}

-- `WALLET_DEFAULT_PER_TXN` and `WALLET_DEFAULT_DAILY`, which the environment may override.
pub record WalletDefaults : Type 0 where
  pub per_txn : ℤ
  pub daily : ℤ

-- 25000 and 75000 rupees.
abbrev pub default_wallet : WalletDefaults
default_wallet = record { per_txn = pos 2500000; daily = pos 7500000 }

unfoldable pub new_wallet : WalletDefaults → ℕ → WalletRow
new_wallet d today = record {
  per_txn_limit = d.per_txn;
  daily_limit = d.daily;
  spent_today = pos 0;
  last_reset = today;
}

-- The row of the agent, created with the defaults on first use, and the table with it.
unfoldable pub fetch_wallet : WalletDefaults → ℕ → String → Db → WalletRow × Db
unfolding new_wallet
fetch_wallet d today agent db =
    let wallets = insert_new agent (new_wallet d today) db.agent_wallet in
    (
      elim (lookup agent db.agent_wallet) [ none ↦ new_wallet d today | some row ↦ row ],
      record db { agent_wallet = wallets },
    )

unfoldable pub reset_wallet_spend : String → ℕ → Db → Db
reset_wallet_spend agent day db = record db {
  agent_wallet =
      update agent (λ w. record w { spent_today = pos 0; last_reset = day }) db.agent_wallet;
}

unfoldable pub increment_wallet_spend : String → ℤ → Db → Db
increment_wallet_spend agent amount db = record db {
  agent_wallet =
      update agent (λ w. record w { spent_today = w.spent_today +ℤ amount }) db.agent_wallet;
}

bump_row : WalletDefaults → WalletRow → WalletRow
bump_row d w =
    if eqb_ℤ w.per_txn_limit (pos 500000) && eqb_ℤ w.daily_limit (pos 2000000)
    then record w { per_txn_limit = d.per_txn; daily_limit = d.daily }
    else w

-- What `run_migrations` does to a database that has its tables already.
pub run_migrations : WalletDefaults → Db → Db
unfolding bump_row
run_migrations d db = record db { agent_wallet = map (λ (k, w). (k, bump_row d w)) db.agent_wallet }
