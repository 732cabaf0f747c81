-- ===== src/Examples/Dashboard.antt =====
-- The theorems on what the dashboard shows and on the reset of a wallet at concrete inputs.
use revert_x.Prelude.{◌≡◌, ◌⊎◌, ◌↔◌, refl, true, none, some, [], ◌∷◌}
use revert_x.Int.{pos, ◌≤ℤ◌}
use revert_x.Dict.{lookup}
use revert_x.Db.{Db, WalletRow}
use revert_x.Db.Wallets.{default_wallet}
use revert_x.System.{System}
use revert_x.Authorization.Wallet.{get_wallet, can_spend}
use revert_x.Authorization.Authorize.{authorize}
use revert_x.Proxy.Dashboard.{get_wallet_state}
use revert_x.Proxy.Dashboard.Laws.{get_wallet_state_lem}
use revert_x.ResetWallet.{reset_wallet}
use revert_x.ResetWallet.Laws.{reset_wallet_lem}
use revert_x.Examples.World.{world, empty_db, auth_env, small_request}

abbrev start : System
start = world empty_db

get_wallet_state_lem_example :
    let (panel, t) =
      get_wallet_state auth_env.defaults auth_env.today small_request.agent_id start in
    (authorize auth_env small_request t ≡ authorize auth_env small_request start)
    × ((can_spend small_request.amount
            (get_wallet auth_env.defaults auth_env.today small_request.agent_id start.db).0
          ≡ true)
        ↔ ((small_request.amount ≤ℤ panel.per_txn_limit)
            × (small_request.amount ≤ℤ panel.remaining_today)))
get_wallet_state_lem_example = get_wallet_state_lem auth_env small_request start

-- All of the day's 75000 rupees are spent.
abbrev spent_row : WalletRow
spent_row = record {
  per_txn_limit = pos 2500000;
  daily_limit = pos 7500000;
  spent_today = pos 7500000;
  last_reset = 7;
}

abbrev spent_db : Db
spent_db = record empty_db { agent_wallet = ("agent", spent_row) ∷ [] }

reset_wallet_lem_example :
    let (shown, db') = reset_wallet "agent" (some (pos 50000000)) none 7 spent_db in
    let read = (get_wallet default_wallet 7 "agent" db').0 in
    (shown ≡ some read)
    × ((can_spend (pos 400000) read ≡ true)
        ↔ ((pos 400000 ≤ℤ pos 2500000) × ((pos 400000 ≤ℤ pos 50000000) ⊎ (pos 400000 ≤ℤ pos 0))))
    × (lookup "other" db'.agent_wallet ≡ lookup "other" spent_db.agent_wallet)
reset_wallet_lem_example =
    reset_wallet_lem default_wallet "agent" "other" (some (pos 50000000)) none 7 (pos 400000)
      spent_db spent_row refl refl
