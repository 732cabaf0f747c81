-- ===== src/Authorization/Wallet/Loaded.antt =====
-- The row that `get_wallet` of authorization/wallet.py gives is the row that it leaves in the table.
use revert_x.Prelude.{
  ℕ, String, ◌≡◌, inl, inr, refl, true, some, arith, ◌∙◌, eqb, eq_refl, Bool-cases, Option-cases,
}
use revert_x.Dict.{lookup, lookup-insert, lookup-update}
use revert_x.Db.{Db, WalletRow}
use revert_x.Db.Wallets.{WalletDefaults, new_wallet, fetch_wallet, reset_wallet_spend}
use revert_x.Authorization.Wallet.{get_wallet, roll_over}

module _ (d : WalletDefaults) (today : ℕ) (agent : String) (db : Db) where
  fetched_row :
      lookup agent (fetch_wallet d today agent db).1.agent_wallet
      ≡ some (fetch_wallet d today agent db).0
  unfolding fetch_wallet
  fetched_row = elim (Option-cases (lookup agent db.agent_wallet)) [
    | inl e ↦ rw e (
        rw (lookup-insert agent agent (new_wallet d today) db.agent_wallet, eq_refl agent)
          (rw (fetch_wallet, e) refl))
    | inr (w, e) ↦ rw e (rw (fetch_wallet, e) refl)
  ]

  pub get_wallet_row :
      lookup agent (get_wallet d today agent db).1.agent_wallet
      ≡ some (get_wallet d today agent db).0
  unfolding get_wallet reset_wallet_spend roll_over
  get_wallet_row =
      let fetched = fetch_wallet d today agent db in
      elim (Bool-cases (eqb fetched.0.last_reset today)) [
        | inl y ↦ rw y fetched_row
        | inr n ↦ rw n (
            lookup-update agent agent _ fetched.1.agent_wallet
            ∙ rw (eq_refl agent, fetched_row) refl)
      ]

  get_wallet_today : eqb (get_wallet d today agent db).0.last_reset today ≡ true
  unfolding get_wallet roll_over
  get_wallet_today = ground arith

-- A row of today is given as it is.
pub get_wallet_stored :
    (d : WalletDefaults) (today : ℕ) (agent : String) (db : Db) (w : WalletRow)
    → lookup agent db.agent_wallet ≡ some w
    → eqb w.last_reset today ≡ true
    → get_wallet d today agent db ≡ (w, db)
unfolding get_wallet fetch_wallet roll_over
get_wallet_stored d today agent db w e y = ground arith

-- Looking twice on one day is looking once.
pub get_wallet_twice :
    (d : WalletDefaults) (today : ℕ) (agent : String) (db : Db)
    → get_wallet d today agent (get_wallet d today agent db).1 ≡ get_wallet d today agent db
get_wallet_twice d today agent db =
    get_wallet_stored d today agent (get_wallet d today agent db).1 (get_wallet d today agent db).0
      (get_wallet_row d today agent db) (get_wallet_today d today agent db)
