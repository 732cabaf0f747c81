-- ===== src/Authorization/Wallet/Overlap/Overshoot.antt =====
-- Overlapping payments that take the wallet over its daily limit.
use revert_x.Prelude.{
  ℕ, ◌≤◌, ◌≡◌, refl, sym, subst, String, true, some, [], ◌∷◌, length, arith, eqb, eq_refl,
}
use revert_x.Int.{ℤ, pos, ◌+ℤ◌, ◌≤ℤ◌, int_laws}
use revert_x.Dict.{lookup, lookup-update}
use revert_x.Db.{Db, WalletRow}
use revert_x.Db.Wallets.{WalletDefaults, increment_wallet_spend}
use revert_x.Authorization.Wallet.{can_spend, record_spend}
use revert_x.Authorization.Wallet.Loaded.{get_wallet_stored}
use revert_x.Authorization.Wallet.Overlap.{InFlight, Step, check, record_one, Reach, here, next}

spent_row :
    (agent : String) (a : ℤ) (db : Db) (w : WalletRow)
    → lookup agent db.agent_wallet ≡ some w
    → lookup agent (record_spend agent a db).agent_wallet
      ≡ some (record w { spent_today = w.spent_today +ℤ a })
unfolding record_spend increment_wallet_spend
spent_row agent a db w e =
    rw
      (
        lookup-update agent agent (λ r. record r { spent_today = r.spent_today +ℤ a })
            db.agent_wallet,
        eq_refl agent,
        e,
      )
      refl

-- A check of a row of this day leaves the database as it is.
check_same :
    (d : WalletDefaults) (today slots : ℕ) (agent : String) (f : InFlight) (w : WalletRow) (a : ℤ)
    → length f.amounts ≤ slots
    → lookup agent f.db.agent_wallet ≡ some w
    → eqb w.last_reset today ≡ true
    → can_spend a w ≡ true
    → Step d today agent slots f (record { db = f.db; amounts = a ∷ f.amounts })
check_same d today slots agent f w a room e y fits =
    let loaded = get_wallet_stored d today agent f.db w e y in
    subst
      (λ (q : WalletRow × Db).
        Step d today agent slots f (record { db = q.1; amounts = a ∷ f.amounts }))
      loaded
      (check a room (subst (λ (q : WalletRow × Db). can_spend a q.0 ≡ true) (sym loaded) fits))

-- Two payments that each fit into what is left of the day, and do not fit together, can both pass the
-- check before either is recorded; then the day's spend is over the limit.
pub overlap_overshoots :
    (d : WalletDefaults) (today slots : ℕ) (agent : String) (db : Db) (w : WalletRow) (a b : ℤ)
    → 1 ≤ slots
    → lookup agent db.agent_wallet ≡ some w
    → eqb w.last_reset today ≡ true
    → can_spend a w ≡ true
    → can_spend b w ≡ true
    → w.daily_limit +ℤ pos 1 ≤ℤ w.spent_today +ℤ a +ℤ b
    → (g : InFlight) × Reach d today agent slots (record { db = db; amounts = [] }) g
      × (g.amounts ≡ [])
      × ((row : WalletRow) × (lookup agent g.db.agent_wallet ≡ some row)
          × (row.daily_limit +ℤ pos 1 ≤ℤ row.spent_today))
overlap_overshoots d today slots agent db w a b room stored fresh fits_a fits_b over =
    let f : InFlight = record { db = db; amounts = a ∷ [] } in
    let first =
      check_same d today slots agent (record { db = db; amounts = [] }) w a (omega arith) stored
        fresh fits_a in
    let second = check_same d today slots agent f w b room stored fresh fits_b in
    (
      _,
      next (next (next (next here first) second) (record_one [] b (a ∷ []) refl))
          (record_one [] a [] refl),
      refl,
      (
        record w { spent_today = w.spent_today +ℤ b +ℤ a },
        spent_row agent a (record_spend agent b db) (record w { spent_today = w.spent_today +ℤ b })
            (spent_row agent b db w stored),
        omega int_laws,
      ),
    )
