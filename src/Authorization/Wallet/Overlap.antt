-- ===== src/Authorization/Wallet/Overlap.antt =====
-- Payments of one agent whose checks overlap. `authorize` of authorization/trace.py reads the wallet
-- by one query and records the spend by another, and awaits answers between the two: until then the
-- other payments see the old row. The checks beside the wallet only refuse more.
pub mod Bounded
pub mod Overshoot
use revert_x.Prelude.{
  ℕ, suc, ◌+◌, ◌*◌, ◌≤◌, ◌≡◌, inl, inr, refl, sym, ap, ◌∙◌, subst, String, true, some, List, [],
  ◌∷◌, ◌++◌, length, All, arith, eqb, eq_refl,
}
use revert_x.Int.{ℤ, pos, ◌+ℤ◌, ◌≤ℤ◌, pos_part, neg_part, int_laws}
use revert_x.Dict.{lookup, lookup-update}
use revert_x.Db.{Db, WalletRow}
use revert_x.Db.Wallets.{WalletDefaults, increment_wallet_spend}
use revert_x.Authorization.Wallet.{can_spend, get_wallet, record_spend}
use revert_x.Authorization.Wallet.Loaded.{get_wallet_stored}
use revert_x.Authorization.Authorize.Rules.{can_spend_iff}

-- The database, and the amounts that have passed the check and are not recorded yet.
pub record InFlight : Type 0 where
  pub db : Db
  pub amounts : List ℤ

-- What the payments do, on one day; `slots` others may be under way when one is checked.
pub data Step (d : WalletDefaults) (today : ℕ) (agent : String) (slots : ℕ) (f : InFlight)
    : InFlight → Type 0 where
  check :
      (a : ℤ)
      → length f.amounts ≤ slots
      → can_spend a (get_wallet d today agent f.db).0 ≡ true
      → Step d today agent slots f
          (record { db = (get_wallet d today agent f.db).1; amounts = a ∷ f.amounts })
  record_one :
      (before : List ℤ) (a : ℤ) (after : List ℤ)
      → f.amounts ≡ before ++ a ∷ after
      → Step d today agent slots f
          (record { db = record_spend agent a f.db; amounts = before ++ after })

pub data Reach (d : WalletDefaults) (today : ℕ) (agent : String) (slots : ℕ) (f : InFlight)
    : InFlight → Type 0 where
  here : Reach d today agent slots f f
  next :
      {g h : InFlight}
      → Reach d today agent slots f g
      → Step d today agent slots g h
      → Reach d today agent slots f h

abbrev pub total : List ℤ → ℤ
total [] = pos 0
total (a ∷ xs) = a +ℤ total xs
