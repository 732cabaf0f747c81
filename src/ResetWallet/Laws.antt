-- ===== src/ResetWallet/Laws.antt =====
-- What the agent may spend after a reset.
use revert_x.Prelude.{
  ℕ, String, ◌≡◌, ◌⊎◌, ◌↔◌, refl, Option, none, some, true, false, get_or, arith, ◌==◌, eq_refl,
  ◌∙◌, ap, sym, subst,
}
use revert_x.Int.{ℤ, pos, ◌≤ℤ◌, ◌+ℤ◌, +ℤ-zero}
use revert_x.Dict.{Dict, lookup, update, lookup-update}
use revert_x.Db.{Db, WalletRow}
use revert_x.Db.Wallets.{WalletDefaults, reset_wallet_spend}
use revert_x.Authorization.Wallet.{get_wallet, can_spend}
use revert_x.Authorization.Wallet.Loaded.{get_wallet_stored}
use revert_x.Authorization.Authorize.Rules.{can_spend_iff}
use revert_x.ResetWallet.{set_daily_limit, set_per_txn_limit, reset_wallet}

abbrev reset_row : Option ℤ → Option ℤ → ℕ → WalletRow → WalletRow
reset_row daily_limit per_txn_limit today w = record {
  per_txn_limit = get_or per_txn_limit w.per_txn_limit;
  daily_limit = get_or daily_limit w.daily_limit;
  spent_today = pos 0;
  last_reset = today;
}

updated :
    (agent : String) (f : WalletRow → WalletRow) (m : Dict WalletRow) (w : WalletRow)
    → lookup agent m ≡ some w
    → lookup agent (update agent f m) ≡ some (f w)
updated agent f m w h = lookup-update agent agent f m ∙ rw (eq_refl agent, h) refl

unchanged :
    (agent other : String) (f : WalletRow → WalletRow) (m : Dict WalletRow)
    → (agent == other) ≡ false
    → lookup other (update agent f m) ≡ lookup other m
unchanged agent other f m n = lookup-update agent other f m ∙ rw n refl

reset_stored :
    (agent : String) (daily_limit per_txn_limit : Option ℤ) (today : ℕ) (db : Db) (w : WalletRow)
    → lookup agent db.agent_wallet ≡ some w
    → lookup agent (reset_wallet agent daily_limit per_txn_limit today db).1.agent_wallet
      ≡ some (reset_row daily_limit per_txn_limit today w)
unfolding reset_wallet set_daily_limit set_per_txn_limit reset_wallet_spend
reset_stored agent none none today db w h = updated agent _ _ w h
reset_stored agent (some d) none today db w h = updated agent _ _ _ (updated agent _ _ w h)
reset_stored agent none (some p) today db w h = updated agent _ _ _ (updated agent _ _ w h)
reset_stored agent (some d) (some p) today db w h =
    updated agent _ _ _ (updated agent _ _ _ (updated agent _ _ w h))

others_kept :
    (agent other : String) (daily_limit per_txn_limit : Option ℤ) (today : ℕ) (db : Db)
    → (agent == other) ≡ false
    → lookup other (reset_wallet agent daily_limit per_txn_limit today db).1.agent_wallet
      ≡ lookup other db.agent_wallet
unfolding reset_wallet set_daily_limit set_per_txn_limit reset_wallet_spend
others_kept agent other none none today db n = unchanged agent other _ _ n
others_kept agent other (some d) none today db n =
    unchanged agent other _ _ n ∙ unchanged agent other _ _ n
others_kept agent other none (some p) today db n =
    unchanged agent other _ _ n ∙ unchanged agent other _ _ n
others_kept agent other (some d) (some p) today db n =
    unchanged agent other _ _ n ∙ unchanged agent other _ _ n ∙ unchanged agent other _ _ n

limits :
    (amount : ℤ) (w : WalletRow)
    → w.spent_today ≡ pos 0
    → (can_spend amount w ≡ true)
      ↔ ((amount ≤ℤ w.per_txn_limit) × ((amount ≤ℤ w.daily_limit) ⊎ (amount ≤ℤ pos 0)))
limits amount w h =
    subst
      (λ x.
        (can_spend amount w ≡ true)
        ↔ ((amount ≤ℤ w.per_txn_limit) × ((x ≤ℤ w.daily_limit) ⊎ (amount ≤ℤ pos 0))))
      (ap (λ x. amount +ℤ x) h ∙ +ℤ-zero amount) (can_spend_iff amount w)

-- After a reset of an agent that has a wallet, payments on the same day pass the wallet exactly if the
-- amount is at most the limit for one payment and at most the limit of the day or nothing; the limits
-- are the ones given, or else the ones of before; the row shown is the one that is then read; and the
-- wallets of other agents are as before.
pub reset_wallet_lem :
    (d : WalletDefaults) (agent other : String) (daily_limit per_txn_limit : Option ℤ) (today : ℕ)
    (amount : ℤ) (db : Db) (w : WalletRow)
    → lookup agent db.agent_wallet ≡ some w
    → (agent == other) ≡ false
    → let (shown, db') = reset_wallet agent daily_limit per_txn_limit today db in
      let read = (get_wallet d today agent db').0 in
      (shown ≡ some read)
      × ((can_spend amount read ≡ true) ↔ (
          (amount ≤ℤ get_or per_txn_limit w.per_txn_limit)
          × ((amount ≤ℤ get_or daily_limit w.daily_limit) ⊎ (amount ≤ℤ pos 0))))
      × (lookup other db'.agent_wallet ≡ lookup other db.agent_wallet)
unfolding reset_wallet
reset_wallet_lem d agent other daily_limit per_txn_limit today amount db w h n =
    let row = reset_row daily_limit per_txn_limit today w in
    let db' = (reset_wallet agent daily_limit per_txn_limit today db).1 in
    let stored = reset_stored agent daily_limit per_txn_limit today db w h in
    let read = get_wallet_stored d today agent db' row stored (ground arith) in
    (
      stored ∙ ap (λ (q : WalletRow × Db). some q.0) (sym read),
      subst
          (λ (q : WalletRow × Db).
            (can_spend amount q.0 ≡ true)
            ↔ ((amount ≤ℤ row.per_txn_limit) × ((amount ≤ℤ row.daily_limit) ⊎ (amount ≤ℤ pos 0))))
          (sym read) (limits amount row refl),
      others_kept agent other daily_limit per_txn_limit today db n,
    )
