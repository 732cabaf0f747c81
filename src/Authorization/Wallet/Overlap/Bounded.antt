-- ===== src/Authorization/Wallet/Overlap/Bounded.antt =====
-- The bound on what overlapping payments spend in a day.
use revert_x.Prelude.{
  ℕ, suc, ◌+◌, ◌*◌, ◌≤◌, ◌≡◌, inl, inr, refl, sym, ap, ◌∙◌, subst, String, true, some, List, [],
  ◌∷◌, ◌++◌, length, All, arith, eqb, eq_refl,
}
use revert_x.Int.{ℤ, pos, ◌+ℤ◌, ◌≤ℤ◌, pos_part, neg_part, int_laws}
use revert_x.Dict.{lookup, lookup-update}
use revert_x.Db.{Db, WalletRow}
use revert_x.Db.Wallets.{WalletDefaults, increment_wallet_spend}
use revert_x.Authorization.Wallet.{can_spend, get_wallet, record_spend}
use revert_x.Authorization.Wallet.Loaded.{get_wallet_stored}
use revert_x.Authorization.Authorize.Rules.{can_spend_iff}
use revert_x.Authorization.Wallet.Overlap.{InFlight, check, record_one, Reach, here, next, total}

total-middle : (xs : List ℤ) (a : ℤ) (ys : List ℤ) → total (xs ++ a ∷ ys) ≡ a +ℤ total (xs ++ ys)
total-middle [] a ys = refl
total-middle (x ∷ xs) a ys = rw (total-middle xs a ys) (omega int_laws)

All-middle {ℓ κ} :
    {A : Type ℓ} (P : A → Type κ) (xs : List A) (a : A) (ys : List A)
    → All P (xs ++ a ∷ ys)
    → P a × All P (xs ++ ys)
All-middle P [] a ys h = h
All-middle P (x ∷ xs) a ys (h, hs) = let (p, ps) = All-middle P xs a ys hs in (p, (h, ps))

-- The row of the agent on this day, with its limits, and what has been spent or will be.
record Within (today : ℕ) (agent : String) (slots daily per_txn : ℕ) (f : InFlight) : Type 0 where
  row : WalletRow
  stored : lookup agent f.db.agent_wallet ≡ some row
  fresh : eqb row.last_reset today ≡ true
  same_daily : row.daily_limit ≡ pos daily
  same_per_txn : row.per_txn_limit ≡ pos per_txn
  small : All (λ a. a ≤ℤ pos per_txn) f.amounts
  bounded : row.spent_today +ℤ total f.amounts ≤ℤ pos daily +ℤ pos (slots * per_txn)

total_small : (p : ℕ) (xs : List ℤ) → All (λ a. a ≤ℤ pos p) xs → total xs ≤ℤ pos (length xs * p)
total_small p [] h = omega arith
total_small p (a ∷ xs) (h, hs) =
    let rest = total_small p xs hs in
    let more : suc (length xs) * p ≡ p + length xs * p = grind arith in omega (int_laws, more)

slots_cover : (n slots p : ℕ) → n ≤ slots → n * p ≤ slots * p
slots_cover n slots p h = grind arith

module _ (d : WalletDefaults) (today : ℕ) (agent : String) (slots daily per_txn : ℕ) where
  check-Within :
      (f : InFlight) (a : ℤ)
      → length f.amounts ≤ slots
      → can_spend a (get_wallet d today agent f.db).0 ≡ true
      → Within today agent slots daily per_txn f
      → Within today agent slots daily per_txn
          (record { db = (get_wallet d today agent f.db).1; amounts = a ∷ f.amounts })
  check-Within f a room fits w =
      let loaded = get_wallet_stored d today agent f.db w.row w.stored w.fresh in
      let spend =
        (can_spend_iff a w.row).0
          (subst (λ (q : WalletRow × Db). can_spend a q.0 ≡ true) loaded fits) in
      let few = total_small per_txn f.amounts w.small in
      let cover = slots_cover (length f.amounts) slots per_txn room in
      record {
        row = w.row;
        stored =
            subst (λ (q : WalletRow × Db). lookup agent q.1.agent_wallet ≡ some w.row) (sym loaded)
              w.stored;
        fresh = w.fresh;
        same_daily = w.same_daily;
        same_per_txn = w.same_per_txn;
        small = (
          omega (int_laws, spend.0, ap pos_part w.same_per_txn, ap neg_part w.same_per_txn),
          w.small,
        );
        bounded = elim spend.1 [
          | inl p ↦ omega (int_laws, few, cover, ap pos_part w.same_daily, ap neg_part w.same_daily)
          | inr q ↦ omega int_laws
        ];
      }

  record-Within :
      (f : InFlight) (before : List ℤ) (a : ℤ) (after : List ℤ)
      → f.amounts ≡ before ++ a ∷ after
      → Within today agent slots daily per_txn f
      → Within today agent slots daily per_txn
          (record { db = record_spend agent a f.db; amounts = before ++ after })
  unfolding record_spend increment_wallet_spend
  record-Within f before a after e w =
      let sum = ap total e ∙ total-middle before a after in
      let (small_a, small_others) =
        All-middle (λ x. x ≤ℤ pos per_txn) before a after
          (subst (λ (xs : List ℤ). All (λ x. x ≤ℤ pos per_txn) xs) e w.small) in
      record {
        row = record w.row { spent_today = w.row.spent_today +ℤ a };
        stored =
            rw
              (
                lookup-update agent agent (λ r. record r { spent_today = r.spent_today +ℤ a })
                    f.db.agent_wallet,
                eq_refl agent,
                w.stored,
              )
              refl;
        fresh = w.fresh;
        same_daily = w.same_daily;
        same_per_txn = w.same_per_txn;
        small = small_others;
        bounded = omega (int_laws, ap pos_part sum, ap neg_part sum);
      }

  Reach-Within :
      {f g : InFlight}
      → Within today agent slots daily per_txn f
      → Reach d today agent slots f g
      → Within today agent slots daily per_txn g
  Reach-Within w here = w
  Reach-Within w (next {g = g} run (check a room fits)) =
      check-Within g a room fits (Reach-Within w run)
  Reach-Within w (next {g = g} run (record_one before a after e)) =
      record-Within g before a after e (Reach-Within w run)

  -- However the checks and the records of a day's payments interleave: if up to `slots` others may be
  -- under way when a payment is checked, the day's spend, with what is under way, passes the daily
  -- limit by no more than `slots` times the limit for one payment. One at a time, it never passes it.
  pub overlap_bounded :
      (db : Db) (w : WalletRow) (g : InFlight)
      → lookup agent db.agent_wallet ≡ some w
      → eqb w.last_reset today ≡ true
      → w.daily_limit ≡ pos daily
      → w.per_txn_limit ≡ pos per_txn
      → w.spent_today ≤ℤ pos daily
      → Reach d today agent slots (record { db = db; amounts = [] }) g
      → (row : WalletRow) × (lookup agent g.db.agent_wallet ≡ some row)
        × (row.spent_today +ℤ total g.amounts ≤ℤ pos (daily + slots * per_txn))
  overlap_bounded db w g stored fresh same_daily same_per_txn spent run =
      let start : Within today agent slots daily per_txn (record { db = db; amounts = [] }) =
        record {
          row = w;
          stored = stored;
          fresh = fresh;
          same_daily = same_daily;
          same_per_txn = same_per_txn;
          small = tt;
          bounded = omega int_laws;
        } in
      let end = Reach-Within start run in (end.row, end.stored, omega (int_laws, end.bounded))
