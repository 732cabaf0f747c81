-- ===== src/Workers/PendingPayout/Closing.antt =====
-- How the checks of one pass bring a row closer to being closed, if the gateway answers.
use revert_x.Prelude.{
  ℕ, suc, ◌+◌, ◌≤◌, ◌≡◌, ◌⊎◌, refl, sym, ap, ◌∙◌, subst, true, false, some, List, [], ◌∷◌, All, Any,
  arith, eqb, leb, inl, inr, Bool-cases, String,
}
use revert_x.Python.{Result, ok, raised, pure, catch}
use revert_x.Db.{Db, PendingPayout}
use revert_x.Db.Payouts.{is_pending}
use revert_x.System.{System}
use revert_x.Razorpayx.Client.{
  Classification, processed, failed, non_terminal, PayoutPollResult, poll_payout,
}
use revert_x.Workers.PendingPayout.{WorkerEnv, recheck_one, recheck_all}
use revert_x.Workers.PendingPayout.Checked.{payout_row, checked, Checked, row_of}
use revert_x.Workers.PendingPayout.Laws.{recheck_one-Checked}

-- The payout is closed, or so many more checks close it.
abbrev pub Left : ℕ → ℕ → PendingPayout → Type 0
Left max n p = (is_pending p.status ≡ false) ⊎ ((1 ≤ n) × (max ≤ p.checks_done + n))

checked-Left :
    (max n : ℕ) (r : PayoutPollResult) (c : Classification) (p : PendingPayout)
    → r.classification ≡ c
    → Left max (suc n) p
    → Left max n (checked max r p)
unfolding checked
checked-Left max n r processed p e h = inl (rw e refl)
checked-Left max n r failed p e h = inl (rw e refl)
checked-Left max n r non_terminal p e h = rw e (elim (Bool-cases (leb max (p.checks_done + 1))) [
  | inl y ↦ rw y (inl refl)
  | inr more ↦ rw more (elim h [ inl c ↦ inl c | inr (q, b) ↦ inr (ground arith, ground arith) ])
])

checked-keeps :
    (max n : ℕ) (r : PayoutPollResult) (c : Classification) (p : PendingPayout)
    → r.classification ≡ c
    → Left max n p
    → Left max n (checked max r p)
unfolding checked
checked-keeps max n r processed p e h = inl (rw e refl)
checked-keeps max n r failed p e h = inl (rw e refl)
checked-keeps max n r non_terminal p e h = rw e (elim (Bool-cases (leb max (p.checks_done + 1))) [
  | inl y ↦ rw y (inl refl)
  | inr more ↦ rw more (elim h [ inl c ↦ inl c | inr (q, b) ↦ inr (q, omega arith) ])
])

some_same : {p q : PendingPayout} → some p ≡ some q → p ≡ q
some_same e = ground arith

-- What is known of the row of an id: it is there, and closed or about to be.
pub record Holds (max n j : ℕ) (db : Db) : Type 0 where
  pub row : PendingPayout
  pub there : payout_row j db ≡ some row
  pub left : Left max n row

abbrev pub IsThere : Db → PendingPayout → Type 0
IsThere db r = (p : PendingPayout) × (payout_row r.id db ≡ some p)

abbrev pub Answers : WorkerEnv → Type 0
Answers env = (id : String) → (r : PayoutPollResult) × (poll_payout (env.get_payout id) 0 ≡ ok r)

module _ (env : WorkerEnv) (answers : Answers env) where
  -- One check, with the handler of its exceptions.
  abbrev after : PendingPayout → System → System
  after row s = (catch (recheck_one env row) (λ e. pure tt) s).1

  after_answer :
      (row : PendingPayout) (s : System) (x : Result (Unit {0}) × System)
      → recheck_one env row s ≡ x
      → (catch (recheck_one env row) (λ e. pure tt) s).1 ≡ x.1
  after_answer row s (ok u, t) e = rw (catch, ap (λ q. q.0) e) (ap (λ q. q.1) e)
  after_answer row s (raised x, t) e = rw (catch, ap (λ q. q.0) e) (ap (λ q. q.1) e)

  after-Checked :
      (row p : PendingPayout) (s : System)
      → payout_row row.id s.db ≡ some p
      → (r : PayoutPollResult) × Checked env row p r s.db (after row s).db
  after-Checked row p s h =
      let (r, e) = answers row.payout_id in
      (
        r,
        subst (λ (t : System). Checked env row p r s.db t.db)
            (sym (after_answer row s (recheck_one env row s) refl))
            (recheck_one-Checked env row p s (ok r) h e),
      )

  -- The row that was checked, and the others.
  after_same :
      (n m j : ℕ) (row : PendingPayout) (s : System)
      → IsThere s.db row
      → Holds env.max_checks n j s.db
      → eqb row.id j ≡ true
      → ((r : PayoutPollResult) (p : PendingPayout)
          → Left env.max_checks n p
          → Left env.max_checks m (checked env.max_checks r p))
      → Holds env.max_checks m j (after row s).db
  after_same n m j row s (p, h) held y step =
      let (r, c) = after-Checked row p s h in
      let same : held.row ≡ p = some_same (sym held.there ∙ row_of row.id j s.db p h y) in
      record {
        row = checked env.max_checks r p;
        there = c.rows j ∙ rw y refl;
        left = step r p (subst (λ q. Left env.max_checks n q) same held.left);
      }

  after_other :
      (n j : ℕ) (row : PendingPayout) (s : System)
      → IsThere s.db row
      → Holds env.max_checks n j s.db
      → eqb row.id j ≡ false
      → Holds env.max_checks n j (after row s).db
  after_other n j row s (p, h) held other =
      let (r, c) = after-Checked row p s h in
      record { row = held.row; there = c.rows j ∙ rw other held.there; left = held.left }

  after-Holds :
      (n j : ℕ) (row : PendingPayout) (s : System)
      → IsThere s.db row
      → Holds env.max_checks n j s.db
      → Holds env.max_checks n j (after row s).db
  after-Holds n j row s there held = elim (Bool-cases (eqb row.id j)) [
    | inl y ↦
        after_same n n j row s there held y
          (λ r p. checked-keeps env.max_checks n r r.classification p refl)
    | inr other ↦ after_other n j row s there held other
  ]

  after-IsThere :
      (row q : PendingPayout) (s : System)
      → IsThere s.db row
      → IsThere s.db q
      → IsThere (after row s).db q
  after-IsThere row q s (p, h) (p', h') =
      let (r, c) = after-Checked row p s h in
      elim (Bool-cases (eqb row.id q.id)) [
        | inl y ↦ (checked env.max_checks r p, c.rows q.id ∙ rw y refl)
        | inr other ↦ (p', c.rows q.id ∙ rw other h')
      ]

  All-IsThere :
      (row : PendingPayout) (rows : List PendingPayout) (s : System)
      → IsThere s.db row
      → All (IsThere s.db) rows
      → All (IsThere (after row s).db) rows
  All-IsThere row [] s h hs = tt
  All-IsThere row (q ∷ rows) s h (k, ks) = (after-IsThere row q s h k, All-IsThere row rows s h ks)

  pub recheck_all-Holds :
      (n j : ℕ) (rows : List PendingPayout) (s : System)
      → All (IsThere s.db) rows
      → Holds env.max_checks n j s.db
      → Holds env.max_checks n j (recheck_all env rows s).db
  unfolding recheck_all
  recheck_all-Holds n j [] s hs held = held
  recheck_all-Holds n j (row ∷ rows) s (h, hs) held =
      recheck_all-Holds n j rows (after row s) (All-IsThere row rows s h hs)
        (after-Holds n j row s h held)

  -- A pass over rows with this id makes one check more.
  pub recheck_all_closer :
      (n j : ℕ) (rows : List PendingPayout) (s : System)
      → All (IsThere s.db) rows
      → Any (λ r. eqb r.id j ≡ true) rows
      → Holds env.max_checks (suc n) j s.db
      → Holds env.max_checks n j (recheck_all env rows s).db
  unfolding recheck_all
  recheck_all_closer n j [] s hs any held = absurd any
  recheck_all_closer n j (row ∷ rows) s (h, hs) (inl y) held =
      recheck_all-Holds n j rows (after row s) (All-IsThere row rows s h hs) (
        after_same (suc n) n j row s h held y
          (λ r p. checked-Left env.max_checks n r r.classification p refl))
  recheck_all_closer n j (row ∷ rows) s (h, hs) (inr any) held =
      recheck_all_closer n j rows (after row s) (All-IsThere row rows s h hs) any
        (after-Holds (suc n) j row s h held)
