-- ===== src/Workers/PendingPayout/Checked.antt =====
-- What is claimed of a check of an open payout, and how its row is rewritten.
use revert_x.Prelude.{
  ℕ, ◌+◌, String, ◌≡◌, ◌∙◌, true, Option, none, some, List, [], ◌∷◌, ◌++◌, leb, eqb, subst, find,
  arith, ◌==◌, if◌then◌else◌, Bool-cases, inl, inr,
}
use revert_x.Dict.{map_some}
use revert_x.Db.{
  Db, StepRow, PayoutState, resolved_settled, resolved_failed, exhausted, PendingPayout,
}
use revert_x.Db.Budget.{sub_used}
use revert_x.Db.Budget.Laws.{budget}
use revert_x.Db.Payouts.{update_row}
use revert_x.Db.Steps.{step_row}
use revert_x.Razorpayx.Client.{processed, failed, non_terminal, PayoutPollResult}
use revert_x.Workers.PendingPayout.{WorkerEnv, resolution_entry}

-- The row with this id.
abbrev pub payout_row : ℕ → Db → Option PendingPayout
payout_row id db = find (λ p. eqb p.id id) db.pending_payouts

pub find-update_row :
    (k j : ℕ) (f : PendingPayout → PendingPayout)
    → ((p : PendingPayout) → (f p).id ≡ p.id)
    → (ps : List PendingPayout)
    → find (λ p. eqb p.id j) (update_row k f ps)
      ≡ (if eqb k j then map_some f (find (λ p. eqb p.id j) ps) else find (λ p. eqb p.id j) ps)
unfolding update_row
find-update_row k j f same [] = ground arith
find-update_row k j f same (p ∷ ps) = ground (arith, same p, find-update_row k j f same ps)

-- What is left of a row after a check: the state, the status reported, and one check more, or two for
-- the check that gives up, which counts itself again.
unfoldable pub checked : ℕ → PayoutPollResult → PendingPayout → PendingPayout
checked max_checks r p = elim r.classification [
  | processed ↦ record p {
    status = resolved_settled;
    razorpay_status = r.razorpay_status;
    checks_done = p.checks_done + 1;
  }
  | failed ↦ record p {
    status = resolved_failed;
    razorpay_status = r.razorpay_status;
    checks_done = p.checks_done + 1;
  }
  | non_terminal ↦
      if leb max_checks (p.checks_done + 1)
      then record p {
        status = exhausted;
        razorpay_status = r.razorpay_status;
        checks_done = p.checks_done + 1 + 1;
      }
      else record p { razorpay_status = r.razorpay_status; checks_done = p.checks_done + 1 }
]

abbrev pub resolved_entries : WorkerEnv → PendingPayout → PayoutPollResult → List StepRow
resolved_entries env row r = elim r.classification [
  | processed ↦ step_row (resolution_entry env row "settled" r.razorpay_status) none ∷ []
  | failed ↦ step_row (resolution_entry env row "failed" r.razorpay_status) none ∷ []
  | non_terminal ↦ []
]

-- What a check of an open payout, whose row is in the table, leaves behind.
pub record Checked (env : WorkerEnv) (row p : PendingPayout) (r : PayoutPollResult) (db db' : Db)
    : Type 0 where
  -- its row is the checked one, and no other row changes
  pub rows :
      (j : ℕ)
      → payout_row j db'
        ≡ (if eqb row.id j then some (checked env.max_checks r p) else payout_row j db)
  -- the hold is released if the payout failed, and no other budget changes
  pub budgets :
      (j : String)
      → budget j db' ≡ elim r.classification [
        | failed ↦
            if row.workflow_id == j
            then map_some (sub_used row.amount) (budget j db)
            else budget j db
        | _ ↦ budget j db
      ]
  pub ledger : db'.transaction_steps ≡ db.transaction_steps ++ resolved_entries env row r

pub row_of :
    (k j : ℕ) (db : Db) (p : PendingPayout)
    → payout_row k db ≡ some p
    → eqb k j ≡ true
    → payout_row j db ≡ some p
row_of k j db p h e = subst (λ x. payout_row x db ≡ some p) (ground arith) h

pub rewrite_row :
    (k j : ℕ) (f : PendingPayout → PendingPayout) (db : Db) (p : PendingPayout)
    → ((q : PendingPayout) → (f q).id ≡ q.id)
    → payout_row k db ≡ some p
    → find (λ q. eqb q.id j) (update_row k f db.pending_payouts)
      ≡ (if eqb k j then some (f p) else payout_row j db)
rewrite_row k j f db p same h =
    find-update_row k j f same db.pending_payouts ∙ (elim (Bool-cases (eqb k j)) [
      | inl y ↦ let e = row_of k j db p h y in ground arith
      | inr n ↦ ground arith
    ])

abbrev pub closed_as : PayoutState → String → PendingPayout → PendingPayout
closed_as state status p = record p {
  status = state;
  razorpay_status = status;
  checks_done = p.checks_done + 1;
}
