-- ===== src/Workers/PendingPayout/Laws.antt =====
-- What a check of an open payout does to its row, to the budgets and to the ledger.
use revert_x.Prelude.{
  ℕ, ◌+◌, String, ◌≡◌, refl, ap, ◌∙◌, sym, none, some, [], ◌∷◌, ◌++◌, leb, eqb, find, arith,
  if◌then◌else◌, append-nil,
}
use revert_x.Int.{ℤ, eqb_ℤ-self}
use revert_x.Dict.{lookup, lookup-update}
use revert_x.Python.{Result, ok, raised}
use revert_x.Db.{Db, PayoutState, resolved_settled, resolved_failed, exhausted, PendingPayout}
use revert_x.Db.Budget.{commit_budget, rollback_budget, sub_used}
use revert_x.Db.Payouts.{update_row, touch_pending_payout, resolve_pending_payout, touched}
use revert_x.Db.Steps.{write_transaction_step, step_row}
use revert_x.System.{System, publish_event}
use revert_x.Razorpayx.Client.{
  Classification, processed, failed, non_terminal, PayoutPollResult, poll_payout,
}
use revert_x.Workers.PendingPayout.{
  WorkerEnv, resolution_entry, write_resolution_step, publish_resolved, close_settled, close_failed,
  keep_open, close, recheck_one,
}
use revert_x.Workers.PendingPayout.Checked.{
  payout_row, find-update_row, checked, Checked, rewrite_row, closed_as,
}

module _ (env : WorkerEnv) (row p : PendingPayout) (status : String) (s : System)
    (h : payout_row row.id s.db ≡ some p) where
  resolved_row :
      (j : ℕ) (state : PayoutState) (db : Db)
      → db.pending_payouts ≡ s.db.pending_payouts
      → payout_row j (resolve_pending_payout row.id state status db)
        ≡ (if eqb row.id j then some (closed_as state status p) else payout_row j s.db)
  unfolding resolve_pending_payout
  resolved_row j state db e =
      ap (λ ps. find (λ q. eqb q.id j) (update_row row.id (closed_as state status) ps)) e
      ∙ rewrite_row row.id j (closed_as state status) s.db p (λ q. refl) h

  settled_row :
      (j : ℕ)
      → payout_row j (close_settled env row status s).db
        ≡ (if eqb row.id j then some (closed_as resolved_settled status p) else payout_row j s.db)
  unfolding close_settled write_resolution_step write_transaction_step publish_event
      publish_resolved
  settled_row j =
      resolved_row j resolved_settled (commit_budget row.workflow_id row.amount row.amount s.db)
        (unfold commit_budget in ground arith)

  failed_row :
      (j : ℕ)
      → payout_row j (close_failed env row status s).db
        ≡ (if eqb row.id j then some (closed_as resolved_failed status p) else payout_row j s.db)
  unfolding close_failed write_resolution_step write_transaction_step publish_event publish_resolved
  failed_row j =
      resolved_row j resolved_failed (rollback_budget row.workflow_id row.amount s.db)
        (unfold rollback_budget in refl)

  touched_checks : (touch_pending_payout row.id status s.db).0 ≡ p.checks_done + 1
  unfolding touch_pending_payout
  touched_checks = rw (h, touch_pending_payout) refl

  touched_row :
      (j : ℕ)
      → payout_row j (touch_pending_payout row.id status s.db).1
        ≡ (if eqb row.id j then some (touched status p) else payout_row j s.db)
  unfolding touch_pending_payout touched
  touched_row j = rewrite_row row.id j (touched status) s.db p (λ q. refl) h

  exhausted_row :
      (j : ℕ)
      → payout_row j (
          resolve_pending_payout row.id exhausted status
            (touch_pending_payout row.id status s.db).1)
        ≡ (if eqb row.id j
            then some (closed_as exhausted status (touched status p))
            else payout_row j s.db)
  unfolding resolve_pending_payout touched
  exhausted_row j =
      find-update_row row.id j (closed_as exhausted status) (λ q. refl)
        (touch_pending_payout row.id status s.db).1.pending_payouts
      ∙ ground (arith, touched_row j)

  open_row :
      (j : ℕ)
      → payout_row j (keep_open env row status s).db ≡ (
          if eqb row.id j
          then some (
              if leb env.max_checks (p.checks_done + 1)
              then closed_as exhausted status (touched status p)
              else touched status p)
          else payout_row j s.db)
  unfolding keep_open publish_event
  open_row j = ground (arith, touched_checks, touched_row j, exhausted_row j)

commit_same : (wid : String) (a : ℤ) (db : Db) → commit_budget wid a a db ≡ db
unfolding commit_budget
commit_same wid a db = rw (eqb_ℤ-self a) refl

module _ (env : WorkerEnv) (row : PendingPayout) (status : String) (s : System) where
  abbrev LeftBy : PayoutState → String → Db → Db → Type 0
  LeftBy state word db db' =
      (db'.workflows ≡ db.workflows)
      × (db'.transaction_steps
          ≡ db.transaction_steps ++ step_row (resolution_entry env row word status) none ∷ [])

  settled_rest : LeftBy resolved_settled "settled" s.db (close_settled env row status s).db
  unfolding close_settled write_resolution_step write_transaction_step publish_event
      publish_resolved resolve_pending_payout
  settled_rest =
      let same = commit_same row.workflow_id row.amount s.db in
      (
        ap (λ (db : Db). db.workflows) same,
        ap
            (λ (db : Db).
              db.transaction_steps
              ++ step_row (resolution_entry env row "settled" status) none ∷ [])
            same,
      )

  failed_rest :
      LeftBy resolved_failed "failed"
        (rollback_budget row.workflow_id row.amount s.db)
        (close_failed env row status s).db
  unfolding close_failed write_resolution_step write_transaction_step publish_event publish_resolved
      resolve_pending_payout
  failed_rest = (refl, refl)

  open_rest :
      let t = keep_open env row status s in
      (t.db.workflows ≡ s.db.workflows) × (t.db.transaction_steps ≡ s.db.transaction_steps)
  unfolding keep_open publish_event resolve_pending_payout touch_pending_payout
  open_rest = ground arith

close-Checked :
    (env : WorkerEnv) (row p : PendingPayout) (r : PayoutPollResult) (c : Classification)
    → r.classification ≡ c
    → (s : System) → payout_row row.id s.db ≡ some p
    → Checked env row p r s.db (close env row r s).db
unfolding close checked
close-Checked env row p r processed e s h =
    let (ws, ss) = settled_rest env row r.razorpay_status s in
    record {
      rows = λ j. rw e (settled_row env row p r.razorpay_status s h j);
      budgets = λ j. rw e (ap (lookup j) ws);
      ledger = rw e ss;
    }
close-Checked env row p r failed e s h =
    let (ws, ss) = failed_rest env row r.razorpay_status s in
    record {
      rows = λ j. rw e (failed_row env row p r.razorpay_status s h j);
      budgets = λ j. rw e (
          ap (lookup j) ws
          ∙ unfold rollback_budget in
            lookup-update row.workflow_id j (sub_used row.amount) s.db.workflows);
      ledger = rw e (unfold rollback_budget in ss);
    }
close-Checked env row p r non_terminal e s h =
    let (ws, ss) = open_rest env row r.razorpay_status s in
    record {
      rows =
          λ j. rw e (open_row env row p r.razorpay_status s h j ∙ unfold touched in ground arith);
      budgets = λ j. rw e (ap (lookup j) ws);
      ledger = rw e (ss ∙ sym (append-nil s.db.transaction_steps));
    }

-- What a check leaves behind, by the answer of the gateway.
abbrev pub CheckedBy :
    WorkerEnv → PendingPayout → PendingPayout → System → System → Result PayoutPollResult → Type 0
CheckedBy env row p s t (ok r) = Checked env row p r s.db t.db
CheckedBy env row p s t (raised e) = t ≡ s

-- A check of an open payout that the gateway answers closes its row as settled or as failed, or
-- counts one more check, and gives the row up as exhausted once the limit is reached; no other row
-- changes. The hold on the budget is released exactly if the payout failed, no other budget changes,
-- and a row of the ledger says how a closed payout came out. A check that the gateway does not answer
-- changes nothing.
pub recheck_one-Checked :
    (env : WorkerEnv) (row p : PendingPayout) (s : System) (answer : Result PayoutPollResult)
    → payout_row row.id s.db ≡ some p
    → poll_payout (env.get_payout row.payout_id) 0 ≡ answer
    → CheckedBy env row p s (recheck_one env row s).1 answer
unfolding recheck_one
recheck_one-Checked env row p s (ok r) h e =
    rw (e, recheck_one) (close-Checked env row p r r.classification refl s h)
recheck_one-Checked env row p s (raised x) h e = rw (e, recheck_one) refl
