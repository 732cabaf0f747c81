-- ===== src/Workers/PendingPayout/Passes.antt =====
-- That the loop of the worker closes every open payout, if the gateway answers.
use revert_x.Prelude.{
  ℕ, suc, zero, ◌+◌, ◌≤◌, ◌≡◌, sym, ap, ◌∙◌, subst, true, false, some, List, [], ◌∷◌, All, Any,
  arith, eqb, find, keep, inl, inr, Bool-cases, String,
}
use revert_x.Python.{ok}
use revert_x.Db.{PendingPayout}
use revert_x.Db.Payouts.{is_pending, get_open_pending_payouts}
use revert_x.System.{System}
use revert_x.Razorpayx.Client.{PayoutPollResult, poll_payout}
use revert_x.Workers.PendingPayout.{WorkerEnv, run_once, passes}
use revert_x.Workers.PendingPayout.Checked.{payout_row}
use revert_x.Workers.PendingPayout.Closing.{Holds, Answers, recheck_all-Holds, recheck_all_closer}

-- The open rows of a table are in it.
find_more :
    (x : PendingPayout) (ps : List PendingPayout) (i : ℕ) (p : PendingPayout)
    → find (λ q. eqb q.id i) ps ≡ some p
    → (q : PendingPayout) × (find (λ q. eqb q.id i) (x ∷ ps) ≡ some q)
find_more x ps i p h = elim (Bool-cases (eqb x.id i)) [
  | inl y ↦ (x, ground arith)
  | inr n ↦ (p, ground arith)
]

All-find_more :
    (x : PendingPayout) (ps rows : List PendingPayout)
    → All (λ r. (p : PendingPayout) × (find (λ q. eqb q.id r.id) ps ≡ some p)) rows
    → All (λ r. (p : PendingPayout) × (find (λ q. eqb q.id r.id) (x ∷ ps) ≡ some p)) rows
All-find_more x ps [] h = tt
All-find_more x ps (r ∷ rows) ((p, h), hs) = (find_more x ps r.id p h, All-find_more x ps rows hs)

abbrev open_rows : List PendingPayout → List PendingPayout
open_rows = keep (λ p. is_pending p.status)

open_rows_some :
    (x : PendingPayout) (ps : List PendingPayout)
    → is_pending x.status ≡ true
    → open_rows (x ∷ ps) ≡ x ∷ open_rows ps
open_rows_some x ps y = ground arith

open_rows_none :
    (x : PendingPayout) (ps : List PendingPayout)
    → is_pending x.status ≡ false
    → open_rows (x ∷ ps) ≡ open_rows ps
open_rows_none x ps n = ground arith

find_self :
    (x : PendingPayout) (ps : List PendingPayout) → find (λ q. eqb q.id x.id) (x ∷ ps) ≡ some x
find_self x ps = ground arith

abbrev AllFound : List PendingPayout → List PendingPayout → Type 0
AllFound ps rows = All (λ r. (p : PendingPayout) × (find (λ q. eqb q.id r.id) ps ≡ some p)) rows

open_rows_found :
    (ps : List PendingPayout)
    → All
        (λ r. (p : PendingPayout) × (find (λ q. eqb q.id r.id) ps ≡ some p))
        (keep (λ p. is_pending p.status) ps)
open_rows_found [] = tt
open_rows_found (x ∷ ps) =
    let rest = All-find_more x ps (open_rows ps) (open_rows_found ps) in
    elim (Bool-cases (is_pending x.status)) [
      | inl y ↦ subst (AllFound (x ∷ ps)) (sym (open_rows_some x ps y)) ((x, find_self x ps), rest)
      | inr n ↦ subst (AllFound (x ∷ ps)) (sym (open_rows_none x ps n)) rest
    ]

open_row_kept :
    (ps : List PendingPayout) (j : ℕ) (p : PendingPayout)
    → find (λ q. eqb q.id j) ps ≡ some p
    → is_pending p.status ≡ true
    → Any (λ r. eqb r.id j ≡ true) (keep (λ p. is_pending p.status) ps)
open_row_kept [] j p h o = absurd (ground arith)
open_row_kept (x ∷ ps) j p h o = elim (Bool-cases (eqb x.id j)) [
  | inl y ↦
      let same : x ≡ p = ground arith in
      subst (Any (λ r. eqb r.id j ≡ true))
        (sym (open_rows_some x ps (ap (λ q. is_pending q.status) same ∙ o))) (inl y)
  | inr n ↦
      let rest = open_row_kept ps j p (ground arith) o in
      elim (Bool-cases (is_pending x.status)) [
        | inl y ↦ subst (Any (λ r. eqb r.id j ≡ true)) (sym (open_rows_some x ps y)) (inr rest)
        | inr u ↦ subst (Any (λ r. eqb r.id j ≡ true)) (sym (open_rows_none x ps u)) rest
      ]
]

run_once_closer :
    (env : WorkerEnv)
    → Answers env
    → (n j : ℕ) (s : System) → Holds env.max_checks (suc n) j s.db
    → Holds env.max_checks n j (run_once env s).db
unfolding run_once get_open_pending_payouts
run_once_closer env answers n j s held =
    let found = open_rows_found s.db.pending_payouts in
    elim (Bool-cases (is_pending held.row.status)) [
      | inl o ↦
          recheck_all_closer env answers n j (get_open_pending_payouts s.db) s found
            (open_row_kept s.db.pending_payouts j held.row held.there o) held
      | inr closed ↦
          recheck_all-Holds env answers n j (get_open_pending_payouts s.db) s found
            (record { row = held.row; there = held.there; left = inl closed })
    ]

passes_closer :
    (env : ℕ → WorkerEnv) (max : ℕ)
    → ((i : ℕ) → Answers (env i))
    → ((i : ℕ) → (env i).max_checks ≡ max)
    → (k n j : ℕ) (s : System) → Holds max (k + n) j s.db
    → Holds max n j (passes env k s).db
unfolding passes
passes_closer env max answers limit zero n j s held =
    subst (λ m. Holds max m j s.db) (omega arith) held
passes_closer env max answers limit (suc k) n j s held =
    let before =
      passes_closer env max answers limit k (suc n) j s
        (subst (λ m. Holds max m j s.db) (omega arith) held) in
    subst (λ m. Holds m n j (run_once (env k) (passes env k s)).db) (limit k)
      (run_once_closer (env k) (answers k) n j (passes env k s)
        (subst (λ m. Holds m (suc n) j (passes env k s).db) (sym (limit k)) before))

-- If the gateway answers every check, then after as many passes as the limit of checks, and at least
-- one, no payout that was open is open any more: each has its row still, as settled, failed or
-- exhausted.
pub passes_close :
    (env : ℕ → WorkerEnv) (max k j : ℕ) (s : System) (p : PendingPayout)
    → ((i : ℕ) (id : String)
        → (r : PayoutPollResult) × (poll_payout ((env i).get_payout id) 0 ≡ ok r))
    → ((i : ℕ) → (env i).max_checks ≡ max)
    → 1 ≤ k
    → max ≤ k
    → payout_row j s.db ≡ some p
    → (q : PendingPayout) × (payout_row j (passes env k s).db ≡ some q)
      × (is_pending q.status ≡ false)
passes_close env max k j s p answers limit one enough there =
    let held : Holds max (k + 0) j s.db = record {
      row = p;
      there = there;
      left = inr (omega arith, omega arith);
    } in
    let end = passes_closer env max answers limit k 0 j s held in
    (end.row, end.there, elim end.left [ inl c ↦ c | inr (no_more, b) ↦ absurd (omega arith) ])
