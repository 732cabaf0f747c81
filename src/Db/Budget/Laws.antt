-- ===== src/Db/Budget/Laws.antt =====
-- What the budget queries of db/client.py do to the budget of a workflow, and to that of others.
use revert_x.Prelude.{
  String, ◌≡◌, inl, inr, refl, true, false, Option, none, some, arith, eq_iff, eq_refl, ◌==◌,
  Option-cases, Bool-cases, if◌then◌else◌,
}
use revert_x.Int.{ℤ, ◌+ℤ◌, ◌-ℤ◌, ◌≤ℤ◌, leb_ℤ, int_laws, +ℤ-cancel, eqb_ℤ→eq, eqb_ℤ}
use revert_x.Dict.{lookup, map_some, update, lookup-update}
use revert_x.Db.Tables.{Workflow, Db}
use revert_x.Db.Budget.{
  reserve_row, add_used, sub_used, add_budget, reserve_budget, rollback_budget, commit_budget,
}

-- The row of a workflow.
abbrev pub budget : String → Db → Option Workflow
budget wid db = lookup wid db.workflows

abbrev pub spend : ℤ → Option Workflow → Option Workflow
spend amount o = map_some (add_used amount) o

pub budget-add_budget :
    (wid j : String) (a : ℤ) (db : Db)
    → budget j (add_budget wid a db) ≡ (if wid == j then spend a (budget j db) else budget j db)
budget-add_budget wid j a db = lookup-update wid j (add_used a) db.workflows

adjusted : (u e a : ℤ) → u +ℤ e +ℤ (a -ℤ e) ≡ u +ℤ a
adjusted u e a = omega int_laws

abbrev Granted : String → ℤ → ℤ → ℤ → Db → Db → Type 0
Granted wid a u l db db' =
    (w : Workflow) × (budget wid db ≡ some w)
    × (w.budget_used +ℤ a ≤ℤ w.budget_limit)
    × (u ≡ w.budget_used +ℤ a)
    × (l ≡ w.budget_limit)
    × (db' ≡ add_budget wid a db)

reserve_row-Granted :
    (wid : String) (a u l : ℤ) (db db' : Db) (w : Workflow)
    → budget wid db ≡ some w
    → reserve_row wid a db (some w) ≡ ((true, u, l), db')
    → Granted wid a u l db db'
unfolding reserve_row
reserve_row-Granted wid a u l db db' w e h =
    (w, e, ground arith, ground arith, ground arith, ground arith)

reserve_budget_cases :
    (wid : String) (a u l : ℤ) (db db' : Db) (o : Option Workflow)
    → budget wid db ≡ o
    → reserve_row wid a db o ≡ ((true, u, l), db')
    → Granted wid a u l db db'
reserve_budget_cases wid a u l db db' none e h = unfold reserve_row in cc
reserve_budget_cases wid a u l db db' (some w) e h = reserve_row-Granted wid a u l db db' w e h

-- A granted reservation adds the amount, within the limit, and returns the new budget.
pub reserve_budget-Granted :
    (wid : String) (a u l : ℤ) (db db' : Db)
    → reserve_budget wid a db ≡ ((true, u, l), db')
    → Granted wid a u l db db'
unfolding reserve_budget
reserve_budget-Granted wid a u l db db' h =
    reserve_budget_cases wid a u l db db' (lookup wid db.workflows) refl h

-- An amount that fits is granted.
pub reserve_budget_fits :
    (wid : String) (a : ℤ) (db : Db) (w : Workflow)
    → budget wid db ≡ some w
    → w.budget_used +ℤ a ≤ℤ w.budget_limit
    → reserve_budget wid a db ≡ ((true, w.budget_used +ℤ a, w.budget_limit), add_budget wid a db)
unfolding reserve_budget reserve_row
reserve_budget_fits wid a db w e h = ground (arith, e, h)

refused_row :
    (wid : String) (a u l : ℤ) (db db' : Db) (w : Workflow)
    → budget wid db ≡ some w
    → reserve_budget wid a db ≡ ((false, u, l), db')
    → ¬ (w.budget_used +ℤ a ≤ℤ w.budget_limit)
unfolding reserve_budget
refused_row wid a u l db db' w e h = ground arith

-- A refused reservation changes nothing, and the amount did not fit.
pub reserve_budget_refused :
    (wid : String) (a u l : ℤ) (db db' : Db)
    → reserve_budget wid a db ≡ ((false, u, l), db')
    → (db' ≡ db)
      × ((w : Workflow) → budget wid db ≡ some w → ¬ (w.budget_used +ℤ a ≤ℤ w.budget_limit))
unfolding reserve_budget
reserve_budget_refused wid a u l db db' h =
    (ground arith, λ w e. refused_row wid a u l db db' w e h)

sub_add_row : (a : ℤ) (o : Option Workflow) → map_some (sub_used a) (spend a o) ≡ o
sub_add_row a none = refl
sub_add_row a (some w) = ground (arith, +ℤ-cancel w.budget_used a)

adjust_row : (e a : ℤ) (o : Option Workflow) → spend (a -ℤ e) (spend e o) ≡ spend a o
adjust_row e a none = refl
adjust_row e a (some w) = ground (arith, adjusted w.budget_used e a)

-- Releasing a reservation gives every workflow its budget back.
pub rollback-reserve :
    (wid j : String) (a : ℤ) (db : Db)
    → budget j (rollback_budget wid a (add_budget wid a db)) ≡ budget j db
unfolding rollback_budget
rollback-reserve wid j a db = ground (
  arith,
  lookup-update wid j (sub_used a) (update wid (add_used a) db.workflows),
  lookup-update wid j (add_used a) db.workflows,
  sub_add_row a (lookup j db.workflows),
)

-- Committing a reservation charges what was really paid in place of what was reserved, and leaves
-- the other workflows alone.
pub commit-reserve :
    (wid j : String) (expected actual : ℤ) (db : Db)
    → budget j (commit_budget wid expected actual (add_budget wid expected db))
      ≡ (if wid == j then spend actual (budget j db) else budget j db)
unfolding commit_budget
commit-reserve wid j expected actual db = ground (
  arith,
  eqb_ℤ→eq expected actual,
  lookup-update wid j (add_used (actual -ℤ expected)) (update wid (add_used expected) db.workflows),
  lookup-update wid j (add_used expected) db.workflows,
  adjust_row expected actual (lookup j db.workflows),
)

-- Every workflow is within its limit.
pub record IsWithinLimits (db : Db) : Type 0 where
  pub within : (j : String) (w : Workflow) → budget j db ≡ some w → w.budget_used ≤ℤ w.budget_limit

-- An added amount that fits, or that is not positive, keeps every workflow within its limit.
add_budget-IsWithinLimits :
    (wid : String) (a : ℤ) (db : Db)
    → ((w : Workflow) → budget wid db ≡ some w → w.budget_used +ℤ a ≤ℤ w.budget_limit)
    → IsWithinLimits db
    → IsWithinLimits (add_budget wid a db)
add_budget-IsWithinLimits wid a db fits h = record {
  within = λ j v e. elim (Option-cases (budget j db)) [
    | inl n ↦ ground (arith, budget-add_budget wid j a db)
    | inr (w, k) ↦
        ground (arith, budget-add_budget wid j a db, eq_iff wid j, fits w, h.within j w k)
  ];
}

-- A reservation keeps every workflow within its limit, whatever the amount and the answer.
pub reserve_budget-IsWithinLimits :
    (wid : String) (a : ℤ) (db : Db)
    → IsWithinLimits db
    → IsWithinLimits (reserve_budget wid a db).1
unfolding reserve_budget reserve_row
reserve_budget-IsWithinLimits wid a db h = go (lookup wid db.workflows) refl
  where
    go :
        (o : Option Workflow)
        → lookup wid db.workflows ≡ o
        → IsWithinLimits (reserve_row wid a db o).1
    go none e = h
    go (some w) e = elim (Bool-cases (leb_ℤ (w.budget_used +ℤ a) w.budget_limit)) [
      | inl y ↦ rw y (add_budget-IsWithinLimits wid a db (λ v k. ground arith) h)
      | inr n ↦ rw n h
    ]

-- A commit of no more than was reserved keeps every workflow within its limit.
commit_budget-IsWithinLimits :
    (wid : String) (expected actual : ℤ) (db : Db)
    → actual ≤ℤ expected
    → IsWithinLimits db
    → IsWithinLimits (commit_budget wid expected actual db)
unfolding commit_budget
commit_budget-IsWithinLimits wid expected actual db le h =
    elim (Bool-cases (eqb_ℤ expected actual)) [
      | inl y ↦ rw y h
      | inr n ↦ rw n (
          add_budget-IsWithinLimits wid (actual -ℤ expected) db
            (λ w e. omega (int_laws, h.within wid w e)) h)
    ]

same_amount : (u a : ℤ) → u +ℤ (a -ℤ a) ≡ u
same_amount u a = omega int_laws

-- A commit of more than was reserved and still free puts the workflow over its limit.
commit_budget_overshoots :
    (wid : String) (expected actual : ℤ) (db : Db) (w : Workflow)
    → budget wid db ≡ some w
    → ¬ (w.budget_used +ℤ (actual -ℤ expected) ≤ℤ w.budget_limit)
    → w.budget_used ≤ℤ w.budget_limit
    → ¬ IsWithinLimits (commit_budget wid expected actual db)
unfolding commit_budget
commit_budget_overshoots wid expected actual db w e over le h = over (
    h.within wid (add_used (actual -ℤ expected) w) (
      ground (
        arith,
        budget-add_budget wid wid (actual -ℤ expected) db,
        eq_refl wid,
        eqb_ℤ→eq expected actual,
        same_amount w.budget_used expected,
      )))
