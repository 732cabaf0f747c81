-- ===== src/Db/Budget.antt =====
-- The budget of a workflow: `create_workflow`, `reserve_budget`, `rollback_budget`, `commit_budget`
-- and `get_budget_state` of db/client.py.
pub mod Laws
use revert_x.Prelude.{ℕ, String, Bool, true, false, Option, none, some, ◌==◌, if◌then◌else◌}
use revert_x.Int.{ℤ, pos, ◌+ℤ◌, ◌-ℤ◌, leb_ℤ, eqb_ℤ}
use revert_x.Dict.{Dict, lookup, insert, insert_new, update}
use revert_x.Db.Tables.{Workflow, Db}

unfoldable pub create_workflow : String → ℤ → Db → Db
create_workflow wid limit db = record db {
  workflows =
      insert_new wid (record { budget_limit = limit; budget_used = pos 0; status = "active" })
        db.workflows;
}

-- `SET budget_used = budget_used + amount`
abbrev pub add_used : ℤ → Workflow → Workflow
add_used amount w = record w { budget_used = w.budget_used +ℤ amount }

abbrev pub sub_used : ℤ → Workflow → Workflow
sub_used amount w = record w { budget_used = w.budget_used -ℤ amount }

abbrev pub add_budget : String → ℤ → Db → Db
add_budget wid amount db = record db { workflows = update wid (add_used amount) db.workflows }

reserve_row : String → ℤ → Db → Option Workflow → (Bool × ℤ × ℤ) × Db
reserve_row wid amount db none = ((false, pos 0, pos 0), db)
reserve_row wid amount db (some w) =
    if leb_ℤ (w.budget_used +ℤ amount) w.budget_limit
    then ((true, w.budget_used +ℤ amount, w.budget_limit), add_budget wid amount db)
    else ((false, w.budget_used, w.budget_limit), db)

-- Whether the amount fits, and the budget used and its limit as they are then.
unfoldable pub reserve_budget : String → ℤ → Db → (Bool × ℤ × ℤ) × Db
unfolding reserve_row
reserve_budget wid amount db = reserve_row wid amount db (lookup wid db.workflows)

unfoldable pub rollback_budget : String → ℤ → Db → Db
rollback_budget wid amount db = record db { workflows = update wid (sub_used amount) db.workflows }

unfoldable pub commit_budget : String → ℤ → ℤ → Db → Db
commit_budget wid expected actual db =
    if eqb_ℤ expected actual then db else add_budget wid (actual -ℤ expected) db

unfoldable pub get_budget_state : String → Db → ℤ × ℤ
get_budget_state wid db = elim (lookup wid db.workflows) [
  | none ↦ (pos 0, pos 0)
  | some w ↦ (w.budget_used, w.budget_limit)
]
