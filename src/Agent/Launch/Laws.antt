-- ===== src/Agent/Launch/Laws.antt =====
-- What a triggered run leaves in the books.
use revert_x.Prelude.{String, ◌≡◌, refl, arith, sym, ◌∙◌, ap, false, Option, none, some, ◌==◌}
use revert_x.Int.{ℤ}
use revert_x.Python.{Exec, ok}
use revert_x.System.{System}
use revert_x.Agent.Procurement.{AgentEnv, run_procurement_with_plan}
use revert_x.Agent.Procurement.Books.{run_procurement_with_plan_books}
use revert_x.Agent.Script.{script_budget, run_procurement}
use revert_x.Agent.Script.Laws.{run_procurement_books}
use revert_x.Agent.Runs.{Anew}
use revert_x.Agent.Launch.{Arguments, given, run_main, trigger_run}

-- The budget of the run: only a run with a goal has the one that was asked for.
abbrev pub budget_of : Option String → ℤ → ℤ
budget_of none limit = script_budget
budget_of (some g) limit = limit

given-given : (goal : Option String) → given (given goal) ≡ given goal
given-given none = refl
given-given (some g) = ground arith

module _ (env : AgentEnv) (wid fresh_id : String) where
  abbrev launched : Option String → ℤ → Exec System (Unit {0})
  launched none limit = run_procurement env (some wid) fresh_id
  launched (some g) limit = run_procurement_with_plan env g limit (some wid) fresh_id

  launched_as :
      (goal : Option String) (limit : ℤ)
      → given goal ≡ goal
      → run_main env
          (elim goal as (λ _. Arguments) [
            | none ↦ record { workflow_id = some wid; goal = none; budget = script_budget }
            | some g ↦ record { workflow_id = some wid; goal = some g; budget = limit }
          ])
          fresh_id
        ≡ launched goal limit
  unfolding run_main
  launched_as none limit h = refl
  launched_as (some g) limit h =
      ap
        (λ (x : Option String). elim x as (λ _. Exec System (Unit {0})) [
          | none ↦ run_procurement env (some wid) fresh_id
          | some g' ↦ run_procurement_with_plan env g' limit (some wid) fresh_id
        ])
        h

  launched-Anew :
      (goal : Option String) (limit : ℤ) (s t : System)
      → (wid == "") ≡ false
      → launched goal limit s ≡ (ok tt, t)
      → Anew wid (budget_of goal limit) s t
  launched-Anew none limit s t n e = run_procurement_books env wid fresh_id s t n e
  launched-Anew (some g) limit s t n e =
      run_procurement_with_plan_books env g limit wid fresh_id s t n e

-- A run that the dashboard triggers, with a goal or without one, and that runs to its end: the ledger
-- has lost the rows of its workflow and then gained some; the workflow's budget is a new one, with the
-- limit that was asked for if there is a goal and 35000 rupees if not, charged with exactly what its
-- rows among the gained ones say; and that of any other workflow is the one before, so charged.
pub trigger_run-Anew :
    (env : AgentEnv) (goal : Option String) (limit : ℤ) (wid fresh_id : String) (s t : System)
    → (wid == "") ≡ false
    → run_main env (trigger_run goal limit wid) fresh_id s ≡ (ok tt, t)
    → Anew wid (budget_of (given goal) limit) s t
unfolding trigger_run
trigger_run-Anew env goal limit wid fresh_id s t n e =
    launched-Anew env wid fresh_id (given goal) limit s t n (
      ap (λ (f : Exec System (Unit {0})). f s)
        (sym (launched_as env wid fresh_id (given goal) limit (given-given goal)))
      ∙ e)
