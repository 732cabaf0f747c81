-- ===== src/Agent/Launch.antt =====
-- The command line of primary_agent/procurement_agent.py, and `/trigger_run` of proxy/mcp_proxy.py,
-- which starts that command in a process of its own. The arguments are as `argparse` reads them back,
-- for a goal that it does not take for an option.
pub mod Laws
use revert_x.Prelude.{String, Option, none, some, ◌==◌, if◌then◌else◌}
use revert_x.Int.{ℤ}
use revert_x.Python.{Exec}
use revert_x.System.{System}
use revert_x.Agent.Procurement.{AgentEnv, run_procurement_with_plan}
use revert_x.Agent.Script.{script_budget, run_procurement}

pub record Arguments : Type 0 where
  pub workflow_id : Option String
  pub goal : Option String
  pub budget : ℤ

-- `if args.goal:`
abbrev pub given : Option String → Option String
given none = none
given (some g) = if g == "" then none else some g

unfoldable pub run_main : AgentEnv → Arguments → String → Exec System (Unit {0})
unfolding run_procurement run_procurement_with_plan
run_main env args fresh_id = elim (given args.goal) [
  | none ↦ run_procurement env args.workflow_id fresh_id
  | some g ↦ run_procurement_with_plan env g args.budget args.workflow_id fresh_id
]

-- The arguments of the process; without a goal the budget is the default of the command line.
unfoldable pub trigger_run : Option String → ℤ → String → Arguments
trigger_run goal budget_limit wid = elim (given goal) [
  | none ↦ record { workflow_id = some wid; goal = none; budget = script_budget }
  | some g ↦ record { workflow_id = some wid; goal = some g; budget = budget_limit }
]
