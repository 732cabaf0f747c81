-- ===== src/Compensation.antt =====
-- compensating_agent/graph.py: the saga that undoes the settled payments of a workflow. `State` holds
-- what the nodes share, `Select`, `Policy`, `Refund` and `Verdict` are the nodes, `Graph` runs them.
pub mod State
pub mod Select
pub mod Policy
pub mod Refund
pub mod Verdict
pub mod AnomalyCheck
pub mod Graph
