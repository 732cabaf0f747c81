-- ===== src/Agent.antt =====
-- primary_agent: the catalog, the planner, and the agent that pays what was planned.
pub mod Catalog
pub mod Planner
pub mod Procurement
pub mod Script
pub mod Runs
pub mod Launch
