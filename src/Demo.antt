-- ===== src/Demo.antt =====
-- The demonstrations and the evaluation that run the parts together.
pub mod SilentBreak
pub mod Scenarios
pub mod BatchEval
