-- ===== src/Workers.antt =====
-- compensating_agent: the processes behind the proxy.
pub mod PendingPayout
pub mod Saga
