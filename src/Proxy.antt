-- ===== src/Proxy.antt =====
-- proxy/: the service that stands between the agent and the merchants.
pub mod Pay
pub mod Workflows
pub mod Dashboard
