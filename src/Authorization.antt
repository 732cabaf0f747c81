-- ===== src/Authorization.antt =====
-- authorization/: the checks before a payment. Each is a function of its own; `Authorize` runs
-- them in order.
pub mod Wallet
pub mod Policy
pub mod RealBalance
pub mod Authorize
