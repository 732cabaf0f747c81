-- ===== src/Proxy/Pay.antt =====
-- The `/pay` handler of proxy/mcp_proxy.py. Each part of the handler is a module; `Handler` puts
-- them together. What the deployment sets and what other services answer is a `PayEnv`.
pub mod Env
pub mod Payout
pub mod Settle
pub mod Handler
pub mod Duplicates
pub mod Quiet
pub mod Finish
pub mod Paid
pub mod Budget
pub mod Raised
pub mod Idle
pub mod Kept
pub mod Replay
pub mod Refusal
pub mod Leak
pub mod Books
pub mod Overlap
