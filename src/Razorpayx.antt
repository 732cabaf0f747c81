-- ===== src/Razorpayx.antt =====
-- razorpayx/: the client of the payout gateway.
pub mod Client
pub mod Payouts
