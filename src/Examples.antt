-- ===== src/Examples.antt =====
-- The theorems at concrete inputs.
mod World
mod Pay
mod Saga
mod Parts
mod Agent
mod Shops
mod Worker
mod Overlap
mod Demo
mod Dashboard
