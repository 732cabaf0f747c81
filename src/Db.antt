-- ===== src/Db.antt =====
-- db/client.py: the tables of the database and the queries over them. A table under a primary key
-- is a dict, any other a list in the order of insertion, which is the order of `created_at`.
-- A query is atomic; a lost connection is not modelled.
mod Tables
pub mod Budget
pub mod Steps
pub mod Breakers
pub mod Payouts
pub mod Wallets
pub mod Lifecycle
pub use Tables.*
