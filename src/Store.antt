-- ===== src/Store.antt =====
-- The database of internal/store, table by table. A statement of SQL is the function on the tables
-- that it denotes; failures of the database itself are left out, and a transaction is one function.
pub mod Tables
pub mod States
pub mod Outbox
pub mod Activity
pub mod Watches
pub mod Targets
pub mod Runs
pub mod Prune
pub mod Templates
pub mod Battery
pub mod Rules
pub mod Owner
pub mod Accounts
