-- ===== src/Store.antt =====
-- The Postgres store of the Bitcoin wallet: store.rs (its contract, under wallet/) and
-- btc-executor/src/infrastructure/persistence/bitcoin_wallet.rs (its implementation).
pub mod Rows
pub mod Plans
pub mod Operations
pub mod Checks
pub mod Lifecycle
pub mod Updates
pub mod Facts
pub mod Transitions
pub mod Broadcasts
pub mod Reach
pub mod Enqueue
pub mod Revert
pub mod Restore
pub mod Submit
pub mod Examples
