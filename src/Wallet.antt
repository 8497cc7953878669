-- ===== src/Wallet.antt =====
-- The Bitcoin wallet batching subsystem of btc-executor
-- (btc-executor/src/infrastructure/chain/bitcoin/wallet): its shared types, the request model, the
-- planner, the in-memory state machine, and the helpers for confirmed and missing lineages.
pub mod Types
pub mod Request
pub mod Planner
pub mod Runtime
pub mod Confirm
pub mod Reconcile
pub mod Examples
