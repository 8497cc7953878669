-- ===== src/EvmWatcher.antt =====
-- evm-watcher: the ranges of blocks that it asks for, the table of swaps, and the watcher of one chain.
pub mod BlockRange
pub mod Swaps
pub mod Store
pub mod Events
pub mod Watcher
