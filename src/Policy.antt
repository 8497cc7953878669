-- ===== src/Policy.antt =====
-- The trading rules of a solver: Tars-rs/crates/policy, and the asset names of Tars-rs/crates/primitives that
-- the rules are written with.
pub mod Assets
pub mod Collections
pub mod SolverPolicy
mod Examples
