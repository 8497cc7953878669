-- ===== src/Orderbook.antt =====
-- The shared order types and the order mapper of the solver.
pub mod Types
pub mod OrderMapper
