-- ===== src/TxBuilder.antt =====
-- tx_builder/{deps,cover_utxo,fee_builder,validation,primitives}.rs: the parts of the Bitcoin transaction
-- builder that choose inputs and fees.
pub mod Cover
pub mod Selection
pub mod Available
pub mod Fee
pub mod Plan
pub mod Reached
pub mod Overpay
pub mod Built
pub mod Params
pub mod Examples
use uni_pay.Prelude.{ℕ}

-- `TxBuilderError`, without messages.
pub data TxBuilderError : Type 0 where
  validation : TxBuilderError
  client : TxBuilderError
  consensus : TxBuilderError
  insufficient_funds : ℕ → ℕ → TxBuilderError
  max_iterations_exceeded : TxBuilderError
