-- ===== src/EvmWatcher/Swaps.antt =====
-- The data of evm-watcher/src/{primitives,swaps/primitives,onchain_orders/primitives}.rs, and the columns of the
-- table of swaps that the watcher reads or writes. Numbers of blocks, amounts and times, in seconds, are natural
-- numbers; texts are ASCII.
use uni_pay.Prelude.{
  Bool, Option, Text, codes, false, if◌then◌else◌, length, list_eq, ltb, nat_eq, none, not, some,
  strip_prefix, true, unwrap_or, ℕ, ◌&&◌, ◌==◌, ◌||◌,
}

-- A row of the table `swaps`, `SingleSwap` in the code. No transaction is the empty text.
pub record SingleSwap : Type 0 where
  pub swap_id : Text
  pub chain : Text
  pub asset : Text
  pub redeemer : Text
  pub timelock : ℕ
  pub required_confirmations : ℕ
  pub created_at : ℕ
  pub filled_amount : ℕ
  pub current_confirmations : ℕ
  pub initiate_tx_hash : Text
  pub initiate_block_number : Option ℕ
  pub initiate_timestamp : Option ℕ
  pub redeem_tx_hash : Text
  pub redeem_block_number : Option ℕ
  pub redeem_timestamp : Option ℕ
  pub secret : Text
  pub refund_tx_hash : Text
  pub refund_block_number : Option ℕ
  pub refund_timestamp : Option ℕ

pub data OrderStatus : Type 0 where
  not_initiated : OrderStatus
  initiated : OrderStatus
  fulfilled : OrderStatus

abbrev pub status_beq : OrderStatus → OrderStatus → Bool
status_beq not_initiated not_initiated = true
status_beq initiated initiated = true
status_beq fulfilled fulfilled = true
status_beq _ _ = false

abbrev pub is_positive : Option ℕ → Bool
is_positive none = false
is_positive (some n) = ltb 0 n

-- `OrderStatus::from` a swap: no block and block 0 are the same.
unfoldable pub swap_status : SingleSwap → OrderStatus
swap_status s =
    if not (is_positive s.initiate_block_number)
    then not_initiated
    else if is_positive s.redeem_block_number || is_positive s.refund_block_number
    then fulfilled
    else initiated

pub record OnChainOrder : Type 0 where
  pub initiator : Text
  pub redeemer : Text
  pub initiated_at : ℕ
  pub timelock : ℕ
  pub amount : ℕ
  pub fulfilled_at : ℕ

-- `Address::ZERO`, printed.
abbrev pub zero_address : Text
zero_address = codes "0x0000000000000000000000000000000000000000"

unfoldable pub is_empty_order : OnChainOrder → Bool
is_empty_order o =
    o.amount == 0 && o.initiator == zero_address && o.redeemer == zero_address && o.timelock == 0

-- `OrderStatus::from` an order.
unfoldable pub order_status : OnChainOrder → OrderStatus
unfolding is_empty_order
order_status o =
    if is_empty_order o
    then not_initiated
    else if ltb 0 o.fulfilled_at
    then fulfilled
    else initiated

pub data SwapEventType : Type 0 where
  initiate : SwapEventType
  redeem : Text → SwapEventType
  refund : SwapEventType

pub record EventTxInfo : Type 0 where
  pub tx_hash : Text
  pub block_number : ℕ
  pub timestamp : ℕ

pub record HtlcOrder : Type 0 where
  pub redeemer : Text
  pub timelock : ℕ
  pub amount : ℕ
  pub asset_address : Text
  pub chain : Text

pub record SwapEvent : Type 0 where
  pub event_type : SwapEventType
  pub swap_id : Text
  pub tx_info : EventTxInfo
  pub order : HtlcOrder

abbrev pub strip_hex : Text → Text
strip_hex s = unwrap_or s (strip_prefix (codes "0x") s)

-- `OrderSwapId::from`
unfoldable pub order_swap_id : Text → Text
unfolding strip_prefix
order_swap_id s = strip_hex s

-- `OrderSecret::try_from`
unfoldable pub order_secret : Text → Option Text
unfolding strip_prefix
order_secret s = let t = strip_hex s in if length t == 64 then some t else none
