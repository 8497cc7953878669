-- ===== src/Orderbook/OrderMapper.antt =====
-- Tars-rs/crates/orderbook/src/order_mapper.rs: which HTLC action the solver takes for an order. The fiat
-- provider, the clock, the hexadecimal decoder and the arithmetic of `f64` are parameters.
use Prim.Native.String.{slice, len}
use text.Mathlib.Text.{starts_with, find?}
pub mod Guards
pub mod Safety
pub mod Examples
use uni_pay.Orderbook.Types.{
  ActionType, ActionWithInfo, HtlcAction, MapError, MatchedOrderVerbose, SingleSwap, bad_secret,
  get_order_pair, initiate, instant_refund, maybe_is_some, no_op, on_initiate, on_instant_refund,
  on_redeem, on_refund, redeem, refund,
}
use uni_pay.Prelude.{
  Bool, List, Option, Result, String, any, contains, false, if◌then◌else◌, is_some, leb, ltb,
  nat_eq, none, not, ok, ok_or, some, string_eq, true, ℕ, ◌&&◌, ◌*◌, ◌+◌, ◌==◌, ◌>>=◌, ◌>>◌, ◌||◌,
}

pub record Floats (F : Type 0) : Type 0 where
  pub zero_float : F
  pub one_float : F
  pub sub : F → F → F
  pub plus : F → F → F
  pub mul : F → F → F
  pub div : F → F → F
  pub le_float : F → F → Bool

-- What the mapper asks of its surroundings.
pub record Surroundings (F : Type 0) : Type 0 where
  pub get_price : String → Result MapError (F × F)
  pub from_timestamp : ℕ → Option ℕ
  pub from_hex : String → Option (List ℕ)
  pub now : ℕ

pub record OrderMapper (F : Type 0) : Type 0 where
  pub price_drop_threshold : F
  pub supported_chains : List String
  pub additional_checks : ActionType → Option (MatchedOrderVerbose F → Bool)

abbrev pub has_bitcoin : String → Bool
has_bitcoin chain = is_some (find? chain "bitcoin")

-- `hex_to_bytes`: an optional prefix `0x` is stripped.
abbrev pub hex_to_bytes : (String → Option (List ℕ)) → String → Result MapError (List ℕ)
hex_to_bytes from_hex s =
    ok_or (from_hex (if starts_with s "0x" then slice s 2 (len s) else s)) bad_secret

unfoldable pub has_redeem : SingleSwap → Bool
unfolding maybe_is_some
has_redeem s = maybe_is_some s.redeem_tx_hash && maybe_is_some s.secret

unfoldable pub has_refund : SingleSwap → Bool
unfolding maybe_is_some
has_refund s = maybe_is_some s.refund_tx_hash

unfoldable pub is_swap_completed : SingleSwap → Bool
unfolding has_refund has_redeem
is_swap_completed s = has_refund s || has_redeem s

abbrev pub is_valid_block_number : Option ℕ → Bool
is_valid_block_number none = false
is_valid_block_number (some b) = ltb 0 b

unfoldable pub has_valid_initiate : SingleSwap → Bool
unfolding maybe_is_some
has_valid_initiate s =
    maybe_is_some s.initiate_tx_hash && is_valid_block_number s.initiate_block_number

module _ {F : Type 0} (f : Floats F) (e : Surroundings F) (m : OrderMapper F) where
  abbrev pub check_passes : Option (MatchedOrderVerbose F → Bool) → MatchedOrderVerbose F → Bool
  check_passes none o = true
  check_passes (some check) o = check o

  unfoldable pub passes_additional_check : ActionType → MatchedOrderVerbose F → Bool
  passes_additional_check action o = check_passes (m.additional_checks action) o

  unfoldable pub is_chain_supported : String → Bool
  is_chain_supported chain = contains m.supported_chains chain

  unfoldable pub has_destination_refund_only : MatchedOrderVerbose F → Bool
  unfolding maybe_is_some
  has_destination_refund_only o =
      maybe_is_some o.destination_swap.refund_tx_hash
      && is_valid_block_number o.destination_swap.refund_block_number
      && not (maybe_is_some o.source_swap.refund_tx_hash)

  abbrev pub or_default : Option ℕ → ℕ → ℕ
  or_default none d = d
  or_default (some n) d = n

  unfoldable pub is_deadline_expired : MatchedOrderVerbose F → Bool
  is_deadline_expired o =
      ltb (or_default (e.from_timestamp o.additional_data.deadline) (o.created_at + 60 * 60)) e.now

  unfoldable pub validate_price_threshold : F → F → F → F → Bool
  validate_price_threshold original_input original_output current_input current_output =
      let input_price_decrease = f.div (f.sub original_input current_input) original_input in
      let output_price_increase = f.div (f.sub current_output original_output) original_output in
      if f.le_float original_input f.zero_float || f.le_float original_output f.zero_float
      then false
      else f.le_float (f.mul original_output (f.sub f.one_float m.price_drop_threshold))
          current_output
        && f.le_float (f.plus input_price_decrease output_price_increase) m.price_drop_threshold

  unfoldable pub check_price_threshold : MatchedOrderVerbose F → Result MapError Bool
  unfolding get_order_pair validate_price_threshold
  check_price_threshold o = do
    prices ← e.get_price (get_order_pair o)
    ok (
        validate_price_threshold o.additional_data.input_token_price
          o.additional_data.output_token_price prices.0 prices.1)

  unfoldable pub can_instant_refund : MatchedOrderVerbose F → Result MapError Bool
  unfolding passes_additional_check has_destination_refund_only is_deadline_expired
      check_price_threshold has_valid_initiate is_swap_completed has_redeem has_refund maybe_is_some
  can_instant_refund o =
      if not (passes_additional_check on_instant_refund o)
      then ok false
      else if not (has_valid_initiate o.source_swap) || has_refund o.source_swap
      then ok false
      else if maybe_is_some o.destination_swap.initiate_tx_hash
          && not (is_swap_completed o.destination_swap)
      then ok false
      else if not (o.source_swap.amount == o.source_swap.filled_amount)
      then ok true
      else if has_redeem o.destination_swap
      then ok false
      else if has_destination_refund_only o
      then ok true
      else if is_deadline_expired o
      then ok true
      else (check_price_threshold o >>= λ within. ok (not within))

  -- The source is initiated: at once for bitcoin, with its confirmations elsewhere.
  abbrev pub is_source_ready : SingleSwap → Bool
  is_source_ready s =
      if has_bitcoin s.chain
      then maybe_is_some s.initiate_tx_hash
      else has_valid_initiate s && not (ltb s.current_confirmations s.required_confirmations)

  unfoldable pub can_initiate : MatchedOrderVerbose F → Result MapError Bool
  unfolding can_instant_refund passes_additional_check maybe_is_some has_valid_initiate
  can_initiate o =
      if o.additional_data.is_blacklisted
      then ok false
      else if not (is_source_ready o.source_swap)
      then ok false
      else if maybe_is_some o.destination_swap.initiate_tx_hash
      then ok false
      else if not (o.source_swap.filled_amount == o.source_swap.amount)
      then ok false
      else if not (passes_additional_check on_initiate o)
      then ok false
      else (can_instant_refund o >>= λ refunds. ok (not refunds))

  abbrev pub has_expired : Option ℕ → ℕ → ℕ → Bool
  has_expired none timelock latest = false
  has_expired (some b) timelock latest = leb (b + timelock) latest

  unfoldable pub can_refund : MatchedOrderVerbose F → ℕ → Bool
  unfolding is_swap_completed passes_additional_check
  can_refund o latest =
      if is_swap_completed o.destination_swap
      then false
      else if not (is_valid_block_number o.destination_swap.initiate_block_number)
      then false
      else if not (passes_additional_check on_refund o)
      then false
      else has_expired o.destination_swap.initiate_block_number o.destination_swap.timelock latest

  unfoldable pub can_redeem : MatchedOrderVerbose F → Bool
  unfolding is_swap_completed has_valid_initiate passes_additional_check maybe_is_some
  can_redeem o =
      if is_swap_completed o.source_swap
      then false
      else if not (has_valid_initiate o.source_swap)
      then false
      else if not (passes_additional_check on_redeem o)
      then false
      else maybe_is_some o.destination_swap.secret

  abbrev pub act : HtlcAction → SingleSwap → Option ActionWithInfo
  act a s = some (record { action = a; swap = some s })

  unfoldable pub check_source_chain_actions :
      MatchedOrderVerbose F → Result MapError (Option ActionWithInfo)
  unfolding can_redeem can_instant_refund is_chain_supported
  check_source_chain_actions o =
      if is_chain_supported o.source_swap.chain
      then (if can_redeem o
          then (hex_to_bytes e.from_hex o.destination_swap.secret >>= λ secret.
              ok (act (redeem secret) o.source_swap))
          else (can_instant_refund o >>= λ refunds.
              ok (if refunds then act instant_refund o.source_swap else none)))
      else ok none

  abbrev pub is_refundable_at : MatchedOrderVerbose F → Option ℕ → Bool
  is_refundable_at o none = false
  is_refundable_at o (some latest) = can_refund o latest

  unfoldable pub check_destination_chain_actions :
      MatchedOrderVerbose F → Option ℕ → Result MapError (Option ActionWithInfo)
  unfolding can_refund can_initiate is_chain_supported
  check_destination_chain_actions o latest =
      if is_chain_supported o.destination_swap.chain
      then (if is_refundable_at o latest
          then ok (act refund o.destination_swap)
          else (can_initiate o >>= λ initiates.
              ok (if initiates then act initiate o.destination_swap else none)))
      else ok none

  abbrev pub or_no_op : Option ActionWithInfo → ActionWithInfo
  or_no_op none = record { action = no_op; swap = none }
  or_no_op (some a) = a

  abbrev pub first_action :
      Option ActionWithInfo
      → Result MapError (Option ActionWithInfo)
      → Result MapError ActionWithInfo
  first_action (some a) later = ok a
  first_action none later = later >>= λ found. ok (or_no_op found)

  -- `map`
  unfoldable pub map_order : MatchedOrderVerbose F → Option ℕ → Result MapError ActionWithInfo
  unfolding check_destination_chain_actions check_source_chain_actions
  map_order o latest = check_destination_chain_actions o latest >>= λ found.
      first_action found (check_source_chain_actions o)

  unfoldable pub has_refundable_swaps : List (MatchedOrderVerbose F) → Bool
  unfolding has_valid_initiate is_swap_completed passes_additional_check
  has_refundable_swaps = any (λ o.
      contains m.supported_chains o.destination_swap.chain
      && has_valid_initiate o.destination_swap
      && not (is_swap_completed o.destination_swap)
      && passes_additional_check on_refund o
      && leb (o.destination_swap.created_at + 90 * 60) e.now)
