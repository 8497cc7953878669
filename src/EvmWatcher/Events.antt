-- ===== src/EvmWatcher/Events.antt =====
-- From logs to swap events: evm-watcher/src/{prepare_event,validate_event,validate_swap}.rs. A hash map that is
-- collected from a list keeps the last value of a key.
use mathlib.Core.Option
use uni_pay.EvmWatcher.BlockRange.{dedup, sort_unstable}
use uni_pay.EvmWatcher.Swaps.{
  OnChainOrder, OrderStatus, SingleSwap, SwapEvent, SwapEventType, initiate, initiated,
  order_secret, order_swap_id, redeem, refund, status_beq, swap_status,
}
use uni_pay.Prelude.{
  Bool, List, Option, Result, Text, [], collect, eq_ignore_ascii_case, false, filter, filter_map,
  hash_map, if◌then◌else◌, is_empty, leb, lookup, ltb, map, nat_eq, none, not, ok, option_bind,
  some, true, unwrap_or, ℕ, ◌%◌, ◌&&◌, ◌++◌, ◌+◌, ◌==◌, ◌>>=◌, ◌||◌, ◌∷◌,
}
use uni_pay.Wallet.Planner.{u64_mod}

-- `to_string().parse::<u64>().ok()`
abbrev pub parse_u64 : ℕ → Option ℕ
parse_u64 n = if ltb n u64_mod then some n else none

-- Whether an initiated swap may still gain confirmations.
unfoldable pub in_window : ℕ → SingleSwap → Bool
in_window current s = leb current (
    (unwrap_or 0 (option_bind s.initiate_block_number parse_u64) + s.required_confirmations)
    % u64_mod)

abbrev pub status_differs : ℕ → SingleSwap → OrderStatus → OrderStatus → Bool
status_differs current s on_chain stored =
    not (status_beq on_chain stored) || (status_beq on_chain initiated && in_window current s)

abbrev pub is_processable : ℕ → SingleSwap → Option OrderStatus → Bool
is_processable current s none = true
is_processable current s (some on_chain) = status_differs current s on_chain (swap_status s)

-- `validate_swap::validate_swaps`
unfoldable pub validate_swaps : List (Text × OrderStatus) → List (Text × SingleSwap) → ℕ → List Text
unfolding swap_status in_window
validate_swaps statuses swaps current =
    map (λ e. e.0) (filter (λ e. is_processable current e.1 (lookup e.0 statuses)) swaps)

-- The logs of the two versions of the contract.
pub data V2Event : Type 0 where
  v2_initiated : Text → V2Event
  v2_redeemed : Text → Text → V2Event
  v2_refunded : Text → V2Event
  v2_other : V2Event

pub data V3Event : Type 0 where
  v3_initiated : Text → V3Event
  v3_initiated_with_destination_data : Text → V3Event
  v3_redeemed : Text → Text → V3Event
  v3_refunded : Text → V3Event
  v3_other : V3Event

pub record EventExt (T : Type 0) : Type 0 where
  pub event : T
  pub address : Text
  pub block_number : Option ℕ
  pub transaction_hash : Option Text

abbrev pub redeemed_data : Text → Option Text → Option (Text × SwapEventType)
redeemed_data id none = none
redeemed_data id (some secret) = some (id, redeem secret)

unfoldable pub get_v2_event_data : V2Event → Option (Text × SwapEventType)
unfolding order_secret
get_v2_event_data (v2_initiated id) = some (id, initiate)
get_v2_event_data (v2_redeemed id secret) = redeemed_data id (order_secret secret)
get_v2_event_data (v2_refunded id) = some (id, refund)
get_v2_event_data v2_other = none

unfoldable pub get_v3_event_data : V3Event → Option (Text × SwapEventType)
unfolding order_secret
get_v3_event_data (v3_initiated id) = some (id, initiate)
get_v3_event_data (v3_initiated_with_destination_data id) = some (id, initiate)
get_v3_event_data (v3_redeemed id secret) = redeemed_data id (order_secret secret)
get_v3_event_data (v3_refunded id) = some (id, refund)
get_v3_event_data v3_other = none

abbrev pub time_of : List (ℕ × ℕ) → ℕ → Option ℕ
time_of [] block = none
time_of ((b, t) ∷ m) block = if b == block then some t else time_of m block

abbrev pub swap_event :
    {T : Type 0} → SwapEventType → Text → EventExt T → OnChainOrder → ℕ → Text → SwapEvent
swap_event event_type id ext order time chain_name = record {
  event_type = event_type;
  swap_id = id;
  tx_info = record {
    tx_hash = unwrap_or [] ext.transaction_hash;
    block_number = unwrap_or 0 ext.block_number;
    timestamp = time;
  };
  order = record {
    redeemer = order.redeemer;
    timelock = order.timelock;
    amount = order.amount;
    asset_address = ext.address;
    chain = chain_name;
  };
}

module _ (orders : List (Text × OnChainOrder)) (times : List (ℕ × ℕ)) (now : ℕ)
    (chain_name : Text) where
  unfoldable pub create_swap_event :
      {T : Type 0} → Text × SwapEventType → EventExt T → Option SwapEvent
  unfolding order_swap_id
  create_swap_event (order_id, event_type) ext =
      let id = order_swap_id order_id in
      let time = unwrap_or now (time_of times (unwrap_or 0 ext.block_number)) in
      Option.map (λ order. swap_event event_type id ext order time chain_name) (lookup id orders)

  abbrev pub events_of :
      {T : Type 0} → (T → Option (Text × SwapEventType)) → List (EventExt T) → List SwapEvent
  events_of get_data exts =
      filter_map
        (λ ext. elim (get_data ext.event) [ none ↦ none | some d ↦ create_swap_event d ext ]) exts

pub data WatchError : Type 0 where
  provider_failed : WatchError
  block_not_found : WatchError
  stream_failed : WatchError

-- The blocks of the logs, each once; a log without a block counts as block 0, which is left out.
unfoldable pub event_blocks : List (EventExt V2Event) → List (EventExt V3Event) → List ℕ
unfolding dedup sort_unstable
event_blocks v2 v3 = dedup (
    sort_unstable (
      filter (λ b. not (b == 0))
        (map (λ e. unwrap_or 0 e.block_number) v2 ++ map (λ e. unwrap_or 0 e.block_number) v3)))

-- `prepare_store_events`, with the blocks' times asked of the provider.
unfoldable pub prepare_store_events :
    Text
    → (ℕ → Result WatchError ℕ)
    → ℕ
    → List (EventExt V2Event)
    → List (EventExt V3Event)
    → List (Text × OnChainOrder)
    → Result WatchError (List SwapEvent)
unfolding event_blocks create_swap_event get_v2_event_data get_v3_event_data
prepare_store_events chain_name get_block_time now v2 v3 orders =
    if is_empty v2 && is_empty v3 then ok [] else (do
      times ← collect (λ b. get_block_time b >>= λ t. ok (b, t)) (event_blocks v2 v3)
      ok (
          events_of orders times now chain_name get_v2_event_data v2
          ++ events_of orders times now chain_name get_v3_event_data v3))

-- `parse::<i32>()` of a number that is not negative
abbrev pub parse_i32 : ℕ → Option ℕ
parse_i32 n = if ltb n 0x80000000 then some n else none

unfoldable pub is_valid_event : SwapEvent → SingleSwap → Bool
unfolding eq_ignore_ascii_case
is_valid_event e s = elim (parse_i32 e.order.timelock) [
  | none ↦ false
  | some timelock ↦
      eq_ignore_ascii_case e.order.redeemer s.redeemer
      && timelock == s.timelock
      && eq_ignore_ascii_case e.order.asset_address s.asset
      && eq_ignore_ascii_case e.order.chain s.chain
]

abbrev pub is_for : SwapEvent → Option SingleSwap → Bool
is_for e none = false
is_for e (some s) = is_valid_event e s

-- `validate_events`
unfoldable pub validate_events : List SingleSwap → List SwapEvent → List SwapEvent
unfolding is_valid_event hash_map
validate_events swaps events =
    let swap_lookup = hash_map (map (λ s. (s.swap_id, s)) swaps) in
    filter (λ e. is_for e (lookup e.swap_id swap_lookup)) events
