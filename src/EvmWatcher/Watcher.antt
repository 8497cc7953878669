-- ===== src/EvmWatcher/Watcher.antt =====
-- The watcher of one chain, evm-watcher/src/watcher/watcher.rs. The chain and the cache of pending swaps answer as
-- parameters; the table of swaps and the last block that was processed are the state.
pub mod Moves
pub mod Safety
pub mod Watch
pub mod Orders
mod Examples
use mathlib.Core.Option
use uni_pay.EvmWatcher.BlockRange.{BlockRange, group_block_ranges}
use uni_pay.EvmWatcher.Events.{
  EventExt, V2Event, V3Event, WatchError, parse_u64, prepare_store_events, stream_failed,
  validate_events, validate_swaps,
}
use uni_pay.EvmWatcher.Store.{Chooser, is_initiate, update_confirmations, update_events}
use uni_pay.EvmWatcher.Swaps.{OnChainOrder, SingleSwap, SwapEvent, is_empty_order, order_status}
use uni_pay.Prelude.{
  Bool, List, Option, Result, Text, [], contains, err, filter, filter_map, flat_map, hash_map,
  if◌then◌else◌, is_empty, list_eq, lookup, ltb, map, min, nat_eq, none, not, ok, option_bind, some,
  ℕ, ◌%◌, ◌++◌, ◌+◌, ◌-◌, ◌==◌, ◌>>=◌, ◌||◌, ◌∷◌,
}
use uni_pay.Wallet.Planner.{u64_mod}

pub record OnchainRequest : Type 0 where
  pub swap_id : Text
  pub contract : ℕ

abbrev pub Logs : Type 0
Logs = List (EventExt V2Event) × List (EventExt V3Event)

-- What the watcher is configured with and asks: the parser of addresses, the batched query for orders, the latest
-- block, the logs of a range, the time of a block, and the clock.
pub record Chain : Type 0 where
  pub name : Text
  pub max_block_span : ℕ
  pub parse_address : Text → Option ℕ
  pub get_orders : List OnchainRequest → Result WatchError (List (Option OnChainOrder))
  pub get_block_number : Result WatchError ℕ
  pub query : BlockRange → Result WatchError Logs
  pub get_block_time : ℕ → Result WatchError ℕ
  pub now : ℕ

pub record WatcherState : Type 0 where
  pub swaps : List SingleSwap
  pub previous_block : ℕ

abbrev pub zip {ℓ κ} : {A : Type ℓ} {B : Type κ} → List A → List B → List (A × B)
zip (x ∷ xs) (y ∷ ys) = (x, y) ∷ zip xs ys
zip _ _ = []

-- `OnchainRequest::try_from`
abbrev pub onchain_request : (Text → Option ℕ) → SingleSwap → Option OnchainRequest
onchain_request parse_address s =
    Option.map (λ a. record { swap_id = s.swap_id; contract = a }) (parse_address s.asset)

abbrev pub order_entry : Option OnChainOrder × SingleSwap → Option (Text × OnChainOrder)
order_entry (none, s) = none
order_entry (some o, s) = if is_empty_order o then none else some (s.swap_id, o)

-- `fetch_onchain_orders`: the answers are paired with the swaps, not with the requests.
unfoldable pub fetch_onchain_orders :
    Chain → List SingleSwap → Result WatchError (List (Text × OnChainOrder))
unfolding is_empty_order hash_map
fetch_onchain_orders c swaps =
    let requests = filter_map (onchain_request c.parse_address) swaps in
    if is_empty requests
    then ok []
    else (c.get_orders requests >>= λ orders.
        ok (hash_map (filter_map order_entry (zip orders swaps))))

-- `HTLCEventWatcher::validate_swaps`
unfoldable pub valid_swaps :
    List SingleSwap → List (Text × OnChainOrder) → ℕ → List SingleSwap × List (Text × OnChainOrder)
unfolding order_status hash_map validate_swaps
valid_swaps swaps orders current =
    let valid_ids =
      validate_swaps (map (λ e. (e.0, order_status e.1)) orders)
        (hash_map (map (λ s. (s.swap_id, s)) swaps)) current in
    (filter (λ s. contains valid_ids s.swap_id) swaps, filter (λ e. contains valid_ids e.0) orders)

abbrev pub event_block : ℕ → Option ℕ
event_block b = if ltb 0 b then parse_u64 b else none

abbrev pub is_empty_range : BlockRange → Bool
is_empty_range r = r.from_block == 0 || r.to_block == 0

-- `create_event_blocks_ranges`; no range is the empty list.
unfoldable pub create_event_blocks_ranges : List (Text × OnChainOrder) → ℕ → List BlockRange
unfolding group_block_ranges
create_event_blocks_ranges orders max_block_span =
    filter (λ r. not (is_empty_range r))
      (group_block_ranges
        (filter_map event_block (flat_map (λ e. e.1.initiated_at ∷ e.1.fulfilled_at ∷ []) orders))
        max_block_span)

abbrev pub Confirmations : Type 0
Confirmations = List (ℕ × List Text)

abbrev pub push_confirmation : ℕ → Text → Confirmations → Confirmations
push_confirmation conf id [] = (conf, id ∷ []) ∷ []
push_confirmation conf id ((c, ids) ∷ m) =
    if c == conf then (c, ids ++ id ∷ []) ∷ m else (c, ids) ∷ push_confirmation conf id m

-- How many confirmations an initiation has, as many as are required at most.
unfoldable pub confirmations_of : ℕ → ℕ → ℕ → ℕ
confirmations_of current block required = min ((current + 1) % u64_mod - block) required

abbrev pub add_confirmation : List (Text × ℕ) → ℕ → SwapEvent → Confirmations → Confirmations
add_confirmation required current e m =
    elim (option_bind (parse_u64 e.tx_info.block_number)
      (λ b. Option.map (λ r. confirmations_of current b r) (lookup e.swap_id required))) [
        | none ↦ m
        | some conf ↦ push_confirmation conf e.swap_id m
      ]

unfoldable pub collect_initiated_event_confirmations :
    List SwapEvent → Confirmations → List (Text × ℕ) → ℕ → Confirmations
unfolding confirmations_of
collect_initiated_event_confirmations [] m required current = m
collect_initiated_event_confirmations (e ∷ es) m required current =
    collect_initiated_event_confirmations es
      (if is_initiate e.event_type then add_confirmation required current e m else m) required
      current

module _ (choice : Chooser) (c : Chain) (swaps : List SingleSwap)
    (orders : List (Text × OnChainOrder)) (current : ℕ) where
  -- The events of one range, stored if there are any, and their confirmations collected.
  unfoldable pub store_batch :
      List SwapEvent → Confirmations → List SingleSwap → Confirmations × List SingleSwap
  unfolding validate_events update_events collect_initiated_event_confirmations hash_map
  store_batch events confs t =
      let valid = validate_events swaps events in
      let required = hash_map (map (λ s. (s.swap_id, s.required_confirmations)) swaps) in
      if is_empty valid then (confs, t) else (
        collect_initiated_event_confirmations valid confs required current,
        update_events choice valid t,
      )

  abbrev pub prepared : Result WatchError Logs → Result WatchError (List SwapEvent)
  prepared (err e) = err stream_failed
  prepared (ok (v2, v3)) = prepare_store_events c.name c.get_block_time c.now v2 v3 orders

  -- The loop over the stream. An error leaves what was stored before it.
  unfoldable pub process_stream :
      List (Result WatchError Logs)
      → Confirmations
      → List SingleSwap
      → Result WatchError Confirmations × List SingleSwap
  unfolding store_batch prepare_store_events
  process_stream [] confs t = (ok confs, t)
  process_stream (batch ∷ batches) confs t = elim (prepared batch) [
    | err e ↦ (err e, t)
    | ok events ↦ let (confs', t') = store_batch events confs t in process_stream batches confs' t'
  ]

  abbrev pub store_confirmations :
      Result WatchError Confirmations × List SingleSwap
      → Result WatchError (Unit {0}) × List SingleSwap
  store_confirmations (err e, t) = (err e, t)
  store_confirmations (ok confs, t) = (ok tt, update_confirmations confs t)

  unfoldable pub process_events : List SingleSwap → Result WatchError (Unit {0}) × List SingleSwap
  unfolding create_event_blocks_ranges process_stream update_confirmations
  process_events t =
      let ranges = create_event_blocks_ranges orders c.max_block_span in
      if is_empty ranges
      then (ok tt, t)
      else store_confirmations (process_stream (map c.query ranges) [] t)

module _ (choice : Chooser) (c : Chain) where
  abbrev pub finished_at :
      ℕ
      → WatcherState
      → Result WatchError (Unit {0}) × List SingleSwap
      → Result WatchError (Unit {0}) × WatcherState
  finished_at current w (err e, t) = (err e, record w { swaps = t })
  finished_at current w (ok u, t) = (ok u, record w { swaps = t; previous_block = current })

  unfoldable pub watch_valid :
      ℕ
      → List SingleSwap × List (Text × OnChainOrder)
      → WatcherState
      → Result WatchError (Unit {0}) × WatcherState
  unfolding process_events
  watch_valid current (swaps, orders) w =
      if is_empty swaps || is_empty orders
      then (ok tt, w)
      else finished_at current w (process_events choice c swaps orders current w.swaps)

  abbrev pub watch_at :
      List SingleSwap
      → List (Text × OnChainOrder)
      → Result WatchError ℕ
      → WatcherState
      → Result WatchError (Unit {0}) × WatcherState
  watch_at swaps orders (err e) w = (err e, w)
  watch_at swaps orders (ok current) w =
      if ltb current w.previous_block
      then (ok tt, w)
      else watch_valid current (valid_swaps swaps orders current) w

  abbrev pub watch_orders :
      List SingleSwap
      → Result WatchError (List (Text × OnChainOrder))
      → WatcherState
      → Result WatchError (Unit {0}) × WatcherState
  watch_orders swaps (err e) w = (err e, w)
  watch_orders swaps (ok orders) w =
      if is_empty orders then (ok tt, w) else watch_at swaps orders c.get_block_number w

  -- `watch`, for what the cache has for the chain.
  unfoldable pub watch :
      Option (List SingleSwap) → WatcherState → Result WatchError (Unit {0}) × WatcherState
  unfolding fetch_onchain_orders valid_swaps watch_valid
  watch none w = (ok tt, w)
  watch (some swaps) w =
      if is_empty swaps then (ok tt, w) else watch_orders swaps (fetch_onchain_orders c swaps) w
