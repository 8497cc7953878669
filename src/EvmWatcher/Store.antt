-- ===== src/EvmWatcher/Store.antt =====
-- The table of swaps, evm-watcher/src/swaps/store.rs. A method is one or several statements `UPDATE` or `SELECT`;
use mathlib.Core.Option
-- the failures of the database are left out.
use uni_pay.EvmWatcher.Swaps.{SingleSwap, SwapEvent, SwapEventType, initiate, redeem, refund}
use uni_pay.Prelude.{
  Bool, List, Option, Text, [], contains, false, filter, get_elem?, if◌then◌else◌, is_empty,
  list_eq, ltb, map, min, nat_eq, none, not, some, to_lowercase, true, ℕ, ◌&&◌, ◌+◌, ◌==◌, ◌||◌,
  ◌∷◌, ◌≡◌,
}

-- `UPDATE … FROM`: where several rows of the source match, one of them is taken, and it is not said which.
pub record Chooser : Type 0 where
  pub choose : SwapEvent → List SwapEvent → SwapEvent
  pub choose_one :
      (e : SwapEvent) (es : List SwapEvent) → (i : ℕ) × (get_elem? (e ∷ es) i ≡ some (choose e es))

-- The columns by which an event and a row belong together.
unfoldable pub belongs : SwapEvent → SingleSwap → Bool
unfolding to_lowercase
belongs e s =
    to_lowercase s.swap_id == to_lowercase e.swap_id
    && to_lowercase s.redeemer == to_lowercase e.order.redeemer
    && to_lowercase s.asset == to_lowercase e.order.asset_address
    && to_lowercase s.chain == to_lowercase e.order.chain
    && s.timelock == e.order.timelock

-- An initiation also must not be more than a minute older than the swap.
unfoldable pub initiates : SwapEvent → SingleSwap → Bool
unfolding belongs
initiates e s = belongs e s && ltb s.created_at (e.tx_info.timestamp + 60)

abbrev pub set_initiated : SwapEvent → SingleSwap → SingleSwap
set_initiated e s = record s {
  filled_amount = e.order.amount;
  initiate_tx_hash = e.tx_info.tx_hash;
  initiate_block_number = some e.tx_info.block_number;
  initiate_timestamp = some e.tx_info.timestamp;
  current_confirmations = 1;
}

abbrev pub secret_of : SwapEventType → Text
secret_of (redeem secret) = secret
secret_of initiate = []
secret_of refund = []

abbrev pub set_redeemed : SwapEvent → SingleSwap → SingleSwap
set_redeemed e s = record s {
  redeem_tx_hash = e.tx_info.tx_hash;
  redeem_block_number = some e.tx_info.block_number;
  redeem_timestamp = some e.tx_info.timestamp;
  secret = secret_of e.event_type;
}

abbrev pub set_refunded : SwapEvent → SingleSwap → SingleSwap
set_refunded e s = record s {
  refund_tx_hash = e.tx_info.tx_hash;
  refund_block_number = some e.tx_info.block_number;
  refund_timestamp = some e.tx_info.timestamp;
}

abbrev pub is_initiate : SwapEventType → Bool
is_initiate initiate = true
is_initiate (redeem secret) = false
is_initiate refund = false

abbrev pub is_redeem : SwapEventType → Bool
is_redeem initiate = false
is_redeem (redeem secret) = true
is_redeem refund = false

abbrev pub is_refund : SwapEventType → Bool
is_refund initiate = false
is_refund (redeem secret) = false
is_refund refund = true

module _ (c : Chooser) where
  abbrev pub update_by :
      (SwapEvent → SingleSwap → SingleSwap) → List SwapEvent → SingleSwap → SingleSwap
  update_by write [] s = s
  update_by write (e ∷ es) s = write (c.choose e es) s

  -- One statement `UPDATE swaps SET … FROM events WHERE …`.
  unfoldable pub update_from :
      (SwapEvent → SingleSwap → Bool)
      → (SwapEvent → SingleSwap → SingleSwap)
      → List SwapEvent
      → List SingleSwap
      → List SingleSwap
  update_from matches write events t =
      map (λ s. update_by write (filter (λ e. matches e s) events) s) t

  unfoldable pub handle_inits : List SwapEvent → List SingleSwap → List SingleSwap
  unfolding update_from initiates
  handle_inits events t = update_from initiates set_initiated events t

  unfoldable pub handle_redeems : List SwapEvent → List SingleSwap → List SingleSwap
  unfolding update_from belongs
  handle_redeems events t = update_from belongs set_redeemed events t

  unfoldable pub handle_refunds : List SwapEvent → List SingleSwap → List SingleSwap
  unfolding update_from belongs
  handle_refunds events t = update_from belongs set_refunded events t

  -- Without an event of its type a statement is not run, and it would change nothing.
  unfoldable pub update_events : List SwapEvent → List SingleSwap → List SingleSwap
  unfolding handle_inits handle_redeems handle_refunds
  update_events events t = handle_refunds (filter (λ e. is_refund e.event_type) events) (
      handle_redeems (filter (λ e. is_redeem e.event_type) events)
        (handle_inits (filter (λ e. is_initiate e.event_type) events) t))

-- `LEAST(required_confirmations, $1)`
abbrev pub confirm : ℕ → List Text → SingleSwap → SingleSwap
confirm conf ids s =
    if contains ids s.swap_id
    then record s { current_confirmations = min s.required_confirmations conf }
    else s

unfoldable pub update_confirmations : List (ℕ × List Text) → List SingleSwap → List SingleSwap
update_confirmations [] t = t
update_confirmations ((conf, ids) ∷ m) t = update_confirmations m (map (confirm conf ids) t)

-- `get_swaps`: the pending swaps at a time, of the chains that are not ignored and the assets that are
-- supported, if there is a list of these.
pub record GardenSwapStore : Type 0 where
  pub ignore_chains : List Text
  pub supported_assets : Option (List Text)
  pub deadline_buffer : ℕ

-- `GardenSwapStore::new`
unfoldable pub new_store : List Text → ℕ → Option (List Text) → GardenSwapStore
unfolding to_lowercase
new_store ignore_chains deadline_buffer supported_assets = record {
  ignore_chains = map to_lowercase ignore_chains;
  supported_assets = Option.map (map to_lowercase) supported_assets;
  deadline_buffer = deadline_buffer;
}

abbrev pub supports : Option (List Text) → Text → Bool
supports none asset = true
supports (some assets) asset = contains assets asset

unfoldable pub is_pending : ℕ → ℕ → SingleSwap → Bool
is_pending buffer now s =
    (is_empty s.initiate_tx_hash && ltb now (s.created_at + buffer))
    || (not (is_empty s.initiate_tx_hash) && is_empty s.redeem_tx_hash && is_empty s.refund_tx_hash)

unfoldable pub get_swaps : GardenSwapStore → ℕ → List SingleSwap → List SingleSwap
unfolding is_pending to_lowercase
get_swaps g now t =
    filter
      (λ s.
        not (contains g.ignore_chains s.chain)
        && supports g.supported_assets (to_lowercase s.asset)
        && is_pending g.deadline_buffer now s)
      t
