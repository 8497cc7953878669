-- ===== src/EvmWatcher/Watcher/Examples.antt =====
-- A chain with two swaps, on which the theorems about the watcher apply.
use uni_pay.EvmWatcher.Events.{EventExt, V3Event, v3_initiated}
use uni_pay.EvmWatcher.Store.{Chooser}
use uni_pay.EvmWatcher.Swaps.{OnChainOrder, SingleSwap, is_empty_order}
use uni_pay.EvmWatcher.Watcher.{Chain, OnchainRequest, WatcherState, fetch_onchain_orders, watch}
use uni_pay.EvmWatcher.Watcher.Moves.{Moves}
use uni_pay.EvmWatcher.Watcher.Orders.{
  IsOwnOrder, fetch_onchain_orders-IsOwnOrder, fetch_onchain_orders-misaligned,
}
use uni_pay.EvmWatcher.Watcher.Watch.{watch-Moves}
use uni_pay.Prelude.{
  All, List, Option, Pairwise, String, Text, [], codes, false, if◌then◌else◌, is_empty, list_eq,
  map, nat_eq, none, ok, refl, some, ℕ, ◌==◌, ◌∷◌, ◌≡◌,
}

abbrev first_choice : Chooser
first_choice = record { choose = λ e es. e; choose_one = λ e es. (0, refl) }

abbrev swap_of : String → String → SingleSwap
swap_of id asset = record {
  swap_id = codes id;
  chain = codes "arb";
  asset = codes asset;
  redeemer = codes "0xR";
  timelock = 100;
  required_confirmations = 3;
  created_at = 1000;
  filled_amount = 0;
  current_confirmations = 0;
  initiate_tx_hash = [];
  initiate_block_number = none;
  initiate_timestamp = none;
  redeem_tx_hash = [];
  redeem_block_number = none;
  redeem_timestamp = none;
  secret = [];
  refund_tx_hash = [];
  refund_block_number = none;
  refund_timestamp = none;
}

abbrev order : OnChainOrder
order = record {
  initiator = codes "0xI";
  redeemer = codes "0xR";
  initiated_at = 50;
  timelock = 100;
  amount = 7;
  fulfilled_at = 0;
}

abbrev answer : OnchainRequest → Option OnChainOrder
answer r = if r.swap_id == codes "b" then some order else none

abbrev parse : Text → Option ℕ
parse s = if is_empty s then none else some 1

abbrev log : EventExt V3Event
log = record {
  event = v3_initiated (codes "0xb");
  address = codes "0xa";
  block_number = some 50;
  transaction_hash = some (codes "0xt");
}

abbrev chain : Chain
chain = record {
  name = codes "arb";
  max_block_span = 10;
  parse_address = parse;
  get_orders = λ rs. ok (map answer rs);
  get_block_number = ok 51;
  query = λ r. ok ([], log ∷ []);
  get_block_time = λ b. ok 2000;
  now = 3000;
}

abbrev two_swaps : List SingleSwap
two_swaps = swap_of "a" "0xA" ∷ swap_of "b" "0xA" ∷ []

abbrev state : WatcherState
state = record { swaps = two_swaps; previous_block = 40 }

abbrev filled : SingleSwap
filled = record (swap_of "b" "0xA") {
  filled_amount = 7;
  current_confirmations = 2;
  initiate_tx_hash = codes "0xt";
  initiate_block_number = some 50;
  initiate_timestamp = some 2000;
}

watch_test :
    watch first_choice chain (some two_swaps) state
    ≡ (ok tt, record { swaps = swap_of "a" "0xA" ∷ filled ∷ []; previous_block = 51 })
unfolding watch
watch_test = refl

watch-Moves_example :
    Pairwise (Moves two_swaps) state.swaps (watch first_choice chain (some two_swaps) state).1.swaps
watch-Moves_example = watch-Moves two_swaps first_choice chain state

fetched_lem : fetch_onchain_orders chain two_swaps ≡ ok ((codes "b", order) ∷ [])
unfolding fetch_onchain_orders
fetched_lem = refl

fetch_onchain_orders-IsOwnOrder_example :
    All (IsOwnOrder chain answer two_swaps) ((codes "b", order) ∷ [])
fetch_onchain_orders-IsOwnOrder_example =
    fetch_onchain_orders-IsOwnOrder chain answer two_swaps ((codes "b", order) ∷ []) (λ rs. refl)
      (refl, (refl, tt)) fetched_lem

not_empty_lem : is_empty_order order ≡ false
unfolding is_empty_order
not_empty_lem = refl

fetch_onchain_orders-misaligned_example :
    fetch_onchain_orders chain (swap_of "c" "" ∷ swap_of "b" "0xA" ∷ [])
    ≡ ok ((codes "c", order) ∷ [])
fetch_onchain_orders-misaligned_example =
    fetch_onchain_orders-misaligned chain (swap_of "c" "") (swap_of "b" "0xA") 1 order refl refl
      refl not_empty_lem
