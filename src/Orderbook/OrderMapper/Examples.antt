-- ===== src/Orderbook/OrderMapper/Examples.antt =====
-- A concrete order. Prices are numbers here, with an integer division.
use uni_pay.Orderbook.OrderMapper.{
  Floats, OrderMapper, Surroundings, can_initiate, can_instant_refund, can_refund,
  check_destination_chain_actions, check_price_threshold, check_source_chain_actions,
  has_destination_refund_only, has_redeem, has_refund, has_valid_initiate, is_chain_supported,
  is_deadline_expired, is_swap_completed, map_order, passes_additional_check,
  validate_price_threshold,
}
use uni_pay.Orderbook.OrderMapper.Safety.{Justifies, map_order-Justifies}
use uni_pay.Orderbook.Types.{
  MatchedOrderVerbose, SingleSwap, get_order_pair, initiate, maybe_is_some,
}
use uni_pay.Prelude.{[], false, leb, none, ok, refl, some, ℕ, ◌*◌, ◌+◌, ◌-◌, ◌/◌, ◌∷◌, ◌≡◌}

abbrev numbers : Floats ℕ
numbers = record {
  zero_float = 0;
  one_float = 1;
  sub = λ a b. a - b;
  plus = λ a b. a + b;
  mul = λ a b. a * b;
  div = λ a b. a / b;
  le_float = leb;
}

abbrev outside : Surroundings ℕ
outside = record {
  get_price = λ pair. ok (100, 100);
  from_timestamp = λ t. some t;
  from_hex = λ s. some (1 ∷ []);
  now = 1000;
}

abbrev mapper : OrderMapper ℕ
mapper = record {
  price_drop_threshold = 1;
  supported_chains = "arbitrum" ∷ [];
  additional_checks = λ a. none;
}

abbrev source : SingleSwap
source = record {
  created_at = 900;
  chain = "bitcoin";
  asset = "btc";
  timelock = 144;
  filled_amount = 5000;
  amount = 5000;
  secret = "";
  initiate_tx_hash = "aa";
  redeem_tx_hash = "";
  refund_tx_hash = "";
  initiate_block_number = some 10;
  refund_block_number = none;
  required_confirmations = 1;
  current_confirmations = 0;
}

abbrev destination : SingleSwap
destination = record source {
  chain = "arbitrum";
  asset = "wbtc";
  initiate_tx_hash = "";
  initiate_block_number = none;
}

abbrev order : MatchedOrderVerbose ℕ
order = record {
  created_at = 900;
  source_swap = source;
  destination_swap = destination;
  additional_data = record {
    input_token_price = 100;
    output_token_price = 100;
    deadline = 2000;
    is_blacklisted = false;
  };
}

initiates_lem :
    map_order numbers outside mapper order (some 20)
    ≡ ok (record { action = initiate; swap = some destination })
unfolding map_order check_destination_chain_actions check_source_chain_actions is_chain_supported
    can_refund can_initiate can_instant_refund passes_additional_check has_valid_initiate has_refund
    has_redeem is_swap_completed maybe_is_some has_destination_refund_only is_deadline_expired
    check_price_threshold validate_price_threshold get_order_pair
initiates_lem = refl

map_order-Justifies_example : Justifies numbers outside mapper order (some 20) initiate
map_order-Justifies_example =
    map_order-Justifies numbers outside mapper order (some 20)
      (record { action = initiate; swap = some destination }) initiates_lem
