-- ===== src/Policy/Examples.antt =====
-- A policy of four routes, on which the theorems about policies apply.
use Prim.Native.Nat.{Ordering}
use Prim.Native.Nat.Ordering.{lt, eq, gt}
use uni_pay.Policy.Assets.{
  AssetId, AssetPair, PairDirection, asset_pair_from_str, asset_pair_to_string, both, empty_part,
  forward,
}
use uni_pay.Policy.Assets.Parsed.{asset_pair_from_str_again}
use uni_pay.Policy.Assets.RoundTrip.{IsPlainPair}
use uni_pay.Policy.Collections.{AllBefore, BinarySearch, IsPartitioned, asset_id_beq}
use uni_pay.Policy.SolverPolicy.{
  Overrides, RouteOverride, SolverPolicy, SolverPolicyConfig, new_policy, open_policy,
}
use uni_pay.Policy.SolverPolicy.Answers.{text_answers}
use uni_pay.Policy.SolverPolicy.Arcs.{arcs, turned}
use uni_pay.Policy.SolverPolicy.Built.{text_names, validate_asset_pair_iff}
use uni_pay.Policy.SolverPolicy.Checks.{
  get_fee, is_not_isolated, validate_and_get_fee, validate_asset_pair,
}
use uni_pay.Policy.SolverPolicy.Chosen.{IsKey}
use uni_pay.Policy.SolverPolicy.Isolation.{Admits}
use uni_pay.Policy.SolverPolicy.RouteFee.{IsRouteFee, get_fee-IsRouteFee}
use uni_pay.Prelude.{
  All-weaken, List, Option, String, Text, [], any, codes, err, false, none, not, ok, refl, some,
  suc, sym, true, ℕ, ◌&&◌, ◌||◌, ◌↔◌, ◌∙◌, ◌∷◌, ◌≡◌, ◌≢◌,
}

-- The place after the elements that are less.
abbrev leading : List Ordering → ℕ
leading (lt ∷ os) = suc (leading os)
leading _ = 0

not_lt : (o : Ordering) → o ≡ gt → o ≢ lt
not_lt o e l = gt≢lt (sym e ∙ l)
  where
    gt≢lt : gt ≢ lt
    gt≢lt h = cc

leading_splits : (os : List Ordering) → IsPartitioned os → AllBefore (leading os) os
leading_splits [] h = tt
leading_splits (lt ∷ os) h = ((λ e. cc), leading_splits os h)
leading_splits (eq ∷ os) h = ((λ e. cc), h.0)
leading_splits (gt ∷ os) h = ((λ e. cc), All-weaken os (λ o e. not_lt o e) h.0)

abbrev search_first : BinarySearch
search_first = record { position = leading; position_splits = leading_splits }

abbrev no_overrides : Overrides ℕ
no_overrides = record {
  fee = none;
  max_slippage = none;
  confirmation_target = none;
  source_amount = none;
}

abbrev override : String → Option ℕ → RouteOverride ℕ
override route fee = record { route = codes route; overrides = record no_overrides { fee = fee } }

abbrev config : SolverPolicyConfig ℕ
config = record {
  default = open_policy;
  isolation_groups = codes "b:x -> *:*" ∷ codes "a:s <-> e:s" ∷ [];
  blacklist_pairs = codes "b:x -> e:*" ∷ [];
  whitelist_overrides = codes "b:x <-> e:s" ∷ [];
  default_fee = 30;
  default_max_slippage = 5;
  default_confirmation_target = 2;
  overrides =
      override "*:* -> *:*" (some 20)
      ∷ override "b:x -> e:s" none
      ∷ override "b:x -> *:s" (some 10)
      ∷ [];
  max_limits = [];
}

abbrev asset : String → String → AssetId
asset chain token = record { chain = codes chain; token = codes token }

abbrev asset_texts : List Text
asset_texts = codes "b:x" ∷ codes "e:s" ∷ codes "a:s" ∷ []

parsed_lem : asset_pair_from_str (codes "  b:x\t<->   e: ") ≡ err empty_part
unfolding asset_pair_from_str
parsed_lem = refl

abbrev rule : String → String → String → String → PairDirection → AssetPair
rule sc st dc dt direction = record {
  source = asset sc st;
  direction = direction;
  destination = asset dc dt;
}

abbrev policy : SolverPolicy ℕ
policy = record {
  default = open_policy;
  isolation_rules = record {
    source_to_destination =
        (asset "a" "s", asset "e" "s" ∷ [])
        ∷ (asset "b" "x", asset "*" "*" ∷ [])
        ∷ (asset "e" "s", asset "a" "s" ∷ [])
        ∷ [];
    destination_to_source =
        (asset "a" "s", asset "e" "s" ∷ [])
        ∷ (asset "e" "s", asset "a" "s" ∷ [])
        ∷ (asset "*" "*", asset "b" "x" ∷ [])
        ∷ [];
  };
  blacklist_pairs = (rule "b" "x" "e" "*" forward, tt) ∷ [];
  whitelist_overrides = (rule "b" "x" "e" "s" both, tt) ∷ [];
  default_fee = 30;
  default_max_slippage = 5;
  default_confirmation_target = 2;
  overrides =
      (rule "b" "x" "e" "s" forward, no_overrides)
      ∷ (rule "b" "x" "*" "s" forward, record no_overrides { fee = some 10 })
      ∷ (rule "*" "*" "*" "*" forward, record no_overrides { fee = some 20 })
      ∷ [];
  supported_assets = asset "b" "x" ∷ asset "e" "s" ∷ asset "a" "s" ∷ [];
  max_limits = [];
}

policy_lem : new_policy search_first config asset_texts ≡ ok policy
unfolding new_policy
policy_lem = refl

-- The isolated asset takes what the source's own rules let out.
leak_test : is_not_isolated policy (asset "b" "x") (asset "e" "s") ≡ ok tt
unfolding is_not_isolated
leak_test = refl

whitelisted_test : validate_and_get_fee policy (asset "b" "x") (asset "e" "s") ≡ ok 10
unfolding validate_and_get_fee
whitelisted_test = refl

validate_asset_pair_iff_example :
    (o o' : Option AssetId) × IsKey (arcs config.isolation_groups) (asset "b" "x") o
    × IsKey (turned (arcs config.isolation_groups)) (asset "e" "s") o'
    × ((validate_asset_pair policy (asset "b" "x") (asset "e" "s") ≡ ok tt) ↔ (
        (asset_id_beq (asset "b" "x") (asset "e" "s") ≡ false)
        × (any (text_names (asset "b" "x")) asset_texts
              && any (text_names (asset "e" "s")) asset_texts
            ≡ true)
        × Admits (arcs config.isolation_groups) (asset "b" "x") (asset "e" "s") o o'
        × (not (any (text_answers (asset "b" "x") (asset "e" "s")) config.blacklist_pairs)
              || any (text_answers (asset "b" "x") (asset "e" "s")) config.whitelist_overrides
            ≡ true)))
validate_asset_pair_iff_example =
    validate_asset_pair_iff search_first config asset_texts policy policy_lem (asset "b" "x")
      (asset "e" "s")

get_fee-IsRouteFee_example :
    IsRouteFee config.overrides 30
      (asset "b" "x")
      (asset "e" "s")
      (get_fee policy (asset "b" "x") (asset "e" "s"))
get_fee-IsRouteFee_example =
    get_fee-IsRouteFee search_first config asset_texts policy (asset "b" "x") (asset "e" "s")
      policy_lem

spaced_lem : asset_pair_from_str (codes "  b:x\t<->   e:s ") ≡ ok (rule "b" "x" "e" "s" both)
unfolding asset_pair_from_str
spaced_lem = refl

asset_pair_from_str_again_example :
    IsPlainPair (rule "b" "x" "e" "s" both)
    × (asset_pair_from_str (asset_pair_to_string (rule "b" "x" "e" "s" both))
        ≡ ok (rule "b" "x" "e" "s" both))
asset_pair_from_str_again_example =
    asset_pair_from_str_again (codes "  b:x\t<->   e:s ") (rule "b" "x" "e" "s" both) spaced_lem
