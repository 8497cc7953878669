-- ===== src/Policy/SolverPolicy.antt =====
-- The policy of one solver and its construction, Tars-rs/crates/policy/src/solver_policy.rs. A hash map is an
-- association list with a value for each key; a set is a list. Fees have an `f64`, a type of its own;
-- amounts are natural numbers.
pub mod Checks
pub mod Answers
pub mod Built
pub mod Configured
pub mod Arcs
pub mod Chosen
pub mod Isolation
pub mod RouteFee
use Prim.Native.Nat.{compare, Ordering}
use Prim.Native.Nat.Ordering.{gt}
use uni_pay.Policy.Assets.{AssetId, AssetPair, ParseError, asset_id_from_str, asset_pair_from_str}
use uni_pay.Policy.Collections.{
  BinarySearch, PolicyMap, PolicySet, asset_id_beq, calculate_asset_specificity, insert, is_both,
}
use uni_pay.Prelude.{
  Bool, List, Option, Result, Text, [], collect, compare_list, err, false, flip, if◌then◌else◌, min,
  ok, string_eq, then_with, true, ℕ, ◌++◌, ◌>>=◌, ◌>>◌, ◌∷◌,
}
use uni_pay.Wallet.Types.{default}

pub data DefaultPolicy : Type 0 where
  open_policy : DefaultPolicy
  closed_policy : DefaultPolicy

pub record SourceAmount : Type 0 where
  pub min : ℕ
  pub max : ℕ

-- `Fee` is a parameter: the policy hands fees on as they are.
pub record Overrides (Fee : Type 0) : Type 0 where
  pub fee : Option Fee
  pub max_slippage : Option ℕ
  pub confirmation_target : Option ℕ
  pub source_amount : Option SourceAmount

pub record RouteOverride (Fee : Type 0) : Type 0 where
  pub route : Text
  pub overrides : Overrides Fee

pub record SolverPolicyConfig (Fee : Type 0) : Type 0 where
  pub default : DefaultPolicy
  pub isolation_groups : List Text
  pub blacklist_pairs : List Text
  pub whitelist_overrides : List Text
  pub default_fee : Fee
  pub default_max_slippage : ℕ
  pub default_confirmation_target : ℕ
  pub overrides : List (RouteOverride Fee)
  pub max_limits : List (AssetId × ℕ)

abbrev pub Rules : Type 0
Rules = List (AssetId × List AssetId)

pub record IsolationRules : Type 0 where
  pub source_to_destination : Rules
  pub destination_to_source : Rules

pub record SolverPolicy (Fee : Type 0) : Type 0 where
  pub default : DefaultPolicy
  pub isolation_rules : IsolationRules
  pub blacklist_pairs : PolicySet
  pub whitelist_overrides : PolicySet
  pub default_fee : Fee
  pub default_max_slippage : ℕ
  pub default_confirmation_target : ℕ
  pub overrides : PolicyMap (Overrides Fee)
  pub supported_assets : List AssetId
  pub max_limits : List (AssetId × ℕ)

pub data PolicyError : Type 0 where
  invalid_asset_id : PolicyError
  invalid_asset_pair : PolicyError
  same_asset : PolicyError
  unsupported_assets : PolicyError
  source_isolated : PolicyError
  destination_isolated : PolicyError
  blacklisted : PolicyError
  unknown_solver : PolicyError

-- `map_err`
abbrev or_policy_error : {A : Type 0} → PolicyError → Result ParseError A → Result PolicyError A
or_policy_error e (ok a) = ok a
or_policy_error e (err _) = err e

unfoldable pub parse_pair : Text → Result PolicyError AssetPair
unfolding asset_pair_from_str
parse_pair s = or_policy_error invalid_asset_pair (asset_pair_from_str s)

unfoldable pub parse_asset : Text → Result PolicyError AssetId
unfolding asset_id_from_str
parse_asset s = or_policy_error invalid_asset_id (asset_id_from_str s)

-- `entry(key).or_insert(Vec::new()).push(value)`
unfoldable pub push_rule : AssetId → AssetId → Rules → Rules
push_rule key value [] = (key, value ∷ []) ∷ []
push_rule key value ((k, vs) ∷ rules) =
    if asset_id_beq k key
    then (k, vs ++ value ∷ []) ∷ rules
    else (k, vs) ∷ push_rule key value rules

-- The rules of one isolation group, in both tables.
unfoldable pub add_group : AssetPair → IsolationRules → IsolationRules
unfolding push_rule
add_group p r =
    let outgoing = push_rule p.source p.destination r.source_to_destination in
    let incoming = push_rule p.destination p.source r.destination_to_source in
    if is_both p.direction
    then record {
      source_to_destination = push_rule p.destination p.source outgoing;
      destination_to_source = push_rule p.source p.destination incoming;
    }
    else record { source_to_destination = outgoing; destination_to_source = incoming }

unfoldable pub add_groups : List Text → IsolationRules → Result PolicyError IsolationRules
unfolding parse_pair add_group
add_groups [] r = ok r
add_groups (g ∷ gs) r = parse_pair g >>= λ p. add_groups gs (add_group p r)

-- The more specific asset first, then by chain and token.
unfoldable pub compare_asset_specificity : AssetId → AssetId → Ordering
unfolding calculate_asset_specificity
compare_asset_specificity a b =
    then_with (flip (compare (calculate_asset_specificity a) (calculate_asset_specificity b)))
      (then_with (compare_list a.chain b.chain) (compare_list a.token b.token))

abbrev pub is_gt : Ordering → Bool
is_gt gt = true
is_gt _ = false

-- `sort_by` is stable.
unfoldable pub insert_rule : AssetId × List AssetId → Rules → Rules
unfolding compare_asset_specificity
insert_rule r [] = r ∷ []
insert_rule r (x ∷ xs) =
    if is_gt (compare_asset_specificity r.0 x.0) then x ∷ insert_rule r xs else r ∷ x ∷ xs

unfoldable pub sort_rules : Rules → Rules
unfolding insert_rule
sort_rules [] = []
sort_rules (r ∷ rs) = insert_rule r (sort_rules rs)

unfoldable pub pair_set : BinarySearch → List Text → PolicySet → Result PolicyError PolicySet
unfolding parse_pair insert
pair_set search [] m = ok m
pair_set search (s ∷ ss) m = parse_pair s >>= λ p. pair_set search ss (insert search p tt m)

module _ {Fee : Type 0} where
  unfoldable pub override_map :
      BinarySearch
      → List (RouteOverride Fee)
      → PolicyMap (Overrides Fee)
      → Result PolicyError (PolicyMap (Overrides Fee))
  unfolding parse_pair insert
  override_map search [] m = ok m
  override_map search (o ∷ os) m =
      parse_pair o.route >>= λ p. override_map search os (insert search p o.overrides m)

  -- `SolverPolicy::new`
  unfoldable pub new_policy :
      BinarySearch → SolverPolicyConfig Fee → List Text → Result PolicyError (SolverPolicy Fee)
  unfolding parse_asset add_groups sort_rules pair_set override_map
  new_policy search c assets = do
    supported ← collect parse_asset assets
    rules ←
        add_groups c.isolation_groups
          (record { source_to_destination = []; destination_to_source = [] })
    blacklist ← pair_set search c.blacklist_pairs []
    whitelist ← pair_set search c.whitelist_overrides []
    routes ← override_map search c.overrides []
    ok (record {
      default = c.default;
      isolation_rules = record {
        source_to_destination = sort_rules rules.source_to_destination;
        destination_to_source = sort_rules rules.destination_to_source;
      };
      blacklist_pairs = blacklist;
      whitelist_overrides = whitelist;
      default_fee = c.default_fee;
      default_max_slippage = c.default_max_slippage;
      default_confirmation_target = c.default_confirmation_target;
      overrides = routes;
      supported_assets = supported;
      max_limits = c.max_limits;
    })
