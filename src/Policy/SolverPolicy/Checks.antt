-- ===== src/Policy/SolverPolicy/Checks.antt =====
-- What a policy of Tars-rs/crates/policy/src/solver_policy.rs accepts and answers, and the queries over the policies
-- of all solvers in policy.rs there.
use uni_pay.Policy.Assets.{AssetId}
use uni_pay.Policy.Collections.{asset_id_beq, contains_key, find_map, is_asset_id_match}
use uni_pay.Policy.SolverPolicy.{
  PolicyError, Rules, SolverPolicy, blacklisted, destination_isolated, same_asset, source_isolated,
  unknown_solver, unsupported_assets,
}
use uni_pay.Prelude.{
  Bool, List, Option, Result, String, [], any, err, fail_if, if◌then◌else◌, list_eq, nat_eq, none,
  not, ok, ok_or, some, string_eq, unwrap_or, ℕ, ◌&&◌, ◌==◌, ◌>>=◌, ◌>>◌, ◌||◌, ◌∷◌,
}

-- The first rule of a table whose key matches the asset.
unfoldable pub allowed_by : Rules → AssetId → Option (List AssetId)
unfolding is_asset_id_match
allowed_by [] a = none
allowed_by ((key, allowed) ∷ rules) a =
    if is_asset_id_match a key then some allowed else allowed_by rules a

module _ {Fee : Type 0} (p : SolverPolicy Fee) where
  unfoldable pub is_asset_supported : AssetId → Bool
  is_asset_supported a = any (λ x. asset_id_beq x a) p.supported_assets

  unfoldable pub are_assets_supported : AssetId → AssetId → Result PolicyError (Unit {0})
  unfolding is_asset_supported
  are_assets_supported s d =
      fail_if (not (is_asset_supported s) || not (is_asset_supported d)) unsupported_assets

  abbrev pub inbound : Option (List AssetId) → AssetId → Result PolicyError (Unit {0})
  inbound none s = ok tt
  inbound (some sources) s =
      fail_if (not (any (λ rule. is_asset_id_match rule s) sources)) destination_isolated

  abbrev pub outbound : Option (List AssetId) → AssetId → AssetId → Result PolicyError (Unit {0})
  outbound (some destinations) s d =
      fail_if (not (any (λ rule. is_asset_id_match rule d) destinations)) source_isolated
  outbound none s d = inbound (allowed_by p.isolation_rules.destination_to_source d) s

  -- The first loop of `is_not_isolated` returns at the first rule for the source, whatever the second would.
  unfoldable pub is_not_isolated : AssetId → AssetId → Result PolicyError (Unit {0})
  unfolding allowed_by is_asset_id_match
  is_not_isolated s d = outbound (allowed_by p.isolation_rules.source_to_destination s) s d

  unfoldable pub is_not_blacklisted : AssetId → AssetId → Result PolicyError (Unit {0})
  unfolding contains_key
  is_not_blacklisted s d =
      fail_if (contains_key s d p.blacklist_pairs && not (contains_key s d p.whitelist_overrides))
        blacklisted

  unfoldable pub validate_asset_pair : AssetId → AssetId → Result PolicyError (Unit {0})
  unfolding are_assets_supported is_not_isolated is_not_blacklisted
  validate_asset_pair s d = do
    fail_if (asset_id_beq s d) same_asset
    are_assets_supported s d
    is_not_isolated s d
    is_not_blacklisted s d

  unfoldable pub get_fee : AssetId → AssetId → Fee
  unfolding find_map
  get_fee s d = unwrap_or p.default_fee (find_map s d (λ o. o.fee) p.overrides)

  unfoldable pub get_max_slippage : AssetId → AssetId → ℕ
  unfolding find_map
  get_max_slippage s d =
      unwrap_or p.default_max_slippage (find_map s d (λ o. o.max_slippage) p.overrides)

  unfoldable pub get_confirmation_target : AssetId → AssetId → ℕ
  unfolding find_map
  get_confirmation_target s d =
      unwrap_or p.default_confirmation_target
        (find_map s d (λ o. o.confirmation_target) p.overrides)

  unfoldable pub validate_and_get_fee : AssetId → AssetId → Result PolicyError Fee
  unfolding validate_asset_pair get_fee
  validate_and_get_fee s d = validate_asset_pair s d >> ok (get_fee s d)

-- The policies by the solver's id.
abbrev pub Solvers : Type 0 → Type 0
Solvers Fee = List (String × SolverPolicy Fee)

module _ {Fee : Type 0} where
  abbrev pub fee_entry : String → Result PolicyError Fee → List (String × Fee) → List (String × Fee)
  fee_entry id (ok fee) rest = (id, fee) ∷ rest
  fee_entry id (err e) rest = rest

  -- `Policy::get_solvers_for_pair`
  unfoldable pub get_solvers_for_pair : AssetId → AssetId → Solvers Fee → List (String × Fee)
  unfolding validate_and_get_fee
  get_solvers_for_pair s d [] = []
  get_solvers_for_pair s d ((id, p) ∷ solvers) =
      fee_entry id (validate_and_get_fee p s d) (get_solvers_for_pair s d solvers)

  abbrev pub find_solver : String → Solvers Fee → Option (SolverPolicy Fee)
  find_solver id [] = none
  find_solver id ((k, p) ∷ solvers) = if k == id then some p else find_solver id solvers

  -- `Policy::validate_route_and_get_fee`
  unfoldable pub validate_route_and_get_fee :
      AssetId → AssetId → String → Solvers Fee → Result PolicyError Fee
  unfolding validate_and_get_fee
  validate_route_and_get_fee s d id solvers =
      ok_or (find_solver id solvers) unknown_solver >>= λ p. validate_and_get_fee p s d
