-- ===== src/Policy/SolverPolicy/Built.antt =====
-- What a policy that policy/src/solver_policy.rs builds from a configuration accepts.
use mathlib.Core.Path.{subst}
use uni_pay.Policy.Assets.{AssetId}
use uni_pay.Policy.Collections.{BinarySearch, PolicySet, asset_id_beq, contains_key}
use uni_pay.Policy.SolverPolicy.{
  PolicyError, SolverPolicy, SolverPolicyConfig, add_groups, blacklisted, new_policy, override_map,
  pair_set, parse_asset, same_asset, sort_rules, unsupported_assets,
}
use uni_pay.Policy.SolverPolicy.Answers.{contains_key-any_answers, pair_set_answers, text_answers}
use uni_pay.Policy.SolverPolicy.Arcs.{add_groups-arcs, arcs, push_arcs, turned}
use uni_pay.Policy.SolverPolicy.Checks.{
  are_assets_supported, is_asset_supported, is_not_blacklisted, is_not_isolated,
  validate_asset_pair,
}
use uni_pay.Policy.SolverPolicy.Chosen.{IsKey}
use uni_pay.Policy.SolverPolicy.Isolation.{Admits, is_not_isolated_iff}
use uni_pay.Prelude.{
  Bool, List, Option, Result, Text, [], any, ap, arith, bind_ok, collect, err, fail_if, fail_if_ok,
  false, not, ok, ok_injective, or_false, refl, sym, then_ok, true, ◌&&◌, ◌>>◌, ◌||◌, ◌↔◌, ◌∙◌, ◌∷◌,
  ◌≡◌,
}
use uni_pay.SolverOrders.Grouped.{listed}

-- The chain of checks, for the values that they look at.
checks_iff :
    (same s d b w : Bool) (isolated : Result PolicyError (Unit {0}))
    → ((fail_if same same_asset
          >> (fail_if (not s || not d) unsupported_assets
              >> (isolated >> fail_if (b && not w) blacklisted)))
        ≡ ok tt)
      ↔ ((same ≡ false) × (s && d ≡ true) × (isolated ≡ ok tt) × (not b || w ≡ true))
checks_iff same s d b w isolated = (accepted_by, accepts)
  where
    accepted_by :
        (fail_if same same_asset
            >> (fail_if (not s || not d) unsupported_assets
                >> (isolated >> fail_if (b && not w) blacklisted)))
          ≡ ok tt
        → (same ≡ false) × (s && d ≡ true) × (isolated ≡ ok tt) × (not b || w ≡ true)
    accepted_by e =
        let (differ, e1) = then_ok (fail_if same same_asset) _ e in
        let (supported, e2) = then_ok (fail_if (not s || not d) unsupported_assets) _ e1 in
        let (apart, e3) = then_ok isolated _ e2 in
        let different = fail_if_ok same same_asset differ in
        let both_in = fail_if_ok (not s || not d) unsupported_assets supported in
        let listed = fail_if_ok (b && not w) blacklisted e3 in
        (different, ground arith, apart, ground arith)

    accepts :
        (same ≡ false) × (s && d ≡ true) × (isolated ≡ ok tt) × (not b || w ≡ true)
        → (fail_if same same_asset
            >> (fail_if (not s || not d) unsupported_assets
                >> (isolated >> fail_if (b && not w) blacklisted)))
          ≡ ok tt
    accepts (different, both_in, apart, listed) =
        let all_in : (not s || not d) ≡ false = ground arith in
        let unlisted : (b && not w) ≡ false = ground arith in
        rw (different, all_in, apart, unlisted)

abbrev pub names_asset : AssetId → Result PolicyError AssetId → Bool
names_asset a (ok x) = asset_id_beq x a
names_asset a (err e) = false

-- Whether a text stands for the asset.
abbrev pub text_names : AssetId → Text → Bool
text_names a t = names_asset a (parse_asset t)

collect_names :
    (a : AssetId) (ts : List Text) (xs : List AssetId)
    → collect parse_asset ts ≡ ok xs
    → any (λ x. asset_id_beq x a) xs ≡ any (text_names a) ts
collect_names a [] xs e = ap (any (λ x. asset_id_beq x a)) (sym (ok_injective e refl refl))
collect_names a (t ∷ ts) xs e =
    let (x, parsed, e1) = bind_ok (parse_asset t) _ e in
    let (rest, more, e2) = bind_ok (collect parse_asset ts) _ e1 in
    ap (any (λ y. asset_id_beq y a)) (sym (ok_injective e2 refl refl))
    ∙ ap (λ b. asset_id_beq x a || b) (collect_names a ts rest more)
    ∙ ap (λ q. names_asset a q || any (text_names a) ts) (sym parsed)

-- Which tables a policy has that was built from a configuration.
module _ {Fee : Type 0} (search : BinarySearch) (c : SolverPolicyConfig Fee) (assets : List Text)
    (p : SolverPolicy Fee) (built : new_policy search c assets ≡ ok p) where
  -- What the policy supports, and its isolation tables.
  rules_of :
      (collect parse_asset assets ≡ ok p.supported_assets)
      × (p.isolation_rules.source_to_destination
          ≡ sort_rules (push_arcs (arcs c.isolation_groups) []))
      × (p.isolation_rules.destination_to_source
          ≡ sort_rules (push_arcs (turned (arcs c.isolation_groups)) []))
  unfolding new_policy
  rules_of =
      let (supported, a, e1) = bind_ok (collect parse_asset assets) _ built in
      let (rules, g, e2) = bind_ok (add_groups c.isolation_groups _) _ e1 in
      let (blacklist, b, e3) = bind_ok (pair_set search c.blacklist_pairs []) _ e2 in
      let (whitelist, w, e4) = bind_ok (pair_set search c.whitelist_overrides []) _ e3 in
      let (routes, o, e5) = bind_ok (override_map search c.overrides []) _ e4 in
      let whole = ok_injective e5 refl refl in
      let (out, back) = add_groups-arcs c.isolation_groups _ rules g in
      (
        a ∙ ap (λ q. ok q.supported_assets) whole,
        ap (λ q. q.isolation_rules.source_to_destination) (sym whole) ∙ ap sort_rules out,
        ap (λ q. q.isolation_rules.destination_to_source) (sym whole) ∙ ap sort_rules back,
      )

  pub tables :
      (pair_set search c.blacklist_pairs [] ≡ ok p.blacklist_pairs)
      × (pair_set search c.whitelist_overrides [] ≡ ok p.whitelist_overrides)
      × (override_map search c.overrides [] ≡ ok p.overrides)
      × (c.default_fee ≡ p.default_fee)
  unfolding new_policy
  tables =
      let (supported, _, e1) = bind_ok (collect parse_asset assets) _ built in
      let (rules, _, e2) = bind_ok (add_groups c.isolation_groups _) _ e1 in
      let (blacklist, b, e3) = bind_ok (pair_set search c.blacklist_pairs []) _ e2 in
      let (whitelist, w, e4) = bind_ok (pair_set search c.whitelist_overrides []) _ e3 in
      let (routes, o, e5) = bind_ok (override_map search c.overrides []) _ e4 in
      let whole = ok_injective e5 refl refl in
      (
        b ∙ ap (λ q. ok q.blacklist_pairs) whole,
        w ∙ ap (λ q. ok q.whitelist_overrides) whole,
        o ∙ ap (λ q. ok q.overrides) whole,
        ap (λ q. q.default_fee) whole,
      )

  -- The checks of a built policy, by the texts of its two lists.
  checked_iff :
      (s d : AssetId)
      → (validate_asset_pair p s d ≡ ok tt) ↔ (
          (asset_id_beq s d ≡ false)
          × (is_asset_supported p s && is_asset_supported p d ≡ true)
          × (is_not_isolated p s d ≡ ok tt)
          × (not (any (text_answers s d) c.blacklist_pairs)
                || any (text_answers s d) c.whitelist_overrides
              ≡ true))
  unfolding validate_asset_pair are_assets_supported is_not_blacklisted
  checked_iff s d =
      let isolated = is_not_isolated p s d in
      let supported =
        checks_iff (asset_id_beq s d) (is_asset_supported p s) (is_asset_supported p d) in
      subst
        (λ b. (validate_asset_pair p s d ≡ ok tt) ↔ (
          (asset_id_beq s d ≡ false)
          × (is_asset_supported p s && is_asset_supported p d ≡ true)
          × (isolated ≡ ok tt)
          × (not b || any (text_answers s d) c.whitelist_overrides ≡ true)))
        (listed s d p.blacklist_pairs c.blacklist_pairs tables.0)
        (subst
          (λ w. (validate_asset_pair p s d ≡ ok tt) ↔ (
            (asset_id_beq s d ≡ false)
            × (is_asset_supported p s && is_asset_supported p d ≡ true)
            × (isolated ≡ ok tt)
            × (not (contains_key s d p.blacklist_pairs) || w ≡ true)))
          (listed s d p.whitelist_overrides c.whitelist_overrides tables.1)
          (supported (contains_key s d p.blacklist_pairs) (contains_key s d p.whitelist_overrides)
            isolated))
    where
      listed :
          (s d : AssetId) (m : PolicySet) (ts : List Text)
          → pair_set search ts [] ≡ ok m
          → contains_key s d m ≡ any (text_answers s d) ts
      listed s d m ts e =
          contains_key-any_answers s d m
          ∙ pair_set_answers search s d ts [] m e
          ∙ or_false (any (text_answers s d) ts)

  -- Of a policy that was built from a configuration there are two keys: one for the source among the arcs of the
  -- isolation groups, and one for the destination among these turned round (or none, if no arc is from an asset
  -- that fits); a key fits its asset, and no other that fits names more parts. The policy accepts the pair of
  -- assets, whatever its default is, exactly if they differ; some text of the supported assets is the one, and some
  -- the other; the arcs from the source's key lead to an asset that fits the destination, or there is no such key and
  -- the arcs to the destination's key come from an asset that fits the source, or there is neither key; and no
  -- text of the blacklist is a pair for them, or some text of the whitelist is.
  pub validate_asset_pair_iff :
      (s d : AssetId)
      → (o o' : Option AssetId) × IsKey (arcs c.isolation_groups) s o
        × IsKey (turned (arcs c.isolation_groups)) d o'
        × ((validate_asset_pair p s d ≡ ok tt) ↔ (
            (asset_id_beq s d ≡ false)
            × (any (text_names s) assets && any (text_names d) assets ≡ true)
            × Admits (arcs c.isolation_groups) s d o o'
            × (not (any (text_answers s d) c.blacklist_pairs)
                  || any (text_answers s d) c.whitelist_overrides
                ≡ true)))
  unfolding is_asset_supported
  validate_asset_pair_iff s d =
      let (o, o', key, key', admitted) =
        is_not_isolated_iff p (arcs c.isolation_groups) s d rules_of.1 rules_of.2 in
      let checked = checked_iff s d in
      let both_in : (is_asset_supported p s && is_asset_supported p d)
          ≡ (any (text_names s) assets && any (text_names d) assets) =
        ap (λ b. b && is_asset_supported p d) (collect_names s assets p.supported_assets rules_of.0)
        ∙ ap (λ b. any (text_names s) assets && b)
            (collect_names d assets p.supported_assets rules_of.0) in
      (
        o,
        o',
        key,
        key',
        (
          (λ e.
              let (differ, supported, apart, listed) = checked.0 e in
              (differ, sym both_in ∙ supported, admitted.0 apart, listed)),
          (λ (differ, supported, apart, listed).
              checked.1 (differ, both_in ∙ supported, admitted.1 apart, listed)),
        ),
      )
