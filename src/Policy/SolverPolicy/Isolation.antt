-- ===== src/Policy/SolverPolicy/Isolation.antt =====
-- What the isolation rules of policy/src/solver_policy.rs admit, from the texts of a configuration.
use mathlib.Core.Option
use mathlib.Core.Path.{subst}
use uni_pay.Policy.Assets.{AssetId}
use uni_pay.Policy.Collections.{asset_id_beq, is_asset_id_match}
use uni_pay.Policy.Collections.Specific.{asset_fits, named_parts}
use uni_pay.Policy.SolverPolicy.{
  PolicyError, Rules, SolverPolicy, destination_isolated, sort_rules, source_isolated,
}
use uni_pay.Policy.SolverPolicy.Answers.{asset_eq}
use uni_pay.Policy.SolverPolicy.Arcs.{
  Arc, asset_id_beq_refl, push_arcs, push_arcs-any, push_arcs-entries, targets, turned,
}
use uni_pay.Policy.SolverPolicy.Checks.{allowed_by, is_not_isolated}
use uni_pay.Policy.SolverPolicy.Chosen.{
  Gives, IsKey, allowed_by-Gives, sort_rules-All, sort_rules-AreSorted, sort_rules-any,
}
use uni_pay.Prelude.{
  All, All-get_elem?, Bool, Bool-cases, List, Option, [], any, ap, err_ok, fail_if, false,
  get_elem?, inl, inr, list_eq, nat_eq, none, not, ok, or_true, refl, some, suc, sym, true, zero, ℕ,
  ◌&&◌, ◌||◌, ◌↔◌, ◌∙◌, ◌∷◌, ◌≡◌, ◌≤◌,
}

-- The table of arcs, sorted, gives the targets of a key that decides.
any-get_elem? :
    (f : AssetId × List AssetId → Bool) (rs : Rules) (i : ℕ) (r : AssetId × List AssetId)
    → get_elem? rs i ≡ some r
    → f r ≡ true
    → any f rs ≡ true
any-get_elem? f [] i r at h = cc
any-get_elem? f (x ∷ xs) zero r at h =
    let same : x ≡ r = cc in ap (λ b. b || any f xs) (ap f same ∙ h)
any-get_elem? f (x ∷ xs) (suc i) r at h =
    ap (λ b. f x || b) (any-get_elem? f xs i r at h) ∙ or_true (f x)

key-All :
    (P : AssetId → Type 0) (j : AssetId) (rs : Rules)
    → any (λ x. asset_id_beq x.0 j) rs ≡ true
    → All (λ x. P x.0) rs
    → P j
key-All P j [] n h = cc
key-All P j (x ∷ xs) n h = elim (Bool-cases (asset_id_beq x.0 j)) [
  | inl same ↦ subst P (asset_eq x.0 j same) h.0
  | inr other ↦ key-All P j xs (ap (λ b. b || any (λ y. asset_id_beq y.0 j) xs) (sym other) ∙ n) h.1
]

sorted_any :
    (f : AssetId → Bool) (xs : List Arc)
    → any (λ e. f e.0) (sort_rules (push_arcs xs [])) ≡ any (λ x. f x.0) xs
sorted_any f xs = sort_rules-any (λ e. f e.0) (push_arcs xs []) ∙ push_arcs-any f xs []

chosen-IsKey :
    (xs : List Arc) (a : AssetId)
    → (o : Option AssetId) × IsKey xs a o
      × (allowed_by (sort_rules (push_arcs xs [])) a ≡ Option.map (λ k. targets k xs) o)
chosen-IsKey xs a =
    from (allowed_by (sort_rules (push_arcs xs [])) a) refl
      (allowed_by-Gives (sort_rules (push_arcs xs [])) a (sort_rules-AreSorted (push_arcs xs [])))
  where
    from :
        (r : Option (List AssetId))
        → allowed_by (sort_rules (push_arcs xs [])) a ≡ r
        → Gives (sort_rules (push_arcs xs [])) a r
        → (o : Option AssetId) × IsKey xs a o
          × (allowed_by (sort_rules (push_arcs xs [])) a ≡ Option.map (λ k. targets k xs) o)
    from none e h = (none, sym (sorted_any (asset_fits a) xs) ∙ h, e)
    from (some vs) e (k, fits, (i, at), best) =
        let held : vs ≡ targets k xs =
          All-get_elem? (λ (x : AssetId × List AssetId). x.1 ≡ targets x.0 xs)
            (sort_rules (push_arcs xs [])) i (k, vs)
            (sort_rules-All (λ x. x.1 ≡ targets x.0 xs) (push_arcs xs []) (push_arcs-entries xs))
            at in
        (
          some k,
          (
            fits,
            sym (sorted_any (λ x. asset_id_beq x k) xs)
                ∙ any-get_elem? (λ x. asset_id_beq x.0 k) (sort_rules (push_arcs xs [])) i (k, vs)
                    at (asset_id_beq_refl k),
            λ j n.
                key-All (λ x. asset_fits a x ≡ true → named_parts x ≤ named_parts k) j
                  (sort_rules (push_arcs xs [])) (sorted_any (λ x. asset_id_beq x j) xs ∙ n) best,
          ),
          e ∙ ap some held,
        )

targets-any :
    (f : AssetId → Bool) (k : AssetId) (xs : List Arc)
    → any f (targets k xs) ≡ any (λ x. asset_id_beq x.0 k && f x.1) xs
targets-any f k [] = refl
targets-any f k ((s, d) ∷ xs) = elim (Bool-cases (asset_id_beq s k)) [
  | inl hit ↦ rw hit (ap (λ b. f d || b) (targets-any f k xs))
  | inr miss ↦ rw miss (targets-any f k xs)
]

turned-any : (f : Arc → Bool) (xs : List Arc) → any f (turned xs) ≡ any (λ x. f (x.1, x.0)) xs
turned-any f [] = refl
turned-any f ((s, d) ∷ xs) = ap (λ b. f (d, s) || b) (turned-any f xs)

-- What the arcs admit, by the keys that decide for the source and, among the arcs turned round, for the destination: if
-- there is one for the source, an arc from it must lead to an asset that fits the destination; else, if there is
-- one for the destination, an arc to it must come from an asset that fits the source.
abbrev pub Admits : List Arc → AssetId → AssetId → Option AssetId → Option AssetId → Type 0
Admits xs s d (some k) o = any (λ x. asset_id_beq x.0 k && asset_fits x.1 d) xs ≡ true
Admits xs s d none (some k) = any (λ x. asset_id_beq x.1 k && asset_fits x.0 s) xs ≡ true
Admits xs s d none none = Unit

fail_if-not_iff : (b : Bool) (e : PolicyError) → (fail_if (not b) e ≡ ok tt) ↔ (b ≡ true)
fail_if-not_iff true e = ((λ _. refl), (λ _. refl))
fail_if-not_iff false e = ((λ h. absurd (err_ok e h)), (λ h. cc))

pub is_not_isolated_iff :
    {Fee : Type 0} (p : SolverPolicy Fee) (xs : List Arc) (s d : AssetId)
    → p.isolation_rules.source_to_destination ≡ sort_rules (push_arcs xs [])
    → p.isolation_rules.destination_to_source ≡ sort_rules (push_arcs (turned xs) [])
    → (o o' : Option AssetId) × IsKey xs s o
      × IsKey (turned xs) d o'
      × ((is_not_isolated p s d ≡ ok tt) ↔ Admits xs s d o o')
unfolding is_not_isolated is_asset_id_match
is_not_isolated_iff p xs s d out back =
    let (o, key, given) = chosen-IsKey xs s in
    let (o', key', given') = chosen-IsKey (turned xs) d in
    (
      o,
      o',
      key,
      key',
      by_keys o o' (ap (λ t. allowed_by t s) out ∙ given) (ap (λ t. allowed_by t d) back ∙ given'),
    )
  where
    by_keys :
        (o o' : Option AssetId)
        → allowed_by p.isolation_rules.source_to_destination s ≡ Option.map (λ k. targets k xs) o
        → allowed_by p.isolation_rules.destination_to_source d
          ≡ Option.map (λ k. targets k (turned xs)) o'
        → (is_not_isolated p s d ≡ ok tt) ↔ Admits xs s d o o'
    by_keys (some k) o' e e' = rw e (
        subst
          (λ b.
            (fail_if (not (any (λ r. asset_fits r d) (targets k xs))) source_isolated ≡ ok tt)
            ↔ (b ≡ true))
          (targets-any (λ r. asset_fits r d) k xs)
          (fail_if-not_iff (any (λ r. asset_fits r d) (targets k xs)) source_isolated))
    by_keys none none e e' = rw (e, e') ((λ _. tt), (λ _. refl))
    by_keys none (some k) e e' =
        rw (e, e')
          (subst
            (λ b.
              (fail_if (not (any (λ r. asset_fits r s) (targets k (turned xs))))
                  destination_isolated
                ≡ ok tt)
              ↔ (b ≡ true))
            (targets-any (λ r. asset_fits r s) k (turned xs)
              ∙ turned-any (λ x. asset_id_beq x.0 k && asset_fits x.1 s) xs)
            (fail_if-not_iff (any (λ r. asset_fits r s) (targets k (turned xs)))
              destination_isolated))
