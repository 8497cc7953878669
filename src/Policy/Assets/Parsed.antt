-- ===== src/Policy/Assets/Parsed.antt =====
-- What the parsers of Tars-rs/crates/primitives/src/primitives.rs accept.
use mathlib.Core.Path.{subst}
use uni_pay.Policy.Assets.{
  AssetId, AssetPair, asset_id_from, asset_id_from_parts, asset_id_from_str, asset_pair_from_parts,
  asset_pair_from_str, asset_pair_to_string, cons_head, direction_from_str, empty_part, is_colon,
  is_whitespace, split, split_whitespace, trim,
}
use uni_pay.Policy.Assets.RoundTrip.{
  IsPlainAsset, IsPlainPair, Lacks, asset_pair_from_str-asset_pair_to_string, trim_plain,
}
use uni_pay.Prelude.{
  All, All-filter, Bool, Bool-cases, List, Text, [], ap, bind_ok, false, if_err, inl, inr, is_empty,
  not, ok, ok_injective, or_left, or_right, refl, sym, ℕ, ◌||◌, ◌∙◌, ◌∷◌, ◌≡◌,
}

split-All : (P : ℕ → Type 0) (sep : ℕ → Bool) (t : Text) → All P t → All (All P) (split sep t)
unfolding split
split-All P sep [] h = (tt, tt)
split-All P sep (c ∷ t) h = elim (Bool-cases (sep c)) [
  | inl cut ↦ rw cut (tt, split-All P sep t h.1)
  | inr more ↦ rw more (headed (split sep t) (split-All P sep t h.1))
]
  where
    headed : (parts : List Text) → All (All P) parts → All (All P) (cons_head c parts)
    headed [] k = ((h.0, tt), tt)
    headed (p ∷ ps) k = ((h.0, k.0), k.1)

split-Lacks : (sep : ℕ → Bool) (t : Text) → All (Lacks sep) (split sep t)
unfolding split
split-Lacks sep [] = (tt, tt)
split-Lacks sep (c ∷ t) = elim (Bool-cases (sep c)) [
  | inl cut ↦ rw cut (tt, split-Lacks sep t)
  | inr more ↦ rw more (headed more (split sep t) (split-Lacks sep t))
]
  where
    headed :
        sep c ≡ false
        → (parts : List Text) → All (Lacks sep) parts
        → All (Lacks sep) (cons_head c parts)
    headed e [] k = ((e, tt), tt)
    headed e (p ∷ ps) k = ((e, k.0), k.1)

plain_asset :
    (chain token : Text) (a : AssetId)
    → Lacks is_whitespace chain × Lacks is_colon chain
    → Lacks is_whitespace token × Lacks is_colon token
    → asset_id_from chain token ≡ ok a
    → IsPlainAsset a
plain_asset chain token a c t e =
    let (filled, built) = if_err (is_empty chain || is_empty token) empty_part _ e in
    subst IsPlainAsset built (
      (or_left (is_empty chain) _ filled, c.0, c.1),
      (or_right (is_empty chain) _ filled, t.0, t.1),
    )

asset_id_from_parts-IsPlainAsset :
    (parts : List Text) (a : AssetId)
    → All (Lacks is_whitespace) parts
    → All (Lacks is_colon) parts
    → asset_id_from_parts parts ≡ ok a
    → IsPlainAsset a
asset_id_from_parts-IsPlainAsset [] a w c e = cc
asset_id_from_parts-IsPlainAsset (chain ∷ []) a w c e = cc
asset_id_from_parts-IsPlainAsset (chain ∷ token ∷ part ∷ parts) a w c e = cc
asset_id_from_parts-IsPlainAsset (chain ∷ token ∷ []) a (w, (v, _)) (c, (d, _)) e =
    plain_asset chain token a (w, c) (v, d)
      (ap (λ t. asset_id_from t token) (sym (trim_plain chain w))
        ∙ ap (asset_id_from (trim chain)) (sym (trim_plain token v))
        ∙ e)

asset_id_from_str-IsPlainAsset :
    (s : Text) (a : AssetId) → Lacks is_whitespace s → asset_id_from_str s ≡ ok a → IsPlainAsset a
unfolding asset_id_from_str
asset_id_from_str-IsPlainAsset s a w e =
    asset_id_from_parts-IsPlainAsset (split is_colon s) a
      (split-All (λ c. is_whitespace c ≡ false) is_colon s w) (split-Lacks is_colon s) e

asset_pair_from_parts-IsPlainPair :
    (parts : List Text) (p : AssetPair)
    → All (Lacks is_whitespace) parts
    → asset_pair_from_parts parts ≡ ok p
    → IsPlainPair p
asset_pair_from_parts-IsPlainPair [] p w e = cc
asset_pair_from_parts-IsPlainPair (from ∷ []) p w e = cc
asset_pair_from_parts-IsPlainPair (from ∷ arrow ∷ []) p w e = cc
asset_pair_from_parts-IsPlainPair (from ∷ arrow ∷ to ∷ part ∷ parts) p w e = cc
asset_pair_from_parts-IsPlainPair (from ∷ arrow ∷ to ∷ []) p (w, (_, (v, _))) e =
    let (source, left, e1) = bind_ok (asset_id_from_str from) _ e in
    let (direction, _, e2) = bind_ok (direction_from_str arrow) _ e1 in
    let (destination, right, e3) = bind_ok (asset_id_from_str to) _ e2 in
    subst IsPlainPair (ok_injective e3 refl refl) (
      asset_id_from_str-IsPlainAsset from source w left,
      asset_id_from_str-IsPlainAsset to destination v right,
    )

pub asset_pair_from_str-IsPlainPair :
    (s : Text) (p : AssetPair) → asset_pair_from_str s ≡ ok p → IsPlainPair p
unfolding asset_pair_from_str split_whitespace
asset_pair_from_str-IsPlainPair s p e =
    asset_pair_from_parts-IsPlainPair (split_whitespace s) p
      (All-filter (Lacks is_whitespace) (λ t. not (is_empty t)) (split is_whitespace s)
        (split-Lacks is_whitespace s))
      e

-- A text that parses as a pair gives two assets with plain names, and that pair, printed and parsed again, is the
-- same pair.
pub asset_pair_from_str_again :
    (s : Text) (p : AssetPair)
    → asset_pair_from_str s ≡ ok p
    → IsPlainPair p × (asset_pair_from_str (asset_pair_to_string p) ≡ ok p)
asset_pair_from_str_again s p e =
    let plain = asset_pair_from_str-IsPlainPair s p e in
    (plain, asset_pair_from_str-asset_pair_to_string p plain)
