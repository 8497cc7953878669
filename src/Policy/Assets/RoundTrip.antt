-- ===== src/Policy/Assets/RoundTrip.antt =====
-- The printed pairs of Tars-rs/crates/primitives/src/primitives.rs are read back.
use uni_pay.Policy.Assets.{
  AssetId, AssetPair, PairDirection, asset_id_from, asset_id_from_parts, asset_id_from_str,
  asset_id_to_string, asset_pair_from_parts, asset_pair_from_str, asset_pair_to_string, both,
  direction_from_str, direction_to_string, forward, is_colon, is_whitespace, split,
  split_whitespace, trim, trim_end, trim_start,
}
use uni_pay.Prelude.{
  All, All-append, Bool, Text, [], ap, false, filter, is_empty, not, ok, refl, true, ℕ, ◌++◌, ◌∙◌,
  ◌∷◌, ◌≡◌,
}

-- No separator within.
abbrev pub Lacks : (ℕ → Bool) → Text → Type 0
Lacks sep t = All (λ c. sep c ≡ false) t

-- A name that is written without quotes: not empty, and with neither white space nor a colon.
abbrev pub IsPlain : Text → Type 0
IsPlain t = (is_empty t ≡ false) × Lacks is_whitespace t × Lacks is_colon t

abbrev pub IsPlainAsset : AssetId → Type 0
IsPlainAsset a = IsPlain a.chain × IsPlain a.token

abbrev pub IsPlainPair : AssetPair → Type 0
IsPlainPair p = IsPlainAsset p.source × IsPlainAsset p.destination

split_whole : (sep : ℕ → Bool) (t : Text) → Lacks sep t → split sep t ≡ t ∷ []
unfolding split
split_whole sep [] h = refl
split_whole sep (c ∷ t) h = rw (h.0, split_whole sep t h.1)

split_first :
    (sep : ℕ → Bool) (t : Text) (x : ℕ) (rest : Text)
    → Lacks sep t
    → sep x ≡ true
    → split sep (t ++ x ∷ rest) ≡ t ∷ split sep rest
unfolding split
split_first sep [] x rest h e = rw e
split_first sep (c ∷ t) x rest h e = rw (h.0, split_first sep t x rest h.1 e)

trim_start_plain : (t : Text) → Lacks is_whitespace t → trim_start t ≡ t
unfolding trim_start
trim_start_plain [] h = refl
trim_start_plain (c ∷ t) h = rw h.0

trim_end_plain : (t : Text) → Lacks is_whitespace t → trim_end t ≡ t
unfolding trim_end
trim_end_plain [] h = refl
trim_end_plain (c ∷ t) h = rw (h.0, trim_end_plain t h.1)

pub trim_plain : (t : Text) → Lacks is_whitespace t → trim t ≡ t
unfolding trim
trim_plain t h = ap trim_end (trim_start_plain t h) ∙ trim_end_plain t h

asset_id_from_plain :
    (chain token : Text)
    → is_empty chain ≡ false
    → is_empty token ≡ false
    → asset_id_from chain token ≡ ok (record { chain = chain; token = token })
asset_id_from_plain chain token h k = rw (h, k)

asset_id_from_str-asset_id_to_string :
    (a : AssetId) → IsPlainAsset a → asset_id_from_str (asset_id_to_string a) ≡ ok a
unfolding asset_id_from_str asset_id_to_string
asset_id_from_str-asset_id_to_string a (chain, token) =
    ap asset_id_from_parts (
      split_first is_colon a.chain b':' a.token chain.2 refl
      ∙ ap (λ l. a.chain ∷ l) (split_whole is_colon a.token token.2))
    ∙ ap (λ t. asset_id_from t (trim a.token)) (trim_plain a.chain chain.1)
    ∙ ap (asset_id_from a.chain) (trim_plain a.token token.1)
    ∙ asset_id_from_plain a.chain a.token chain.0 token.0

direction_from_str-direction_to_string :
    (d : PairDirection) → direction_from_str (direction_to_string d) ≡ ok d
unfolding direction_from_str
direction_from_str-direction_to_string forward = refl
direction_from_str-direction_to_string both = refl

asset_id_to_string-Lacks :
    (a : AssetId) → IsPlainAsset a → Lacks is_whitespace (asset_id_to_string a)
unfolding asset_id_to_string is_whitespace
asset_id_to_string-Lacks a (chain, token) =
    All-append (λ c. is_whitespace c ≡ false) a.chain (b':' ∷ a.token) chain.1 (refl, token.1)

direction_to_string-Lacks : (d : PairDirection) → Lacks is_whitespace (direction_to_string d)
unfolding is_whitespace
direction_to_string-Lacks forward = (refl, (refl, tt))
direction_to_string-Lacks both = (refl, (refl, (refl, tt)))

asset_id_to_string_ne : (a : AssetId) → is_empty (asset_id_to_string a) ≡ false
unfolding asset_id_to_string
asset_id_to_string_ne a = head_ne a.chain
  where
    head_ne : (t : Text) → is_empty (t ++ b':' ∷ a.token) ≡ false
    head_ne [] = refl
    head_ne (c ∷ t) = refl

direction_to_string_ne : (d : PairDirection) → is_empty (direction_to_string d) ≡ false
direction_to_string_ne forward = refl
direction_to_string_ne both = refl

-- A pair of plain names that is printed and parsed is the pair itself.
pub asset_pair_from_str-asset_pair_to_string :
    (p : AssetPair) → IsPlainPair p → asset_pair_from_str (asset_pair_to_string p) ≡ ok p
unfolding asset_pair_from_str asset_pair_to_string split_whitespace
asset_pair_from_str-asset_pair_to_string p (source, destination) =
    let from = asset_id_to_string p.source in
    let arrow = direction_to_string p.direction in
    let to = asset_id_to_string p.destination in
    let parts : split is_whitespace (from ++ b' ' ∷ (arrow ++ b' ' ∷ to)) ≡ from ∷ arrow ∷ to ∷ [] =
      split_first is_whitespace from b' ' (arrow ++ b' ' ∷ to)
        (asset_id_to_string-Lacks p.source source) (unfold is_whitespace in refl)
      ∙ ap (λ l. from ∷ l)
          (split_first is_whitespace arrow b' ' to (direction_to_string-Lacks p.direction)
              (unfold is_whitespace in refl)
            ∙ ap (λ l. arrow ∷ l)
                (split_whole is_whitespace to
                  (asset_id_to_string-Lacks p.destination destination))) in
    ap (λ l. asset_pair_from_parts (filter (λ t. not (is_empty t)) l)) parts
    ∙ rw (
      asset_id_to_string_ne p.source,
      direction_to_string_ne p.direction,
      asset_id_to_string_ne p.destination,
      asset_id_from_str-asset_id_to_string p.source source,
      direction_from_str-direction_to_string p.direction,
      asset_id_from_str-asset_id_to_string p.destination destination,
    )
