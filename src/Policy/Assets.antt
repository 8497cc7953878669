-- ===== src/Policy/Assets.antt =====
-- The asset identifiers and the pairs of Tars-rs/crates/primitives/src/primitives.rs, with their parsers and
-- printers. A text is the list of its code points.
pub mod RoundTrip
pub mod Parsed
use uni_pay.Prelude.{
  Bool, List, Result, Text, [], codes, err, filter, if◌then◌else◌, is_empty, leb, list_eq, nat_eq,
  not, ok, ℕ, ◌&&◌, ◌++◌, ◌==◌, ◌>>=◌, ◌>>◌, ◌||◌, ◌∷◌,
}

pub record AssetId : Type 0 where
  pub chain : Text
  pub token : Text

pub data PairDirection : Type 0 where
  forward : PairDirection
  both : PairDirection

pub record AssetPair : Type 0 where
  pub source : AssetId
  pub direction : PairDirection
  pub destination : AssetId

pub data ParseError : Type 0 where
  invalid_asset_format : ParseError
  empty_part : ParseError
  invalid_pair_format : ParseError
  invalid_direction : ParseError

-- `char::is_whitespace`
unfoldable pub is_whitespace : ℕ → Bool
is_whitespace c =
    (leb 9 c && leb c 13)
    || c == 32
    || c == 0x85
    || c == 0xA0
    || c == 0x1680
    || (leb 0x2000 c && leb c 0x200A)
    || c == 0x2028
    || c == 0x2029
    || c == 0x202F
    || c == 0x205F
    || c == 0x3000

abbrev pub cons_head : ℕ → List Text → List Text
cons_head c [] = (c ∷ []) ∷ []
cons_head c (p ∷ ps) = (c ∷ p) ∷ ps

-- `str::split`: the parts between the separators, the empty ones too.
unfoldable pub split : (ℕ → Bool) → Text → List Text
unfolding cons_head
split sep [] = [] ∷ []
split sep (c ∷ s) = let parts = split sep s in if sep c then [] ∷ parts else cons_head c parts

-- `str::split_whitespace`: the parts that are not empty.
unfoldable pub split_whitespace : Text → List Text
unfolding split is_whitespace
split_whitespace s = filter (λ p. not (is_empty p)) (split is_whitespace s)

unfoldable pub trim_start : Text → Text
trim_start [] = []
trim_start (c ∷ s) = let rest = trim_start s in if is_whitespace c then rest else c ∷ s

unfoldable pub trim_end : Text → Text
trim_end [] = []
trim_end (c ∷ s) =
    let rest = trim_end s in if is_whitespace c && is_empty rest then [] else c ∷ rest

-- `str::trim`
unfoldable pub trim : Text → Text
unfolding trim_start trim_end is_whitespace
trim s = trim_end (trim_start s)

abbrev pub is_colon : ℕ → Bool
is_colon c = c == b':'

abbrev pub asset_id_from : Text → Text → Result ParseError AssetId
asset_id_from chain token =
    if is_empty chain || is_empty token
    then err empty_part
    else ok (record { chain = chain; token = token })

abbrev pub asset_id_from_parts : List Text → Result ParseError AssetId
asset_id_from_parts (chain ∷ token ∷ []) = asset_id_from (trim chain) (trim token)
asset_id_from_parts (chain ∷ token ∷ part ∷ parts) = err invalid_asset_format
asset_id_from_parts _ = err invalid_asset_format

-- `AssetId::from_str`
unfoldable pub asset_id_from_str : Text → Result ParseError AssetId
unfolding split trim
asset_id_from_str s = asset_id_from_parts (split is_colon s)

-- `PairDirection::from_str`
unfoldable pub direction_from_str : Text → Result ParseError PairDirection
unfolding trim
direction_from_str s =
    if trim s == codes "->"
    then ok forward
    else if trim s == codes "<->"
    then ok both
    else err invalid_direction

abbrev pub asset_pair_from_parts : List Text → Result ParseError AssetPair
asset_pair_from_parts (from ∷ arrow ∷ to ∷ []) = do
  source ← asset_id_from_str from
  direction ← direction_from_str arrow
  destination ← asset_id_from_str to
  ok (record { source = source; direction = direction; destination = destination })
asset_pair_from_parts (from ∷ arrow ∷ to ∷ part ∷ parts) = err invalid_pair_format
asset_pair_from_parts _ = err invalid_pair_format

-- `AssetPair::from_str`
unfoldable pub asset_pair_from_str : Text → Result ParseError AssetPair
unfolding split_whitespace asset_id_from_str direction_from_str
asset_pair_from_str s = asset_pair_from_parts (split_whitespace s)

-- The `Display` of an asset, of a direction and of a pair.
unfoldable pub asset_id_to_string : AssetId → Text
asset_id_to_string a = a.chain ++ b':' ∷ a.token

abbrev pub direction_to_string : PairDirection → Text
direction_to_string forward = codes "->"
direction_to_string both = codes "<->"

unfoldable pub asset_pair_to_string : AssetPair → Text
unfolding asset_id_to_string
asset_pair_to_string p =
    asset_id_to_string p.source
    ++ b' ' ∷ (direction_to_string p.direction ++ b' ' ∷ asset_id_to_string p.destination)
