-- ===== src/Policy/SolverPolicy/Answers.antt =====
-- Which queries the pair sets of policy/src/solver_policy.rs answer.
use uni_pay.Policy.Assets.{AssetId, AssetPair, PairDirection, both, forward}
use uni_pay.Policy.Collections.{
  BinarySearch, PolicyMap, PolicySet, answers_forward, answers_reverse, are_asset_pairs_equal,
  asset_id_beq, contains_key, direction_beq, get, insert,
}
use uni_pay.Policy.Collections.Sorted.{any-insert_at}
use uni_pay.Policy.Collections.Specific.{answers, answers_lem}
use uni_pay.Policy.SolverPolicy.{PolicyError, pair_set, parse_pair}
use uni_pay.Prelude.{
  Bool, Bool-cases, List, Result, Text, [], and_left, and_right, any, ap, bind_ok, eq_of_beq, err,
  false, inl, inr, list_eq, nat_eq, ok, ok_injective, or_assoc, or_swap, or_true, refl, sym, true,
  ◌&&◌, ◌==◌, ◌||◌, ◌∙◌, ◌∷◌, ◌≡◌,
}

module _ {T : Type 0} (s d : AssetId) where
  -- Whether some entry of the table is for the query.
  abbrev pub any_answers : PolicyMap T → Bool
  any_answers m = any (λ e. answers s d e.0) m

  pub contains_key-any_answers : (m : PolicyMap T) → contains_key s d m ≡ any_answers m
  unfolding contains_key get
  contains_key-any_answers [] = refl
  contains_key-any_answers ((p, v) ∷ m) =
      rw (sym (answers_lem s d p)) (elim (Bool-cases (answers_forward s d p)) [
        | inl ahead ↦ rw ahead
        | inr other ↦ elim (Bool-cases (answers_reverse s d p)) [
          | inl back ↦ rw (other, back)
          | inr no_match ↦ rw (other, no_match) (contains_key-any_answers m)
        ]
      ])

pub asset_eq : (a b : AssetId) → asset_id_beq a b ≡ true → a ≡ b
asset_eq a b h =
    let chain = eq_of_beq a.chain b.chain (and_left _ _ h) in
    let token = eq_of_beq a.token b.token (and_right (a.chain == b.chain) _ h) in
    λ i. record { chain = chain i; token = token i }

direction_eq : (a b : PairDirection) → direction_beq a b ≡ true → a ≡ b
direction_eq forward forward h = refl
direction_eq both both h = refl
direction_eq forward both h = cc
direction_eq both forward h = cc

pub pair_eq : (a b : AssetPair) → are_asset_pairs_equal a b ≡ true → a ≡ b
unfolding are_asset_pairs_equal
pair_eq a b h =
    let source = asset_eq a.source b.source (and_left _ _ (and_left _ _ h)) in
    let direction =
      direction_eq a.direction b.direction
        (and_right (asset_id_beq a.source b.source) _ (and_left _ _ h)) in
    let destination =
      asset_eq a.destination b.destination
        (and_right (asset_id_beq a.source b.source && direction_beq a.direction b.direction) _ h) in
    λ i. record { source = source i; direction = direction i; destination = destination i }

module _ {T : Type 0} (s d : AssetId) where
  known_answers :
      (p : AssetPair) (m : PolicyMap T)
      → any (λ e. are_asset_pairs_equal e.0 p) m ≡ true
      → answers s d p ≡ true
      → any_answers s d m ≡ true
  known_answers p [] h a = cc
  known_answers p (e ∷ m) h a = elim (Bool-cases (are_asset_pairs_equal e.0 p)) [
    | inl same ↦ ap (λ b. b || any_answers s d m) (ap (answers s d) (pair_eq e.0 p same) ∙ a)
    | inr other ↦
        let rest =
          known_answers p m
            (ap (λ b. b || any (λ x. are_asset_pairs_equal x.0 p) m) (sym other) ∙ h) a in
        ap (λ b. answers s d e.0 || b) rest ∙ or_true (answers s d e.0)
  ]

  -- An insertion adds what the new pair answers, also where it is skipped.
  insert-answers :
      (search : BinarySearch) (p : AssetPair) (v : T) (m : PolicyMap T)
      → any_answers s d (insert search p v m) ≡ (answers s d p || any_answers s d m)
  unfolding insert
  insert-answers search p v m = elim (Bool-cases (any (λ e. are_asset_pairs_equal e.0 p) m)) [
    | inl known ↦ rw known (absorbed (answers s d p) (known_answers p m known))
    | inr unknown ↦ rw unknown (any-insert_at (λ e. answers s d e.0) _ (p, v) m)
  ]
    where
      absorbed :
          (b : Bool)
          → (b ≡ true → any_answers s d m ≡ true)
          → any_answers s d m ≡ (b || any_answers s d m)
      absorbed true h = h refl
      absorbed false h = refl

abbrev pub parsed_answers : AssetId → AssetId → Result PolicyError AssetPair → Bool
parsed_answers s d (ok p) = answers s d p
parsed_answers s d (err e) = false

-- Whether the pair that a text of the configuration stands for is for the query.
abbrev pub text_answers : AssetId → AssetId → Text → Bool
text_answers s d t = parsed_answers s d (parse_pair t)

pub pair_set_answers :
    (search : BinarySearch) (s d : AssetId) (ts : List Text) (m m' : PolicySet)
    → pair_set search ts m ≡ ok m'
    → any_answers s d m' ≡ (any (text_answers s d) ts || any_answers s d m)
unfolding pair_set
pair_set_answers search s d [] m m' e = ap (any_answers s d) (sym (ok_injective e refl refl))
pair_set_answers search s d (t ∷ ts) m m' e =
    let (p, parsed, rest) = bind_ok (parse_pair t) _ e in
    pair_set_answers search s d ts (insert search p tt m) m' rest
    ∙ ap (λ b. any (text_answers s d) ts || b) (insert-answers s d search p tt m)
    ∙ or_swap (any (text_answers s d) ts) (answers s d p) (any_answers s d m)
    ∙ or_assoc (answers s d p) (any (text_answers s d) ts) (any_answers s d m)
    ∙ ap (λ r. parsed_answers s d r || any (text_answers s d) ts || any_answers s d m) (sym parsed)
