-- ===== src/Policy/SolverPolicy/Arcs.antt =====
-- The isolation tables of policy/src/solver_policy.rs, from the texts of a configuration.
use uni_pay.Policy.Assets.{AssetId, AssetPair}
use uni_pay.Policy.Collections.{asset_id_beq, is_both}
use uni_pay.Policy.SolverPolicy.{
  IsolationRules, PolicyError, Rules, add_group, add_groups, parse_pair, push_rule,
}
use uni_pay.Policy.SolverPolicy.Answers.{asset_eq}
use uni_pay.Prelude.{
  All, All-weaken, Bool, Bool-cases, List, Result, Text, [], any, ap, append-nil, append_assoc,
  arith, beq_comm, beq_refl, bind_ok, err, false, if◌then◌else◌, inl, inr, list_eq, nat_eq, ok,
  ok_injective, or-eq_false, or_assoc, or_false, or_left, or_right, refl, sym, true, ◌++◌, ◌||◌,
  ◌∙◌, ◌∷◌, ◌≡◌,
}

abbrev pub Arc : Type 0
Arc = AssetId × AssetId

-- The directions in which a pair lets assets out.
abbrev pub pair_arcs : AssetPair → List Arc
pair_arcs p =
    if is_both p.direction
    then (p.source, p.destination) ∷ (p.destination, p.source) ∷ []
    else (p.source, p.destination) ∷ []

abbrev pub parsed_arcs : Result PolicyError AssetPair → List Arc
parsed_arcs (ok p) = pair_arcs p
parsed_arcs (err e) = []

abbrev pub arcs : List Text → List Arc
arcs [] = []
arcs (t ∷ ts) = parsed_arcs (parse_pair t) ++ arcs ts

abbrev pub turned : List Arc → List Arc
turned [] = []
turned ((s, d) ∷ xs) = (d, s) ∷ turned xs

-- Where the arcs from an asset lead, in order.
abbrev pub targets : AssetId → List Arc → List AssetId
targets k [] = []
targets k ((s, d) ∷ xs) = if asset_id_beq s k then d ∷ targets k xs else targets k xs

abbrev pub push_arcs : List Arc → Rules → Rules
push_arcs [] rules = rules
push_arcs ((s, d) ∷ xs) rules = push_arcs xs (push_rule s d rules)

push_arcs-append :
    (xs ys : List Arc) (r : Rules) → push_arcs (xs ++ ys) r ≡ push_arcs ys (push_arcs xs r)
push_arcs-append [] ys r = refl
push_arcs-append ((s, d) ∷ xs) ys r = push_arcs-append xs ys (push_rule s d r)

turned-append : (xs ys : List Arc) → turned (xs ++ ys) ≡ turned xs ++ turned ys
turned-append [] ys = refl
turned-append ((s, d) ∷ xs) ys = ap (λ l. (d, s) ∷ l) (turned-append xs ys)

add_group-arcs :
    (p : AssetPair) (r : IsolationRules)
    → ((add_group p r).source_to_destination ≡ push_arcs (pair_arcs p) r.source_to_destination)
      × ((add_group p r).destination_to_source
          ≡ push_arcs (turned (pair_arcs p)) r.destination_to_source)
unfolding add_group
add_group-arcs p r = elim (Bool-cases (is_both p.direction)) [
  | inl two ↦ rw two (refl, refl)
  | inr one ↦ rw one (refl, refl)
]

pub add_groups-arcs :
    (gs : List Text) (r r' : IsolationRules)
    → add_groups gs r ≡ ok r'
    → (r'.source_to_destination ≡ push_arcs (arcs gs) r.source_to_destination)
      × (r'.destination_to_source ≡ push_arcs (turned (arcs gs)) r.destination_to_source)
unfolding add_groups
add_groups-arcs [] r r' e =
    let same : r ≡ r' = ok_injective e refl refl in
    (ap (λ x. x.source_to_destination) (sym same), ap (λ x. x.destination_to_source) (sym same))
add_groups-arcs (g ∷ gs) r r' e =
    let (p, parsed, rest) = bind_ok (parse_pair g) _ e in
    let (out, back) = add_groups-arcs gs (add_group p r) r' rest in
    let (out1, back1) = add_group-arcs p r in
    let first : pair_arcs p ≡ parsed_arcs (parse_pair g) = ap parsed_arcs (sym parsed) in
    (
      out
          ∙ ap (push_arcs (arcs gs)) out1
          ∙ sym (push_arcs-append (pair_arcs p) (arcs gs) r.source_to_destination)
          ∙ ap (λ l. push_arcs (l ++ arcs gs) r.source_to_destination) first,
      back
          ∙ ap (push_arcs (turned (arcs gs))) back1
          ∙ sym (push_arcs-append (turned (pair_arcs p)) (turned (arcs gs)) r.destination_to_source)
          ∙ ap (λ l. push_arcs l r.destination_to_source)
              (sym (turned-append (pair_arcs p) (arcs gs)))
          ∙ ap (λ l. push_arcs (turned (l ++ arcs gs)) r.destination_to_source) first,
    )

-- The assets under a key, and the keys.
abbrev pub under : AssetId → Rules → List AssetId
under k [] = []
under k ((j, vs) ∷ rules) = if asset_id_beq j k then vs else under k rules

pub asset_id_beq_comm : (a b : AssetId) → asset_id_beq a b ≡ asset_id_beq b a
asset_id_beq_comm a b = rw (beq_comm a.chain b.chain, beq_comm a.token b.token) refl

pub asset_id_beq_refl : (a : AssetId) → asset_id_beq a a ≡ true
asset_id_beq_refl a = rw (beq_refl a.chain, beq_refl a.token) refl

-- Two keys that differ are not both another.
other_key :
    (i j k : AssetId)
    → asset_id_beq i j ≡ false
    → asset_id_beq i k ≡ true
    → asset_id_beq j k ≡ false
other_key i j k apart same =
    asset_id_beq_comm j k ∙ ap (λ x. asset_id_beq x j) (sym (asset_eq i k same)) ∙ apart

push_rule-under :
    (j k v : AssetId) (r : Rules)
    → under k (push_rule j v r) ≡ under k r ++ (if asset_id_beq j k then v ∷ [] else [])
unfolding push_rule
push_rule-under j k v [] = refl
push_rule-under j k v ((i, vs) ∷ r) = elim (Bool-cases (asset_id_beq i j)) [
  | inl same ↦
      let test : asset_id_beq i k ≡ asset_id_beq j k =
        ap (λ x. asset_id_beq x k) (asset_eq i j same) in
      elim (Bool-cases (asset_id_beq j k)) [
        | inl hit ↦ rw (same, test, hit) refl
        | inr miss ↦ rw (same, test, miss) (sym (append-nil (under k r)))
      ]
  | inr other ↦ elim (Bool-cases (asset_id_beq i k)) [
    | inl hit ↦ rw (other, hit, other_key i j k other hit) (sym (append-nil vs))
    | inr miss ↦ rw (other, miss) (push_rule-under j k v r)
  ]
]

push_rule-any :
    (f : AssetId → Bool) (j v : AssetId) (r : Rules)
    → any (λ e. f e.0) (push_rule j v r) ≡ (any (λ e. f e.0) r || f j)
unfolding push_rule
push_rule-any f j v [] = or_false (f j)
push_rule-any f j v ((i, vs) ∷ r) = elim (Bool-cases (asset_id_beq i j)) [
  | inl same ↦ rw same (absorbed (f i) (f j) (any (λ e. f e.0) r) (ap f (asset_eq i j same)))
  | inr other ↦
      rw other
        (ap (λ b. f i || b) (push_rule-any f j v r) ∙ or_assoc (f i) (any (λ e. f e.0) r) (f j))
]
  where
    absorbed : (x y z : Bool) → x ≡ y → (x || z) ≡ (x || z || y)
    absorbed x y z e = ground arith

abbrev pub HasDistinctKeys : Rules → Type 0
HasDistinctKeys [] = Unit
HasDistinctKeys ((k, vs) ∷ r) = (any (λ e. asset_id_beq e.0 k) r ≡ false) × HasDistinctKeys r

push_rule-HasDistinctKeys :
    (j v : AssetId) (r : Rules) → HasDistinctKeys r → HasDistinctKeys (push_rule j v r)
unfolding push_rule
push_rule-HasDistinctKeys j v [] h = (refl, tt)
push_rule-HasDistinctKeys j v ((i, vs) ∷ r) h = elim (Bool-cases (asset_id_beq i j)) [
  | inl same ↦ rw same h
  | inr other ↦ rw other (
    push_rule-any (λ x. asset_id_beq x i) j v r
        ∙ or-eq_false (any (λ e. asset_id_beq e.0 i) r) (asset_id_beq j i) h.0
            (asset_id_beq_comm j i ∙ other),
    push_rule-HasDistinctKeys j v r h.1,
  )
]

push_arcs-under :
    (k : AssetId) (xs : List Arc) (r : Rules) → under k (push_arcs xs r) ≡ under k r ++ targets k xs
push_arcs-under k [] r = sym (append-nil (under k r))
push_arcs-under k ((s, d) ∷ xs) r =
    push_arcs-under k xs (push_rule s d r)
    ∙ ap (λ l. l ++ targets k xs) (push_rule-under s k d r)
    ∙ append_assoc (under k r) (if asset_id_beq s k then d ∷ [] else []) (targets k xs)
    ∙ elim (Bool-cases (asset_id_beq s k)) [ inl hit ↦ rw hit refl | inr miss ↦ rw miss refl ]

pub push_arcs-any :
    (f : AssetId → Bool) (xs : List Arc) (r : Rules)
    → any (λ e. f e.0) (push_arcs xs r) ≡ (any (λ e. f e.0) r || any (λ x. f x.0) xs)
push_arcs-any f [] r = sym (or_false (any (λ e. f e.0) r))
push_arcs-any f ((s, d) ∷ xs) r =
    push_arcs-any f xs (push_rule s d r)
    ∙ ap (λ b. b || any (λ x. f x.0) xs) (push_rule-any f s d r)
    ∙ sym (or_assoc (any (λ e. f e.0) r) (f s) (any (λ x. f x.0) xs))

push_arcs-HasDistinctKeys :
    (xs : List Arc) (r : Rules) → HasDistinctKeys r → HasDistinctKeys (push_arcs xs r)
push_arcs-HasDistinctKeys [] r h = h
push_arcs-HasDistinctKeys ((s, d) ∷ xs) r h =
    push_arcs-HasDistinctKeys xs (push_rule s d r) (push_rule-HasDistinctKeys s d r h)

entries-under : (r : Rules) → HasDistinctKeys r → All (λ e. e.1 ≡ under e.0 r) r
entries-under [] h = tt
entries-under ((k, vs) ∷ r) h =
    (rw (asset_id_beq_refl k) refl, later k vs r r h.0 (entries-under r h.1))
  where
    later :
        (k : AssetId) (vs : List AssetId) (r xs : Rules)
        → any (λ e. asset_id_beq e.0 k) xs ≡ false
        → All (λ e. e.1 ≡ under e.0 r) xs
        → All (λ e. e.1 ≡ under e.0 ((k, vs) ∷ r)) xs
    later k vs r [] n h = tt
    later k vs r (x ∷ xs) n h = (
      rw (asset_id_beq_comm k x.0 ∙ or_left (asset_id_beq x.0 k) _ n) h.0,
      later k vs r xs (or_right (asset_id_beq x.0 k) _ n) h.1,
    )

-- A table of arcs has under each key where the arcs from it lead.
pub push_arcs-entries : (xs : List Arc) → All (λ e. e.1 ≡ targets e.0 xs) (push_arcs xs [])
push_arcs-entries xs =
    All-weaken (push_arcs xs []) (λ e h. h ∙ push_arcs-under e.0 xs [])
      (entries-under (push_arcs xs []) (push_arcs-HasDistinctKeys xs [] tt))
