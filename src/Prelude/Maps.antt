-- ===== src/Prelude/Maps.antt =====
-- Hash maps with texts as keys, as association lists, and lists of optional values.
use mathlib.Core.Bool.{false}
use mathlib.Core.List.{List, [], ◌∷◌, ◌++◌}
use mathlib.Core.Logic.{inl, inr}
use mathlib.Core.Option
use mathlib.Core.Option.{Option, none, some}
use mathlib.Core.Path.{◌≡◌, ap, refl, subst, sym, ◌∙◌}
use uni_pay.Prelude.Lists.{All, contains}
use uni_pay.Prelude.Tests.{
  Bool-cases, beq_comm, eq_of_beq, is_some, if◌then◌else◌, list_eq, nat_eq, ◌==◌,
}
use uni_pay.Prelude.Texts.{Text}

abbrev pub lookup {ℓ} : {A : Type ℓ} → Text → List (Text × A) → Option A
lookup k [] = none
lookup k ((j, a) ∷ m) = if j == k then some a else lookup k m

abbrev pub insert_key {ℓ} : {A : Type ℓ} → Text → A → List (Text × A) → List (Text × A)
insert_key k a [] = (k, a) ∷ []
insert_key k a ((j, b) ∷ m) = if j == k then (k, a) ∷ m else (j, b) ∷ insert_key k a m

abbrev pub insert_entries {ℓ} : {A : Type ℓ} → List (Text × A) → List (Text × A) → List (Text × A)
insert_entries [] m = m
insert_entries ((k, a) ∷ es) m = insert_entries es (insert_key k a m)

unfoldable pub hash_map {ℓ} : {A : Type ℓ} → List (Text × A) → List (Text × A)
hash_map es = insert_entries es []

-- `entry(k).or_insert(d)` and a change of the value that is there then.
abbrev pub entry {ℓ} : {A : Type ℓ} → Text → A → (A → A) → List (Text × A) → List (Text × A)
entry k d f [] = (k, f d) ∷ []
entry k d f ((j, a) ∷ m) = if j == k then (j, f a) ∷ m else (j, a) ∷ entry k d f m

abbrev pub map_values {ℓ κ} :
    {A : Type ℓ} {B : Type κ} → (A → B) → List (Text × A) → List (Text × B)
map_values f [] = []
map_values f ((k, a) ∷ m) = (k, f a) ∷ map_values f m

abbrev pub keys {ℓ} : {A : Type ℓ} → List (Text × A) → List Text
keys [] = []
keys ((k, a) ∷ m) = k ∷ keys m

abbrev pub remove_key {ℓ} : {A : Type ℓ} → Text → List (Text × A) → List (Text × A)
remove_key k [] = []
remove_key k ((j, a) ∷ m) = let rest = remove_key k m in if j == k then rest else (j, a) ∷ rest

abbrev pub filter_map {ℓ κ} : {A : Type ℓ} {B : Type κ} → (A → Option B) → List A → List B
filter_map f [] = []
filter_map f (x ∷ xs) = elim (f x) [ none ↦ filter_map f xs | some b ↦ b ∷ filter_map f xs ]

abbrev pub flat_map {ℓ κ} : {A : Type ℓ} {B : Type κ} → (A → List B) → List A → List B
flat_map f [] = []
flat_map f (x ∷ xs) = f x ++ flat_map f xs

abbrev pub unwrap_or {ℓ} : {A : Type ℓ} → A → Option A → A
unwrap_or a none = a
unwrap_or a (some b) = b

abbrev pub option_bind {ℓ κ} : {A : Type ℓ} {B : Type κ} → Option A → (A → Option B) → Option B
option_bind none f = none
option_bind (some a) f = f a

module _ {A : Type 0} (P : Text × A → Type 0) where
  insert_key-All :
      (k : Text) (a : A) (m : List (Text × A)) → P (k, a) → All P m → All P (insert_key k a m)
  insert_key-All k a [] p h = (p, tt)
  insert_key-All k a ((j, b) ∷ m) p h = elim (Bool-cases (j == k)) [
    | inl same ↦ rw same (p, h.1)
    | inr other ↦ rw other (h.0, insert_key-All k a m p h.1)
  ]

  insert_entries-All : (es m : List (Text × A)) → All P es → All P m → All P (insert_entries es m)
  insert_entries-All [] m h k = k
  insert_entries-All ((k, a) ∷ es) m h n =
      insert_entries-All es (insert_key k a m) h.1 (insert_key-All k a m h.0 n)

  pub hash_map-All : (es : List (Text × A)) → All P es → All P (hash_map es)
  unfolding hash_map
  hash_map-All es h = insert_entries-All es [] h tt

  pub lookup-All :
      (k : Text) (m : List (Text × A)) {a : A} → All P m → lookup k m ≡ some a → P (k, a)
  lookup-All k [] h e = cc
  lookup-All k ((j, b) ∷ m) {a = a} h e = elim (Bool-cases (j == k)) [
    | inl same ↦
        let found : some b ≡ some a = ap (λ t. if t then some b else lookup k m) (sym same) ∙ e in
        let value : b ≡ a = cc in subst P (λ i. (eq_of_beq j k same i, value i)) h.0
    | inr other ↦ lookup-All k m h.1 (ap (λ t. if t then some b else lookup k m) (sym other) ∙ e)
  ]

module _ {A : Type 0} where
  pub lookup-entry :
      (j k : Text) (d : A) (f : A → A) (m : List (Text × A))
      → lookup k (entry j d f m)
        ≡ (if j == k then some (f (unwrap_or d (lookup k m))) else lookup k m)
  lookup-entry j k d f [] = refl
  lookup-entry j k d f ((i, a) ∷ m) = elim (Bool-cases (i == j)) [
    | inl same ↦
        let test : (i == k) ≡ (j == k) = ap (λ t. t == k) (eq_of_beq i j same) in
        elim (Bool-cases (j == k)) [
          | inl hit ↦ rw (same, hit, test ∙ hit) refl
          | inr miss ↦ rw (same, miss, test ∙ miss) refl
        ]
    | inr other ↦ elim (Bool-cases (i == k)) [
      | inl hit ↦
          let miss : (j == k) ≡ false =
            beq_comm j k ∙ ap (λ t. t == j) (sym (eq_of_beq i k hit)) ∙ other in
          rw (other, hit, miss) refl
      | inr miss ↦ rw (other, miss) (lookup-entry j k d f m)
    ]
  ]

  pub lookup-insert_key :
      (j k : Text) (a : A) (m : List (Text × A))
      → lookup k (insert_key j a m) ≡ (if j == k then some a else lookup k m)
  lookup-insert_key j k a m = ap (lookup k) (as_entry m) ∙ lookup-entry j k a (λ _. a) m
    where
      as_entry : (m : List (Text × A)) → insert_key j a m ≡ entry j a (λ _. a) m
      as_entry [] = refl
      as_entry ((i, b) ∷ m) = elim (Bool-cases (i == j)) [
        | inl same ↦ rw same (ap (λ t. (t, a) ∷ m) (sym (eq_of_beq i j same)))
        | inr other ↦ rw other (ap (λ t. (i, b) ∷ t) (as_entry m))
      ]

  pub lookup-map_values :
      {B : Type 0} (f : A → B) (k : Text) (m : List (Text × A))
      → lookup k (map_values f m) ≡ Option.map f (lookup k m)
  lookup-map_values f k [] = refl
  lookup-map_values f k ((j, a) ∷ m) = elim (Bool-cases (j == k)) [
    | inl hit ↦ rw hit refl
    | inr miss ↦ rw miss (lookup-map_values f k m)
  ]

  pub keys-map_values :
      {B : Type 0} (f : A → B) (m : List (Text × A)) → keys (map_values f m) ≡ keys m
  keys-map_values f [] = refl
  keys-map_values f ((k, a) ∷ m) = ap (λ t. k ∷ t) (keys-map_values f m)

  pub contains-keys : (k : Text) (m : List (Text × A)) → contains (keys m) k ≡ is_some (lookup k m)
  contains-keys k [] = refl
  contains-keys k ((j, a) ∷ m) = elim (Bool-cases (j == k)) [
    | inl hit ↦ rw hit refl
    | inr miss ↦ rw miss (contains-keys k m)
  ]

  pub lookup-remove_key :
      (j k : Text) (m : List (Text × A))
      → lookup k (remove_key j m) ≡ (if j == k then none else lookup k m)
  lookup-remove_key j k [] = elim (Bool-cases (j == k)) [
    | inl hit ↦ rw hit refl
    | inr miss ↦ rw miss refl
  ]
  lookup-remove_key j k ((i, a) ∷ m) = elim (Bool-cases (i == j)) [
    | inl same ↦
        let test : (i == k) ≡ (j == k) = ap (λ t. t == k) (eq_of_beq i j same) in
        elim (Bool-cases (j == k)) [
          | inl hit ↦
              rw (same, hit)
                (lookup-remove_key j k m ∙ ap (λ t. if t then none else lookup k m) hit)
          | inr miss ↦
              rw (same, test, miss)
                (lookup-remove_key j k m ∙ ap (λ t. if t then none else lookup k m) miss)
        ]
    | inr other ↦ elim (Bool-cases (i == k)) [
      | inl hit ↦
          let miss : (j == k) ≡ false =
            beq_comm j k ∙ ap (λ t. t == j) (sym (eq_of_beq i k hit)) ∙ other in
          rw (other, hit, miss) refl
      | inr miss ↦ rw (other, miss) (lookup-remove_key j k m)
    ]
  ]
