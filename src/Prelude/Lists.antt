-- ===== src/Prelude/Lists.antt =====
-- Lists measured by native numbers, membership as a Boolean test, and how often a value occurs.
use Prim.Native.Nat.{ℕ, zero, suc, ◌+◌}
use mathlib.Core.Path.{◌≡◌, refl, ap, sym, ◌∙◌, subst}
use mathlib.Core.Logic.{inl, inr}
use mathlib.Core.Bool.{Bool, true, false, ◌||◌}
use mathlib.Core.List.{List, [], ◌∷◌, ◌++◌, map}
use mathlib.Core.Option.{Option, none, some}
use native.Mathlib.Omega.{arith}
use uni_pay.Prelude.Tests.{Eq, ◌==◌, if◌then◌else◌, Bool-cases, or_assoc}

module _ {ℓ} {A : Type ℓ} where
  abbrev pub length : List A → ℕ
  length [] = 0
  length (x ∷ xs) = suc (length xs)

  abbrev pub is_empty : List A → Bool
  is_empty [] = true
  is_empty (x ∷ xs) = false

  -- Rust's `iter().any`, `iter().filter` and `iter().find`.
  abbrev pub any : (A → Bool) → List A → Bool
  any p [] = false
  any p (x ∷ xs) = p x || any p xs

  abbrev pub filter : (A → Bool) → List A → List A
  filter p [] = []
  filter p (x ∷ xs) = if p x then x ∷ filter p xs else filter p xs

  abbrev pub find : (A → Bool) → List A → Option A
  find p [] = none
  find p (x ∷ xs) = if p x then some x else find p xs

  abbrev pub get_elem? : List A → ℕ → Option A
  get_elem? [] i = none
  get_elem? (x ∷ xs) zero = some x
  get_elem? (x ∷ xs) (suc i) = get_elem? xs i

  -- A write out of bounds changes nothing.
  abbrev pub set : List A → ℕ → A → List A
  set [] i v = []
  set (x ∷ xs) zero v = v ∷ xs
  set (x ∷ xs) (suc i) v = x ∷ set xs i v

  -- Every element has the property.
  abbrev pub All {κ} : (A → Type κ) → List A → Type κ
  All P [] = Unit
  All P (x ∷ xs) = P x × All P xs

  pub All-append {κ} : (P : A → Type κ) (xs ys : List A) → All P xs → All P ys → All P (xs ++ ys)
  All-append P [] ys hx hy = hy
  All-append P (x ∷ xs) ys hx hy = (hx.0, All-append P xs ys hx.1 hy)

  -- The sum of a weight over a list: with the weight of one value, how often it occurs.
  abbrev pub total : (A → ℕ) → List A → ℕ
  total w [] = 0
  total w (x ∷ xs) = w x + total w xs

  pub total-append : (w : A → ℕ) (xs ys : List A) → total w (xs ++ ys) ≡ total w xs + total w ys
  total-append w [] ys = omega arith
  total-append w (x ∷ xs) ys = omega (arith, total-append w xs ys)

  pub total-set :
      (w : A → ℕ) (xs : List A) (i : ℕ) {x : A} (y : A)
      → get_elem? xs i ≡ some x
      → total w (set xs i y) + w x ≡ total w xs + w y
  total-set w [] i y h = cc
  total-set w (x ∷ xs) zero y h = ground arith
  total-set w (x ∷ xs) (suc i) {x = z} y h = omega (arith, total-set w xs i {x = z} y h)

  pub All-set {κ} :
      (P : A → Type κ) (xs : List A) (i : ℕ) (y : A) → All P xs → P y → All P (set xs i y)
  All-set P [] i y h p = h
  All-set P (x ∷ xs) zero y h p = (p, h.1)
  All-set P (x ∷ xs) (suc i) y h p = (h.0, All-set P xs i y h.1 p)

  pub All-get_elem? {κ} :
      (P : A → Type κ) (xs : List A) (i : ℕ) (x : A) → All P xs → get_elem? xs i ≡ some x → P x
  All-get_elem? P [] i x h e = cc
  All-get_elem? P (y ∷ ys) zero x h e = let same : y ≡ x = cc in subst P same h.0
  All-get_elem? P (y ∷ ys) (suc i) x h e = All-get_elem? P ys i x h.1 e

module _ {ℓ} {A : Type ℓ} ⦃e : Eq A⦄ where
  abbrev pub contains : List A → A → Bool
  contains [] a = false
  contains (x ∷ xs) a = x == a || contains xs a

  abbrev pub occurs : A → A → ℕ
  occurs a x = if x == a then 1 else 0

  -- No value occurs twice.
  abbrev pub IsUnique : List A → Type 0
  IsUnique [] = Unit
  IsUnique (x ∷ xs) = (contains xs x ≡ false) × IsUnique xs

module _ {ℓ} {A : Type ℓ} where
  -- Two lists of one length whose elements are related in order.
  abbrev pub Pairwise : (A → A → Type 0) → List A → List A → Type 0
  Pairwise R [] [] = Unit
  Pairwise R (x ∷ xs) (y ∷ ys) = R x y × Pairwise R xs ys
  Pairwise R _ _ = ⊥

  pub Pairwise-refl : (R : A → A → Type 0) → ((x : A) → R x x) → (xs : List A) → Pairwise R xs xs
  Pairwise-refl R r [] = tt
  Pairwise-refl R r (x ∷ xs) = (r x, Pairwise-refl R r xs)

  pub All-every {κ} : {P : A → Type κ} (xs : List A) → ((x : A) → P x) → All P xs
  All-every [] f = tt
  All-every (x ∷ xs) f = (f x, All-every xs f)

  pub All-zip {κ} :
      {P Q R : A → Type κ} (xs : List A)
      → ((x : A) → P x → Q x → R x)
      → All P xs
      → All Q xs
      → All R xs
  All-zip [] f p q = tt
  All-zip (x ∷ xs) f p q = (f x p.0 q.0, All-zip xs f p.1 q.1)

  pub All-weaken {κ κ'} :
      {P : A → Type κ} {Q : A → Type κ'} (xs : List A) → ((x : A) → P x → Q x) → All P xs → All Q xs
  All-weaken [] f p = tt
  All-weaken (x ∷ xs) f p = (f x p.0, All-weaken xs f p.1)

  pub All-of_filter {κ} :
      (P : A → Type κ) (keep : A → Bool) (xs : List A)
      → All P (filter keep xs)
      → All (λ x. keep x ≡ true → P x) xs
  All-of_filter P keep [] h = tt
  All-of_filter P keep (x ∷ xs) h = elim (Bool-cases (keep x)) [
    | inl kept ↦
        let all : All P (x ∷ filter keep xs) =
          subst (λ b. All P (if b then x ∷ filter keep xs else filter keep xs)) kept h in
        (λ _. all.0, All-of_filter P keep xs all.1)
    | inr cut ↦
        let all : All P (filter keep xs) =
          subst (λ b. All P (if b then x ∷ filter keep xs else filter keep xs)) cut h in
        (λ kept. absurd (ground arith), All-of_filter P keep xs all)
  ]

module _ {ℓ} {A : Type ℓ} ⦃e : Eq A⦄ where
  pub contains-append :
      (xs ys : List A) (a : A) → contains (xs ++ ys) a ≡ (contains xs a || contains ys a)
  contains-append [] ys a = refl
  contains-append (x ∷ xs) ys a =
      ap (λ b. x == a || b) (contains-append xs ys a)
      ∙ or_assoc (x == a) (contains xs a) (contains ys a)

  -- Disjoint lists have no value in common.
  pub disjoint_lem :
      (xs ys : List A) (a : A)
      → any (contains ys) xs ≡ false
      → contains xs a ≡ true
      → contains ys a ≡ false
  disjoint_lem [] ys a d h = cc
  disjoint_lem (x ∷ xs) ys a d h = elim (Bool-cases (x == a)) [
    | inl same ↦
        let eq = (e.beq_iff x a).0 same in
        let absent : contains ys x ≡ false = ground arith in ap (contains ys) (sym eq) ∙ absent
    | inr other ↦
        let d' : any (contains ys) xs ≡ false = ground arith in
        disjoint_lem xs ys a d' (ground arith)
  ]

pub append-nil {ℓ} : {A : Type ℓ} (xs : List A) → (xs ++ []) ≡ xs
append-nil [] = refl
append-nil (x ∷ xs) = ap (λ l. x ∷ l) (append-nil xs)

pub empty-contains {ℓ} :
    {A : Type ℓ} ⦃e : Eq A⦄ (xs : List A) (a : A) → is_empty xs ≡ true → contains xs a ≡ false
empty-contains [] a h = refl
empty-contains (x ∷ xs) a h = cc

module _ {ℓ} {A : Type ℓ} where
  pub filter-All : (keep : A → Bool) (xs : List A) → All (λ x. keep x ≡ true) (filter keep xs)
  filter-All keep [] = tt
  filter-All keep (x ∷ xs) = elim (Bool-cases (keep x)) [
    | inl kept ↦ rw kept (kept, filter-All keep xs)
    | inr cut ↦ rw cut (filter-All keep xs)
  ]

  pub filter_congr :
      (p q : A → Bool) (xs : List A) → All (λ x. p x ≡ q x) xs → filter p xs ≡ filter q xs
  filter_congr p q [] h = refl
  filter_congr p q (x ∷ xs) h =
      ap (λ b. if b then x ∷ filter p xs else filter p xs) h.0
      ∙ ap (λ l. if q x then x ∷ l else l) (filter_congr p q xs h.1)

  pub length-map {κ} : {B : Type κ} (f : A → B) (xs : List A) → length (map f xs) ≡ length xs
  length-map f [] = refl
  length-map f (x ∷ xs) = ap suc (length-map f xs)

  pub is_empty-length {κ} :
      {B : Type κ} (xs : List A) (ys : List B)
      → length xs ≡ length ys
      → is_empty ys ≡ false
      → is_empty xs ≡ false
  is_empty-length (x ∷ xs) ys e n = refl
  is_empty-length [] [] e n = n
  is_empty-length [] (y ∷ ys) e n = absurd (ground arith)

pub length-append {ℓ} : {A : Type ℓ} (xs ys : List A) → length (xs ++ ys) ≡ length xs + length ys
length-append [] ys = omega arith
length-append (x ∷ xs) ys = omega (arith, length-append xs ys)

pub All-filter {ℓ κ} :
    {A : Type ℓ} (P : A → Type κ) (f : A → Bool) (xs : List A) → All P xs → All P (filter f xs)
All-filter P f [] h = h
All-filter P f (x ∷ xs) h = elim (Bool-cases (f x)) [
  | inl in_case ↦ rw in_case (h.0, All-filter P f xs h.1)
  | inr out_case ↦ rw out_case (All-filter P f xs h.1)
]

pub map-append {ℓ κ} :
    {A : Type ℓ} {B : Type κ} (f : A → B) (xs ys : List A) → map f (xs ++ ys) ≡ map f xs ++ map f ys
map-append f [] ys = refl
map-append f (x ∷ xs) ys = ap (λ l. f x ∷ l) (map-append f xs ys)
