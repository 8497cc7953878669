-- ===== src/Prelude/Tests.antt =====
-- Boolean tests, the conditional, case splits on computed values, and equality as an interface.
use Prim.Native.Nat.{ℕ, ◌≤◌, ◌<◌, compare, Ordering}
use Prim.Native.String.{String}
use mathlib.Core.Path.{◌≡◌, refl, ap}
use mathlib.Core.Logic.{◌↔◌, ◌⊎◌, ◌≢◌, inl, inr}
use mathlib.Core.Bool.{Bool, true, false, not, ◌&&◌, ◌||◌}
use mathlib.Core.List.{List, [], ◌∷◌}
use mathlib.Core.Option.{Option, none, some}
use native.Mathlib.Omega.{arith}
use text.Mathlib.Text.{◌==◌ as str_eq}
use text.Mathlib.TextEquality.{eq_iff}

abbrev pub ltb : ℕ → ℕ → Bool
ltb a b = elim (compare a b) [ Ordering.lt ↦ true | _ ↦ false ]

abbrev pub leb : ℕ → ℕ → Bool
leb a b = elim (compare a b) [ Ordering.gt ↦ false | _ ↦ true ]

abbrev pub nat_beq : ℕ → ℕ → Bool
nat_beq a b = elim (compare a b) [ Ordering.eq ↦ true | _ ↦ false ]

infix 50 ◌==◌
infix 1 if◌then◌else◌
abbrev pub if◌then◌else◌ {ℓ} : {A : Type ℓ} → Bool → A → A → A
if true then x else y = x
if false then x else y = y

pub nat_beq_iff : (a b : ℕ) → (nat_beq a b ≡ true) ↔ (a ≡ b)
nat_beq_iff a b = ground arith

pub lt→ltb : (a b : ℕ) → a < b → ltb a b ≡ true
lt→ltb a b h = ground arith

pub le→leb : (a b : ℕ) → a ≤ b → leb a b ≡ true
le→leb a b h = ground arith

pub Bool-cases : (b : Bool) → (b ≡ true) ⊎ (b ≡ false)
Bool-cases true = inl refl
Bool-cases false = inr refl

pub Option-cases {ℓ} : {A : Type ℓ} (o : Option A) → (o ≡ none) ⊎ ((a : A) × (o ≡ some a))
Option-cases none = inl refl
Option-cases (some a) = inr (a, refl)

abbrev pub is_some {ℓ} : {A : Type ℓ} → Option A → Bool
is_some none = false
is_some (some a) = true

abbrev pub is_none {ℓ} : {A : Type ℓ} → Option A → Bool
is_none none = true
is_none (some a) = false

-- A type with a Boolean equality test (Rust's `Eq`).
pub record Eq {ℓ} (T : Type ℓ) : Type ℓ where
  pub beq : (x y : T) → Bool
  pub beq_iff : (x y : T) → (beq x y ≡ true) ↔ (x ≡ y)

abbrev pub ◌==◌ {ℓ} : {T : Type ℓ} ⦃test : Eq T⦄ (x y : T) → Bool
◌==◌ ⦃test⦄ x y = test.beq x y

abbrev pub option_beq {ℓ} : {A : Type ℓ} ⦃e : Eq A⦄ → Option A → Option A → Bool
option_beq none none = true
option_beq (some a) (some b) = a == b
option_beq _ _ = false

pub option_beq_iff {ℓ} :
    {A : Type ℓ} ⦃e : Eq A⦄ (a b : Option A) → (option_beq a b ≡ true) ↔ (a ≡ b)
option_beq_iff none none = ground arith
option_beq_iff ⦃e⦄ (some a) (some b) = ground (arith, e.beq_iff a b)
option_beq_iff none (some b) = ground arith
option_beq_iff (some a) none = ground arith

instance abbrev pub option_eq {ℓ} : {A : Type ℓ} ⦃e : Eq A⦄ → Eq (Option A)
option_eq = record { beq = option_beq; beq_iff = option_beq_iff }

instance abbrev pub string_eq : Eq String
string_eq = record { beq_iff = eq_iff; beq = str_eq }

pub beq_refl {ℓ} : {A : Type ℓ} ⦃e : Eq A⦄ (a : A) → (a == a) ≡ true
beq_refl ⦃e⦄ a = (e.beq_iff a a).1 refl

instance abbrev pub nat_eq : Eq ℕ
nat_eq = record { beq_iff = nat_beq_iff; beq = nat_beq }

abbrev pub list_beq {ℓ} : {A : Type ℓ} ⦃e : Eq A⦄ → List A → List A → Bool
list_beq [] [] = true
list_beq (x ∷ xs) (y ∷ ys) = x == y && list_beq xs ys
list_beq _ _ = false

pub list_beq_iff {ℓ} :
    {A : Type ℓ} ⦃e : Eq A⦄ (xs ys : List A) → (list_beq xs ys ≡ true) ↔ (xs ≡ ys)
list_beq_iff [] [] = ground arith
list_beq_iff ⦃e⦄ (x ∷ xs) (y ∷ ys) = ground (arith, e.beq_iff x y, list_beq_iff xs ys)
list_beq_iff [] (y ∷ ys) = ground arith
list_beq_iff (x ∷ xs) [] = ground arith

instance abbrev pub list_eq {ℓ} : {A : Type ℓ} ⦃e : Eq A⦄ → Eq (List A)
list_eq = record { beq = list_beq; beq_iff = list_beq_iff }

pub and_false : (x : Bool) → (x && false) ≡ false
and_false true = refl
and_false false = refl

pub or_false : (x : Bool) → (x || false) ≡ x
or_false true = refl
or_false false = refl

pub or_assoc : (x y z : Bool) → (x || (y || z)) ≡ (x || y || z)
or_assoc true y z = refl
or_assoc false y z = refl

pub or_absorb : (x y z : Bool) → x ≡ z → (x || y) ≡ (x || y || z)
or_absorb x y z e = ground arith

pub or-eq_false : (x y : Bool) → x ≡ false → y ≡ false → (x || y) ≡ false
or-eq_false x y p q = ground arith

pub beq_ne_symm {ℓ} : {A : Type ℓ} ⦃e : Eq A⦄ (a b : A) → (a == b) ≡ false → (b == a) ≡ false
beq_ne_symm ⦃e⦄ a b h = ground (arith, e.beq_iff a b, e.beq_iff b a)

pub beq_congr {ℓ} : {A : Type ℓ} ⦃e : Eq A⦄ (a b c : A) → (a == b) ≡ true → (a == c) ≡ (b == c)
beq_congr ⦃e⦄ a b c h = ap (λ x. e.beq x c) ((e.beq_iff a b).0 h)

pub or_swap : (x y z : Bool) → (x || (y || z)) ≡ (y || (x || z))
or_swap x y z = ground arith

pub or_true : (x : Bool) → (x || true) ≡ true
or_true true = refl
or_true false = refl

pub or_left : (x y : Bool) → (x || y) ≡ false → x ≡ false
or_left x y h = ground arith

pub or_right : (x y : Bool) → (x || y) ≡ false → y ≡ false
or_right x y h = ground arith

pub beq_apart {ℓ} :
    {A : Type ℓ} ⦃e : Eq A⦄ (a b c : A) → (a == c) ≡ true → (a == b) ≡ false → (b == c) ≡ false
beq_apart ⦃e⦄ a b c h n = ground (arith, e.beq_iff a c, e.beq_iff a b, e.beq_iff b c)

pub eq_of_beq {ℓ} : {A : Type ℓ} ⦃e : Eq A⦄ (a b : A) → (a == b) ≡ true → a ≡ b
eq_of_beq ⦃e⦄ a b h = (e.beq_iff a b).0 h

pub beq_of_eq {ℓ} : {A : Type ℓ} ⦃e : Eq A⦄ (a b : A) → a ≡ b → (a == b) ≡ true
beq_of_eq ⦃e⦄ a b h = (e.beq_iff a b).1 h

pub and_true : (x y : Bool) → x ≡ true → y ≡ true → (x && y) ≡ true
and_true x y p q = ground arith

pub true≢false : true ≢ false
true≢false h = cc

pub not-false : (x : Bool) → not x ≡ false → x ≡ true
not-false x h = ground arith

pub some≢none {ℓ} : {A : Type ℓ} {a : A} → some a ≢ none
some≢none h = cc

pub not-true : (x : Bool) → not x ≡ true → x ≡ false
not-true x h = ground arith

pub or_absorb_left : (x y z : Bool) → y ≡ x → (x || z) ≡ (x || (y || z))
or_absorb_left x y z e = ground arith

pub and_left : (x y : Bool) → (x && y) ≡ true → x ≡ true
and_left x y h = ground arith

pub and_right : (x y : Bool) → (x && y) ≡ true → y ≡ true
and_right x y h = ground arith

pub beq_comm : {A : Type 0} ⦃q : Eq A⦄ (a b : A) → (a == b) ≡ (b == a)
beq_comm ⦃q⦄ a b = ground (arith, q.beq_iff a b, q.beq_iff b a)
