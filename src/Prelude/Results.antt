-- ===== src/Prelude/Results.antt =====
-- `Result` with its `?` operator, as a monad for each error type.
use mathlib.Core.Bool.{Bool, true, false}
use mathlib.Core.Path.{◌≡◌, refl, ap, sym, ◌∙◌}
use mathlib.Core.Logic.{inl, inr, ◌≢◌}
use Prim.Native.Nat.{ℕ}
use native.Mathlib.Omega.{arith}
use uni_pay.Prelude.Tests.{Eq, ◌==◌, Bool-cases, if◌then◌else◌, nat_eq}
use uni_pay.Prelude.Lists.{contains}
use mathlib.Core.Option.{Option, none, some}
use mathlib.Core.List.{List, [], ◌∷◌}

pub data Result (E : Type 0) (A : Type 0) : Type 0 where
  ok : A → Result E A
  err : E → Result E A

infixl 5 ◌>>=◌ ◌>>◌
abbrev pub ◌>>=◌ : {E A B : Type 0} → Result E A → (A → Result E B) → Result E B
ok a >>= f = f a
err e >>= f = err e

abbrev pub ◌>>◌ : {E B : Type 0} → Result E (Unit {0}) → Result E B → Result E B
m >> k = m >>= λ _. k

-- `if test { return Err(e) }`
abbrev pub fail_if : {E : Type 0} → Bool → E → Result E (Unit {0})
fail_if true e = err e
fail_if false e = ok tt

-- `ok_or_else`
abbrev pub ok_or : {E A : Type 0} → Option A → E → Result E A
ok_or none e = err e
ok_or (some a) e = ok a

-- A loop `for x in xs { check(x)?; }`
abbrev pub each : {E A : Type 0} → (A → Result E (Unit {0})) → List A → Result E (Unit {0})
each check [] = ok tt
each check (x ∷ xs) = check x >> each check xs

-- `iter().map(f).collect::<Result<Vec<_>, _>>()`
abbrev pub collect : {E A B : Type 0} → (A → Result E B) → List A → Result E (List B)
collect f [] = ok []
collect f (x ∷ xs) = f x >>= λ y. collect f xs >>= λ ys. ok (y ∷ ys)

-- What a chain that returned did on the way.
pub bind_ok :
    {E A B : Type 0} (m : Result E A) (f : A → Result E B) {b : B}
    → (m >>= f) ≡ ok b
    → (a : A) × (m ≡ ok a) × (f a ≡ ok b)
bind_ok (ok a) f e = (a, refl, e)
bind_ok (err x) f e = cc

pub then_ok :
    {E B : Type 0} (m : Result E (Unit {0})) (k : Result E B) {b : B}
    → (m >> k) ≡ ok b
    → (m ≡ ok tt) × (k ≡ ok b)
then_ok (ok tt) k e = (refl, e)
then_ok (err x) k e = cc

pub fail_if_ok :
    {E : Type 0} (test : Bool) (e : E) {u : Unit {0}} → fail_if test e ≡ ok u → test ≡ false
fail_if_ok true e h = cc
fail_if_ok false e h = refl

pub err_ok : {E A : Type 0} (e : E) {a : A} → err e ≢ ok a
err_ok e h = cc

pub if_ok :
    {E A : Type 0} (test : Bool) (a : A) (e : E) {b : A}
    → (if test then ok a else err e) ≡ ok b
    → a ≡ b
if_ok true a e h = ground arith
if_ok false a e h = cc

pub if_test :
    {E A : Type 0} (n m : ℕ) (a : A) (e : E) {b : A}
    → (if n == m then ok a else err e) ≡ ok b
    → n ≡ m
if_test n m a e h = elim (Bool-cases (n == m)) [
  | inl same ↦ ground arith
  | inr other ↦ absurd (err_ok e (ap (λ t. if t then ok a else err e) (sym other) ∙ h))
]

pub if_err :
    {E A : Type 0} (test : Bool) (e : E) (a : A) {b : A}
    → (if test then err e else ok a) ≡ ok b
    → (test ≡ false) × (a ≡ b)
if_err true e a h = cc
if_err false e a h = (refl, ground arith)

pub ok_or_ok : {E A : Type 0} (o : Option A) (e : E) {a : A} → ok_or o e ≡ ok a → o ≡ some a
ok_or_ok none e h = cc
ok_or_ok (some b) e h = ground arith

-- A loop that returned checked every value that it visited.
pub each_ok :
    {E A : Type 0} ⦃q : Eq A⦄ (check : A → Result E (Unit {0})) (xs : List A) {u : Unit {0}}
    → each check xs ≡ ok u
    → (x : A) → contains xs x ≡ true
    → check x ≡ ok tt
each_ok check [] e x h = cc
each_ok ⦃q⦄ check (y ∷ ys) e x h =
    let (own, rest) = then_ok (check y) (each check ys) e in
    elim (Bool-cases (y == x)) [
      | inl same ↦ ap check (sym ((q.beq_iff y x).0 same)) ∙ own
      | inr other ↦ each_ok check ys rest x (ground arith)
    ]

pub ok_injective : {E A : Type 0} {a b : A} {x y : Result E A} → x ≡ y → x ≡ ok a → y ≡ ok b → a ≡ b
ok_injective e p q = ground arith

-- A chain of guards that returned `true` passed each of them.
pub guard_ok :
    {E : Type 0} (b : Bool) (k : Result E Bool)
    → (if b then ok false else k) ≡ ok true
    → (b ≡ false) × (k ≡ ok true)
guard_ok true k h = absurd (ground arith)
guard_ok false k h = (refl, h)

pub guard_true : (b k : Bool) → (if b then false else k) ≡ true → (b ≡ false) × (k ≡ true)
guard_true true k h = cc
guard_true false k h = (refl, h)
