-- ===== src/Prelude/Order.antt =====
-- Three-way comparisons (Rust's `Ordering`): their composition, and the laws that sorting relies on.
use Prim.Native.Nat.{ℕ, compare, Ordering}
use Prim.Native.Nat.Ordering.{lt, eq, gt}
use mathlib.Core.Path.{◌≡◌, refl, ap, sym, subst, ◌∙◌}
use mathlib.Core.Logic.{◌≢◌}
use mathlib.Core.List.{List, [], ◌∷◌}
use native.Mathlib.Omega.{arith}

-- `Ordering::reverse`
abbrev pub flip : Ordering → Ordering
flip lt = gt
flip eq = eq
flip gt = lt

-- `Ordering::then`: the second comparison decides where the first does not.
abbrev pub then_with : Ordering → Ordering → Ordering
then_with lt r = lt
then_with eq r = r
then_with gt r = gt

-- A comparison that orders its values, not strictly.
pub record IsOrder {ℓ} {A : Type ℓ} (cmp : A → A → Ordering) : Type ℓ where
  pub flips : (a b : A) → cmp b a ≡ flip (cmp a b)
  pub trans : (a b c : A) → cmp a b ≢ gt → cmp b c ≢ gt → cmp a c ≢ gt

-- Texts, code point by code point.
abbrev pub compare_list : List ℕ → List ℕ → Ordering
compare_list [] [] = eq
compare_list [] (y ∷ ys) = lt
compare_list (x ∷ xs) [] = gt
compare_list (x ∷ xs) (y ∷ ys) = then_with (compare x y) (compare_list xs ys)

pub compare-IsOrder : IsOrder compare
compare-IsOrder = record { flips = flips_lem; trans = trans_lem }
  where
    flips_lem : (a b : ℕ) → compare b a ≡ flip (compare a b)
    flips_lem a b = ground arith

    trans_lem : (a b c : ℕ) → compare a b ≢ gt → compare b c ≢ gt → compare a c ≢ gt
    trans_lem a b c h k = ground arith

module _ {ℓ} {A : Type ℓ} {cmp : A → A → Ordering} (o : IsOrder cmp) where
  -- Along a chain the comparison of the ends is that of its links.
  pub chained : (a b c : A) → cmp a b ≢ gt → cmp b c ≢ gt → cmp a c ≡ then_with (cmp a b) (cmp b c)
  chained a b c h k =
      table (cmp a b) (cmp b c) (cmp a c) h k (o.trans a b c h k)
        (λ f. back a b (o.trans b c a k (forth a c f)))
        (λ f. back b c (o.trans c a b (forth a c f) h))
        (λ f g. back a c (o.trans c b a (forth b c f) (forth a b g)))
    where
      forth : (p q : A) → flip (cmp p q) ≢ gt → cmp q p ≢ gt
      forth p q f e = f (sym (o.flips p q) ∙ e)

      back : (p q : A) → cmp q p ≢ gt → flip (cmp p q) ≢ gt
      back p q f e = f (o.flips p q ∙ e)

      table :
          (x y z : Ordering)
          → x ≢ gt
          → y ≢ gt
          → z ≢ gt
          → (flip z ≢ gt → flip x ≢ gt)
          → (flip z ≢ gt → flip y ≢ gt)
          → (flip y ≢ gt → flip x ≢ gt → flip z ≢ gt)
          → z ≡ then_with x y
      table gt y z h k l p q r = absurd (h refl)
      table lt gt z h k l p q r = absurd (k refl)
      table eq gt z h k l p q r = absurd (k refl)
      table lt lt gt h k l p q r = absurd (l refl)
      table lt eq gt h k l p q r = absurd (l refl)
      table eq lt gt h k l p q r = absurd (l refl)
      table eq eq gt h k l p q r = absurd (l refl)
      table lt lt lt h k l p q r = refl
      table lt eq lt h k l p q r = refl
      table eq lt lt h k l p q r = refl
      table eq eq eq h k l p q r = refl
      table lt lt eq h k l p q r = absurd (p (λ e. cc) refl)
      table lt eq eq h k l p q r = absurd (p (λ e. cc) refl)
      table eq lt eq h k l p q r = absurd (q (λ e. cc) refl)
      table eq eq lt h k l p q r = absurd (r (λ e. cc) (λ e. cc) refl)

  -- A second comparison may refine the first.
  pub then_trans :
      (a b c : A) (x y z : Ordering)
      → (x ≢ gt → y ≢ gt → z ≢ gt)
      → then_with (cmp a b) x ≢ gt
      → then_with (cmp b c) y ≢ gt
      → then_with (cmp a c) z ≢ gt
  then_trans a b c x y z second h k =
      subst (λ w. then_with w z ≢ gt)
        (sym (chained a b c (first (cmp a b) x h) (first (cmp b c) y k)))
        (joined (cmp a b) (cmp b c) h k)
    where
      first : (p q : Ordering) → then_with p q ≢ gt → p ≢ gt
      first lt q f e = cc
      first eq q f e = cc
      first gt q f e = f refl

      joined :
          (p q : Ordering)
          → then_with p x ≢ gt
          → then_with q y ≢ gt
          → then_with (then_with p q) z ≢ gt
      joined lt q f g e = cc
      joined gt q f g e = f refl
      joined eq lt f g e = cc
      joined eq gt f g e = g refl
      joined eq eq f g e = second f g e

flip-then_with : (x y : Ordering) → then_with (flip x) (flip y) ≡ flip (then_with x y)
flip-then_with lt y = refl
flip-then_with eq y = refl
flip-then_with gt y = refl

pub then_with-IsOrder {ℓ} :
    {A : Type ℓ} {c d : A → A → Ordering}
    → IsOrder c
    → IsOrder d
    → IsOrder (λ a b. then_with (c a b) (d a b))
then_with-IsOrder {A} {c} {d} o p = record {
  flips = λ a b.
      ap (λ w. then_with w (d b a)) (o.flips a b)
      ∙ ap (λ w. then_with (flip (c a b)) w) (p.flips a b)
      ∙ flip-then_with (c a b) (d a b);
  trans = λ a b e. then_trans o a b e (d a b) (d b e) (d a e) (p.trans a b e);
}

-- Values are compared by a key.
pub key-IsOrder {ℓ κ} :
    {A : Type ℓ} {K : Type κ} {c : K → K → Ordering} (key : A → K)
    → IsOrder c
    → IsOrder (λ a b. c (key a) (key b))
key-IsOrder key o = record {
  flips = λ a b. o.flips (key a) (key b);
  trans = λ a b c. o.trans (key a) (key b) (key c);
}

flip-flip : (x : Ordering) → flip (flip x) ≡ x
flip-flip lt = refl
flip-flip eq = refl
flip-flip gt = refl

-- The greater first.
pub flip-IsOrder {ℓ} :
    {A : Type ℓ} {c : A → A → Ordering} → IsOrder c → IsOrder (λ a b. flip (c a b))
flip-IsOrder {A} {c} o = record {
  flips = λ a b. ap flip (o.flips a b);
  trans = λ a b d h k.
      subst (λ w. w ≢ gt) (o.flips a d)
        (o.trans d b a (subst (λ w. w ≢ gt) (sym (o.flips b d)) k)
          (subst (λ w. w ≢ gt) (sym (o.flips a b)) h));
}

compare_list_flips : (a b : List ℕ) → compare_list b a ≡ flip (compare_list a b)
compare_list_flips [] [] = refl
compare_list_flips [] (y ∷ ys) = refl
compare_list_flips (x ∷ xs) [] = refl
compare_list_flips (x ∷ xs) (y ∷ ys) =
    ap (λ w. then_with w (compare_list ys xs)) (compare-IsOrder.flips x y)
    ∙ ap (λ w. then_with (flip (compare x y)) w) (compare_list_flips xs ys)
    ∙ flip-then_with (compare x y) (compare_list xs ys)

compare_list_trans :
    (a b c : List ℕ) → compare_list a b ≢ gt → compare_list b c ≢ gt → compare_list a c ≢ gt
compare_list_trans [] b [] h k = k'
  where
    k' : eq ≢ gt
    k' e = cc
compare_list_trans [] b (z ∷ zs) h k = λ e. cc
compare_list_trans (x ∷ xs) [] c h k = absurd (h refl)
compare_list_trans (x ∷ xs) (y ∷ ys) [] h k = absurd (k refl)
compare_list_trans (x ∷ xs) (y ∷ ys) (z ∷ zs) h k =
    then_trans compare-IsOrder x y z (compare_list xs ys) (compare_list ys zs) (compare_list xs zs)
      (compare_list_trans xs ys zs) h k

pub compare_list-IsOrder : IsOrder compare_list
compare_list-IsOrder = record { flips = compare_list_flips; trans = compare_list_trans }
