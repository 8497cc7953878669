-- ===== src/Store/Restore/Within.antt =====
-- Sublists and places in them, for the histories of persistence/bitcoin_wallet.rs.
use mathlib.Core.Option
use uni_pay.Prelude.{
  Bool-cases, List, Option, [], ap, arith, beq_refl, eq_of_beq, false, if◌then◌else◌, inl, inr,
  length, ltb, nat_eq, none, refl, some, suc, sym, true≢false, ℕ, ◌++◌, ◌+◌, ◌==◌, ◌∙◌, ◌∷◌, ◌≡◌,
}
use uni_pay.Store.Restore.{insert_at, position}
use uni_pay.Wallet.Types.{Txid}

-- The first list is the second with some transactions left out.
pub data IsWithin : List Txid → List Txid → Type 0 where
  nothing : IsWithin [] []
  kept : {x : Txid} {xs ys : List Txid} → IsWithin xs ys → IsWithin (x ∷ xs) (x ∷ ys)
  skipped : {x : Txid} {xs ys : List Txid} → IsWithin xs ys → IsWithin xs (x ∷ ys)

pub IsWithin-nil : (ys : List Txid) → IsWithin [] ys
IsWithin-nil [] = nothing
IsWithin-nil (y ∷ ys) = skipped (IsWithin-nil ys)

pub IsWithin-refl : (ys : List Txid) → IsWithin ys ys
IsWithin-refl [] = nothing
IsWithin-refl (y ∷ ys) = kept (IsWithin-refl ys)

pub IsWithin-after : (zs : List Txid) {xs ys : List Txid} → IsWithin xs ys → IsWithin xs (zs ++ ys)
IsWithin-after [] w = w
IsWithin-after (z ∷ zs) w = skipped (IsWithin-after zs w)

pub IsWithin-append :
    (zs : List Txid) {xs ys : List Txid} → IsWithin xs ys → IsWithin (zs ++ xs) (zs ++ ys)
IsWithin-append [] w = w
IsWithin-append (z ∷ zs) w = kept (IsWithin-append zs w)

-- Where a transaction stands splits the list.
pub position_splits :
    (x : Txid) (ys : List Txid) (i : ℕ)
    → position x ys ≡ some i
    → (before after : List Txid) × (ys ≡ before ++ x ∷ after) × (i ≡ length before)
position_splits x [] i e = cc
position_splits x (y ∷ ys) i e = elim (Bool-cases (y == x)) [
  | inl here ↦
      let first : some 0 ≡ some i =
        ap (λ b. if b then some 0 else Option.map suc (position x ys)) (sym here) ∙ e in
      ([], ys, ap (λ z. z ∷ ys) (eq_of_beq y x here), sym (some_injective first))
  | inr apart ↦
      let later : Option.map suc (position x ys) ≡ some i =
        ap (λ b. if b then some 0 else Option.map suc (position x ys)) (sym apart) ∙ e in
      shifted (λ j. position_splits x ys j) (position x ys) refl later
]
  where
    some_injective : {m n : ℕ} → some m ≡ some n → m ≡ n
    some_injective h = cc

    shifted :
        ((j : ℕ)
          → position x ys ≡ some j
          → (before after : List Txid) × (ys ≡ before ++ x ∷ after) × (j ≡ length before))
        → (o : Option ℕ) → position x ys ≡ o
        → Option.map suc o ≡ some i
        → (before after : List Txid) × ((y ∷ ys) ≡ before ++ x ∷ after) × (i ≡ length before)
    shifted f none at h = cc
    shifted f (some j) at h =
        let (before, after, splits, size) = f j at in
        (y ∷ before, after, ap (λ l. y ∷ l) splits, sym (some_injective h) ∙ ap suc size)

pub position_beyond :
    (x c : Txid) (pre post : List Txid) (i : ℕ)
    → position x (pre ++ c ∷ post) ≡ some i
    → (c == x) ≡ false
    → ltb i (length pre) ≡ false
    → (p1 p2 : List Txid) × (post ≡ p1 ++ x ∷ p2) × (i ≡ length (pre ++ c ∷ p1))
position_beyond x c [] post i e d b =
    let (p1, p2, splits, size) = position_splits x (c ∷ post) i e in beyond p1 p2 splits size
  where
    beyond :
        (p1 p2 : List Txid)
        → (c ∷ post) ≡ p1 ++ x ∷ p2
        → i ≡ length p1
        → (q1 q2 : List Txid) × (post ≡ q1 ++ x ∷ q2) × (i ≡ length ([] ++ c ∷ q1))
    beyond [] p2 splits size =
        let same : c ≡ x = cc in absurd (true≢false (sym (ap (λ z. z == x) same ∙ beq_refl x) ∙ d))
    beyond (p ∷ p1) p2 splits size = let rest : post ≡ p1 ++ x ∷ p2 = cc in (p1, p2, rest, size)
position_beyond x c (y ∷ pre) post i e d b = elim (Bool-cases (y == x)) [
  | inl here ↦
      let first : some 0 ≡ some i =
        ap (λ q. if q then some 0 else Option.map suc (position x (pre ++ c ∷ post))) (sym here)
        ∙ e in
      absurd (ground arith)
  | inr apart ↦
      let later : Option.map suc (position x (pre ++ c ∷ post)) ≡ some i =
        ap (λ q. if q then some 0 else Option.map suc (position x (pre ++ c ∷ post))) (sym apart)
        ∙ e in
      shifted (λ j h k. position_beyond x c pre post j h d k) (position x (pre ++ c ∷ post)) refl
        later
]
  where
    shifted :
        ((j : ℕ)
          → position x (pre ++ c ∷ post) ≡ some j
          → ltb j (length pre) ≡ false
          → (p1 p2 : List Txid) × (post ≡ p1 ++ x ∷ p2) × (j ≡ length (pre ++ c ∷ p1)))
        → (o : Option ℕ) → position x (pre ++ c ∷ post) ≡ o
        → Option.map suc o ≡ some i
        → (p1 p2 : List Txid) × (post ≡ p1 ++ x ∷ p2) × (i ≡ length (y ∷ (pre ++ c ∷ p1)))
    shifted f none at h = cc
    shifted f (some j) at h =
        let same : suc j ≡ i = cc in
        let (p1, p2, splits, size) = f j at (ground arith) in
        (p1, p2, splits, sym same ∙ ap suc size)

pub insert_beyond :
    (pre : List Txid) (c x : Txid) (post : List Txid)
    → insert_at (length pre + 1) x (pre ++ c ∷ post) ≡ pre ++ c ∷ x ∷ post
insert_beyond [] c x post = refl
insert_beyond (y ∷ pre) c x post =
    let next : length (y ∷ pre) + 1 ≡ suc (length pre + 1) = omega arith in
    ap (λ n. insert_at n x (y ∷ (pre ++ c ∷ post))) next
    ∙ ap (λ l. y ∷ l) (insert_beyond pre c x post)
