-- ===== src/TxBuilder/Selection.antt =====
-- The greedy selection of tx_builder/cover_utxo.rs.
use uni_pay.Prelude.{
  All, All-weaken, Bool-cases, List, Result, [], ap, arith, err, inl, inr, leb, ok, refl, total, ℕ,
  ◌%◌, ◌++◌, ◌+◌, ◌<◌, ◌>>=◌, ◌∙◌, ◌∷◌, ◌≡◌, ◌≤◌, ◌⊎◌,
}
use uni_pay.TxBuilder.{TxBuilderError, insufficient_funds}
use uni_pay.TxBuilder.Cover.{insert_by_value, select, select_from, sort_by_value}
use uni_pay.Wallet.Planner.{u64_mod}
use uni_pay.Wallet.Types.{CoverUtxo}

abbrev pub value_of : List CoverUtxo → ℕ
value_of = total (λ u. u.value)

insert_by_value-value :
    (u : CoverUtxo) (us : List CoverUtxo) → value_of (insert_by_value u us) ≡ u.value + value_of us
unfolding insert_by_value
insert_by_value-value u [] = refl
insert_by_value-value u (v ∷ vs) = elim (Bool-cases (leb v.value u.value)) [
  | inl before ↦ rw before
  | inr after ↦ rw after (omega (arith, insert_by_value-value u vs))
]

pub sort_by_value-value : (us : List CoverUtxo) → value_of (sort_by_value us) ≡ value_of us
unfolding sort_by_value
sort_by_value-value [] = refl
sort_by_value-value (u ∷ us) =
    omega (arith, insert_by_value-value u (sort_by_value us), sort_by_value-value us)

-- A selection of a list, for a need that an amount is already there for: a prefix that is enough, and not
-- enough without its last input.
abbrev pub IsGreedy : ℕ → ℕ → List CoverUtxo → List CoverUtxo → Type 0
IsGreedy needed acc us chosen =
    (rest : List CoverUtxo) × (us ≡ chosen ++ rest)
    × (needed ≤ acc + value_of chosen)
    × ((before : List CoverUtxo) × (last : CoverUtxo) × (chosen ≡ before ++ last ∷ [])
        × ((before ≡ []) ⊎ (acc + value_of before < needed)))

abbrev pub Selects : ℕ → ℕ → List CoverUtxo → Result TxBuilderError (List CoverUtxo) → Type 0
Selects needed acc us (ok chosen) = IsGreedy needed acc us chosen
Selects needed acc us (err e) =
    (e ≡ insufficient_funds needed (acc + value_of us)) × ((us ≡ []) ⊎ (acc + value_of us < needed))

no_wrap : (n : ℕ) → n < u64_mod → n % u64_mod ≡ n
no_wrap n h = omega arith

extend :
    (needed acc : ℕ) (u : CoverUtxo) (us : List CoverUtxo)
    (r : Result TxBuilderError (List CoverUtxo))
    → acc + u.value < needed
    → Selects needed (acc + u.value) us r
    → Selects needed acc (u ∷ us) (r >>= λ more. ok (u ∷ more))
extend needed acc u us (ok chosen) low (rest, e, enough, (before, last, split, small)) = (
  rest,
  ap (λ l. u ∷ l) e,
  omega arith,
  (
    u ∷ before,
    last,
    ap (λ l. u ∷ l) split,
    inr (elim small [
      | inl none_before ↦ omega (arith, ap value_of none_before)
      | inr little ↦ omega arith
    ]),
  ),
)
extend needed acc u us (err x) low (e, why) = (
  e ∙ ap (insufficient_funds needed) (omega arith),
  inr (elim why [ inl nothing ↦ omega (arith, ap value_of nothing) | inr little ↦ omega arith ]),
)

select_from-Selects :
    (needed acc : ℕ) (us : List CoverUtxo)
    → acc + value_of us < u64_mod
    → Selects needed acc us (select_from needed acc us)
unfolding select_from
select_from-Selects needed acc [] small = (ap (insufficient_funds needed) (omega arith), inl refl)
select_from-Selects needed acc (u ∷ us) small =
    let kept : (acc + u.value) % u64_mod ≡ acc + u.value = omega arith in
    rw kept (elim (Bool-cases (leb needed (acc + u.value))) [
      | inl enough ↦ rw enough (us, refl, ground arith, ([], u, refl, inl refl))
      | inr low ↦ rw low (
          extend needed acc u us _ (ground arith)
            (select_from-Selects needed (acc + u.value) us (omega arith)))
    ])

-- No value stands behind a smaller one.
abbrev pub IsDescending : List CoverUtxo → Type 0
IsDescending [] = Unit
IsDescending (u ∷ us) = All (λ v. v.value ≤ u.value) us × IsDescending us

insert_by_value-total :
    (w : CoverUtxo → ℕ) (u : CoverUtxo) (us : List CoverUtxo)
    → total w (insert_by_value u us) ≡ w u + total w us
unfolding insert_by_value
insert_by_value-total w u [] = refl
insert_by_value-total w u (v ∷ vs) = elim (Bool-cases (leb v.value u.value)) [
  | inl before ↦ rw before
  | inr after ↦ rw after (omega (arith, insert_by_value-total w u vs))
]

insert_by_value-All :
    (bound : ℕ) (u : CoverUtxo) (us : List CoverUtxo)
    → u.value ≤ bound
    → All (λ v. v.value ≤ bound) us
    → All (λ v. v.value ≤ bound) (insert_by_value u us)
unfolding insert_by_value
insert_by_value-All bound u [] k h = (k, tt)
insert_by_value-All bound u (v ∷ vs) k h = elim (Bool-cases (leb v.value u.value)) [
  | inl before ↦ rw before (k, h)
  | inr after ↦ rw after (h.0, insert_by_value-All bound u vs k h.1)
]

insert_by_value-IsDescending :
    (u : CoverUtxo) (us : List CoverUtxo) → IsDescending us → IsDescending (insert_by_value u us)
unfolding insert_by_value
insert_by_value-IsDescending u [] h = (tt, tt)
insert_by_value-IsDescending u (v ∷ vs) h = elim (Bool-cases (leb v.value u.value)) [
  | inl before ↦
      let low : v.value ≤ u.value = ground arith in
      rw before ((low, All-weaken vs (λ x k. omega (arith, k, low)) h.0), h)
  | inr after ↦
      rw after
        (insert_by_value-All v.value u vs (ground arith) h.0, insert_by_value-IsDescending u vs h.1)
]

sort_by_value-IsDescending :
    (us : List CoverUtxo)
    → IsDescending (sort_by_value us)
      × ((w : CoverUtxo → ℕ) → total w (sort_by_value us) ≡ total w us)
unfolding sort_by_value
sort_by_value-IsDescending [] = (tt, λ w. refl)
sort_by_value-IsDescending (u ∷ us) =
    let (sorted, same) = sort_by_value-IsDescending us in
    (
      insert_by_value-IsDescending u (sort_by_value us) sorted,
      λ w. omega (arith, insert_by_value-total w u (sort_by_value us), same w),
    )

-- If the values of the candidates do not overflow a `u64` together, `select` returns a prefix of the
-- candidates in an order from the highest value to the lowest, each candidate as often, whose sum reaches
-- the need and would not without the last one; or it fails, with the sum of all values, and there is no
-- candidate or that sum is below the need.
pub select-Selects :
    (us : List CoverUtxo) (needed : ℕ)
    → value_of us < u64_mod
    → (sorted : List CoverUtxo) × IsDescending sorted
      × ((w : CoverUtxo → ℕ) → total w sorted ≡ total w us)
      × Selects needed 0 sorted (select us needed)
unfolding select
select-Selects us needed small =
    let (sorted, same) = sort_by_value-IsDescending us in
    (
      sort_by_value us,
      sorted,
      same,
      select_from-Selects needed 0 (sort_by_value us) (omega (arith, sort_by_value-value us)),
    )
