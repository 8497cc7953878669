-- ===== src/EvmWatcher/BlockRange/Covered.antt =====
-- The ranges of evm-watcher/src/block_range.rs cover the blocks.
use uni_pay.EvmWatcher.BlockRange.{
  BlockRange, dedup, group_block_ranges, group_sorted, last_of, range, ranges_from, sort_unstable,
}
use uni_pay.EvmWatcher.BlockRange.Sorted.{Ascends, Climbs, contains-dedup, dedup-Climbs}
use uni_pay.Prelude.{
  Bool, Bool-cases, List, [], any, ap, arith, contains, eq_of_beq, filter, inl, inr, leb, le→leb,
  nat_eq, not, or_false, or_true, refl, sym, true, ℕ, ◌&&◌, ◌+◌, ◌-◌, ◌<◌, ◌==◌, ◌||◌, ◌∙◌, ◌∷◌,
  ◌≡◌, ◌≢◌, ◌≤◌, ◌⊎◌,
}

abbrev pub covers : ℕ → BlockRange → Bool
covers b r = leb r.from_block b && leb b r.to_block

last_of-le : (b : ℕ) (bs : List ℕ) → Ascends b bs → b ≤ last_of b bs
last_of-le b [] h = omega arith
last_of-le b (c ∷ cs) h = omega (arith, last_of-le c cs h.1)

-- Ranges in order, from a lower bound on: each has its ends in order and a span below the limit (a single
-- block is always allowed), and begins after the end of the one before.
abbrev pub IsOrdered : ℕ → ℕ → List BlockRange → Type 0
IsOrdered max_span lo [] = Unit
IsOrdered max_span lo (r ∷ rs) =
    (lo ≤ r.from_block)
    × (r.from_block ≤ r.to_block)
    × ((r.to_block - r.from_block < max_span) ⊎ (r.from_block ≡ r.to_block))
    × IsOrdered max_span (r.to_block + 1) rs

IsOrdered-lower :
    (max_span lo lo' : ℕ) (rs : List BlockRange)
    → lo' ≤ lo
    → IsOrdered max_span lo rs
    → IsOrdered max_span lo' rs
IsOrdered-lower max_span lo lo' [] h o = tt
IsOrdered-lower max_span lo lo' (r ∷ rs) h o = (omega (arith, o.0), o.1, o.2, o.3)

ranges_from-IsOrdered :
    (max_span start previous : ℕ) (rest : List ℕ)
    → start ≤ previous
    → (previous - start < max_span) ⊎ (start ≡ previous)
    → Ascends previous rest
    → IsOrdered max_span start (ranges_from max_span start previous (last_of previous rest) rest)
unfolding ranges_from
ranges_from-IsOrdered max_span start previous [] h span a =
    rw (le→leb start previous h) (omega arith, h, span, tt)
ranges_from-IsOrdered max_span start previous (c ∷ cs) h span a =
    elim (Bool-cases (leb max_span (c - start))) [
      | inl far ↦ rw far (
        omega arith,
        h,
        span,
        IsOrdered-lower max_span c (previous + 1) _ (omega (arith, a.0))
            (ranges_from-IsOrdered max_span c c cs (omega arith) (inr refl) a.1),
      )
      | inr near ↦
          rw near (
            ranges_from-IsOrdered max_span start c cs (omega (arith, a.0)) (inl (ground arith)) a.1)
    ]

ranges_from-covers :
    (max_span start previous : ℕ) (rest : List ℕ) (b : ℕ)
    → start ≤ previous
    → Ascends previous rest
    → ((start ≤ b) × (b ≤ previous)) ⊎ (contains rest b ≡ true)
    → any (covers b) (ranges_from max_span start previous (last_of previous rest) rest) ≡ true
unfolding ranges_from
ranges_from-covers max_span start previous [] b h a (inl inside) =
    rw (le→leb start previous h) (ground arith)
ranges_from-covers max_span start previous [] b h a (inr later) = absurd (ground arith)
ranges_from-covers max_span start previous (c ∷ cs) b h a inside =
    elim (Bool-cases (leb max_span (c - start))) [
      | inl far ↦ rw far (elim inside [
        | inl here ↦
            ap (λ x. x || any (covers b) (ranges_from max_span c c (last_of c cs) cs))
              (both b start previous here)
        | inr later ↦
            ap (λ x. covers b (range start previous) || x)
              (ranges_from-covers max_span c c cs b (omega arith) a.1 (next b c cs later))
            ∙ or_true (covers b (range start previous))
      ])
      | inr near ↦ rw near (
          ranges_from-covers max_span start c cs b (omega (arith, a.0)) a.1 (elim inside [
            | inl here ↦ inl (here.0, omega (arith, a.0, here.1))
            | inr later ↦ elim (next b c cs later) [
              | inl same ↦ inl (omega (arith, a.0, same.0), same.1)
              | inr beyond ↦ inr beyond
            ]
          ]))
    ]
  where
    both :
        (b start previous : ℕ)
        → (start ≤ b) × (b ≤ previous)
        → covers b (range start previous) ≡ true
    both b start previous k = ground arith

    next :
        (b c : ℕ) (cs : List ℕ)
        → contains (c ∷ cs) b ≡ true
        → ((c ≤ b) × (b ≤ c)) ⊎ (contains cs b ≡ true)
    next b c cs k = elim (Bool-cases (c == b)) [
      | inl same ↦ inl (ground arith)
      | inr other ↦ inr (ap (λ x. x || contains cs b) (sym other) ∙ k)
    ]

group_sorted-IsOrdered :
    (max_span : ℕ) (bs : List ℕ) → Climbs bs → IsOrdered max_span 0 (group_sorted max_span bs)
unfolding group_sorted
group_sorted-IsOrdered max_span [] h = tt
group_sorted-IsOrdered max_span (b ∷ []) h = (omega arith, omega arith, inr refl, tt)
group_sorted-IsOrdered max_span (b ∷ c ∷ cs) h =
    IsOrdered-lower max_span b 0 _ (omega arith)
      (ranges_from-IsOrdered max_span b b (c ∷ cs) (omega arith) (inr refl) h)

group_sorted-covers :
    (max_span : ℕ) (bs : List ℕ) (b : ℕ)
    → Climbs bs
    → contains bs b ≡ true
    → any (covers b) (group_sorted max_span bs) ≡ true
unfolding group_sorted
group_sorted-covers max_span [] b h k = cc
group_sorted-covers max_span (x ∷ []) b h k =
    let same : x ≡ b = eq_of_beq x b (sym (or_false (x == b)) ∙ k) in ground arith
group_sorted-covers max_span (x ∷ c ∷ cs) b h k =
    ranges_from-covers max_span x x (c ∷ cs) b (omega arith) h (elim (Bool-cases (x == b)) [
      | inl same ↦ let eq : x ≡ b = eq_of_beq x b same in inl (omega arith, omega arith)
      | inr other ↦ inr (ap (λ t. t || contains (c ∷ cs) b) (sym other) ∙ k)
    ])

contains-filter :
    (p : ℕ → Bool) (bs : List ℕ) (b : ℕ)
    → contains bs b ≡ true
    → p b ≡ true
    → contains (filter p bs) b ≡ true
contains-filter p [] b k h = cc
contains-filter p (c ∷ cs) b k h = elim (Bool-cases (c == b)) [
  | inl same ↦
      let eq : p c ≡ true = ap p (eq_of_beq c b same) ∙ h in
      rw eq (ap (λ t. t || contains (filter p cs) b) same)
  | inr other ↦
      let rest = contains-filter p cs b (ap (λ t. t || contains cs b) (sym other) ∙ k) h in
      elim (Bool-cases (p c)) [
        | inl kept ↦ rw kept (ap (λ t. c == b || t) rest ∙ or_true (c == b))
        | inr cut ↦ rw cut rest
      ]
]

-- Every block but 0 is in a range; the ranges are in order and apart, each begins at or before its end, and
-- its span is below the limit unless it is a single block.
pub group_block_ranges-covers :
    (blocks : List ℕ) (max_span : ℕ)
    → IsOrdered max_span 0 (group_block_ranges blocks max_span)
      × ((b : ℕ)
          → contains blocks b ≡ true
          → b ≢ 0
          → any (covers b) (group_block_ranges blocks max_span) ≡ true)
unfolding group_block_ranges
group_block_ranges-covers blocks max_span =
    let kept = filter (λ b. not (b == 0)) blocks in
    (
      group_sorted-IsOrdered max_span (dedup (sort_unstable kept)) (dedup-Climbs kept),
      λ b k n.
          group_sorted-covers max_span (dedup (sort_unstable kept)) b (dedup-Climbs kept)
            (contains-dedup b kept ∙ contains-filter (λ c. not (c == 0)) blocks b k (nonzero b n)),
    )
  where
    nonzero : (b : ℕ) → b ≢ 0 → not (b == 0) ≡ true
    nonzero b n = elim (Bool-cases (b == 0)) [
      | inl zero_block ↦ absurd (n (eq_of_beq b 0 zero_block))
      | inr other ↦ rw other
    ]
