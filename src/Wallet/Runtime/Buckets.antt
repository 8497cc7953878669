-- ===== src/Wallet/Runtime/Buckets.antt =====
-- The pending buckets stay split by anchor, lose no request, and hold no old anchor and nothing
-- stale after the housekeeping of a tick.
-- A weight that does not see the anchor: the request and its enqueue time.
use uni_pay.Prelude.{
  All, All-append, Bool, Bool-cases, List, Option-cases, [], arith, filter, inl, inr, is_some, leb,
  none, not, refl, some, total, total-append, true, ℕ, ◌++◌, ◌+◌, ◌<◌, ◌∷◌, ◌≡◌, ◌⊎◌,
}
use uni_pay.Wallet.Planner.Pins.{IsSplit}
use uni_pay.Wallet.Runtime.{
  Drained, confirmations_at, drain, expire_step, keep_request, move_request, push_all, push_request,
  unpinned,
}
use uni_pay.Wallet.Types.{ChainAnchor, PendingState, PendingWalletRequest, Timestamp, WalletRequest}

abbrev pub weigh : (WalletRequest → Timestamp → ℕ) → PendingWalletRequest → ℕ
weigh w r = w r.request r.created_at

abbrev pub bucket_weight : (WalletRequest → Timestamp → ℕ) → PendingState → ℕ
bucket_weight w p = total (weigh w) p.free + total (weigh w) p.anchored

push_request-IsSplit :
    (r : PendingWalletRequest) (p : PendingState) → IsSplit p → IsSplit (push_request r p)
unfolding push_request
push_request-IsSplit r p h = elim (Option-cases r.chain_anchor) [
  | inl free ↦ simp free (record {
    free_of_anchor = All-append _ p.free (r ∷ []) h.free_of_anchor (free, tt);
    anchored = h.anchored;
  })
  | inr (a, e) ↦ simp e (record {
    free_of_anchor = h.free_of_anchor;
    anchored = All-append _ p.anchored (r ∷ []) h.anchored ((λ n. cc), tt);
  })
]

pub push_all-IsSplit :
    (rs : List PendingWalletRequest) (p : PendingState) → IsSplit p → IsSplit (push_all rs p)
unfolding push_all
push_all-IsSplit [] p h = h
push_all-IsSplit (r ∷ rs) p h = push_all-IsSplit rs (push_request r p) (push_request-IsSplit r p h)

-- A weight that sees the anchor too.
module _ (w : PendingWalletRequest → ℕ) where
  push_request-total :
      (r : PendingWalletRequest) (p : PendingState)
      → let q = push_request r p in
        total w q.free + total w q.anchored ≡ total w p.free + total w p.anchored + w r
  unfolding push_request
  push_request-total r p = elim (Bool-cases (is_some r.chain_anchor)) [
    | inl pinned ↦ rw pinned (omega (arith, total-append w p.anchored (r ∷ [])))
    | inr free ↦ rw free (omega (arith, total-append w p.free (r ∷ [])))
  ]

  pub push_all-total :
      (rs : List PendingWalletRequest) (p : PendingState)
      → let q = push_all rs p in
        total w q.free + total w q.anchored ≡ total w p.free + total w p.anchored + total w rs
  unfolding push_all
  push_all-total [] p = omega arith
  push_all-total (r ∷ rs) p =
      omega (arith, push_all-total rs (push_request r p), push_request-total r p)

module _ (w : WalletRequest → Timestamp → ℕ) where
  push_request-weight :
      (r : PendingWalletRequest) (p : PendingState)
      → bucket_weight w (push_request r p) ≡ bucket_weight w p + weigh w r
  unfolding push_request
  push_request-weight r p = elim (Bool-cases (is_some r.chain_anchor)) [
    | inl pinned ↦ rw pinned (omega (arith, total-append (weigh w) p.anchored (r ∷ [])))
    | inr free ↦ rw free (omega (arith, total-append (weigh w) p.free (r ∷ [])))
  ]

  pub push_all-weight :
      (rs : List PendingWalletRequest) (p : PendingState)
      → bucket_weight w (push_all rs p) ≡ bucket_weight w p + total (weigh w) rs
  unfolding push_all
  push_all-weight [] p = omega arith
  push_all-weight (r ∷ rs) p =
      omega (arith, push_all-weight rs (push_request r p), push_request-weight r p)

  pub filter-weight :
      (f : PendingWalletRequest → Bool) (rs : List PendingWalletRequest)
      → total (weigh w) (filter f rs) + total (weigh w) (filter (λ r. not (f r)) rs)
        ≡ total (weigh w) rs
  filter-weight f [] = refl
  filter-weight f (r ∷ rs) = elim (Bool-cases (f r)) [
    | inl yes_case ↦ rw yes_case (omega (arith, filter-weight f rs))
    | inr no_case ↦ rw no_case (omega (arith, filter-weight f rs))
  ]

  abbrev pub drained_weight : Drained → ℕ
  drained_weight d = total (weigh w) d.free + total (weigh w) d.still_anchored

  pub expire_step-weight :
      (height required : ℕ) (r : PendingWalletRequest) (d : Drained)
      → drained_weight (expire_step height required r d) ≡ drained_weight d + weigh w r
  unfolding expire_step
  expire_step-weight height required r d = ground (
    arith,
    total-append (weigh w) d.free (r ∷ []),
    total-append (weigh w) d.free (unpinned r ∷ []),
    total-append (weigh w) d.still_anchored (r ∷ []),
  )

  pub drain-weight :
      (step : PendingWalletRequest → Drained → Drained)
      → ((r : PendingWalletRequest) (d : Drained)
          → drained_weight (step r d) ≡ drained_weight d + weigh w r)
      → (rs : List PendingWalletRequest) (d : Drained)
      → drained_weight (drain step rs d) ≡ drained_weight d + total (weigh w) rs
  unfolding drain
  drain-weight step one [] d = omega arith
  drain-weight step one (r ∷ rs) d = omega (arith, drain-weight step one rs (step r d), one r d)

module _ (height required : ℕ) where
  -- A pinned request whose anchor is not yet old enough.
  abbrev pub IsYoung : PendingWalletRequest → Type 0
  IsYoung r =
      (a : ChainAnchor) × (r.chain_anchor ≡ some a)
      × (confirmations_at height a.confirmed_height < required)

  abbrev pub IsSettled : Drained → Type 0
  IsSettled d = All (λ r. r.chain_anchor ≡ none) d.free × All IsYoung d.still_anchored

  expire_step_cases :
      (r : PendingWalletRequest) (d : Drained)
      → ((r.chain_anchor ≡ none)
          × (expire_step height required r d ≡ record d { free = d.free ++ r ∷ [] }))
        ⊎ (expire_step height required r d ≡ move_request r d)
        ⊎ (IsYoung r × (expire_step height required r d ≡ keep_request r d))
  unfolding expire_step
  expire_step_cases r d = elim (Option-cases r.chain_anchor) [
    | inl free ↦ inl (free, ground arith)
    | inr (a, e) ↦ elim (Bool-cases (leb required (confirmations_at height a.confirmed_height))) [
      | inl old ↦ inr (inl (ground arith))
      | inr young ↦ inr (inr ((a, e, ground arith), ground arith))
    ]
  ]

  expire_step-IsSettled :
      (r : PendingWalletRequest) (d : Drained)
      → IsSettled d
      → IsSettled (expire_step height required r d)
  expire_step-IsSettled r d h = elim (expire_step_cases r d) [
    | inl (free, e) ↦ rw e (All-append _ d.free (r ∷ []) h.0 (free, tt), h.1)
    | inr (inl e) ↦ rw e (All-append _ d.free (unpinned r ∷ []) h.0 (refl, tt), h.1)
    | inr (inr (young, e)) ↦
        rw e (h.0, All-append IsYoung d.still_anchored (r ∷ []) h.1 (young, tt))
  ]

  pub drain-IsSettled :
      (rs : List PendingWalletRequest) (d : Drained)
      → IsSettled d
      → IsSettled (drain (expire_step height required) rs d)
  unfolding drain
  drain-IsSettled [] d h = h
  drain-IsSettled (r ∷ rs) d h =
      drain-IsSettled rs (expire_step height required r d) (expire_step-IsSettled r d h)

pub All-filter_self {ℓ} :
    {A : Type ℓ} (f : A → Bool) (xs : List A) → All (λ x. f x ≡ true) (filter f xs)
All-filter_self f [] = tt
All-filter_self f (x ∷ xs) = elim (Bool-cases (f x)) [
  | inl in_case ↦ rw in_case (in_case, All-filter_self f xs)
  | inr out_case ↦ rw out_case (All-filter_self f xs)
]
