-- ===== src/TxBuilder/Overpay.antt =====
-- The candidate that the fee loop of tx_builder/fee_builder.rs remembers: the least overpayment so far.
use uni_pay.Prelude.{
  Bool-cases, List, Result, ap, arith, err, if◌then◌else◌, inl, inr, ltb, ok, refl, sym, ℕ, ◌+◌,
  ◌-◌, ◌<◌, ◌∙◌, ◌≡◌, ◌≢◌,
}
use uni_pay.TxBuilder.{TxBuilderError}
use uni_pay.TxBuilder.Cover.{BitcoinCoverUtxoProvider}
use uni_pay.TxBuilder.Fee.{
  FeeDelta, FeeState, TxAdaptor, beats, delta_of, exact, negsuc, overpaid, pos, record_overpay,
  underpaid, ℤ,
}
use uni_pay.TxBuilder.Reached.{IsOverpay, Reaches}

-- What a better candidate is.
overpays :
    (delta : ℕ) (current : ℤ) (target : ℕ)
    → delta_of current target ≡ overpaid delta
    → (fee : ℕ) × (current ≡ pos fee) × (fee ≡ target + delta) × (0 < delta)
overpays delta (pos fee) target e = elim (Bool-cases (ltb fee target)) [
  | inl low ↦ absurd (
      not_over (
        ap
          (λ x.
            if x
            then underpaid (target - fee)
            else if ltb target fee
            then overpaid (fee - target)
            else exact)
          (sym low)
        ∙ e))
  | inr high ↦ elim (Bool-cases (ltb target fee)) [
    | inl over ↦
        let at : overpaid (fee - target) ≡ overpaid delta =
          ap (λ x. if x then overpaid (fee - target) else exact) (sym over)
          ∙ ap
              (λ x.
                if x
                then underpaid (target - fee)
                else if ltb target fee
                then overpaid (fee - target)
                else exact)
              (sym high)
          ∙ e in
        let same : fee - target ≡ delta = ap surplus_of at in
        (fee, refl, ground arith, ground arith)
    | inr even ↦ absurd (
        not_exact (
          ap (λ x. if x then overpaid (fee - target) else exact) (sym even)
          ∙ ap
              (λ x.
                if x
                then underpaid (target - fee)
                else if ltb target fee
                then overpaid (fee - target)
                else exact)
              (sym high)
          ∙ e))
  ]
]
  where
    not_over : {n m : ℕ} → underpaid n ≢ overpaid m
    not_over h = cc

    not_exact : {m : ℕ} → exact ≢ overpaid m
    not_exact h = cc

    surplus_of : FeeDelta → ℕ
    surplus_of exact = 0
    surplus_of (underpaid n) = 0
    surplus_of (overpaid n) = n
overpays delta (negsuc n) target e = absurd (clash e)
  where
    clash : {m k : ℕ} → underpaid m ≢ overpaid k
    clash h = cc

module _ {Tx : Type 0} (a : TxAdaptor Tx) (min_change : ℕ) (start : BitcoinCoverUtxoProvider)
    (initial : ℕ) where
  abbrev pub IsKept : FeeState → Result TxBuilderError FeeState → Type 0
  IsKept s (err e) = Unit
  IsKept s (ok s') =
      IsOverpay a min_change start initial s'.best_overpay
      × (s'.cover ≡ s.cover)
      × (s'.change ≡ s.change)

  pub record_overpay-IsKept :
      (tx : Tx) (encoded : List ℕ) (current : ℤ) (target : ℕ) (delta : FeeDelta) (s : FeeState)
      → Reaches a min_change start initial s.cover s.change
      → a.build s.cover.selected s.change ≡ ok tx
      → a.current s.cover tx ≡ ok current
      → a.target tx ≡ ok target
      → a.encode tx ≡ ok encoded
      → delta_of current target ≡ delta
      → IsOverpay a min_change start initial s.best_overpay
      → IsKept s (record_overpay a encoded current delta s)
  record_overpay-IsKept tx encoded current target exact s g b c t n d h = (h, refl, refl)
  record_overpay-IsKept tx encoded current target (underpaid short) s g b c t n d h =
      (h, refl, refl)
  record_overpay-IsKept tx encoded current target (overpaid delta) s g b c t n d h =
      let (fee, paid, amount, more) = overpays delta current target d in
      elim (Bool-cases (beats delta s.best_overpay)) [
        | inl better ↦
            rw (better, paid)
              ((tx, target, (s.cover, g, b, c ∙ ap ok paid), n, t, amount, more), refl, refl)
        | inr worse ↦ rw worse (h, refl, refl)
      ]
