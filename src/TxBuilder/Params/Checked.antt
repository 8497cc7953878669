-- ===== src/TxBuilder/Params/Checked.antt =====
-- What the checks of tx_builder/validation.rs and the partition of primitives.rs establish.

use mathlib.Core.Path.{subst}
use uni_pay.Prelude.{
  All, All-append, Bool-cases, IsUnique, List, Option, Result, [], ap, arith, beq_refl, bind_ok,
  contains, eq_of_beq, err, fail_if, fail_if_ok, false, inl, inr, is_some, map, none, ok,
  ok_injective, or-eq_false, or_true, refl, some, sym, total, total-append, true, true≢false, ℕ,
  ◌++◌, ◌+◌, ◌==◌, ◌||◌, ◌∙◌, ◌∷◌, ◌≡◌,
}
use uni_pay.TxBuilder.{TxBuilderError, validation}
use uni_pay.TxBuilder.Params.{
  BitcoinTxAdaptorParams, ensure_unique_outpoints, mandatory_outpoints, params_from_requests,
  place_all, place_request, validate_unique_mandatory_inputs,
}
use uni_pay.Wallet.Request.{is_sacp}
use uni_pay.Wallet.Types.{
  CoverUtxo, OutPoint, SendRequest, SpendRequest, WalletRequest, WalletRequestKind, outpoint_eq,
  send, spend,
}

ensure-IsUnique-contains :
    (seen os final : List OutPoint)
    → ensure_unique_outpoints seen os ≡ ok final
    → IsUnique os × ((o : OutPoint) → contains seen o ≡ true → contains os o ≡ false)
unfolding ensure_unique_outpoints
ensure-IsUnique-contains seen [] final e = (tt, λ o h. refl)
ensure-IsUnique-contains seen (x ∷ xs) final e =
    let (_, fresh_one, e1) = bind_ok (fail_if (contains seen x) validation) _ e in
    let (unique, apart) = ensure-IsUnique-contains (x ∷ seen) xs final e1 in
    (
      (apart x (ap (λ b. b || contains seen x) (beq_refl x)), unique),
      λ o h.
          or-eq_false (x == o) (contains xs o)
            (other x o (fail_if_ok (contains seen x) validation fresh_one) h)
            (apart o (ap (λ b. x == o || b) h ∙ or_true (x == o))),
    )
  where
    other : (x o : OutPoint) → contains seen x ≡ false → contains seen o ≡ true → (x == o) ≡ false
    other x o n h = elim (Bool-cases (x == o)) [
      | inl same ↦ absurd (true≢false (sym h ∙ ap (contains seen) (sym (eq_of_beq x o same)) ∙ n))
      | inr apart ↦ apart
    ]

abbrev pub lineage_outpoint : Option CoverUtxo → List OutPoint
lineage_outpoint none = []
lineage_outpoint (some u) = u.outpoint ∷ []

same_outpoints :
    (p : BitcoinTxAdaptorParams) (carried : List CoverUtxo) (lineage : Option CoverUtxo)
    → mandatory_outpoints p carried lineage
      ≡ map (λ (s : SpendRequest). s.outpoint) p.sacps
        ++ map (λ (s : SpendRequest). s.outpoint) p.spends
        ++ map (λ (u : CoverUtxo). u.outpoint) carried
        ++ lineage_outpoint lineage
same_outpoints p carried none = refl
same_outpoints p carried (some u) = refl

-- If the mandatory inputs pass their check, then no outpoint is twice among the SACP inputs, the regular
-- inputs, the carried inputs and the lineage's output.
pub validate_unique_mandatory_inputs-IsUnique :
    (p : BitcoinTxAdaptorParams) (carried : List CoverUtxo) (lineage : Option CoverUtxo)
    → validate_unique_mandatory_inputs p carried lineage ≡ ok tt
    → IsUnique (
        map (λ (s : SpendRequest). s.outpoint) p.sacps
        ++ map (λ (s : SpendRequest). s.outpoint) p.spends
        ++ map (λ (u : CoverUtxo). u.outpoint) carried
        ++ lineage_outpoint lineage)
unfolding validate_unique_mandatory_inputs
validate_unique_mandatory_inputs-IsUnique p carried lineage e =
    let (final, passed, _) =
      bind_ok (ensure_unique_outpoints [] (mandatory_outpoints p carried lineage)) _ e in
    subst IsUnique (same_outpoints p carried lineage)
      (ensure-IsUnique-contains [] (mandatory_outpoints p carried lineage) final passed).0

-- The weight of the parameters: of each request, as what it was placed as.
module _ (u : SendRequest → ℕ) (v : SpendRequest → ℕ) where
  abbrev pub kind_weight : WalletRequestKind → ℕ
  kind_weight (send s) = u s
  kind_weight (spend s) = v s

  abbrev pub params_weight : BitcoinTxAdaptorParams → ℕ
  params_weight p = total v p.sacps + total v p.spends + total u p.sends

  -- SACP spends carry SACP signatures, and regular spends have neither these nor a recipient.
  abbrev pub IsPlaced : BitcoinTxAdaptorParams → Type 0
  IsPlaced p =
      All (λ (s : SpendRequest). is_sacp s.sighash_type ≡ true) p.sacps
      × All (λ (s : SpendRequest). (is_sacp s.sighash_type ≡ false) × (is_some s.recipient ≡ false))
          p.spends

  abbrev Keeps :
      WalletRequestKind
      → BitcoinTxAdaptorParams
      → Result TxBuilderError BitcoinTxAdaptorParams
      → Type 0
  Keeps k p (err e) = Unit
  Keeps k p (ok q) = (params_weight q ≡ params_weight p + kind_weight k) × IsPlaced q

  place_request-Keeps :
      (k : WalletRequestKind) (p : BitcoinTxAdaptorParams)
      → IsPlaced p
      → Keeps k p (place_request k p)
  place_request-Keeps (send s) p h = (omega (arith, total-append u p.sends (s ∷ [])), h)
  place_request-Keeps (spend s) p h = elim (Bool-cases (is_sacp s.sighash_type)) [
    | inl sacp ↦ rw sacp (
      omega (arith, total-append v p.sacps (s ∷ [])),
      (
        All-append (λ (x : SpendRequest). is_sacp x.sighash_type ≡ true) p.sacps (s ∷ []) h.0
            (sacp, tt),
        h.1,
      ),
    )
    | inr regular ↦ rw regular (elim (Bool-cases (is_some s.recipient)) [
      | inl paired ↦ rw paired tt
      | inr alone ↦ rw alone (
        omega (arith, total-append v p.spends (s ∷ [])),
        (
          h.0,
          All-append
              (λ (x : SpendRequest).
                (is_sacp x.sighash_type ≡ false) × (is_some x.recipient ≡ false))
              p.spends (s ∷ []) h.1 ((regular, alone), tt),
        ),
      )
    ])
  ]

  place_all-Keeps :
      (rs : List WalletRequest) (p q : BitcoinTxAdaptorParams)
      → IsPlaced p
      → place_all rs p ≡ ok q
      → (params_weight q ≡ params_weight p + total (λ (r : WalletRequest). kind_weight r.kind) rs)
        × IsPlaced q
  unfolding place_all
  place_all-Keeps [] p q h e =
      let same : p ≡ q = ok_injective e refl refl in
      (ap params_weight (sym same) ∙ omega arith, subst IsPlaced same h)
  place_all-Keeps (r ∷ rs) p q h e =
      let (next, placed, rest) = bind_ok (place_request r.kind p) _ e in
      let (weight, kept) = subst (Keeps r.kind p) placed (place_request-Keeps r.kind p h) in
      let (more, final) = place_all-Keeps rs next q kept rest in
      (omega (arith, weight, more), final)

  -- If the requests are accepted, the parameters hold exactly their sends and spends, each as often; the
  -- SACP inputs are SACP spends; and the regular inputs are other spends, without a recipient.
  pub params_from_requests_conserves :
      (rs : List WalletRequest) (q : BitcoinTxAdaptorParams)
      → params_from_requests rs ≡ ok q
      → (params_weight q ≡ total (λ (r : WalletRequest). kind_weight r.kind) rs) × IsPlaced q
  unfolding params_from_requests
  params_from_requests_conserves rs q e =
      let (weight, kept) =
        place_all-Keeps rs (record { sacps = []; spends = []; sends = [] }) q (tt, tt) e in
      (omega (arith, weight), kept)
