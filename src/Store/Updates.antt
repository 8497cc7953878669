-- ===== src/Store/Updates.antt =====
-- One or two UPDATE statements on a table, row by row.
use uni_pay.Prelude.{
  All, Bool-cases, List, Pairwise, String, [], any, arith, contains, disjoint_lem, false, inl, inr,
  string_eq, true, ◌∙◌, ◌∷◌, ◌≡◌,
}
use uni_pay.Store.Lifecycle.{IsTransition, unchanged}
use uni_pay.Store.Rows.{Table, WalletRequestRow, is_selected, update_rows}

module _ (scope : String) where
  pub one_update :
      (keys : List String) (f : WalletRequestRow → WalletRequestRow) (t : Table)
      → All (λ r. is_selected scope keys r ≡ true → IsTransition r (f r)) t
      → Pairwise IsTransition t (update_rows scope keys f t)
  unfolding update_rows
  one_update keys f [] h = tt
  one_update keys f (r ∷ rs) h = (
    elim (Bool-cases (is_selected scope keys r)) [
      | inl picked ↦ rw picked (h.0 picked)
      | inr other ↦ rw other (unchanged r)
    ],
    one_update keys f rs h.1,
  )

  pub selected_once :
      (keys others : List String) (r : WalletRequestRow)
      → any (contains others) keys ≡ false
      → is_selected scope keys r ≡ true
      → is_selected scope others r ≡ false
  unfolding is_selected
  selected_once keys others r d picked =
      let absent = disjoint_lem keys others r.dedupe_key d (ground arith) in ground arith

  -- The second statement selects no row of the first, whose scope and key are as they were.
  pub two_updates :
      (keys others : List String) (f g : WalletRequestRow → WalletRequestRow) (t : Table)
      → any (contains others) keys ≡ false
      → ((r : WalletRequestRow) → is_selected scope others (f r) ≡ is_selected scope others r)
      → All (λ r. is_selected scope keys r ≡ true → IsTransition r (f r)) t
      → All (λ r. is_selected scope others r ≡ true → IsTransition r (g r)) t
      → Pairwise IsTransition t (update_rows scope others g (update_rows scope keys f t))
  unfolding update_rows
  two_updates keys others f g [] d same h k = tt
  two_updates keys others f g (r ∷ rs) d same h k = (
    elim (Bool-cases (is_selected scope keys r)) [
      | inl picked ↦
          let once = same r ∙ selected_once keys others r d picked in
          rw picked (rw once (h.0 picked))
      | inr other ↦ rw other (elim (Bool-cases (is_selected scope others r)) [
        | inl second ↦ rw second (k.0 second)
        | inr none_of ↦ rw none_of (unchanged r)
      ])
    ],
    two_updates keys others f g rs d same h.1 k.1,
  )
