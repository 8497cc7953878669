-- ===== src/Store/Revert.antt =====
-- The UPDATE statements of `revert_broadcast` in persistence/bitcoin_wallet.rs, row by row.
pub mod Sorted
pub mod Restored
pub mod Undo
pub mod RoundTrip
use uni_pay.Prelude.{
  Bool-cases, List, Option, String, [], and_true, ap, arith, beq_ne_symm, beq_of_eq, contains,
  eq_of_beq, false, find, inl, inr, map, none, or_left, or_right, refl, some, string_eq, sym, true,
  ◌&&◌, ◌==◌, ◌∙◌, ◌∷◌, ◌≡◌,
}
use uni_pay.Store.Operations.{restore_from, restore_rows}
use uni_pay.Store.Plans.{PersistedWalletRequestSnapshot, snapshot_keys}
use uni_pay.Store.Rows.{Table, WalletRequestRow, has_duplicate, update_if}

unfoldable pub restore_row :
    String → List PersistedWalletRequestSnapshot → WalletRequestRow → WalletRequestRow
restore_row scope [] r = r
restore_row scope (s ∷ ss) r =
    restore_row scope ss
      (update_if (λ x. x.scope == scope && x.dedupe_key == s.dedupe_key) (restore_from s) r)

map-map {ℓ} : {A : Type ℓ} (f g : A → A) (xs : List A) → map f (map g xs) ≡ map (λ x. f (g x)) xs
map-map f g [] = refl
map-map f g (x ∷ xs) = ap (λ l. f (g x) ∷ l) (map-map f g xs)

map_self {ℓ} : {A : Type ℓ} (xs : List A) → map (λ x. x) xs ≡ xs
map_self [] = refl
map_self (x ∷ xs) = ap (λ l. x ∷ l) (map_self xs)

pub restore_rows-map :
    (scope : String) (ss : List PersistedWalletRequestSnapshot) (t : Table)
    → restore_rows scope ss t ≡ map (restore_row scope ss) t
unfolding restore_rows restore_row
restore_rows-map scope [] t = sym (map_self t)
restore_rows-map scope (s ∷ ss) t =
    restore_rows-map scope ss
      (map (update_if (λ x. x.scope == scope && x.dedupe_key == s.dedupe_key) (restore_from s)) t)
    ∙ map-map (restore_row scope ss)
        (update_if (λ x. x.scope == scope && x.dedupe_key == s.dedupe_key) (restore_from s)) t

-- What a row becomes under the snapshot of its key.
abbrev pub restored : Option PersistedWalletRequestSnapshot → WalletRequestRow → WalletRequestRow
restored none r = r
restored (some s) r = restore_from s r

abbrev pub snapshot_of :
    List PersistedWalletRequestSnapshot → String → Option PersistedWalletRequestSnapshot
snapshot_of ss key = find (λ s. s.dedupe_key == key) ss

-- A row is left alone by the snapshots of other keys.
restore_row-absent :
    (scope : String) (ss : List PersistedWalletRequestSnapshot) (r : WalletRequestRow)
    → contains (snapshot_keys ss) r.dedupe_key ≡ false
    → restore_row scope ss r ≡ r
unfolding restore_row
restore_row-absent scope [] r n = refl
restore_row-absent scope (s ∷ ss) r n =
    let other : (r.dedupe_key == s.dedupe_key) ≡ false =
      beq_ne_symm s.dedupe_key r.dedupe_key (ground arith) in
    let skipped : (r.scope == scope && r.dedupe_key == s.dedupe_key) ≡ false = ground arith in
    rw skipped (restore_row-absent scope ss r (ground arith))

-- With distinct keys a row of the scope becomes what the snapshot of its key says.
pub restore_row_lem :
    (scope : String) (ss : List PersistedWalletRequestSnapshot) (r : WalletRequestRow)
    → has_duplicate (snapshot_keys ss) ≡ false
    → (r.scope == scope) ≡ true
    → restore_row scope ss r ≡ restored (snapshot_of ss r.dedupe_key) r
unfolding restore_row has_duplicate
restore_row_lem scope [] r d e = refl
restore_row_lem scope (s ∷ ss) r d e = elim (Bool-cases (s.dedupe_key == r.dedupe_key)) [
  | inl same ↦
      let key : s.dedupe_key ≡ r.dedupe_key = eq_of_beq s.dedupe_key r.dedupe_key same in
      let found : (r.scope == scope && r.dedupe_key == s.dedupe_key) ≡ true =
        and_true (r.scope == scope) _ e (beq_of_eq r.dedupe_key s.dedupe_key (sym key)) in
      let absent : contains (snapshot_keys ss) r.dedupe_key ≡ false =
        ap (contains (snapshot_keys ss)) (sym key)
        ∙ or_left (contains (snapshot_keys ss) s.dedupe_key) _ d in
      rw (same, found) (restore_row-absent scope ss (restore_from s r) absent)
  | inr other ↦
      let apart = beq_ne_symm s.dedupe_key r.dedupe_key other in
      let skipped : (r.scope == scope && r.dedupe_key == s.dedupe_key) ≡ false = ground arith in
      rw (other, skipped)
        (restore_row_lem scope ss r (or_right (contains (snapshot_keys ss) s.dedupe_key) _ d) e)
]

-- A row of another scope is left alone.
pub restore_row-other :
    (scope : String) (ss : List PersistedWalletRequestSnapshot) (r : WalletRequestRow)
    → (r.scope == scope) ≡ false
    → restore_row scope ss r ≡ r
unfolding restore_row
restore_row-other scope [] r n = refl
restore_row-other scope (s ∷ ss) r n =
    let skipped : (r.scope == scope && r.dedupe_key == s.dedupe_key) ≡ false = ground arith in
    rw skipped (restore_row-other scope ss r n)
