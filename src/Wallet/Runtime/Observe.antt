-- ===== src/Wallet/Runtime/Observe.antt =====
-- The observation of the chain in wallet/runtime.rs: the search for a surviving sibling of a missing
-- head, the sweep over the live lineages, and the recovery at startup. The trait
-- `WalletTxObserver` is a record of functions: within one search each txid is asked for once, so an
-- answer for each txid is all that the chain can say.
use uni_pay.Prelude.{
  Bool, List, Option, Result, [], err, false, filter, if◌then◌else◌, map, nat_eq, none, not, ok,
  reverse, some, true, ℕ, ◌%◌, ◌++◌, ◌+◌, ◌==◌, ◌>>=◌, ◌^◌, ◌∷◌,
}
use uni_pay.Wallet.Types.{
  ChainAnchor, CoverUtxo, EsploraTx, ExecutorError, LineageId, LiveLineage, ObservedTxState, Txid,
  WalletRuntimeState, confirmed, in_mempool, missing, outpoint_eq,
}

pub record WalletTxObserver : Type 0 where
  pub observe_tx : Txid → Result ExecutorError ObservedTxState
  pub load_wallet_funding_inputs : Txid → Result ExecutorError (List CoverUtxo)
  pub load_tx : Txid → Result ExecutorError EsploraTx

pub data MissingHeadResolution : Type 0 where
  confirmed_sibling : Txid → MissingHeadResolution
  mempool_sibling : Txid → List CoverUtxo → MissingHeadResolution
  no_live_sibling : MissingHeadResolution
  observer_error : MissingHeadResolution

abbrev pub without_anchor : Option ChainAnchor → List CoverUtxo → List CoverUtxo
without_anchor none utxos = utxos
without_anchor (some a) utxos = filter (λ u. not (u.outpoint == a.change_outpoint)) utxos

unfoldable pub load_funding_inputs_for_txid :
    WalletTxObserver → Txid → Option ChainAnchor → Result ExecutorError (List CoverUtxo)
load_funding_inputs_for_txid o txid anchor = do
  utxos ← o.load_wallet_funding_inputs txid
  ok (without_anchor anchor utxos)

abbrev pub adopt_sibling : Txid → Result ExecutorError (List CoverUtxo) → MissingHeadResolution
adopt_sibling txid (ok utxos) = mempool_sibling txid utxos
adopt_sibling txid (err _) = observer_error

-- The loop over the siblings, newest first, with the flag `saw_error`.
unfoldable pub probe_siblings :
    WalletTxObserver → Option ChainAnchor → List Txid → Bool → MissingHeadResolution
unfolding load_funding_inputs_for_txid
probe_siblings o anchor [] saw_error = if saw_error then observer_error else no_live_sibling
probe_siblings o anchor (txid ∷ older) saw_error =
    let after_missing = probe_siblings o anchor older saw_error in
    let after_error = probe_siblings o anchor older true in
    elim (o.observe_tx txid) [
      | ok state ↦ elim state [
        | confirmed ↦ confirmed_sibling txid
        | in_mempool ↦ adopt_sibling txid (load_funding_inputs_for_txid o txid anchor)
        | missing ↦ after_missing
      ]
      | err _ ↦ after_error
    ]

abbrev pub siblings : LiveLineage → List Txid
siblings l = filter (λ txid. not (txid == l.head_txid)) (reverse l.all_txids)

unfoldable pub probe_missing_head_resolution :
    WalletTxObserver → LiveLineage → MissingHeadResolution
unfolding probe_siblings
probe_missing_head_resolution o l = probe_siblings o l.chain_anchor (siblings l) false

-- `HashMap` operations on the lineages and on the counters.
abbrev pub get_lineage : LineageId → List LiveLineage → Option LiveLineage
get_lineage id [] = none
get_lineage id (l ∷ ls) = if l.lineage_id == id then some l else get_lineage id ls

abbrev pub remove_lineage : LineageId → List LiveLineage → List LiveLineage
remove_lineage id [] = []
remove_lineage id (l ∷ ls) = if l.lineage_id == id then ls else l ∷ remove_lineage id ls

-- `insert`, and a write through `get_mut`.
abbrev pub insert_lineage : LiveLineage → List LiveLineage → List LiveLineage
insert_lineage l [] = l ∷ []
insert_lineage l (k ∷ ks) = if k.lineage_id == l.lineage_id then l ∷ ks else k ∷ insert_lineage l ks

abbrev pub count_of : LineageId → List (LineageId × ℕ) → ℕ
count_of id [] = 0
count_of id ((k, n) ∷ m) = if k == id then n else count_of id m

abbrev pub increment : LineageId → List (LineageId × ℕ) → List (LineageId × ℕ)
increment id [] = (id, 1) ∷ []
increment id ((k, n) ∷ m) = if k == id then (k, (n + 1) % 2 ^ 32) ∷ m else (k, n) ∷ increment id m

abbrev pub remove_count : LineageId → List (LineageId × ℕ) → List (LineageId × ℕ)
remove_count id [] = []
remove_count id ((k, n) ∷ m) = if k == id then m else (k, n) ∷ remove_count id m

unfoldable pub live_lineage : WalletRuntimeState → LineageId → Option LiveLineage
live_lineage s id = get_lineage id s.live_lineages

-- `*observations += 1` on `u32`, and the new count.
unfoldable pub record_missing_observation : LineageId → WalletRuntimeState → ℕ × WalletRuntimeState
record_missing_observation id s =
    let counts = increment id s.missing_observations in
    (count_of id counts, record s { missing_observations = counts })

unfoldable pub missing_observations : WalletRuntimeState → LineageId → ℕ
missing_observations s id = count_of id s.missing_observations

unfoldable pub reset_missing_observations : LineageId → WalletRuntimeState → WalletRuntimeState
reset_missing_observations id s = record s {
  missing_observations = remove_count id s.missing_observations;
}

pub record PendingLineageConfirmation : Type 0 where
  pub lineage : LiveLineage
  pub confirmed_txid : Txid

abbrev pub Sweep : Type 0
Sweep = WalletRuntimeState × List PendingLineageConfirmation

-- A confirmed lineage leaves the live ones and is queued.
abbrev pub confirm_live : LiveLineage → Txid → Sweep → Sweep
confirm_live l txid (s, out) = (
  reset_missing_observations l.lineage_id
      (record s { live_lineages = remove_lineage l.lineage_id s.live_lineages }),
  out ++ record { lineage = l; confirmed_txid = txid } ∷ [],
)

abbrev pub resolve_missing : LiveLineage → MissingHeadResolution → Sweep → Sweep
resolve_missing l (confirmed_sibling txid) (s, out) = confirm_live l txid (s, out)
resolve_missing l (mempool_sibling txid utxos) (s, out) = (
  reset_missing_observations l.lineage_id (record s {
    live_lineages =
        insert_lineage (record l { head_txid = txid; cover_utxos = utxos }) s.live_lineages;
  }),
  out,
)
resolve_missing l no_live_sibling (s, out) = ((record_missing_observation l.lineage_id s).1, out)
resolve_missing l observer_error (s, out) = (s, out)

unfoldable pub observe_lineage : WalletTxObserver → LiveLineage → Sweep → Sweep
unfolding probe_missing_head_resolution reset_missing_observations record_missing_observation
observe_lineage o l (s, out) = elim (o.observe_tx l.head_txid) [
  | ok state ↦ elim state [
    | confirmed ↦ confirm_live l l.head_txid (s, out)
    | in_mempool ↦ (reset_missing_observations l.lineage_id s, out)
    | missing ↦ resolve_missing l (probe_missing_head_resolution o l) (s, out)
  ]
  | err _ ↦ (s, out)
]

-- The loop over the ids taken at the start.
unfoldable pub observe_ids : WalletTxObserver → List LineageId → Sweep → Sweep
unfolding observe_lineage
observe_ids o [] (s, out) = (s, out)
observe_ids o (id ∷ ids) (s, out) = observe_ids o ids (elim (get_lineage id s.live_lineages) [
  | none ↦ (s, out)
  | some l ↦ observe_lineage o l (s, out)
])

unfoldable pub observe_live_lineages : WalletTxObserver → WalletRuntimeState → Sweep
unfolding observe_ids
observe_live_lineages o s = observe_ids o (map (λ l. l.lineage_id) s.live_lineages) (s, [])
