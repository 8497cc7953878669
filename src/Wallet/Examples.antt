-- ===== src/Wallet/Examples.antt =====
-- Concrete wallets on which the theorems about the planner and the runtime apply.
use mathlib.Core.Path.{refl}
use uni_pay.Prelude.{
  All, IsUnique, String, [], err, false, filter, if◌then◌else◌, length, nat_eq, none, not, ok,
  reverse, some, total, ℕ, ◌*◌, ◌+◌, ◌<◌, ◌==◌, ◌↔◌, ◌∷◌, ◌≡◌, ◌⊎◌,
}
use uni_pay.Wallet.Planner.{
  PlannerCostEvaluator, chained, lineage_of_anchor, plan_chained_group, plan_free_only,
  request_output_count, requests_fit_output_cap,
}
use uni_pay.Wallet.Planner.Anchors.{spent_anchors, spent_anchors-IsUnique}
use uni_pay.Wallet.Planner.Coverage.{Carries}
use uni_pay.Wallet.Planner.Groups.{add_to_group, group_anchored_requests, group_from}
use uni_pay.Wallet.Planner.Pins.{IsSound, IsSplit, plan_wallet_batches-IsSound}
use uni_pay.Wallet.Planner.Plan.{mix_from, plan_groups, plan_wallet_batches}
use uni_pay.Wallet.Planner.Theorems.{plan_wallet_batches-covers}
use uni_pay.Wallet.Request.{from_parts, is_blank}
use uni_pay.Wallet.Request.Validation.{from_parts-eq_ok_iff}
use uni_pay.Wallet.Runtime.{from_requests, housekeep, push_all, push_request}
use uni_pay.Wallet.Runtime.Buckets.{bucket_weight, weigh}
use uni_pay.Wallet.Runtime.Housekeeping.{IsClean, housekeep-IsClean, housekeep_conserves}
use uni_pay.Wallet.Runtime.Observe.{
  Sweep, WalletTxObserver, observe_ids, observe_lineage, observe_live_lineages,
  probe_missing_head_resolution, probe_siblings,
}
use uni_pay.Wallet.Runtime.Probe.{Explains, probe_missing_head_resolution-Explains}
use uni_pay.Wallet.Runtime.Recover.{recover_lineages, recover_wallet_runtime, restored_weight}
use uni_pay.Wallet.Runtime.Recovered.{recover_wallet_runtime_conserves}
use uni_pay.Wallet.Runtime.Sweep.{observe_live_lineages_conserves, sweep_weight}
use uni_pay.Wallet.Types.{
  ChainAnchor, LiveLineage, PendingWalletRequest, RestoredWalletState, WalletConfig, WalletRequest,
  WalletRuntimeState, anchor_eq, confirmed, external, from_snapshot, missing, send,
}

abbrev anchor : ChainAnchor
anchor = record {
  confirmed_txid = 7;
  change_outpoint = record { txid = 7; vout = 1 };
  change_value = 90000;
  change_script_pubkey = [];
  confirmed_height = 100;
}

abbrev send_of : String → ℕ → WalletRequest
send_of key amount = record {
  dedupe_key = key;
  kind = send (record { address = 1; amount = amount });
}

abbrev free_request : PendingWalletRequest
free_request = record { request = send_of "free" 1000; chain_anchor = none; created_at = 50 }

abbrev pinned_request : PendingWalletRequest
pinned_request = record {
  request = send_of "pinned" 2000;
  chain_anchor = some anchor;
  created_at = 50;
}

abbrev live : LiveLineage
live = record {
  lineage_id = 3;
  head_txid = 12;
  all_txids = 11 ∷ 12 ∷ [];
  requests =
      record { request = send_of "live" 3000; txid_history = 11 ∷ 12 ∷ []; created_at = 40 } ∷ [];
  cover_utxos = [];
  chain_anchor = none;
}

abbrev wallet : WalletRuntimeState
wallet = record {
  live_lineages = live ∷ [];
  pending = record { free = free_request ∷ []; anchored = pinned_request ∷ [] };
  missing_observations = [];
  current_height = 101;
}

abbrev config : WalletConfig
config = record {
  tick_interval_secs = 60;
  missing_batch_threshold = 3;
  max_outputs_per_batch = 10;
  max_pending_ttl_secs = 600;
  min_change_value = 546;
  max_concurrent_lineages = 4;
  chain_anchor_confirmations = 6;
}

-- A cost of 100 for each request, and 500 for a batch of its own.
abbrev evaluator : PlannerCostEvaluator
evaluator = record {
  fresh_cost = λ rs. some (500 + 100 * length rs);
  rbf_cost = λ l rs. none;
  chained_cost = λ a l rs. some (300 + 100 * length rs);
}

wallet-IsSplit : IsSplit wallet.pending
wallet-IsSplit = record { free_of_anchor = (refl, tt); anchored = ((λ n. cc), tt) }

plan_wallet_batches-covers_example :
    let plan = plan_wallet_batches wallet config evaluator in
    (plan ≡ [])
    ⊎ Carries plan (pinned_request ∷ [])
    ⊎ Carries plan (pinned_request ∷ free_request ∷ [])
plan_wallet_batches-covers_example =
    plan_wallet_batches-covers wallet config evaluator wallet-IsSplit.anchored

plan_wallet_batches-IsSound_example :
    All (IsSound wallet config) (plan_wallet_batches wallet config evaluator)
plan_wallet_batches-IsSound_example =
    plan_wallet_batches-IsSound wallet config evaluator wallet-IsSplit

spent_anchors-IsUnique_example :
    IsUnique (spent_anchors (plan_wallet_batches wallet config evaluator))
spent_anchors-IsUnique_example = spent_anchors-IsUnique wallet config evaluator

plan_test :
    plan_wallet_batches wallet config evaluator
    ≡ chained none anchor (pinned_request ∷ free_request ∷ []) ∷ []
unfolding plan_wallet_batches plan_groups mix_from plan_chained_group plan_free_only
    group_anchored_requests group_from add_to_group lineage_of_anchor requests_fit_output_cap
    request_output_count
plan_test = refl

housekeep-IsClean_example :
    IsClean
      (free_request ∷ [])
      102
      700
      config
      wallet
      (housekeep (free_request ∷ []) 102 700 config wallet).2
housekeep-IsClean_example =
    housekeep-IsClean (free_request ∷ []) 102 700 config wallet wallet-IsSplit

housekeep_conserves_example :
    let (_, old, s') = housekeep (free_request ∷ []) 102 700 config wallet in
    bucket_weight (λ r t. t) wallet.pending + 50
    ≡ bucket_weight (λ r t. t) s'.pending + total (weigh (λ r t. t)) old
housekeep_conserves_example =
    housekeep_conserves (free_request ∷ []) 102 700 config wallet (λ r t. t)

-- A chain that knows the older transaction of the lineage only.
abbrev observer : WalletTxObserver
observer = record {
  observe_tx = λ txid. if txid == 11 then ok confirmed else ok missing;
  load_wallet_funding_inputs = λ txid. ok [];
  load_tx = λ txid. err external;
}

probe_missing_head_resolution-Explains_example :
    Explains observer none
      (filter (λ txid. not (txid == live.head_txid)) (reverse live.all_txids))
      false
      (probe_missing_head_resolution observer live)
probe_missing_head_resolution-Explains_example =
    probe_missing_head_resolution-Explains observer live

observe_live_lineages_conserves_example :
    sweep_weight (λ r. r.created_at) (observe_live_lineages observer wallet) ≡ 40
observe_live_lineages_conserves_example =
    observe_live_lineages_conserves (λ r. r.created_at) observer wallet

sweep_test :
    (observe_live_lineages observer wallet).1 ≡ record { lineage = live; confirmed_txid = 11 } ∷ []
unfolding observe_live_lineages observe_ids observe_lineage probe_missing_head_resolution
    probe_siblings
sweep_test = refl

from_parts-eq_ok_iff_example :
    (from_parts "free" (send (record { address = 1; amount = 1000 })) ≡ ok (send_of "free" 1000))
    ↔ ((is_blank "free" ≡ false) × (0 < 1000) × (send_of "free" 1000 ≡ send_of "free" 1000))
from_parts-eq_ok_iff_example =
    from_parts-eq_ok_iff "free" (send (record { address = 1; amount = 1000 })) (send_of "free" 1000)

abbrev restored : RestoredWalletState
restored = record {
  pending = pinned_request ∷ free_request ∷ [];
  inflight =
      record {
        lineage_id = 3;
        head_txid = 12;
        all_txids = 11 ∷ 12 ∷ [];
        requests =
            record { request = send_of "live" 3000; txid_history = 11 ∷ 12 ∷ []; created_at = 40 }
            ∷ [];
        cover_utxos = [];
        chain_anchor = none;
      }
      ∷ [];
}

abbrev recovered : Sweep
recovered = (
  record {
    live_lineages = [];
    pending = record { free = free_request ∷ []; anchored = pinned_request ∷ [] };
    missing_observations = [];
    current_height = 101;
  },
  record { lineage = live; confirmed_txid = 11 } ∷ [],
)

recovered_lem : recover_wallet_runtime observer restored 101 ≡ ok recovered
unfolding recover_wallet_runtime recover_lineages from_snapshot probe_missing_head_resolution
    probe_siblings from_requests push_all push_request
recovered_lem = refl

recover_wallet_runtime_conserves_example :
    (sweep_weight (λ r. r.created_at) recovered
      ≡ total (restored_weight (λ r. r.created_at)) restored.inflight)
    × ((u : PendingWalletRequest → ℕ)
        → total u recovered.0.pending.free + total u recovered.0.pending.anchored
          ≡ total u restored.pending)
    × IsSplit recovered.0.pending
recover_wallet_runtime_conserves_example =
    recover_wallet_runtime_conserves (λ r. r.created_at) observer restored 101 recovered (refl, tt)
      recovered_lem
