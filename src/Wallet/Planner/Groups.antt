-- ===== src/Wallet/Planner/Groups.antt =====
-- `group_anchored_requests` of wallet/planner.rs: anchored requests grouped by their anchor, in the
-- order in which the anchors first appear.
use uni_pay.Prelude.{List, [], if◌then◌else◌, none, some, ◌++◌, ◌==◌, ◌∷◌}
use uni_pay.Wallet.Types.{ChainAnchor, PendingWalletRequest, anchor_eq}

abbrev pub Group : Type 0
Group = ChainAnchor × List PendingWalletRequest

-- One request joins the group of its anchor, or opens a group at the end.
unfoldable pub add_to_group : ChainAnchor → PendingWalletRequest → List Group → List Group
add_to_group anchor r [] = (anchor, r ∷ []) ∷ []
add_to_group anchor r ((a, grouped) ∷ groups) =
    if a == anchor
    then (a, grouped ++ r ∷ []) ∷ groups
    else (a, grouped) ∷ add_to_group anchor r groups

unfoldable pub group_from : List Group → List PendingWalletRequest → List Group
group_from groups [] = groups
group_from groups (r ∷ rs) =
    group_from (elim r.chain_anchor [ none ↦ groups | some anchor ↦ add_to_group anchor r groups ])
      rs

unfoldable pub group_anchored_requests : List PendingWalletRequest → List Group
unfolding group_from
group_anchored_requests = group_from []
