-- ===== src/Scenarios/Inventories.antt =====
-- Runs of the inventory: "a" and "b" are tracked, "b" and "c" are observed.
use quotascale_controller.Effects.{Result, err, ok}
use quotascale_controller.Failure.{other}
use quotascale_controller.Inventory.{
  NodeScalingInventoryNode, build_node_scaling_inventory_spec, elem_name, existing_nodes,
  find_highest_order_used_inventory_nodes, find_unused_inventory_nodes, has_name, max_order_from,
  no_unused_nodes, no_used_nodes, node_greater, node_less, normalize_node_names,
}
use quotascale_controller.Inventory.Build.{
  build_node_scaling_inventory_spec_preserves, count-build_node_scaling_inventory_spec,
}
use quotascale_controller.Inventory.Find.{
  Finds, find_highest_order_used_inventory_nodes-Finds, find_unused_inventory_nodes-Finds,
}
use quotascale_controller.Inventory.Order.{IsAscending}
use quotascale_controller.Inventory.Rebuild.{
  IsKeptOrFresh, build_node_scaling_inventory_spec-IsKeptOrFresh,
  build_node_scaling_inventory_spec-IsAscending, build_node_scaling_inventory_spec_idem,
}
use quotascale_controller.Inventory.Store.{
  InventoryClient, get, set_node_used, sync, sync_result, update, update_node_usage,
}
use quotascale_controller.Inventory.Store.Laws.{Holds, sync_rebuilds, update_node_usage_tracked}
use quotascale_controller.Prelude.{
  All, Bool, List, String, [], any, arith, count, false, if◌then◌else◌, not, refl, some, suc, true,
  ℕ, ◌&&◌, ◌+◌, ◌∷◌, ◌≡◌,
}
use quotascale_controller.Prelude.Int.{pos, ℤ}
use quotascale_controller.Prelude.Sorting.{sort_stable}
use quotascale_controller.Prelude.Text.{str_eq, str_ltb}
use quotascale_controller.Scenarios.{World, existing, inventory, inventory_client, laws, w}

abbrev names : List String
names = "c" ∷ "" ∷ "b" ∷ "c" ∷ []

abbrev s : String
s = "b"

abbrev replicas : ℤ
replicas = pos 3

abbrev k : ℕ
k = 1

abbrev entry : NodeScalingInventoryNode
entry = record { name = "b"; order = pos 2; used = true }

-- A server that does not answer.
abbrev offline : InventoryClient World
offline = record {
  get = λ name w. err (other "down");
  update = λ i w. (err (other "down"), w);
  create = λ i w. (err (other "down"), w);
}

err_ok : {E A P : Type 0} {e : E} {a : A} → ◌≡◌ {A = Result E A} (err e) (ok a) → P
err_ok h = cc

count-build_node_scaling_inventory_spec_example :
    count (has_name s) (build_node_scaling_inventory_spec existing replicas names).nodes ≡ (
      if not (str_eq s "") && elem_name s names
      then (if any (has_name s) existing.nodes then count (has_name s) existing.nodes else 1)
      else 0)
count-build_node_scaling_inventory_spec_example =
    count-build_node_scaling_inventory_spec existing replicas names s

build_node_scaling_inventory_spec_preserves_example :
    count
      (λ n. has_name s n && n.used)
      (build_node_scaling_inventory_spec existing replicas names).nodes
    ≡ (if not (str_eq s "") && elem_name s names
        then count (λ n. has_name s n && n.used) existing.nodes
        else 0)
build_node_scaling_inventory_spec_preserves_example =
    build_node_scaling_inventory_spec_preserves existing replicas names s (λ n. n.used) refl

build_node_scaling_inventory_spec-IsAscending_example :
    IsAscending (build_node_scaling_inventory_spec existing replicas names).nodes
build_node_scaling_inventory_spec-IsAscending_example =
    build_node_scaling_inventory_spec-IsAscending existing replicas names

build_node_scaling_inventory_spec-IsKeptOrFresh_example :
    All
      (IsKeptOrFresh existing.nodes)
      (build_node_scaling_inventory_spec existing replicas names).nodes
unfolding max_order_from existing_nodes normalize_node_names sort_stable str_ltb
build_node_scaling_inventory_spec-IsKeptOrFresh_example =
    build_node_scaling_inventory_spec-IsKeptOrFresh existing replicas names (omega arith)

build_node_scaling_inventory_spec_idem_example :
    (build_node_scaling_inventory_spec
      (build_node_scaling_inventory_spec existing replicas names)
      replicas
      names).nodes
    ≡ (build_node_scaling_inventory_spec existing replicas names).nodes
build_node_scaling_inventory_spec_idem_example =
    build_node_scaling_inventory_spec_idem existing replicas names replicas

find_unused_inventory_nodes-Finds_example :
    Finds node_less
      (λ n. not n.used)
      no_unused_nodes
      inventory.spec.nodes
      (suc k)
      (find_unused_inventory_nodes (some inventory) (pos (suc k)))
find_unused_inventory_nodes-Finds_example = find_unused_inventory_nodes-Finds inventory k

find_highest_order_used_inventory_nodes-Finds_example :
    Finds node_greater
      (λ n. n.used)
      no_used_nodes
      inventory.spec.nodes
      (suc k)
      (find_highest_order_used_inventory_nodes (some inventory) (pos (suc k)))
find_highest_order_used_inventory_nodes-Finds_example =
    find_highest_order_used_inventory_nodes-Finds inventory k

update_node_usage_tracked_example :
    (nodes : List NodeScalingInventoryNode) × Holds inventory_client "default"
      (update_node_usage inventory_client "default" "b" false w).1
      (record inventory.spec { nodes = nodes })
    × ((p : NodeScalingInventoryNode → Bool)
        → count p nodes + (if p entry then 1 else 0)
          ≡ count p inventory.spec.nodes + (if p (record entry { used = false }) then 1 else 0))
unfolding get update_node_usage set_node_used
update_node_usage_tracked_example =
    update_node_usage_tracked inventory_client laws "default" "b" false w inventory entry refl refl
      refl

sync_rebuilds_example :
    Holds inventory_client "default"
      (sync inventory_client "default" replicas names w).1
      (build_node_scaling_inventory_spec inventory.spec replicas names)
unfolding get sync sync_result update
sync_rebuilds_example =
    sync_rebuilds inventory_client laws "default" replicas names w inventory refl refl
