-- ===== src/Inventory/Status.antt =====
-- The inventory's status and the counting functions of internal/nodescaling/inventory.go.
use quotascale_controller.Prelude.{
  ℕ, suc, ◌+◌, ◌<◌, ◌^◌, ◌≡◌, ◌∙◌, not, List, [], ◌∷◌, some, arith, count, length, Bool-cases, inl,
  inr,
}
use quotascale_controller.Prelude.Int.{ℤ, pos, ◌+ℤ◌, wrap32, wrap32_of_range, int_laws}
use quotascale_controller.Inventory.{
  NodeScalingInventory, NodeScalingInventoryNode, tally, build_node_scaling_inventory_status,
  count_unused_inventory_nodes, count_used_inventory_nodes,
}

-- An `int32` counter below its limit counts up by one.
counts_up : (a : ℕ) → suc a < 2 ^ 31 → wrap32 (pos a +ℤ pos 1) ≡ pos (suc a)
counts_up a h =
    let sum : (pos a +ℤ pos 1) ≡ pos (suc a) = omega int_laws in
    rw sum (wrap32_of_range (pos (suc a)) (omega arith))

tally_lem :
    (nodes : List NodeScalingInventoryNode) (d r : ℤ) (a b : ℕ)
    → a + b + length nodes < 2 ^ 31
    → tally (record { desired = d; replicas = r; used = pos a; unused = pos b }) nodes ≡ record {
      desired = d;
      replicas = r;
      used = pos (a + count (λ n. n.used) nodes);
      unused = pos (b + count (λ n. not n.used) nodes);
    }
unfolding tally
tally_lem [] d r a b h = ground arith
tally_lem (n ∷ ns) d r a b h = elim (Bool-cases n.used) [
  | inl e ↦
      rw (e, counts_up a (omega arith)) (tally_lem ns d r (suc a) b (omega arith) ∙ ground arith)
  | inr e ↦
      rw (e, counts_up b (omega arith)) (tally_lem ns d r a (suc b) (omega arith) ∙ ground arith)
]

count_partition :
    (nodes : List NodeScalingInventoryNode)
    → count (λ n. n.used) nodes + count (λ n. not n.used) nodes ≡ length nodes
count_partition [] = omega arith
count_partition (n ∷ ns) = ground (arith, count_partition ns)

-- For fewer than 2^31 nodes the status holds the desired replicas, the number of entries, and the
-- two counts that `CountUsedInventoryNodes` and `CountUnusedInventoryNodes` give; these two add up
-- to the number of entries.
build_node_scaling_inventory_status_counts :
    (inventory : NodeScalingInventory)
    → length inventory.spec.nodes < 2 ^ 31
    → (build_node_scaling_inventory_status inventory.spec ≡ record {
      desired = inventory.spec.machine_deployment_replicas;
      replicas = pos (length inventory.spec.nodes);
      used = pos (count_used_inventory_nodes (some inventory));
      unused = pos (count_unused_inventory_nodes (some inventory));
    })
      × (count_used_inventory_nodes (some inventory) + count_unused_inventory_nodes (some inventory)
          ≡ length inventory.spec.nodes)
unfolding build_node_scaling_inventory_status count_used_inventory_nodes
    count_unused_inventory_nodes
build_node_scaling_inventory_status_counts inventory h = (
  rw (wrap32_of_range (pos (length inventory.spec.nodes)) (omega arith))
      (tally_lem inventory.spec.nodes _ _ 0 0 (omega arith) ∙ ground arith),
  count_partition inventory.spec.nodes,
)
