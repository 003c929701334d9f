-- ===== src/Inventory/Find.antt =====
-- The node searches of internal/nodescaling/inventory.go meet their specification: an error exactly
-- when no entry passes, and otherwise a selection (`IsSelection`).
use quotascale_controller.Prelude.{
  ℕ, suc, ◌<◌, ◌≡◌, refl, ◌∙◌, ◌⊎◌, inl, inr, Bool, false, not, List, [], ◌∷◌, some, arith, select,
  count, take, length,
}
use quotascale_controller.Prelude.Int.{pos, leb_ℤ}
use quotascale_controller.Prelude.Sorting.{sort_stable}
use quotascale_controller.Effects.{Result, ok, err}
use quotascale_controller.Inventory.{
  NodeScalingInventory, NodeScalingInventoryNode, SelectError, no_unused_nodes, no_used_nodes,
  node_less, node_greater, collect, or_none_left, find_unused_inventory_nodes,
  find_highest_order_used_inventory_nodes,
}
use quotascale_controller.Inventory.Order.{sort_less-IsOrdered, sort_greater-IsOrdered}
use quotascale_controller.Inventory.Selection.{
  IsSelection, take-IsSelection, collect-eq-take, map_id,
}

-- Nothing passes and the search fails with `e`, or it returns a selection that is not empty.
abbrev pub Finds :
    (NodeScalingInventoryNode → NodeScalingInventoryNode → Bool)
    → (NodeScalingInventoryNode → Bool)
    → SelectError
    → List NodeScalingInventoryNode
    → ℕ
    → Result SelectError (List NodeScalingInventoryNode)
    → Type 0
Finds less test e nodes limit r =
    ((count test nodes ≡ 0) × (r ≡ err e))
    ⊎ ((chosen : List NodeScalingInventoryNode) × (r ≡ ok chosen)
        × (0 < length chosen)
        × IsSelection less test nodes limit chosen)

Finds-or_none_left :
    (less : NodeScalingInventoryNode → NodeScalingInventoryNode → Bool)
    (test : NodeScalingInventoryNode → Bool) (e : SelectError)
    (nodes : List NodeScalingInventoryNode) (k : ℕ) (chosen : List NodeScalingInventoryNode)
    → IsSelection less test nodes (suc k) chosen
    → Finds less test e nodes (suc k) (or_none_left e chosen)
unfolding or_none_left
Finds-or_none_left less test e nodes k [] s = inl (omega (arith, s.size), refl)
Finds-or_none_left less test e nodes k (x ∷ xs) s = inr (x ∷ xs, refl, omega arith, s)

collected :
    (test : NodeScalingInventoryNode → Bool) (k : ℕ) (xs : List NodeScalingInventoryNode)
    → collect test (λ n. n) (pos (suc k)) [] xs ≡ take (suc k) (select test xs)
collected test k xs = collect-eq-take test (λ n. n) k xs ∙ map_id _

positive : (k : ℕ) → leb_ℤ (pos (suc k)) (pos 0) ≡ false
positive k = ground arith

-- With a positive limit: an error exactly when no node is unused; otherwise the unused nodes of
-- lowest order, as many as there are up to the limit, in ascending order.
pub find_unused_inventory_nodes-Finds :
    (inventory : NodeScalingInventory) (k : ℕ)
    → Finds node_less
        (λ n. not n.used)
        no_unused_nodes
        inventory.spec.nodes
        (suc k)
        (find_unused_inventory_nodes (some inventory) (pos (suc k)))
unfolding find_unused_inventory_nodes
find_unused_inventory_nodes-Finds inventory k =
    rw (positive k, collected (λ n. not n.used) k (sort_stable node_less inventory.spec.nodes))
      (Finds-or_none_left node_less _ no_unused_nodes inventory.spec.nodes k _
        (take-IsSelection node_less _ inventory.spec.nodes (suc k) (sort_less-IsOrdered _)))

-- With a positive limit: an error exactly when no node is used; otherwise the used nodes of highest
-- order, as many as there are up to the limit, in descending order.
pub find_highest_order_used_inventory_nodes-Finds :
    (inventory : NodeScalingInventory) (k : ℕ)
    → Finds node_greater
        (λ n. n.used)
        no_used_nodes
        inventory.spec.nodes
        (suc k)
        (find_highest_order_used_inventory_nodes (some inventory) (pos (suc k)))
unfolding find_highest_order_used_inventory_nodes
find_highest_order_used_inventory_nodes-Finds inventory k =
    rw (positive k, collected (λ n. n.used) k (sort_stable node_greater inventory.spec.nodes))
      (Finds-or_none_left node_greater _ no_used_nodes inventory.spec.nodes k _
        (take-IsSelection node_greater _ inventory.spec.nodes (suc k) (sort_greater-IsOrdered _)))
