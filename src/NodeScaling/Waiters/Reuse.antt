-- ===== src/NodeScaling/Waiters/Reuse.antt =====
-- `FindReusableScaleInWaiterNodes` against a specification.
use quotascale_controller.Prelude.{
  ℕ, suc, ◌≡◌, refl, sym, String, Bool, false, not, ◌&&◌, List, [], ◌∷◌, map, some, arith, take,
  select, length, ltb, ap,
}
use quotascale_controller.Prelude.Int.{pos, leb_ℤ}
use quotascale_controller.Prelude.Sorting.{sort_stable}
use quotascale_controller.Inventory.{NodeScalingInventory, NodeScalingInventoryNode, node_less}
use quotascale_controller.Inventory.Order.{sort_less-IsOrdered}
use quotascale_controller.Inventory.Selection.{IsSelection, take-IsSelection, collect-eq-take}
use quotascale_controller.Cluster.{Map, lookup, has_key}
use quotascale_controller.NodeScaling.{State, ScaleInWaiter}
use quotascale_controller.NodeScaling.Waiters.{find_reusable_scale_in_waiter_nodes}

-- A used node that is being waited for.
abbrev pub is_reusable : {W : Type 0} → State W → NodeScalingInventoryNode → Bool
is_reusable s n = n.used && has_key n.name s.scale_in_waiters

nothing_in_empty :
    (xs : List NodeScalingInventoryNode)
    → select (λ n. n.used && has_key {V = ScaleInWaiter} n.name []) xs ≡ []
unfolding has_key lookup
nothing_in_empty [] = refl
nothing_in_empty (x ∷ xs) = ground (arith, nothing_in_empty xs)

positive : (k : ℕ) → leb_ℤ (pos (suc k)) (pos 0) ≡ false
positive k = ground arith

some_waiter :
    (w : String × ScaleInWaiter) (ws : Map ScaleInWaiter) → not (ltb 0 (length (w ∷ ws))) ≡ false
some_waiter w ws = ground arith

reusable_take :
    {W : Type 0} (inventory : NodeScalingInventory) (k : ℕ) (s : State W) (waiters : _)
    → s.scale_in_waiters ≡ waiters
    → find_reusable_scale_in_waiter_nodes (some inventory) (pos (suc k)) s
      ≡ map
          (λ n. n.name)
          (take (suc k) (select (is_reusable s) (sort_stable node_less inventory.spec.nodes)))
unfolding find_reusable_scale_in_waiter_nodes
reusable_take inventory k s [] e =
    rw (e, positive k)
      (ap (λ ns. map (λ n. n.name) (take (suc k) ns))
        (sym (nothing_in_empty (sort_stable node_less inventory.spec.nodes))))
reusable_take inventory k s (w ∷ ws) e =
    rw (e, positive k, some_waiter w ws)
      (collect-eq-take (λ n. n.used && has_key n.name (w ∷ ws)) (λ n. n.name) k
        (sort_stable node_less inventory.spec.nodes))

-- With a positive limit the names are those of a selection: of the used nodes with a waiter, the
-- ones of lowest order, as many as there are up to the limit, in ascending order.
pub find_reusable_scale_in_waiter_nodes_lem :
    {W : Type 0} (inventory : NodeScalingInventory) (k : ℕ) (s : State W)
    → (chosen : List NodeScalingInventoryNode) × (find_reusable_scale_in_waiter_nodes
          (some inventory)
          (pos (suc k))
          s
        ≡ map (λ n. n.name) chosen)
      × IsSelection node_less (is_reusable s) inventory.spec.nodes (suc k) chosen
find_reusable_scale_in_waiter_nodes_lem inventory k s = (
  _,
  reusable_take inventory k s s.scale_in_waiters refl,
  take-IsSelection node_less (is_reusable s) inventory.spec.nodes (suc k) (sort_less-IsOrdered _),
)
