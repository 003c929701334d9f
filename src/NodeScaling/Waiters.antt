-- ===== src/NodeScaling/Waiters.antt =====
-- internal/nodescaling/controller.go: the waiters, each of which watches one reserved node until it
-- is drained. The goroutine of a waiter is `waiter_tick`, once for each tick of its ticker; when it
-- returns, its deferred call removes the waiter.
pub mod Reuse
pub mod Draining
pub mod Keeping
use quotascale_controller.Prelude.{
  String, Option, none, some, Bool, true, false, not, ◌&&◌, List, [], ◌∷◌, ◌++◌, map, any,
  if◌then◌else◌, ltb, length,
}
use quotascale_controller.Prelude.Int.{ℤ, pos, ◌-ℤ◌, leb_ℤ}
use quotascale_controller.Prelude.Text.{str_eq}
use quotascale_controller.Prelude.Sorting.{sort_stable}
use quotascale_controller.Effects.{Result, ok, err, Eff, ◌>>=◌, ◌>>◌, pure, lift, gets, bind_pair}
use quotascale_controller.Failure.{Error}
use quotascale_controller.Inventory.{NodeScalingInventory, node_less, collect}
use quotascale_controller.Inventory.Store.{NodeScalingInventoryStore}
use quotascale_controller.Cluster.{KubeClient, Map, lookup, has_key, insert, delete}
use quotascale_controller.NodeScaling.{
  State, ScaleInRequest, ScaleInWaiter, handle_scale_in_request, on_world, reads_world,
}
use quotascale_controller.NodeScaling.Nodes.{node_has_scaling_reservation}
use quotascale_controller.NodeScaling.Pods.{node_has_blocking_pods}

module _ {W : Type 0} where
  -- A waiter that is there stays as it is. The map's part of `StartScaleInWaiter`; the goroutine
  -- runs from then on.
  unfoldable pub start_scale_in_waiter : String → ScaleInRequest → ℤ → State W → State W
  start_scale_in_waiter name request now s =
      let waiter : ScaleInWaiter = record { started_at = now; request = request } in
      if has_key name s.scale_in_waiters
      then s
      else record s { scale_in_waiters = insert name waiter s.scale_in_waiters }

  unfoldable pub clear_scale_in_waiter : String → State W → State W
  clear_scale_in_waiter name s = record s { scale_in_waiters = delete name s.scale_in_waiters }

  -- Whether there was a waiter; its context is cancelled then, which ends its goroutine.
  unfoldable pub stop_scale_in_waiter : String → State W → Bool × State W
  stop_scale_in_waiter name s =
      if has_key name s.scale_in_waiters
      then (true, record s { scale_in_waiters = delete name s.scale_in_waiters })
      else (false, s)

  unfoldable pub has_active_scale_in_waiters : State W → Bool
  has_active_scale_in_waiters s = ltb 0 (length s.scale_in_waiters)

  -- The duration waited, and whether to force.
  unfoldable pub should_force_scale_in : String → ℤ → State W → ℤ × Bool
  should_force_scale_in name now s = elim (lookup name s.scale_in_waiters) [
    | none ↦ (pos 0, false)
    | some waiter ↦
        let waited = now -ℤ waiter.started_at in
        (waited, s.settings.scale_in_force_enabled && leb_ℤ s.settings.scale_in_force_delay waited)
  ]

  -- The names of used nodes with a waiter, lowest order first.
  unfoldable pub find_reusable_scale_in_waiter_nodes :
      Option NodeScalingInventory → ℤ → State W → List String
  find_reusable_scale_in_waiter_nodes none limit s = []
  find_reusable_scale_in_waiter_nodes (some inventory) limit s =
      if leb_ℤ limit (pos 0)
      then []
      else if not (ltb 0 (length s.scale_in_waiters))
      then []
      else collect (λ n. n.used && has_key n.name s.scale_in_waiters) (λ n. n.name) limit []
          (sort_stable node_less inventory.spec.nodes)

  unfoldable pub find_reusable_scale_in_waiter_node :
      Option NodeScalingInventory → State W → Option String
  find_reusable_scale_in_waiter_node inventory s =
      elim (find_reusable_scale_in_waiter_nodes inventory (pos 1) s) [
        | [] ↦ none
        | name ∷ names ↦ some name
      ]

module _ {Q W : Type 0} (client : KubeClient Q W) (store : NodeScalingInventoryStore W)
    (clock : W → ℤ) where
  -- `ProcessScaleInWaiter`, from where the node may be given back.
  unfoldable pub release_node : String → ScaleInRequest → Eff Error (State W) Bool
  release_node name request = do
    on_world (store.mark_node_unused name)
    handle_scale_in_request request
    pure true

  process_drained : String → ScaleInRequest → Bool → Eff Error (State W) Bool
  unfolding release_node
  process_drained name request has_blocking_pods s =
      if has_blocking_pods && not (should_force_scale_in name (clock s.world) s).1
      then (ok false, s)
      else release_node name request s

  process_reserved : String → ScaleInRequest → Bool → Eff Error (State W) Bool
  unfolding process_drained
  process_reserved name request has_reservation s =
      if not has_reservation
      then (ok true, s)
      else bind_pair (node_has_blocking_pods client s.settings name s.world, s)
          (process_drained name request)

  unfoldable pub process_scale_in_waiter : String → ScaleInRequest → Eff Error (State W) Bool
  unfolding process_reserved
  process_scale_in_waiter name request s =
      bind_pair (node_has_scaling_reservation client name s.world, s)
        (process_reserved name request)

  -- One tick of the goroutine: it ends, and clears its waiter, when it is done or has failed.
  unfoldable pub waiter_tick : String → ScaleInRequest → State W → State W
  unfolding process_scale_in_waiter
  waiter_tick name request s =
      let (result, s') = process_scale_in_waiter name request s in
      elim result [
        | err e ↦ clear_scale_in_waiter name s'
        | ok true ↦ clear_scale_in_waiter name s'
        | ok false ↦ s'
      ]
