-- ===== src/NodeScaling/Waiters/Keeping.antt =====
-- A tick of a waiter changes the queues only by its request to scale in.
use quotascale_controller.Prelude.{String, Bool, true, false, not, ◌&&◌}
use quotascale_controller.Prelude.Int.{ℤ}
use quotascale_controller.Effects.{Result, ok, err, ◌>>◌, pure, bind_pair}
use quotascale_controller.Failure.{Error}
use quotascale_controller.Cluster.{KubeClient}
use quotascale_controller.Inventory.Store.{NodeScalingInventoryStore}
use quotascale_controller.NodeScaling.{State, ScaleInRequest, handle_scale_in_request, on_world}
use quotascale_controller.NodeScaling.Keeping.{
  Property, Holds, Keeps, bind_pair-Holds, then-Keeps, if-Keeps,
}
use quotascale_controller.NodeScaling.Nodes.{node_has_scaling_reservation}
use quotascale_controller.NodeScaling.Pods.{node_has_blocking_pods}
use quotascale_controller.NodeScaling.Waiters.{
  should_force_scale_in, release_node, process_drained, process_reserved, process_scale_in_waiter,
  waiter_tick, clear_scale_in_waiter,
}

module _ {Q W : Type 0} (P : Property) (client : KubeClient Q W)
    (store : NodeScalingInventoryStore W) (clock : W → ℤ) (name : String) (request : ScaleInRequest)
    (queues : Keeps {W = W} P (handle_scale_in_request request)) where
  release_node-Keeps : Keeps P (release_node client store clock name request)
  unfolding release_node
  release_node-Keeps =
      then-Keeps P (on_world (store.mark_node_unused name))
        (do handle_scale_in_request request; pure true) (λ s h. h)
        (then-Keeps P (handle_scale_in_request request) (pure true) queues (λ s h. h))

  process_drained-Keeps : (b : Bool) → Keeps P (process_drained client store clock name request b)
  unfolding process_drained
  process_drained-Keeps b s h =
      if-Keeps P (b && not (should_force_scale_in name (clock s.world) s).1) (λ s. (ok false, s))
        (release_node client store clock name request) s h (release_node-Keeps s h)

  process_reserved-Keeps : (b : Bool) → Keeps P (process_reserved client store clock name request b)
  unfolding process_reserved
  process_reserved-Keeps b s h =
      if-Keeps P (not b) (λ s. (ok true, s))
        (λ s.
          bind_pair (node_has_blocking_pods client s.settings name s.world, s)
            (process_drained client store clock name request))
        s h
        (bind_pair-Holds P (node_has_blocking_pods client s.settings name s.world, s)
          (process_drained client store clock name request) h process_drained-Keeps)

  process_scale_in_waiter-Keeps : Keeps P (process_scale_in_waiter client store clock name request)
  unfolding process_scale_in_waiter
  process_scale_in_waiter-Keeps s h =
      bind_pair-Holds P (node_has_scaling_reservation client name s.world, s)
        (process_reserved client store clock name request) h process_reserved-Keeps

  ended : (s : State W) → Holds P s → Holds P (clear_scale_in_waiter name s)
  unfolding clear_scale_in_waiter
  ended s h = h

  tick_result :
      (r : Result Error Bool) (s : State W)
      → Holds P s
      → Holds P (elim r [
        | err e ↦ clear_scale_in_waiter name s
        | ok true ↦ clear_scale_in_waiter name s
        | ok false ↦ s
      ])
  tick_result (err e) s h = ended s h
  tick_result (ok true) s h = ended s h
  tick_result (ok false) s h = h

  pub waiter_tick-Holds :
      (s : State W) → Holds P s → Holds P (waiter_tick client store clock name request s)
  unfolding waiter_tick
  waiter_tick-Holds s h = tick_result _ _ (process_scale_in_waiter-Keeps s h)
