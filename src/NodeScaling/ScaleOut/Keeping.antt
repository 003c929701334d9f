-- ===== src/NodeScaling/ScaleOut/Keeping.antt =====
-- A scale-out touches neither the queues nor the settings.
use quotascale_controller.Prelude.{
  String, Option, none, some, List, [], ◌∷◌, length, Bool-cases, inl, inr,
}
use quotascale_controller.Prelude.Int.{ℤ, ◌==ℤ◌}
use quotascale_controller.Prelude.Text.{str_eq}
use quotascale_controller.Effects.{Result, ok, err, ◌>>=◌, ◌>>◌, modify}
use quotascale_controller.Failure.{Error}
use quotascale_controller.Cluster.{KubeClient, has_key}
use quotascale_controller.Inventory.{NodeScalingInventory, NodeScalingInventoryNode}
use quotascale_controller.Inventory.Store.{NodeScalingInventoryStore}
use quotascale_controller.NodeScaling.{
  State, Dependencies, ScaleOutRequest, NodeScalingRuntime, reset_scale_in_trigger, scale_up,
  on_world, reads_world,
}
use quotascale_controller.NodeScaling.Nodes.{activate_scaling_node}
use quotascale_controller.NodeScaling.Waiters.{stop_scale_in_waiter}
use quotascale_controller.NodeScaling.ScaleOut.{
  replenish_count, scale_out_target, select_nodes, commit_if_configured, write_replicas, after_read,
  after_sync, replenish_spares, activate_and_mark, activate_waiters, activate_spares,
  scale_out_with, scale_out, scale_out_if, reconcile_scale_out,
}
use quotascale_controller.NodeScaling.Keeping.{
  Property, Holds, Keeps, bind-Keeps, then-Keeps, if-Keeps,
}

module _ {W : Type 0} (P : Property) where
  stop-Keeps : (name : String) (s : State W) → Holds P s → Holds P (stop_scale_in_waiter name s).1
  unfolding stop_scale_in_waiter
  stop-Keeps name s h = elim (Bool-cases (has_key name s.scale_in_waiters)) [
    | inl e ↦ rw e h
    | inr e ↦ rw e h
  ]

  module _ (store : NodeScalingInventoryStore W) (runtime : NodeScalingRuntime W) where
    commit-Keeps : (target : ℤ) → Keeps P (commit_if_configured store runtime target)
    unfolding commit_if_configured
    commit-Keeps target s h =
        if-Keeps P (str_eq runtime.repo_url "") (λ s. (ok tt, s))
          (on_world (runtime.commit_and_push (scale_up target))) s h h

    write_replicas-Keeps :
        (replicas target : ℤ) → Keeps P (write_replicas store runtime replicas target)
    unfolding write_replicas
    write_replicas-Keeps replicas target s h =
        if-Keeps P (target ==ℤ replicas) (λ s. (ok tt, s))
          (do
            on_world (runtime.write_machine_deployment_replicas target)
            commit_if_configured store runtime target
            on_world (store.update_machine_deployment_replicas target))
          s h
          (then-Keeps P (on_world (runtime.write_machine_deployment_replicas target))
            (commit_if_configured store runtime target
              >> on_world (store.update_machine_deployment_replicas target))
            (λ s h. h)
            (then-Keeps P (commit_if_configured store runtime target)
              (on_world (store.update_machine_deployment_replicas target)) (commit-Keeps target)
              (λ s h. h))
            s h)

    after_read-Keeps :
        (max_node_count replenish : ℤ) (r : Result Error ℤ)
        → Keeps P (after_read store runtime max_node_count replenish r)
    unfolding after_read
    after_read-Keeps max_node_count replenish (err e) s h = h
    after_read-Keeps max_node_count replenish (ok replicas) s h =
        write_replicas-Keeps replicas (scale_out_target max_node_count replicas replenish) s h

    after_sync-Holds :
        (replenish : ℤ) (r : Result Error (Unit {0})) (s : State W)
        → Holds P s
        → Holds P (after_sync store runtime replenish (r, s)).1
    unfolding after_sync
    after_sync-Holds replenish (err e) s h = h
    after_sync-Holds replenish (ok _) s h =
        after_read-Keeps s.settings.max_node_count replenish _ s h

    replenish_spares-Keeps : (replenish : ℤ) → Keeps P (replenish_spares store runtime replenish)
    unfolding replenish_spares
    replenish_spares-Keeps replenish s h = after_sync-Holds replenish _ _ h

  module _ {Q : Type 0} (client : KubeClient Q W) (store : NodeScalingInventoryStore W) where
    activate_and_mark-Keeps : (name : String) → Keeps P (activate_and_mark client store name)
    unfolding activate_and_mark
    activate_and_mark-Keeps name =
        then-Keeps P (on_world (activate_scaling_node client name))
          (on_world (store.mark_node_used name)) (λ s h. h) (λ s h. h)

    activate_waiters-Keeps : (names : List String) → Keeps P (activate_waiters client store names)
    unfolding activate_waiters
    activate_waiters-Keeps [] = λ s h. h
    activate_waiters-Keeps (name ∷ names) =
        then-Keeps P (modify (λ s. (stop_scale_in_waiter name s).1))
          (activate_and_mark client store name >> activate_waiters client store names)
          (stop-Keeps name)
          (then-Keeps P (activate_and_mark client store name) (activate_waiters client store names)
            (activate_and_mark-Keeps name) (activate_waiters-Keeps names))

    activate_spares-Keeps :
        (nodes : List NodeScalingInventoryNode) → Keeps P (activate_spares client store nodes)
    unfolding activate_spares
    activate_spares-Keeps [] = λ s h. h
    activate_spares-Keeps (node ∷ nodes) =
        then-Keeps P (activate_and_mark client store node.name) (activate_spares client store nodes)
          (activate_and_mark-Keeps node.name) (activate_spares-Keeps nodes)

    module _ (runtime : NodeScalingRuntime W) where
      reset-Keeps :
          (replenish : ℤ)
          → Keeps P (modify reset_scale_in_trigger >> replenish_spares store runtime replenish)
      unfolding reset_scale_in_trigger
      reset-Keeps replenish =
          then-Keeps P (modify reset_scale_in_trigger) (replenish_spares store runtime replenish)
            (λ s h. h) (replenish_spares-Keeps store runtime replenish)

      activate-Keeps :
          (waiters : List String) (spares : List NodeScalingInventoryNode) (replenish : ℤ)
          → Keeps P (do
            activate_waiters client store waiters
            activate_spares client store spares
            modify reset_scale_in_trigger
            replenish_spares store runtime replenish)
      activate-Keeps waiters spares replenish =
          then-Keeps P (activate_waiters client store waiters)
            (do
              activate_spares client store spares
              modify reset_scale_in_trigger
              replenish_spares store runtime replenish)
            (activate_waiters-Keeps waiters)
            (then-Keeps P (activate_spares client store spares)
              (modify reset_scale_in_trigger >> replenish_spares store runtime replenish)
              (activate_spares-Keeps spares) (reset-Keeps replenish))

      scale_out_with-Keeps :
          (inventory : NodeScalingInventory) (waiters : List String)
          (spares : List NodeScalingInventoryNode)
          → Keeps P (scale_out_with client store runtime inventory (waiters, spares))
      unfolding scale_out_with
      scale_out_with-Keeps inventory waiters spares s h =
          activate-Keeps waiters spares
            (replenish_count s.settings.max_node_count inventory.spec.machine_deployment_replicas
              (length spares))
            s h

      scale_out-Keeps :
          (request : ScaleOutRequest) → Keeps P (scale_out client store runtime request)
      unfolding scale_out
      scale_out-Keeps request =
          bind-Keeps P (reads_world store.get)
            (λ inventory. do
              nodes ← λ s. (select_nodes request inventory s, s)
              scale_out_with client store runtime inventory nodes)
            (λ s h. h)
            (λ inventory.
              bind-Keeps P (λ s. (select_nodes request inventory s, s))
                (scale_out_with client store runtime inventory) (λ s h. h)
                (λ nodes. scale_out_with-Keeps inventory nodes.0 nodes.1))

  module _ {Q : Type 0} (deps : Dependencies Q W) (request : ScaleOutRequest) where
    scale_out_if-Keeps :
        (runtime : Option (NodeScalingRuntime W)) (store : Option (NodeScalingInventoryStore W))
        (client : Option (KubeClient Q W))
        → Keeps P (scale_out_if deps runtime store client request)
    unfolding scale_out_if
    scale_out_if-Keeps none store client s h = h
    scale_out_if-Keeps (some runtime) none client s h = h
    scale_out_if-Keeps (some runtime) (some store) none s h = h
    scale_out_if-Keeps (some runtime) (some store) (some client) s h =
        scale_out-Keeps client store runtime request s h

    pub reconcile_scale_out-Keeps : Keeps P (reconcile_scale_out deps request)
    unfolding reconcile_scale_out
    reconcile_scale_out-Keeps = scale_out_if-Keeps deps.runtime deps.inventory_store deps.client
