-- ===== src/NodeScaling/ScaleIn/Keeping.antt =====
-- A scale-in and the baseline touch neither the queues nor the settings.
use quotascale_controller.Prelude.{
  ℕ, String, Option, none, some, Bool, List, [], ◌∷◌, Bool-cases, inl, inr, ◌&&◌, ◌==◌,
}
use quotascale_controller.Prelude.Int.{ℤ, pos, ◌==ℤ◌, ltb_ℤ, leb_ℤ, ◌-ℤ◌}
use quotascale_controller.Prelude.Text.{str_eq}
use quotascale_controller.Effects.{
  Result, ok, err, Eff, ◌>>=◌, ◌>>◌, modify, raise, lift, pure, bind_pair,
}
use quotascale_controller.Failure.{Error, deferred}
use quotascale_controller.Cluster.{Quantities, KubeClient, has_key}
use quotascale_controller.Inventory.{
  NodeScalingInventory, NodeScalingInventoryNode, find_highest_order_used_inventory_nodes,
  count_used_inventory_nodes, count_unused_inventory_nodes,
}
use quotascale_controller.Inventory.Store.{NodeScalingInventoryStore}
use quotascale_controller.NodeScaling.{
  State, Dependencies, ScaleInRequest, NodeScalingRuntime, CommitMessage, scale_in, initialize,
  minimum_prepared_spare_count, on_world, reads_world,
}
use quotascale_controller.NodeScaling.Nodes.{
  reserve_scaling_node, node_has_scaling_reservation, sync_repo_if_configured,
}
use quotascale_controller.NodeScaling.Waiters.{start_scale_in_waiter}
use quotascale_controller.NodeScaling.Capacity.{selection_failure}
use quotascale_controller.NodeScaling.ScaleIn.{
  scale_in_target, commit_if_configured, write_replicas, after_sync, remove_excess, baseline_from,
  ensure_baseline, reserve_unless, reserve_nodes, reserve_scale_in_candidates, reservable,
  reserve_and_defer, reserve_used, scale_in_from, scale_in_all, scale_in_if, reconcile_scale_in,
  baseline_if, ensure_machine_deployment_replica_baseline,
}
use quotascale_controller.NodeScaling.Keeping.{
  Property, Holds, Keeps, bind_pair-Holds, bind-Keeps, then-Keeps, if-Keeps,
}

module _ {W : Type 0} (P : Property) where
  start-Keeps :
      (name : String) (request : ScaleInRequest) (now : ℤ) (s : State W)
      → Holds P s
      → Holds P (start_scale_in_waiter name request now s)
  unfolding start_scale_in_waiter
  start-Keeps name request now s h = elim (Bool-cases (has_key name s.scale_in_waiters)) [
    | inl e ↦ rw e h
    | inr e ↦ rw e h
  ]

  module _ (runtime : NodeScalingRuntime W) where
    commit-Keeps : (message : CommitMessage) → Keeps P (commit_if_configured runtime message)
    unfolding commit_if_configured
    commit-Keeps message s h =
        if-Keeps P (str_eq runtime.repo_url "") (λ s. (ok tt, s))
          (on_world (runtime.commit_and_push message)) s h h

    write_replicas-Keeps :
        (store : NodeScalingInventoryStore W) (replicas target : ℤ)
        → Keeps P (write_replicas runtime store replicas target)
    unfolding write_replicas
    write_replicas-Keeps store replicas target s h =
        if-Keeps P (target ==ℤ replicas) (λ s. (ok tt, s))
          (do
            on_world (runtime.write_machine_deployment_replicas target)
            commit_if_configured runtime (scale_in target)
            on_world (store.update_machine_deployment_replicas target))
          s h
          (then-Keeps P (on_world (runtime.write_machine_deployment_replicas target))
            (commit_if_configured runtime (scale_in target)
              >> on_world (store.update_machine_deployment_replicas target))
            (λ s h. h)
            (then-Keeps P (commit_if_configured runtime (scale_in target))
              (on_world (store.update_machine_deployment_replicas target))
              (commit-Keeps (scale_in target)) (λ s h. h))
            s h)

    after_sync-Holds :
        (store : NodeScalingInventoryStore W) (excess : ℤ) (r : Result Error (Unit {0}))
        (s : State W)
        → Holds P s
        → Holds P (after_sync runtime store excess (r, s)).1
    unfolding after_sync
    after_sync-Holds store excess (err e) s h = h
    after_sync-Holds store excess (ok _) s h =
        bind_pair-Holds P (runtime.read_machine_deployment_replicas s.world, s)
          (λ replicas. write_replicas runtime store replicas (scale_in_target replicas excess)) h
          (λ replicas. write_replicas-Keeps store replicas (scale_in_target replicas excess))

    remove_excess-Keeps :
        (store : NodeScalingInventoryStore W) (excess : ℤ)
        → Keeps P (remove_excess runtime store excess)
    unfolding remove_excess
    remove_excess-Keeps store excess s h = after_sync-Holds store excess _ _ h

    baseline_from-Keeps : (replicas : ℤ) → Keeps P (baseline_from runtime replicas)
    unfolding baseline_from
    baseline_from-Keeps replicas s h =
        let target = minimum_prepared_spare_count s.settings in
        if-Keeps P (replicas ==ℤ pos 0)
          (do
            on_world (runtime.write_machine_deployment_replicas target)
            commit_if_configured runtime (initialize target))
          (λ s. (ok tt, s)) s
          (then-Keeps P (on_world (runtime.write_machine_deployment_replicas target))
            (commit_if_configured runtime (initialize target)) (λ s h. h)
            (commit-Keeps (initialize target)) s h)
          h

    ensure_baseline-Keeps : Keeps P (ensure_baseline runtime)
    unfolding ensure_baseline
    ensure_baseline-Keeps =
        then-Keeps P (on_world (sync_repo_if_configured runtime))
          (do
            replicas ← reads_world runtime.read_machine_deployment_replicas
            baseline_from runtime replicas)
          (λ s h. h)
          (bind-Keeps P (reads_world runtime.read_machine_deployment_replicas)
            (baseline_from runtime) (λ s h. h) baseline_from-Keeps)

  module _ {Q : Type 0} (q : Quantities Q) (client : KubeClient Q W)
      (store : NodeScalingInventoryStore W) (clock : W → ℤ) (request : ScaleInRequest) where
    reserve_unless-Keeps :
        (name : String) (already : Bool)
        → Keeps P (reserve_unless q client store clock request name already)
    unfolding reserve_unless
    reserve_unless-Keeps name already s h =
        if-Keeps P already (λ s. (ok tt, s)) (on_world (reserve_scaling_node client name)) s h h

    -- What follows the reservation of a node.
    started-Keeps :
        (node : NodeScalingInventoryNode) (rest : Eff Error (State W) (List String))
        → Keeps P rest
        → Keeps P (do
          modify (λ s. start_scale_in_waiter node.name request (clock s.world) s)
          names ← rest
          pure (node.name ∷ names))
    started-Keeps node rest k =
        then-Keeps P (modify (λ s. start_scale_in_waiter node.name request (clock s.world) s))
          (do names ← rest; pure (node.name ∷ names))
          (λ s h. start-Keeps node.name request (clock s.world) s h)
          (bind-Keeps P rest (λ names. pure (node.name ∷ names)) k (λ names s h. h))

    reserve_nodes-Keeps :
        (nodes : List NodeScalingInventoryNode)
        → Keeps P (reserve_nodes q client store clock request nodes)
    unfolding reserve_nodes
    reserve_nodes-Keeps [] = λ s h. h
    reserve_nodes-Keeps (node ∷ nodes) =
        bind-Keeps P (reads_world (node_has_scaling_reservation client node.name))
          (λ already. do
            reserve_unless q client store clock request node.name already
            modify (λ s. start_scale_in_waiter node.name request (clock s.world) s)
            names ← reserve_nodes q client store clock request nodes
            pure (node.name ∷ names))
          (λ s h. h)
          (λ already.
            then-Keeps P (reserve_unless q client store clock request node.name already)
              (do
                modify (λ s. start_scale_in_waiter node.name request (clock s.world) s)
                names ← reserve_nodes q client store clock request nodes
                pure (node.name ∷ names))
              (reserve_unless-Keeps node.name already)
              (started-Keeps node (reserve_nodes q client store clock request nodes)
                (reserve_nodes-Keeps nodes)))

    candidates-Keeps :
        (inventory : NodeScalingInventory) (limit : ℤ)
        → Keeps P (reserve_scale_in_candidates q client store clock request inventory limit)
    unfolding reserve_scale_in_candidates
    candidates-Keeps inventory limit s h =
        if-Keeps P (leb_ℤ limit (pos 0)) (λ s. (ok [], s))
          (do
            nodes ←
                lift (
                  selection_failure
                    (find_highest_order_used_inventory_nodes (some inventory) limit))
            reserve_nodes q client store clock request nodes)
          s h
          (bind-Keeps P
            (lift
              (selection_failure (find_highest_order_used_inventory_nodes (some inventory) limit)))
            (reserve_nodes q client store clock request) (λ s h. h) reserve_nodes-Keeps s h)

    reserve_and_defer-Keeps :
        (b : Bool) (inventory : NodeScalingInventory) (count : ℕ)
        → Keeps P (reserve_and_defer q client store clock request b inventory count)
    unfolding reserve_and_defer
    reserve_and_defer-Keeps b inventory count s h =
        if-Keeps P (b && count == 0) (λ s. (ok tt, s))
          (do
            names ← reserve_scale_in_candidates q client store clock request inventory (pos count)
            raise (deferred names))
          s h
          (bind-Keeps P
            (reserve_scale_in_candidates q client store clock request inventory (pos count))
            (λ names. raise (deferred names)) (candidates-Keeps inventory (pos count))
            (λ names s h. h) s h)

    reserve_used-Keeps :
        (b : Bool) (inventory : NodeScalingInventory)
        → Keeps P (reserve_used q client store clock request b inventory)
    unfolding reserve_used
    reserve_used-Keeps b inventory s h =
        let used = count_used_inventory_nodes (some inventory) in
        if-Keeps P (used == 0) (λ s. (ok tt, s))
          (λ s.
            bind_pair (reservable q client store clock request b used s, s)
              (reserve_and_defer q client store clock request b inventory))
          s h
          (bind_pair-Holds P (reservable q client store clock request b used s, s)
            (reserve_and_defer q client store clock request b inventory) h
            (reserve_and_defer-Keeps b inventory))

    scale_in_from-Keeps :
        (runtime : NodeScalingRuntime W) (b : Bool) (inventory : NodeScalingInventory)
        → Keeps P (scale_in_from q client store clock request runtime b inventory)
    unfolding scale_in_from
    scale_in_from-Keeps runtime b inventory s h =
        let excess =
          pos (count_unused_inventory_nodes (some inventory))
          -ℤ minimum_prepared_spare_count s.settings in
        if-Keeps P (ltb_ℤ (pos 0) excess) (remove_excess runtime store excess)
          (reserve_used q client store clock request b inventory) s
          (remove_excess-Keeps runtime store excess s h) (reserve_used-Keeps b inventory s h)

    scale_in_all-Keeps :
        (runtime : NodeScalingRuntime W) (b : Bool)
        → Keeps P (scale_in_all q client store clock request runtime b)
    unfolding scale_in_all
    scale_in_all-Keeps runtime b =
        bind-Keeps P (reads_world store.get) (scale_in_from q client store clock request runtime b)
          (λ s h. h) (scale_in_from-Keeps runtime b)

  module _ {Q : Type 0} (q : Quantities Q) (deps : Dependencies Q W) where
    scale_in_if-Keeps :
        (request : ScaleInRequest) (runtime : Option (NodeScalingRuntime W))
        (store : Option (NodeScalingInventoryStore W)) (client : Option (KubeClient Q W))
        → Keeps P (scale_in_if q deps runtime store client request)
    unfolding scale_in_if
    scale_in_if-Keeps request none store client s h = h
    scale_in_if-Keeps request (some runtime) none client s h = h
    scale_in_if-Keeps request (some runtime) (some store) none s h = h
    scale_in_if-Keeps request (some runtime) (some store) (some client) s h =
        scale_in_all-Keeps q client store deps.now request runtime deps.has_quota_autoscaler_client
          s h

    pub reconcile_scale_in-Keeps :
        (request : ScaleInRequest) → Keeps P (reconcile_scale_in q deps request)
    unfolding reconcile_scale_in
    reconcile_scale_in-Keeps request =
        scale_in_if-Keeps request deps.runtime deps.inventory_store deps.client

    baseline_if-Keeps :
        (runtime : Option (NodeScalingRuntime W)) → Keeps P (baseline_if q deps runtime)
    unfolding baseline_if
    baseline_if-Keeps none s h = h
    baseline_if-Keeps (some runtime) s h = ensure_baseline-Keeps runtime s h

    pub ensure_machine_deployment_replica_baseline-Keeps :
        Keeps P (ensure_machine_deployment_replica_baseline q deps)
    unfolding ensure_machine_deployment_replica_baseline
    ensure_machine_deployment_replica_baseline-Keeps = baseline_if-Keeps deps.runtime
