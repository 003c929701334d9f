-- ===== src/NodeScaling/ScaleIn.antt =====
-- internal/nodescaling/controller.go: `ReconcileScaleIn`, `reserveScaleInCandidates` and
-- `EnsureMachineDeploymentReplicaBaseline`.
pub mod Excess
pub mod Reserving
pub mod Keeping
use quotascale_controller.Prelude.{
  ℕ, String, Option, none, some, Bool, true, false, not, ◌&&◌, List, [], ◌∷◌, ◌++◌, if◌then◌else◌,
  ltb, length, ◌==◌,
}
use quotascale_controller.Prelude.Int.{ℤ, pos, ◌-ℤ◌, ltb_ℤ, leb_ℤ, ◌==ℤ◌, wrap32}
use quotascale_controller.Prelude.Text.{str_eq}
use quotascale_controller.Effects.{
  Result, ok, err, Eff, ◌>>=◌, ◌>>◌, pure, raise, lift, modify, bind_pair,
}
use quotascale_controller.Failure.{Error, store_not_configured, client_not_configured, deferred}
use quotascale_controller.Inventory.{
  NodeScalingInventory, NodeScalingInventoryNode, find_highest_order_used_inventory_nodes,
  count_used_inventory_nodes, count_unused_inventory_nodes,
}
use quotascale_controller.Inventory.Store.{NodeScalingInventoryStore}
use quotascale_controller.Cluster.{Quantities, KubeClient}
use quotascale_controller.NodeScaling.{
  State, Dependencies, ScaleInRequest, NodeScalingRuntime, CommitMessage, scale_in, initialize,
  minimum_prepared_spare_count, on_world, reads_world,
}
use quotascale_controller.NodeScaling.Nodes.{
  reserve_scaling_node, node_has_scaling_reservation, sync_repo_if_configured,
}
use quotascale_controller.NodeScaling.Waiters.{start_scale_in_waiter}
use quotascale_controller.NodeScaling.Capacity.{evaluate_scale_in_capacity, selection_failure}

-- The replicas to write when `excess` spares are too many.
unfoldable pub scale_in_target : ℤ → ℤ → ℤ
scale_in_target replicas excess =
    let target = wrap32 (replicas -ℤ wrap32 excess) in
    if ltb_ℤ target (pos 0) then pos 0 else target

module _ {W : Type 0} (runtime : NodeScalingRuntime W) where
  unfoldable pub commit_if_configured : CommitMessage → Eff Error (State W) (Unit {0})
  commit_if_configured message s =
      if str_eq runtime.repo_url ""
      then (ok tt, s)
      else on_world (runtime.commit_and_push message) s

  module _ (store : NodeScalingInventoryStore W) where
    unfoldable pub write_replicas : ℤ → ℤ → Eff Error (State W) (Unit {0})
    write_replicas replicas target s =
        let run = (do
          on_world (runtime.write_machine_deployment_replicas target)
          commit_if_configured (scale_in target)
          on_world (store.update_machine_deployment_replicas target)) in
        if target ==ℤ replicas then (ok tt, s) else run s

    -- A failure to sync puts the removal off, and is no error.
    after_sync : ℤ → Result Error (Unit {0}) × State W → Result Error (Unit {0}) × State W
    after_sync excess (err e, s) = (ok tt, s)
    after_sync excess (ok _, s) =
        bind_pair (runtime.read_machine_deployment_replicas s.world, s)
          (λ replicas. write_replicas replicas (scale_in_target replicas excess))

    unfoldable pub remove_excess : ℤ → Eff Error (State W) (Unit {0})
    unfolding after_sync
    remove_excess excess s = after_sync excess (on_world (sync_repo_if_configured runtime) s)

  -- `EnsureMachineDeploymentReplicaBaseline`, where there is a runtime.
  baseline_from : ℤ → Eff Error (State W) (Unit {0})
  baseline_from replicas s =
      let target = minimum_prepared_spare_count s.settings in
      let run = (do
        on_world (runtime.write_machine_deployment_replicas target)
        commit_if_configured (initialize target)) in
      if replicas ==ℤ pos 0 then run s else (ok tt, s)

  unfoldable pub ensure_baseline : Eff Error (State W) (Unit {0})
  unfolding baseline_from
  ensure_baseline = do
    on_world (sync_repo_if_configured runtime)
    replicas ← reads_world runtime.read_machine_deployment_replicas
    baseline_from replicas

module _ {Q W : Type 0} (q : Quantities Q) (client : KubeClient Q W)
    (store : NodeScalingInventoryStore W) (clock : W → ℤ) (request : ScaleInRequest) where
  unfoldable pub reserve_unless : String → Bool → Eff Error (State W) (Unit {0})
  reserve_unless name already s =
      if already then (ok tt, s) else on_world (reserve_scaling_node client name) s

  -- The loop of `reserveScaleInCandidates`.
  unfoldable pub reserve_nodes : List NodeScalingInventoryNode → Eff Error (State W) (List String)
  unfolding reserve_unless
  reserve_nodes [] = pure []
  reserve_nodes (node ∷ nodes) =
      let rest = reserve_nodes nodes in
      do
        already ← reads_world (node_has_scaling_reservation client node.name)
        reserve_unless node.name already
        modify (λ s. start_scale_in_waiter node.name request (clock s.world) s)
        names ← rest
        pure (node.name ∷ names)

  unfoldable pub reserve_scale_in_candidates :
      NodeScalingInventory → ℤ → Eff Error (State W) (List String)
  unfolding reserve_nodes
  reserve_scale_in_candidates inventory limit s =
      let run = (do
        nodes ←
            lift
              (selection_failure (find_highest_order_used_inventory_nodes (some inventory) limit))
        reserve_nodes nodes) in
      if leb_ℤ limit (pos 0) then (ok [], s) else run s

  -- How many used nodes may be reserved: all, or as many as the evaluation would remove.
  reservable : Bool → ℕ → State W → Result Error ℕ
  reservable has_quota_autoscaler_client used_count s =
      if has_quota_autoscaler_client
      then elim (evaluate_scale_in_capacity q client store s.world) [
        | err e ↦ err e
        | ok evaluation ↦ ok (length evaluation.removable_nodes)
      ]
      else ok used_count

  -- Nodes to reserve: the scale-in then waits for them, which is an error of its own.
  reserve_and_defer : Bool → NodeScalingInventory → ℕ → Eff Error (State W) (Unit {0})
  unfolding reserve_scale_in_candidates
  reserve_and_defer has_quota_autoscaler_client inventory count s =
      let run = (do
        names ← reserve_scale_in_candidates inventory (pos count)
        raise (deferred names)) in
      if has_quota_autoscaler_client && count == 0 then (ok tt, s) else run s

  unfoldable pub reserve_used : Bool → NodeScalingInventory → Eff Error (State W) (Unit {0})
  unfolding reservable reserve_and_defer
  reserve_used has_quota_autoscaler_client inventory s =
      let used_count = count_used_inventory_nodes (some inventory) in
      if used_count == 0
      then (ok tt, s)
      else bind_pair (reservable has_quota_autoscaler_client used_count s, s)
          (reserve_and_defer has_quota_autoscaler_client inventory)

  unfoldable pub scale_in_from :
      NodeScalingRuntime W → Bool → NodeScalingInventory → Eff Error (State W) (Unit {0})
  unfolding reserve_used
  scale_in_from runtime has_quota_autoscaler_client inventory s =
      let excess =
        pos (count_unused_inventory_nodes (some inventory))
        -ℤ minimum_prepared_spare_count s.settings in
      if ltb_ℤ (pos 0) excess
      then remove_excess runtime store excess s
      else reserve_used has_quota_autoscaler_client inventory s

  unfoldable pub scale_in_all : NodeScalingRuntime W → Bool → Eff Error (State W) (Unit {0})
  unfolding scale_in_from
  scale_in_all runtime has_quota_autoscaler_client = do
    inventory ← reads_world store.get
    scale_in_from runtime has_quota_autoscaler_client inventory

module _ {Q W : Type 0} (q : Quantities Q) (deps : Dependencies Q W) where
  scale_in_if :
      Option (NodeScalingRuntime W)
      → Option (NodeScalingInventoryStore W)
      → Option (KubeClient Q W)
      → ScaleInRequest
      → Eff Error (State W) (Unit {0})
  scale_in_if none store client request = pure tt
  scale_in_if (some runtime) none client request = raise store_not_configured
  scale_in_if (some runtime) (some store) none request = raise client_not_configured
  scale_in_if (some runtime) (some store) (some client) request =
      scale_in_all q client store deps.now request runtime deps.has_quota_autoscaler_client

  unfoldable pub reconcile_scale_in : ScaleInRequest → Eff Error (State W) (Unit {0})
  unfolding scale_in_if
  reconcile_scale_in = scale_in_if deps.runtime deps.inventory_store deps.client

  baseline_if : Option (NodeScalingRuntime W) → Eff Error (State W) (Unit {0})
  baseline_if none = pure tt
  baseline_if (some runtime) = ensure_baseline runtime

  unfoldable pub ensure_machine_deployment_replica_baseline : Eff Error (State W) (Unit {0})
  unfolding baseline_if
  ensure_machine_deployment_replica_baseline = baseline_if deps.runtime
