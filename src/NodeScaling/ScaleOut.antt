-- ===== src/NodeScaling/ScaleOut.antt =====
-- internal/nodescaling/controller.go: `ReconcileScaleOut`, from the selection of nodes to the new
-- number of replicas.
pub mod Target
pub mod Replenish
pub mod Keeping
use quotascale_controller.Prelude.{
  ℕ, ◌-◌, String, Option, none, some, Bool, true, false, not, ◌&&◌, ◌||◌, List, [], ◌∷◌, ◌++◌, map,
  if◌then◌else◌, ltb, length, ◌==◌,
}
use quotascale_controller.Prelude.Int.{ℤ, pos, ◌+ℤ◌, ◌-ℤ◌, ltb_ℤ, leb_ℤ, ◌==ℤ◌, wrap32}
use quotascale_controller.Prelude.Text.{str_eq}
use quotascale_controller.Effects.{
  Result, ok, err, Eff, ◌>>=◌, ◌>>◌, pure, raise, lift, gets, modify,
}
use quotascale_controller.Failure.{
  Error, store_not_configured, client_not_configured, max_node_count_reached, selection,
  no_reusable_or_spare_nodes,
}
use quotascale_controller.Inventory.{
  NodeScalingInventory, NodeScalingInventoryNode, SelectError, find_unused_inventory_nodes,
}
use quotascale_controller.Inventory.Store.{NodeScalingInventoryStore}
use quotascale_controller.Cluster.{KubeClient}
use quotascale_controller.NodeScaling.{
  State, Dependencies, ScaleOutRequest, NodeScalingRuntime, CommitMessage, scale_up,
  scale_out_batch_size, reset_scale_in_trigger, on_world, reads_world,
}
use quotascale_controller.NodeScaling.Nodes.{activate_scaling_node, sync_repo_if_configured}
use quotascale_controller.NodeScaling.Waiters.{
  find_reusable_scale_in_waiter_nodes, stop_scale_in_waiter,
}

-- How many replicas to add for the spares that are used up, where the cap leaves room.
unfoldable pub replenish_count : ℤ → ℤ → ℕ → ℤ
replenish_count max_node_count replicas spares =
    let count = wrap32 (pos spares) in
    if ltb_ℤ (pos 0) max_node_count && ltb_ℤ max_node_count (wrap32 (replicas +ℤ count))
    then (let room = wrap32 (max_node_count -ℤ replicas) in
        if ltb_ℤ room (pos 0) then pos 0 else room)
    else count

-- The replicas to write, from those that the manifest has.
unfoldable pub scale_out_target : ℤ → ℤ → ℤ → ℤ
scale_out_target max_node_count replicas replenish =
    let target = wrap32 (replicas +ℤ replenish) in
    if ltb_ℤ (pos 0) max_node_count && ltb_ℤ max_node_count target then max_node_count else target

-- The error where neither a waiter's node nor a spare is there.
no_spare_error : ℤ → ℤ → String → SelectError → Error
no_spare_error max_node_count replicas namespace e =
    if ltb_ℤ (pos 0) max_node_count && leb_ℤ max_node_count replicas
    then max_node_count_reached namespace replicas max_node_count
    else selection e

-- The result of the search for spares; it is fatal only if no waiter's node is reused.
spares_or_error :
    ℤ
    → NodeScalingInventory
    → String
    → List String
    → Result SelectError (List NodeScalingInventoryNode)
    → Result Error (List NodeScalingInventoryNode)
unfolding no_spare_error
spares_or_error max_node_count inventory namespace waiters (ok nodes) = ok nodes
spares_or_error max_node_count inventory namespace [] (err e) =
    err (no_spare_error max_node_count inventory.spec.machine_deployment_replicas namespace e)
spares_or_error max_node_count inventory namespace (name ∷ names) (err e) = ok []

-- The reused and the spare nodes of a request.
unfoldable pub select_nodes :
    {W : Type 0}
    → ScaleOutRequest
    → NodeScalingInventory
    → State W
    → Result Error (List String × List NodeScalingInventoryNode)
unfolding spares_or_error
select_nodes request inventory s =
    let batch = scale_out_batch_size s.settings in
    let waiters = find_reusable_scale_in_waiter_nodes (some inventory) batch s in
    let remaining = batch -ℤ pos (length waiters) in
    let spares =
      if ltb_ℤ (pos 0) remaining
      then spares_or_error s.settings.max_node_count inventory request.namespace waiters
          (find_unused_inventory_nodes (some inventory) remaining)
      else ok [] in
    elim spares [
      | err e ↦ err e
      | ok nodes ↦
          if length waiters == 0 && length nodes == 0
          then err (no_reusable_or_spare_nodes request.namespace)
          else ok (waiters, nodes)
    ]

module _ {W : Type 0} (store : NodeScalingInventoryStore W) (runtime : NodeScalingRuntime W) where
  commit_if_configured : ℤ → Eff Error (State W) (Unit {0})
  commit_if_configured target s =
      if str_eq runtime.repo_url ""
      then (ok tt, s)
      else on_world (runtime.commit_and_push (scale_up target)) s

  unfoldable pub write_replicas : ℤ → ℤ → Eff Error (State W) (Unit {0})
  unfolding commit_if_configured
  write_replicas replicas target s =
      let run = (do
        on_world (runtime.write_machine_deployment_replicas target)
        commit_if_configured target
        on_world (store.update_machine_deployment_replicas target)) in
      if target ==ℤ replicas then (ok tt, s) else run s

  -- From the sync on: a failure to sync or to read puts the replenishment off, and is no error.
  after_read : ℤ → ℤ → Result Error ℤ → Eff Error (State W) (Unit {0})
  unfolding write_replicas
  after_read max_node_count replenish (err e) s = (ok tt, s)
  after_read max_node_count replenish (ok replicas) s =
      write_replicas replicas (scale_out_target max_node_count replicas replenish) s

  after_sync : ℤ → Result Error (Unit {0}) × State W → Result Error (Unit {0}) × State W
  unfolding after_read
  after_sync replenish (err e, s) = (ok tt, s)
  after_sync replenish (ok _, s) =
      after_read s.settings.max_node_count replenish
        (runtime.read_machine_deployment_replicas s.world) s

  unfoldable pub replenish_spares : ℤ → Eff Error (State W) (Unit {0})
  unfolding after_sync
  replenish_spares replenish s = after_sync replenish (on_world (sync_repo_if_configured runtime) s)

module _ {Q W : Type 0} (client : KubeClient Q W) (store : NodeScalingInventoryStore W) where
  unfoldable pub activate_and_mark : String → Eff Error (State W) (Unit {0})
  activate_and_mark name = do
    on_world (activate_scaling_node client name)
    on_world (store.mark_node_used name)

  -- The loop over the waiters' nodes.
  unfoldable pub activate_waiters : List String → Eff Error (State W) (Unit {0})
  unfolding activate_and_mark
  activate_waiters [] = pure tt
  activate_waiters (name ∷ names) =
      let rest = activate_waiters names in
      do modify (λ s. (stop_scale_in_waiter name s).1); activate_and_mark name; rest

  -- The loop over the spares.
  unfoldable pub activate_spares : List NodeScalingInventoryNode → Eff Error (State W) (Unit {0})
  unfolding activate_and_mark
  activate_spares [] = pure tt
  activate_spares (node ∷ nodes) =
      let rest = activate_spares nodes in do activate_and_mark node.name; rest

module _ {Q W : Type 0} (client : KubeClient Q W) (store : NodeScalingInventoryStore W)
    (runtime : NodeScalingRuntime W) where
  unfoldable pub scale_out_with :
      NodeScalingInventory
      → List String × List NodeScalingInventoryNode
      → Eff Error (State W) (Unit {0})
  scale_out_with inventory (waiters, spares) s =
      let replenish =
        replenish_count s.settings.max_node_count inventory.spec.machine_deployment_replicas
          (length spares) in
      let run = (do
        activate_waiters client store waiters
        activate_spares client store spares
        modify reset_scale_in_trigger
        replenish_spares store runtime replenish) in
      run s

  unfoldable pub scale_out : ScaleOutRequest → Eff Error (State W) (Unit {0})
  unfolding scale_out_with
  scale_out request = do
    inventory ← reads_world store.get
    nodes ← λ s. (select_nodes request inventory s, s)
    scale_out_with inventory nodes

module _ {Q W : Type 0} (deps : Dependencies Q W) where
  scale_out_if :
      Option (NodeScalingRuntime W)
      → Option (NodeScalingInventoryStore W)
      → Option (KubeClient Q W)
      → ScaleOutRequest
      → Eff Error (State W) (Unit {0})
  scale_out_if none store client request = pure tt
  scale_out_if (some runtime) none client request = raise store_not_configured
  scale_out_if (some runtime) (some store) none request = raise client_not_configured
  scale_out_if (some runtime) (some store) (some client) request =
      scale_out client store runtime request

  unfoldable pub reconcile_scale_out : ScaleOutRequest → Eff Error (State W) (Unit {0})
  unfolding scale_out_if
  reconcile_scale_out = scale_out_if deps.runtime deps.inventory_store deps.client
