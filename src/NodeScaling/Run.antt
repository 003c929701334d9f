-- ===== src/NodeScaling/Run.antt =====
-- internal/nodescaling/controller.go: `Run`, its select loop over the two queues and the ticker, as a
-- step relation, with what goes on beside it: requests from others, the waiters' goroutines, and the
-- cluster. Errors of a step are only logged. A goroutine whose waiter was stopped may tick once more, and
-- its deferred call then clears the waiter that has its name by then: so a tick takes any name and
-- request, and a waiter may be cleared at any time, which is more than the code does.
pub mod Queues
use quotascale_controller.Prelude.{String, Option, some, List, ◌∷◌, ◌≡◌, Bool, true, false}
use quotascale_controller.Prelude.Int.{ℤ, pos, leb_ℤ}
use quotascale_controller.Cluster.{Quantities, KubeClient, lookup}
use quotascale_controller.Inventory.Store.{NodeScalingInventoryStore}
use quotascale_controller.NodeScaling.{
  State, Settings, Dependencies, ScaleOutRequest, ScaleInRequest, ScaleInWaiter,
  new_node_scaling_controller, handle_scale_out_request, handle_scale_in_request, on_world,
}
use quotascale_controller.NodeScaling.Nodes.{sync_scaling_node_inventory}
use quotascale_controller.NodeScaling.Waiters.{waiter_tick, clear_scale_in_waiter}
use quotascale_controller.NodeScaling.Capacity.{evaluate_automatic_scale_in}
use quotascale_controller.NodeScaling.ScaleOut.{reconcile_scale_out}
use quotascale_controller.NodeScaling.ScaleIn.{
  reconcile_scale_in, ensure_machine_deployment_replica_baseline,
}

module _ {Q W : Type 0} (q : Quantities Q) (deps : Dependencies Q W) where
  -- Before the loop: the baseline, then the inventory.
  unfoldable pub start_run : State W → State W
  start_run s =
      (on_world (sync_scaling_node_inventory deps)
        (ensure_machine_deployment_replica_baseline q deps s).1).1

  unfoldable pub take_scale_out : ScaleOutRequest → List ScaleOutRequest → State W → State W
  take_scale_out request rest s =
      (reconcile_scale_out deps request (record s { scale_out_requests = rest })).1

  unfoldable pub take_scale_in : ScaleInRequest → List ScaleInRequest → State W → State W
  take_scale_in request rest s =
      (reconcile_scale_in q deps request (record s { scale_in_requests = rest })).1

  -- The ticker's case.
  unfoldable pub on_tick : State W → State W
  on_tick s =
      (evaluate_automatic_scale_in q deps (on_world (sync_scaling_node_inventory deps) s).1).1

  pub data Step : State W → State W → Type 0 where
    scale_out_arrives :
        {s : State W} (request : ScaleOutRequest) → Step s (handle_scale_out_request request s).1
    scale_in_arrives :
        {s : State W} (request : ScaleInRequest) → Step s (handle_scale_in_request request s).1
    scale_out_taken :
        {s : State W} (request : ScaleOutRequest) (rest : List ScaleOutRequest)
        → s.scale_out_requests ≡ request ∷ rest
        → Step s (take_scale_out request rest s)
    scale_in_taken :
        {s : State W} (request : ScaleInRequest) (rest : List ScaleInRequest)
        → s.scale_in_requests ≡ request ∷ rest
        → Step s (take_scale_in request rest s)
    ticks : {s : State W} → Step s (on_tick s)
    waiter_ticks :
        {s : State W} (client : KubeClient Q W) (store : NodeScalingInventoryStore W)
        (name : String) (request : ScaleInRequest)
        → deps.client ≡ some client
        → deps.inventory_store ≡ some store
        → Step s (waiter_tick client store deps.now name request s)
    waiter_ends : {s : State W} (name : String) → Step s (clear_scale_in_waiter name s)
    world_changes : {s : State W} (world : W) → Step s (record s { world = world })

  -- From a controller with its settings made.
  pub data Reachable (settings : Settings) (world : W) : State W → Type 0 where
    started :
        Reachable settings world
          (start_run (record (new_node_scaling_controller world) { settings = settings }))
    step : {s s' : State W} → Reachable settings world s → Step s s' → Reachable settings world s'
