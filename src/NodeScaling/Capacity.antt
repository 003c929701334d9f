-- ===== src/NodeScaling/Capacity.antt =====
-- internal/nodescaling/scalein_trigger.go: what the workers have left, which used scaling nodes could
-- go, and the timer that starts an automatic scale-in. `ManagedQuotaLimitTotals` is in QuotaTotals.
pub mod Removal
pub mod Trigger
pub mod Keeping
pub mod Agreement
use quotascale_controller.Prelude.{
  String, Option, none, some, Bool, true, false, not, ◌&&◌, ◌||◌, List, [], ◌∷◌, ◌++◌, any,
  if◌then◌else◌, ltb, length, ◌==◌,
}
use quotascale_controller.Prelude.Int.{ℤ, pos, ◌+ℤ◌, ◌-ℤ◌, ltb_ℤ, leb_ℤ, wrap64}
use quotascale_controller.Effects.{Result, ok, err, Eff, ◌>>=◌, pure, reads, bind_result, bind_pair}
use quotascale_controller.Failure.{Error, selection}
use quotascale_controller.Inventory.{
  NodeScalingInventory, NodeScalingInventoryNode, SelectError,
  find_highest_order_used_inventory_nodes, count_used_inventory_nodes,
}
use quotascale_controller.Inventory.Store.{NodeScalingInventoryStore, api_failure}
use quotascale_controller.Cluster.{
  Quantities, milli, mega, quantity_of, Container, Node, Pod, PodSpec, PodPhase, KubeClient, Map,
  ResourceList, lookup, insert, has_key,
}
use quotascale_controller.Resources.{Resources, empty, max_of}
use quotascale_controller.NodeScaling.{
  State, Dependencies, ScaleInRequest, NodeScalingRuntime, handle_scale_in_request,
  reset_scale_in_trigger,
}
use quotascale_controller.NodeScaling.Nodes.{node_has_scaling_taint}
use quotascale_controller.NodeScaling.Waiters.{has_active_scale_in_waiters}

pub record ScaleInCapacityEvaluation : Type 0 where
  pub eligible : Bool
  pub current_worker_available : Resources
  pub projected_available : Resources
  pub removable_nodes : List String

unfoldable pub is_control_plane_node : {Q : Type 0} → Node Q → Bool
is_control_plane_node node =
    has_key "node-role.kubernetes.io/control-plane" node.labels
    || has_key "node-role.kubernetes.io/master" node.labels

unfoldable pub is_terminal_pod_for_availability : {Q : Type 0} → Pod Q → Bool
is_terminal_pod_for_availability pod = elim pod.phase [
  | PodPhase.succeeded ↦ true
  | PodPhase.failed ↦ true
  | _ ↦ false
]

abbrev requests_of : {Q : Type 0} → Container Q → ResourceList Q
requests_of container = elim container.requests [ none ↦ [] | some list ↦ list ]

abbrev floor_zero : ℤ → ℤ
floor_zero x = if ltb_ℤ x (pos 0) then pos 0 else x

module _ {Q : Type 0} (q : Quantities Q) where
  abbrev pub requested_cpu : Container Q → ℤ
  requested_cpu c = q.scaled_value (quantity_of q "cpu" (requests_of c)) milli

  abbrev pub requested_memory : Container Q → ℤ
  requested_memory c = q.scaled_value (quantity_of q "memory" (requests_of c)) mega

  unfoldable pub sum_requests : Resources → List (Container Q) → Resources
  sum_requests sum [] = sum
  sum_requests sum (c ∷ cs) =
      sum_requests
        (record sum {
          cpu = wrap64 (sum.cpu +ℤ requested_cpu c);
          memory = wrap64 (sum.memory +ℤ requested_memory c);
        })
        cs

  unfoldable pub max_requests : Resources → List (Container Q) → Resources
  max_requests init_max [] = init_max
  max_requests init_max (c ∷ cs) =
      max_requests
        (record init_max {
          cpu = if ltb_ℤ init_max.cpu (requested_cpu c) then requested_cpu c else init_max.cpu;
          memory =
              if ltb_ℤ init_max.memory (requested_memory c)
              then requested_memory c
              else init_max.memory;
        })
        cs

  unfoldable pub pod_requested_resources_for_availability : PodSpec Q → Resources
  unfolding sum_requests max_requests
  pod_requested_resources_for_availability spec =
      max_of (sum_requests empty spec.containers) (max_requests empty spec.init_containers)

  unfoldable pub node_capacity : Node Q → Resources
  node_capacity node = record empty {
    cpu = q.scaled_value (quantity_of q "cpu" node.allocatable) milli;
    memory = q.scaled_value (quantity_of q "memory" node.allocatable) mega;
  }

  -- The loop of `SchedulableWorkerNodeCapacity`.
  unfoldable pub add_capacity :
      Resources → Map Resources → List (Node Q) → Resources × Map Resources
  unfolding is_control_plane_node node_capacity node_has_scaling_taint
  add_capacity total per_node [] = (total, per_node)
  add_capacity total per_node (node ∷ nodes) =
      let skip = is_control_plane_node node || node.unschedulable || node_has_scaling_taint node in
      let capacity = node_capacity node in
      add_capacity
        (if skip then total else record total {
          cpu = wrap64 (total.cpu +ℤ capacity.cpu);
          memory = wrap64 (total.memory +ℤ capacity.memory);
        })
        (if skip then per_node else insert node.name capacity per_node) nodes

  -- The loop over the pods.
  unfoldable pub subtract_requests : Map Resources → Resources → List (Pod Q) → Resources
  unfolding is_terminal_pod_for_availability pod_requested_resources_for_availability
  subtract_requests per_node available [] = available
  subtract_requests per_node available (pod ∷ pods) =
      let skip =
        not (has_key pod.spec.node_name per_node) || is_terminal_pod_for_availability pod in
      let requested = pod_requested_resources_for_availability pod.spec in
      subtract_requests per_node
        (if skip then available else record available {
          cpu = wrap64 (available.cpu -ℤ requested.cpu);
          memory = wrap64 (available.memory -ℤ requested.memory);
        })
        pods

  unfoldable pub schedulable_available : List (Node Q) → List (Pod Q) → Resources × Map Resources
  unfolding add_capacity subtract_requests
  schedulable_available nodes pods =
      let (total, per_node) = add_capacity empty [] nodes in
      let left = subtract_requests per_node total pods in
      (record left { cpu = floor_zero left.cpu; memory = floor_zero left.memory }, per_node)

  module _ {W : Type 0} (client : KubeClient Q W) where
    unfoldable pub schedulable_worker_node_capacity : W → Result Error (Resources × Map Resources)
    schedulable_worker_node_capacity w =
        bind_result (api_failure (client.list_nodes w)) (λ nodes. ok (add_capacity empty [] nodes))

    -- `NonScalingWorkerNodeCapacity`
    unfoldable pub non_scaling_worker_node_capacity : W → Result Error Resources
    non_scaling_worker_node_capacity w =
        bind_result (schedulable_worker_node_capacity w) (λ r. ok r.0)

    unfoldable pub schedulable_worker_node_available_resources :
        W → Result Error (Resources × Map Resources)
    schedulable_worker_node_available_resources w =
        bind_result (api_failure (client.list_nodes w)) (λ nodes.
          bind_result (api_failure (client.list_pods w))
            (λ pods. ok (schedulable_available nodes pods)))

-- The loop of `EvaluateScaleInCapacity`: a candidate whose capacity is not known is passed over, and
-- the first one that the workers could not spare ends the loop.
unfoldable pub remove_candidates :
    Map Resources
    → Resources
    → List String
    → List NodeScalingInventoryNode
    → Resources × List String
remove_candidates capacity projected removable [] = (projected, removable)
remove_candidates capacity projected removable (node ∷ nodes) = elim (lookup node.name capacity) [
  | none ↦ remove_candidates capacity projected removable nodes
  | some c ↦
      let cpu = wrap64 (projected.cpu -ℤ c.cpu) in
      let memory = wrap64 (projected.memory -ℤ c.memory) in
      elim (ltb_ℤ cpu (pos 0) || ltb_ℤ memory (pos 0)) [
        | true ↦ (projected, removable)
        | false ↦
            remove_candidates capacity (record projected { cpu = cpu; memory = memory })
              (removable ++ node.name ∷ []) nodes
      ]
]

unfoldable pub evaluate_candidates :
    Resources → Map Resources → List NodeScalingInventoryNode → ScaleInCapacityEvaluation
unfolding remove_candidates
evaluate_candidates available capacity candidates =
    let (projected, removable) = remove_candidates capacity available [] candidates in
    record {
      eligible = ltb 0 (length removable);
      current_worker_available = available;
      projected_available = projected;
      removable_nodes = removable;
    }

abbrev pub selection_failure : {A : Type 0} → Result SelectError A → Result Error A
selection_failure (ok a) = ok a
selection_failure (err e) = err (selection e)

unfoldable pub evaluate_inventory :
    Resources → Map Resources → NodeScalingInventory → Result Error ScaleInCapacityEvaluation
unfolding evaluate_candidates
evaluate_inventory available capacity inventory =
    let used_count = count_used_inventory_nodes (some inventory) in
    if used_count == 0
    then ok (record {
      eligible = false;
      current_worker_available = available;
      projected_available = available;
      removable_nodes = [];
    })
    else bind_result
        (selection_failure
          (find_highest_order_used_inventory_nodes (some inventory) (pos used_count)))
        (λ candidates. ok (evaluate_candidates available capacity candidates))

module _ {Q W : Type 0} (q : Quantities Q) (client : KubeClient Q W)
    (store : NodeScalingInventoryStore W) where
  unfoldable pub evaluate_scale_in_capacity : W → Result Error ScaleInCapacityEvaluation
  unfolding evaluate_inventory
  evaluate_scale_in_capacity w =
      bind_result (schedulable_worker_node_available_resources q client w) (λ available.
        bind_result (store.get w)
          (λ inventory. evaluate_inventory available.0 available.1 inventory))

-- `EvaluateAutomaticScaleIn`, where the quota autoscaler client is there, after the evaluation. The
-- times are nanoseconds of a clock.
unfoldable pub advance_trigger :
    {W : Type 0} → ℤ → ScaleInCapacityEvaluation → Eff Error (State W) (Unit {0})
advance_trigger now evaluation s =
    if not evaluation.eligible
    then (ok tt, reset_scale_in_trigger s)
    else elim s.scale_in_eligible_since [
      | none ↦ (ok tt, record s { scale_in_eligible_since = some now })
      | some since ↦
          if ltb_ℤ (now -ℤ since) s.settings.scale_in_trigger_delay
          then (ok tt, s)
          else handle_scale_in_request
              (record {
                namespace = "";
                reason = "worker available resources still stay non-negative";
              })
              (reset_scale_in_trigger s)
    ]

module _ {Q W : Type 0} (q : Quantities Q) (deps : Dependencies Q W) where
  trigger_with :
      Option (NodeScalingRuntime W)
      → Option (KubeClient Q W)
      → Option (NodeScalingInventoryStore W)
      → Eff Error (State W) (Unit {0})
  trigger_with (some runtime) (some client) (some store) s =
      if not deps.has_quota_autoscaler_client || has_active_scale_in_waiters s
      then (ok tt, s)
      else bind_pair (evaluate_scale_in_capacity q client store s.world, s)
          (advance_trigger (deps.now s.world))
  trigger_with _ _ _ s = (ok tt, s)

  unfoldable pub evaluate_automatic_scale_in : Eff Error (State W) (Unit {0})
  unfolding trigger_with
  evaluate_automatic_scale_in = trigger_with deps.runtime deps.client deps.inventory_store
