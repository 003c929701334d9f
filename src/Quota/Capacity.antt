-- ===== src/Quota/Capacity.antt =====
-- internal/quota/capacity.go: what the worker nodes have left, and whether a demand fits.
use quotascale_controller.Prelude.{
  String, none, some, Bool, true, false, not, ◌&&◌, ◌||◌, List, [], ◌∷◌, any, if◌then◌else◌,
}
use quotascale_controller.Prelude.Int.{ℤ, pos, ◌+ℤ◌, ◌-ℤ◌, ltb_ℤ, wrap64}
use quotascale_controller.Prelude.Text.{str_eq}
use quotascale_controller.Effects.{Result, ok, err}
use quotascale_controller.Cluster.{
  Quantities, milli, mega, quantity_of, Container, Node, Pod, PodSpec, Taint, TaintEffect, PodPhase,
  KubeClient, ResourceList, has_key,
}
use quotascale_controller.Resources.{Resources, empty, is_empty, max_of}
use quotascale_controller.Quota.Failure.{QuotaError, api, demand_exceeds_capacity}

unfoldable pub is_control_plane_node : {Q : Type 0} → Node Q → Bool
is_control_plane_node node =
    has_key "node-role.kubernetes.io/control-plane" node.labels
    || has_key "node-role.kubernetes.io/master" node.labels

abbrev pub is_scaling_taint : Taint → Bool
is_scaling_taint taint =
    str_eq taint.key "node-role.kubernetes.io/scaling"
    && elim taint.effect [ TaintEffect.no_schedule ↦ true | _ ↦ false ]

unfoldable pub node_has_scaling_taint : {Q : Type 0} → Node Q → Bool
node_has_scaling_taint node = any is_scaling_taint node.taints

unfoldable pub is_terminal_pod : {Q : Type 0} → Pod Q → Bool
is_terminal_pod pod = elim pod.phase [
  | PodPhase.succeeded ↦ true
  | PodPhase.failed ↦ true
  | _ ↦ false
]

-- A read of a nil map of requests is a read of an empty one.
abbrev pub requests_of : {Q : Type 0} → Container Q → ResourceList Q
requests_of container = elim container.requests [ none ↦ [] | some list ↦ list ]

-- `if available.F < 0 { available.F = 0 }`
abbrev pub floor_zero : ℤ → ℤ
floor_zero x = if ltb_ℤ x (pos 0) then pos 0 else x

module _ {Q : Type 0} (q : Quantities Q) where
  abbrev pub cpu_request : Container Q → ℤ
  cpu_request c = q.scaled_value (quantity_of q "cpu" (requests_of c)) milli

  abbrev pub memory_request : Container Q → ℤ
  memory_request c = q.scaled_value (quantity_of q "memory" (requests_of c)) mega

  -- The two loops of `PodRequestedResources`.
  unfoldable pub sum_containers : Resources → List (Container Q) → Resources
  sum_containers sum [] = sum
  sum_containers sum (c ∷ cs) =
      sum_containers
        (record sum {
          cpu = wrap64 (sum.cpu +ℤ cpu_request c);
          memory = wrap64 (sum.memory +ℤ memory_request c);
        })
        cs

  unfoldable pub max_containers : Resources → List (Container Q) → Resources
  max_containers init_max [] = init_max
  max_containers init_max (c ∷ cs) =
      max_containers
        (record init_max {
          cpu = if ltb_ℤ init_max.cpu (cpu_request c) then cpu_request c else init_max.cpu;
          memory =
              if ltb_ℤ init_max.memory (memory_request c)
              then memory_request c
              else init_max.memory;
        })
        cs

  unfoldable pub pod_requested_resources : PodSpec Q → Resources
  unfolding sum_containers max_containers
  pod_requested_resources spec =
      max_of (sum_containers empty spec.containers) (max_containers empty spec.init_containers)

  -- The loop over the nodes: the names of the workers, and the sum of what they can allocate.
  unfoldable pub add_workers : List String → Resources → List (Node Q) → List String × Resources
  unfolding is_control_plane_node node_has_scaling_taint
  add_workers workers available [] = (workers, available)
  add_workers workers available (node ∷ nodes) =
      let skip = is_control_plane_node node || node.unschedulable || node_has_scaling_taint node in
      add_workers (if skip then workers else node.name ∷ workers)
        (if skip then available else record available {
          cpu =
              wrap64 (available.cpu +ℤ q.scaled_value (quantity_of q "cpu" node.allocatable) milli);
          memory =
              wrap64
                (available.memory +ℤ q.scaled_value (quantity_of q "memory" node.allocatable) mega);
        })
        nodes

  -- The loop over the pods: what the running pods on workers request is taken off.
  unfoldable pub subtract_pods : List String → Resources → List (Pod Q) → Resources
  unfolding is_terminal_pod pod_requested_resources
  subtract_pods workers available [] = available
  subtract_pods workers available (pod ∷ pods) =
      let skip = not (any (λ w. str_eq w pod.spec.node_name) workers) || is_terminal_pod pod in
      let requested = pod_requested_resources pod.spec in
      subtract_pods workers
        (if skip then available else record available {
          cpu = wrap64 (available.cpu -ℤ requested.cpu);
          memory = wrap64 (available.memory -ℤ requested.memory);
        })
        pods

  unfoldable pub available_from : List (Node Q) → List (Pod Q) → Resources
  unfolding add_workers subtract_pods
  available_from nodes pods =
      let (workers, total) = add_workers [] empty nodes in
      let left = subtract_pods workers total pods in
      record left { cpu = floor_zero left.cpu; memory = floor_zero left.memory }

  module _ {W : Type 0} (client : KubeClient Q W) where
    unfoldable pub worker_node_available_resources : W → Result QuotaError Resources
    worker_node_available_resources w = elim (client.list_nodes w) [
      | err e ↦ err (api e)
      | ok nodes ↦ elim (client.list_pods w) [
        | err e ↦ err (api e)
        | ok pods ↦ ok (available_from nodes pods)
      ]
    ]

    -- `nil` is `ok tt`.
    unfoldable pub ensure_pod_demand_fits_cluster : Resources → W → Result QuotaError (Unit {0})
    unfolding worker_node_available_resources
    ensure_pod_demand_fits_cluster demand w =
        if is_empty demand then ok tt else elim (worker_node_available_resources w) [
          | err e ↦ err e
          | ok available ↦
              if ltb_ℤ available.cpu demand.cpu || ltb_ℤ available.memory demand.memory
              then err (demand_exceeds_capacity demand available)
              else ok tt
        ]
