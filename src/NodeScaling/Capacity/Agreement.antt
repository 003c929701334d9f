-- ===== src/NodeScaling/Capacity/Agreement.antt =====
-- `internal/quota/capacity.go` and `internal/nodescaling/scalein_trigger.go` each compute what the
-- worker nodes have left. They keep the workers in a set and in a map of capacities.
use quotascale_controller.Prelude.{
  String, Bool, ◌||◌, ◌≡◌, refl, ap, arith, List, [], ◌∷◌, any, Bool-cases, inl, inr,
}
use quotascale_controller.Prelude.Text.{str_eq}
use quotascale_controller.Cluster.{
  Quantities, Node, Pod, PodSpec, Container, Map, has_key, lookup, insert,
}
use quotascale_controller.Cluster.Maps.{has_key-insert}
use quotascale_controller.Resources.{Resources, empty}
use quotascale_controller.NodeScaling.Capacity.{
  schedulable_available, add_capacity, subtract_requests, sum_requests, max_requests,
  pod_requested_resources_for_availability, node_capacity, is_control_plane_node,
  is_terminal_pod_for_availability,
}
use quotascale_controller.NodeScaling.Nodes.{node_has_scaling_taint}
use quotascale_controller.Quota.Capacity as Check
use quotascale_controller.Quota.Capacity.{
  available_from, add_workers, subtract_pods, sum_containers, max_containers,
  pod_requested_resources, is_terminal_pod, floor_zero,
}

-- The set and the map hold the same names.
abbrev Same : List String → Map Resources → Type 0
Same workers per_node = (name : String) → any (λ w. str_eq w name) workers ≡ has_key name per_node

module _ {Q : Type 0} (q : Quantities Q) where
  same_sums :
      (cs : List (Container Q)) (sum : Resources) → sum_containers q sum cs ≡ sum_requests q sum cs
  unfolding sum_containers sum_requests
  same_sums [] sum = refl
  same_sums (c ∷ cs) sum = same_sums cs _

  same_maxima :
      (cs : List (Container Q)) (m : Resources) → max_containers q m cs ≡ max_requests q m cs
  unfolding max_containers max_requests
  same_maxima [] m = refl
  same_maxima (c ∷ cs) m = same_maxima cs _

  -- A pod is charged the same amount by both.
  pub pod_requested_resources_agree :
      (spec : PodSpec Q)
      → pod_requested_resources q spec ≡ pod_requested_resources_for_availability q spec
  unfolding pod_requested_resources pod_requested_resources_for_availability
  pod_requested_resources_agree spec =
      rw (same_sums spec.containers empty, same_maxima spec.init_containers empty) refl

  skipped : Node Q → Bool
  skipped node = is_control_plane_node node || node.unschedulable || node_has_scaling_taint node

  same_skip :
      (node : Node Q)
      → (Check.is_control_plane_node node
          || node.unschedulable
          || Check.node_has_scaling_taint node)
        ≡ (is_control_plane_node node || node.unschedulable || node_has_scaling_taint node)
  unfolding Check.is_control_plane_node Check.node_has_scaling_taint is_control_plane_node
      node_has_scaling_taint
  same_skip node = refl

  Agree : List String × Resources → Resources × Map Resources → Type 0
  Agree a b = (a.1 ≡ b.0) × Same a.0 b.1

  Same-insert :
      (workers : List String) (per_node : Map Resources) (name : String) (r : Resources)
      → Same workers per_node
      → Same (name ∷ workers) (insert name r per_node)
  Same-insert workers per_node name r h other =
      ground (arith, h other, has_key-insert name other r per_node)

  add_workers-Agree :
      (nodes : List (Node Q)) (workers : List String) (total : Resources) (per_node : Map Resources)
      → Same workers per_node
      → Agree (add_workers q workers total nodes) (add_capacity q total per_node nodes)
  unfolding add_workers add_capacity Agree skipped node_capacity
  add_workers-Agree [] workers total per_node h = (refl, h)
  add_workers-Agree (node ∷ nodes) workers total per_node h = elim (Bool-cases (skipped node)) [
    | inl e ↦
        rw (same_skip node, e, add_workers, add_capacity)
          (add_workers-Agree nodes workers total per_node h)
    | inr e ↦
        rw (same_skip node, e, add_workers, add_capacity)
          (add_workers-Agree nodes (node.name ∷ workers) _
            (insert node.name (node_capacity q node) per_node)
            (Same-insert workers per_node node.name (node_capacity q node) h))
  ]

  subtract_agree :
      (pods : List (Pod Q)) (workers : List String) (per_node : Map Resources) (left : Resources)
      → Same workers per_node
      → subtract_pods q workers left pods ≡ subtract_requests q per_node left pods
  unfolding subtract_pods subtract_requests is_terminal_pod is_terminal_pod_for_availability
  subtract_agree [] workers per_node left h = refl
  subtract_agree (pod ∷ pods) workers per_node left h =
      rw (h pod.spec.node_name, pod_requested_resources_agree pod.spec)
        (subtract_agree pods workers per_node _ h)

  -- For the same nodes and pods the quota check and the scale-in evaluation see the same available
  -- worker resources.
  pub available_from_agrees :
      (nodes : List (Node Q)) (pods : List (Pod Q))
      → available_from q nodes pods ≡ (schedulable_available q nodes pods).0
  unfolding available_from schedulable_available Agree has_key lookup
  available_from_agrees nodes pods =
      let agree = add_workers-Agree nodes [] empty [] (λ name. refl) in
      ap floored
        {x = subtract_pods q (add_workers q [] empty nodes).0 (add_workers q [] empty nodes).1 pods}
        {y = subtract_requests q (add_capacity q empty [] nodes).1 (add_capacity q empty [] nodes).0
          pods}
        (rw agree.0 (
          subtract_agree pods _ (add_capacity q empty [] nodes).1 (add_capacity q empty [] nodes).0
            agree.1))
    where
      floored : Resources → Resources
      floored left = record left { cpu = floor_zero left.cpu; memory = floor_zero left.memory }
