-- ===== src/Quota/PodEvents.antt =====
-- internal/quota/pod_events.go: what the pods that could not be created or scheduled ask for. The
-- objects' templates and their missing replicas are an argument; Quota/Templates reads them.
use quotascale_controller.Prelude.{
  String, Option, none, some, Bool, ◌||◌, List, [], ◌∷◌, any, if◌then◌else◌,
}
use quotascale_controller.Prelude.Int.{ℤ, pos, ◌*ℤ◌, leb_ℤ, wrap64}
use quotascale_controller.Prelude.Text.{str_eq, append}
use quotascale_controller.Effects.{Result, ok, err}
use quotascale_controller.Failure.{ApiError}
use quotascale_controller.Cluster.{Quantities, milli, mega, quantity_of, Container, PodSpec}
use quotascale_controller.Resources.{Resources, empty, add}
use quotascale_controller.Quota.Capacity.{pod_requested_resources}

-- A `v1.Event`, without its times: they are only used to ignore events from before the start.
pub record Event : Type 0 where
  pub namespace : String
  pub reason : String
  pub message : String
  pub object_kind : String
  pub object_namespace : String
  pub object_name : String

-- The template's specification and the missing replicas of the object of an event, an `int32`, as
-- `getPodTemplateSpecFromEv` finds them.
abbrev pub TemplateReader : Type 0 → Type 0 → Type 0
TemplateReader Q W = W → Event → Result ApiError (PodSpec Q × ℤ)

unfoldable pub is_daemon_set : Event → Bool
is_daemon_set ev = str_eq ev.object_kind "DaemonSet"

module _ {Q : Type 0} (q : Quantities Q) where
  -- `MaxResourceQuantity`
  unfoldable pub max_resource_quantity : Q → Q → Q
  max_resource_quantity left right = if q.greater right left then right else left

  -- What one container adds under `key`: nothing without requests, the larger of request and limit
  -- where it has both.
  unfoldable pub needed : String → Container Q → Option Q
  unfolding max_resource_quantity
  needed key c = elim c.requests [
    | none ↦ none
    | some requests ↦ elim c.limits [
      | none ↦ some (quantity_of q key requests)
      | some limits ↦
          some (max_resource_quantity (quantity_of q key requests) (quantity_of q key limits))
    ]
  ]

  unfoldable pub add_needed : String → Q → List (Container Q) → Q
  unfolding needed
  add_needed key total [] = total
  add_needed key total (c ∷ cs) =
      add_needed key (elim (needed key c) [ none ↦ total | some v ↦ q.add total v ]) cs

  unfoldable pub calculate_pod_resources : PodSpec Q → ℤ → Resources
  unfolding add_needed
  calculate_pod_resources spec missing = if leb_ℤ missing (pos 0) then empty else record empty {
    cpu = wrap64 (q.scaled_value (add_needed "cpu" q.zero spec.containers) milli *ℤ missing);
    memory = wrap64 (q.scaled_value (add_needed "memory" q.zero spec.containers) mega *ℤ missing);
  }

  unfoldable pub calculate_pod_request_resources : PodSpec Q → ℤ → Resources
  calculate_pod_request_resources spec missing =
      if leb_ℤ missing (pos 0) then empty else record (pod_requested_resources q spec) {
        cpu = wrap64 ((pod_requested_resources q spec).cpu *ℤ missing);
        memory = wrap64 ((pod_requested_resources q spec).memory *ℤ missing);
      }

  module _ {W : Type 0} (template : TemplateReader Q W) (w : W) where
    -- Both sums after one event whose object is seen for the first time; an object that cannot be
    -- read is passed over.
    add_demand : Event → Resources × Resources → Resources × Resources
    add_demand ev (quota_sum, request_sum) = elim (template w ev) [
      | err e ↦ (quota_sum, request_sum)
      | ok r ↦ (
        add quota_sum (calculate_pod_resources r.0 r.1),
        add request_sum (calculate_pod_request_resources r.0 r.1),
      )
    ]

    -- The loop: kind and name, joined, tell objects apart.
    unfoldable pub sum_demands :
        List String → Resources × Resources → List Event → Resources × Resources
    unfolding add_demand is_daemon_set
    sum_demands seen sums [] = sums
    sum_demands seen sums (ev ∷ evs) =
        let name = append ev.object_kind ev.object_name in
        let skip = is_daemon_set ev || any (str_eq name) seen in
        sum_demands (if skip then seen else name ∷ seen) (if skip then sums else add_demand ev sums)
          evs

    -- The demand on the quota, and the requests that nodes must have room for.
    unfoldable pub get_resource_demands_from_pod_events : List Event → Resources × Resources
    unfolding sum_demands
    get_resource_demands_from_pod_events evs = sum_demands [] (empty, empty) evs
