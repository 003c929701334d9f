-- ===== src/Quota/Desired.antt =====
-- internal/quota/controller.go: the quota that `UpdateQuotaIfRequired` and
-- `namespaceNeedsScaleOut` compute. What is done with it is in Quota/Update.
pub mod Bounds
use quotascale_controller.Prelude.{
  String, Option, none, some, Bool, true, false, not, ◌&&◌, ◌||◌, List, [], ◌∷◌, if◌then◌else◌,
}
use quotascale_controller.Prelude.Int.{ℤ, pos, ◌+ℤ◌, wrap64}
use quotascale_controller.Cluster.{
  Quantities, Scale, milli, mega, giga, quantity_of, ResourceList, ResourceQuota, lookup,
}
use quotascale_controller.Autoscaler.{QuotaAutoscaler, QuotaScalePolicy}
use quotascale_controller.Resources.{
  Resources, empty, add, replace, limit, max_of, is_empty, ensure_requests_fit_limits,
  force_no_scale_down_when_scale_up,
}
use quotascale_controller.Quota.Scaler.{
  ValidatedQuotaScaler, validate_quota_scaler, quota_resource_value, used_list,
  activate_scaler_policy,
}
use quotascale_controller.Quota.PodEvents.{
  Event, TemplateReader, get_resource_demands_from_pod_events,
}

abbrev pub min_resources : ValidatedQuotaScaler → Resources
min_resources scaler = record empty {
  cpu = scaler.min_cpu;
  memory = scaler.min_memory;
  requests_cpu = scaler.min_cpu;
  requests_memory = scaler.min_memory;
}

abbrev pub max_resources : ValidatedQuotaScaler → Resources
max_resources scaler = record empty {
  cpu = scaler.max_cpu;
  memory = scaler.max_memory;
  requests_cpu = scaler.max_cpu;
  requests_memory = scaler.max_memory;
}

unfoldable pub bound_quota_resources : Resources → ValidatedQuotaScaler → Resources
bound_quota_resources desired scaler =
    ensure_requests_fit_limits
      (limit (max_of desired (min_resources scaler)) (max_resources scaler))

module _ {Q : Type 0} (q : Quantities Q) where
  -- `quotaValue` is the `quotaResourceValue` of the scaler written again.
  unfoldable pub quota_value : ResourceList Q → String → String → Scale → ℤ
  quota_value list name legacy scale = elim (lookup name list) [
    | some v ↦ q.scaled_value v scale
    | none ↦ elim (lookup legacy list) [
      | some v ↦ q.scaled_value v scale
      | none ↦ q.scaled_value q.zero scale
    ]
  ]

  -- `ResourceQuotaUsedCpuLimit` and `ResourceQuotaUsedMemoryLimit`.
  unfoldable pub used_limit : String → String → ResourceQuota Q → Q
  used_limit name legacy quota = elim (lookup name (used_list q quota)) [
    | none ↦ quantity_of q legacy (used_list q quota)
    | some v ↦ v
  ]

  unfoldable pub current_quota_resources : ResourceQuota Q → Resources
  unfolding quota_value
  current_quota_resources quota = record empty {
    cpu = quota_value quota.hard "limits.cpu" "cpu" milli;
    memory = quota_value quota.hard "limits.memory" "memory" mega;
    requests_cpu = quota_value quota.hard "requests.cpu" "cpu" milli;
    requests_memory = quota_value quota.hard "requests.memory" "memory" mega;
  }

  -- One of the two loops over the policies.
  unfoldable pub apply_policies :
      ValidatedQuotaScaler → ResourceQuota Q → Bool → Resources → List QuotaScalePolicy → Resources
  apply_policies scaler quota scale_up desired [] = desired
  apply_policies scaler quota scale_up desired (policy ∷ policies) =
      apply_policies scaler quota scale_up
        (replace desired (some (activate_scaler_policy q scaler policy quota scale_up))) policies

  -- What is used, and the demand of the events on top.
  unfoldable pub raise_to_demand : ResourceQuota Q → Resources → Resources × Resources → Resources
  unfolding used_limit quota_value
  raise_to_demand quota desired (sum, requests) =
      max_of
        (max_of desired (
          add
            (record empty {
              cpu = q.scaled_value (used_limit "limits.cpu" "cpu" quota) milli;
              memory = q.scaled_value (used_limit "limits.memory" "memory" quota) mega;
            })
            sum))
        (record empty {
          requests_cpu =
              wrap64 (quota_value (used_list q quota) "requests.cpu" "cpu" milli +ℤ requests.cpu);
          requests_memory =
              wrap64 (
                quota_value (used_list q quota) "requests.memory" "memory" mega +ℤ requests.memory);
        })

  unfoldable pub with_demand :
      ResourceQuota Q → Resources → Option (Resources × Resources) → Resources
  unfolding raise_to_demand
  with_demand quota desired none = desired
  with_demand quota desired (some demand) = raise_to_demand quota desired demand

  -- The demand of the events, where they are read (`none`: nil) and it is not empty.
  unfoldable pub demand_of :
      {W : Type 0} → TemplateReader Q W → W → Option (List Event) → Option (Resources × Resources)
  demand_of template w none = none
  demand_of template w (some events) =
      let demand = get_resource_demands_from_pod_events q template w events in
      if is_empty demand.0 then none else some demand

  -- The desired value, of which `UpdateQuotaIfRequired` and `namespaceNeedsScaleOut` each have the
  -- computation: policies, demand, bounds, and no scale-down beside a scale-up.
  unfoldable pub desired_resources :
      ResourceQuota Q → QuotaAutoscaler → Option (Resources × Resources) → Resources
  unfolding current_quota_resources apply_policies with_demand bound_quota_resources
  desired_resources quota scaler demand =
      let validated = validate_quota_scaler q scaler in
      let after_down =
        apply_policies validated quota false (current_quota_resources quota)
          scaler.spec.behavior.scale_down.policies in
      let after_up =
        apply_policies validated quota true after_down scaler.spec.behavior.scale_up.policies in
      let raised = with_demand quota after_up demand in
      force_no_scale_down_when_scale_up q
        (record (bound_quota_resources raised validated) {
          storage = q.scaled_value (quantity_of q "requests.storage" quota.hard) giga;
        })
        quota

  -- `pendingPodRequests`
  unfoldable pub pending_pod_requests : Option (Resources × Resources) → Resources
  pending_pod_requests none = empty
  pending_pod_requests (some (sum, requests)) = requests
