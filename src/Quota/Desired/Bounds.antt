-- ===== src/Quota/Desired/Bounds.antt =====
-- The bounds of the desired quota.
use quotascale_controller.Prelude.{true, false, ◌≡◌, refl, arith, Option, ◌⊎◌, inl, inr}
use quotascale_controller.Prelude.Int.{◌≤ℤ◌}
use quotascale_controller.Cluster.{Quantities, ResourceQuota, quantity_of, giga}
use quotascale_controller.Autoscaler.{QuotaAutoscaler}
use quotascale_controller.Resources.{
  Resources, at_most, at_least, limit, max_of, ensure_requests_fit_limits, current_of,
  is_scale_down, grows, force_no_scale_down_when_scale_up,
}
use quotascale_controller.Resources.Bounds.{IsWithin, force_no_scale_down_lem}
use quotascale_controller.Quota.Scaler.{ValidatedQuotaScaler, validate_quota_scaler}
use quotascale_controller.Quota.Desired.{
  bound_quota_resources, min_resources, max_resources, current_quota_resources, with_demand,
  apply_policies, desired_resources,
}

IsWithin-trans : (a b c : Resources) → IsWithin a b → IsWithin b c → IsWithin a c
IsWithin-trans a b c h k = ground arith

-- With a configuration whose minimum is not above its maximum, each of the four values lies between
-- them, and no request is above its limit.
bound_quota_resources_lem :
    (desired : Resources) (scaler : ValidatedQuotaScaler)
    → scaler.min_cpu ≤ℤ scaler.max_cpu
    → scaler.min_memory ≤ℤ scaler.max_memory
    → IsWithin (min_resources scaler) (bound_quota_resources desired scaler)
      × IsWithin (bound_quota_resources desired scaler) (max_resources scaler)
      × ((bound_quota_resources desired scaler).requests_cpu
          ≤ℤ (bound_quota_resources desired scaler).cpu)
      × ((bound_quota_resources desired scaler).requests_memory
          ≤ℤ (bound_quota_resources desired scaler).memory)
unfolding bound_quota_resources limit max_of ensure_requests_fit_limits at_most at_least
bound_quota_resources_lem desired scaler h k =
    (ground arith, ground arith, ground arith, ground arith)

module _ {Q : Type 0} (q : Quantities Q) (quota : ResourceQuota Q) (scaler : QuotaAutoscaler)
    (demand : Option (Resources × Resources)) where
  validated : ValidatedQuotaScaler
  validated = validate_quota_scaler q scaler

  -- Before `ForceNoScaleDownWhenScaleUp`.
  bounded : Resources
  unfolding validated
  bounded =
      record (bound_quota_resources
        (with_demand q quota
          (apply_policies q validated quota true
            (apply_policies q validated quota false (current_quota_resources q quota)
              scaler.spec.behavior.scale_down.policies)
            scaler.spec.behavior.scale_up.policies)
          demand)
        validated) { storage = q.scaled_value (quantity_of q "requests.storage" quota.hard) giga }

  forced_bounded :
      desired_resources q quota scaler demand ≡ force_no_scale_down_when_scale_up q bounded quota
  unfolding desired_resources bounded validated
  forced_bounded = refl

  -- Whatever the policies and the events ask for, if the configured minimum is not above the maximum:
  -- the desired quota is not below the minimum; it lowers no value or raises none; and where it lowers
  -- one, it is not above the maximum and no request is above its limit.
  pub desired_resources_lem :
      (validate_quota_scaler q scaler).min_cpu ≤ℤ (validate_quota_scaler q scaler).max_cpu
      → (validate_quota_scaler q scaler).min_memory ≤ℤ (validate_quota_scaler q scaler).max_memory
      → IsWithin
          (min_resources (validate_quota_scaler q scaler))
          (desired_resources q quota scaler demand)
        × ((is_scale_down q (desired_resources q quota scaler demand) quota ≡ false)
            ⊎ ((grows (desired_resources q quota scaler demand) (current_of q quota) ≡ false)
                × IsWithin
                    (desired_resources q quota scaler demand)
                    (max_resources (validate_quota_scaler q scaler))
                × ((desired_resources q quota scaler demand).requests_cpu
                    ≤ℤ (desired_resources q quota scaler demand).cpu)
                × ((desired_resources q quota scaler demand).requests_memory
                    ≤ℤ (desired_resources q quota scaler demand).memory)))
  unfolding bounded validated
  desired_resources_lem h k =
      let b =
        bound_quota_resources_lem
          (with_demand q quota
            (apply_policies q validated quota true
              (apply_policies q validated quota false (current_quota_resources q quota)
                scaler.spec.behavior.scale_down.policies)
              scaler.spec.behavior.scale_up.policies)
            demand)
          validated h k in
      rw forced_bounded (elim (force_no_scale_down_lem q bounded quota) [
        | inl (g, same) ↦ rw same (b.0, inr (g, b.1, b.2, b.3))
        | inr (g, not_down, above, over) ↦ (
          IsWithin-trans (min_resources validated) bounded
              (force_no_scale_down_when_scale_up q bounded quota) b.0 above,
          inl not_down,
        )
      ])
