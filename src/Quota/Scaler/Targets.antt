-- ===== src/Quota/Scaler/Targets.antt =====
-- The values that a policy may ask for.
use quotascale_controller.Prelude.{◌≢◌, Bool, true, false, ◌≡◌, refl, arith, if◌then◌else◌, ◌⊎◌}
use quotascale_controller.Prelude.Int.{ℤ, pos, ◌≤ℤ◌, ◌<ℤ◌}
use quotascale_controller.Cluster.{Quantities, ResourceQuota}
use quotascale_controller.Autoscaler.{QuotaScalePolicy}
use quotascale_controller.Resources.{min, max}
use quotascale_controller.Quota.Scaler.{
  ActivePolicy, ValidatedQuotaScaler, activate_policy, activate, to_active_policy,
  calculate_scale_up, calculate_scale_down, calculate_desired_for_target_utilization,
}

-- What a scale-up asks for: the target of the utilization, cut to the upper limit, exactly if a target
-- is set, the threshold is not 100 and the usage is above it; otherwise nothing.
abbrev pub ScaleUp : ActivePolicy → ℤ → Type 0
ScaleUp active value =
    ((pos 0 <ℤ active.target_utilization)
      × (active.policy_threshold ≢ pos 100)
      × (active.policy_threshold <ℤ active.current_usage_percentage)
      × (value ≤ℤ active.quota_limit)
      × (value ≤ℤ calculate_desired_for_target_utilization active)
      × ((value ≡ calculate_desired_for_target_utilization active) ⊎ (value ≡ active.quota_limit)))
    ⊎ (((active.target_utilization ≤ℤ pos 0)
          ⊎ ((active.policy_threshold ≡ pos 100)
              ⊎ (active.current_usage_percentage ≤ℤ active.policy_threshold)))
        × (value ≡ pos 0))

-- What a scale-down asks for: at a threshold of 100 what is used, unless that is the maximum; below any
-- other threshold the target of the utilization; neither below the lower limit.
abbrev pub ScaleDown : ActivePolicy → ℤ → Type 0
ScaleDown active value =
    ((pos 0 <ℤ active.target_utilization)
      × (active.policy_threshold ≡ pos 100)
      × (active.used ≢ active.current_maximum)
      × (active.quota_limit ≤ℤ value)
      × (active.used ≤ℤ value)
      × ((value ≡ active.used) ⊎ (value ≡ active.quota_limit)))
    ⊎ (((pos 0 <ℤ active.target_utilization)
          × (active.policy_threshold ≢ pos 100)
          × (active.current_usage_percentage <ℤ active.policy_threshold)
          × (active.quota_limit ≤ℤ value)
          × (calculate_desired_for_target_utilization active ≤ℤ value)
          × ((value ≡ calculate_desired_for_target_utilization active)
              ⊎ (value ≡ active.quota_limit)))
        ⊎ (((active.target_utilization ≤ℤ pos 0)
              ⊎ (((active.policy_threshold ≡ pos 100) × (active.used ≡ active.current_maximum))
                  ⊎ ((active.policy_threshold ≢ pos 100)
                      × (active.policy_threshold ≤ℤ active.current_usage_percentage))))
            × (value ≡ pos 0)))

-- A scale-up asks for the target of the utilization, or the upper limit if that is less, exactly if a
-- target is set, the threshold is not 100 and the usage is above it. A scale-down asks, with a target
-- set, at threshold 100 for what is used unless that is the maximum, and at another one for the target
-- of the utilization if the usage is below it, or for the lower limit if that is more. In every other
-- case a policy asks for nothing.
pub activate_policy_lem :
    (active : ActivePolicy)
    → ScaleUp active (activate_policy active true) × ScaleDown active (activate_policy active false)
unfolding activate_policy calculate_scale_up calculate_scale_down min max
activate_policy_lem active = (ground arith, ground arith)

pull :
    {A B : Type 0} (b : Bool) (a : A) (x y : B)
    → ◌≡◌ {A = A × B} (if b then (a, x) else (a, y)) (a, (if b then x else y))
pull true a x y = refl
pull false a x y = refl

-- The exported `ActivatePolicy` and the unexported `activatePolicy`, which repeats it, ask for the same
-- value.
activate_agrees :
    {Q : Type 0} (q : Quantities Q) (scaler : ValidatedQuotaScaler) (scale_up : Bool)
    (policy : QuotaScalePolicy) (quota : ResourceQuota Q)
    → activate q scaler scale_up policy quota ≡ (
      to_active_policy q scaler scale_up policy quota,
      activate_policy (to_active_policy q scaler scale_up policy quota) scale_up,
    )
unfolding activate activate_policy
activate_agrees q scaler scale_up policy quota = simp pull refl
