-- ===== src/Quota/Scaler.antt =====
-- internal/quota/scaler.go: from a policy and a quota to the value that the quota should have.
pub mod Targets
use quotascale_controller.Prelude.{
  String, Option, none, some, Bool, true, false, not, ◌&&◌, ◌||◌, List, [], ◌∷◌, if◌then◌else◌,
}
use quotascale_controller.Prelude.Int.{ℤ, pos, leb_ℤ, ltb_ℤ, ◌==ℤ◌}
use quotascale_controller.Prelude.Text.{str_eq}
use quotascale_controller.Prelude.Float.{of_int64, mul, div, to_int64}
use quotascale_controller.Prelude.Case.{is_lower_case_of}
use quotascale_controller.Cluster.{
  Quantities, Scale, milli, mega, ResourceList, ResourceQuota, lookup,
}
use quotascale_controller.Autoscaler.{QuotaAutoscaler, QuotaScalePolicy}
use quotascale_controller.Resources.{Resources, empty, max, min}

pub record ValidatedQuotaScaler : Type 0 where
  pub min_cpu : ℤ
  pub max_cpu : ℤ
  pub min_memory : ℤ
  pub max_memory : ℤ

pub record ActivePolicy : Type 0 where
  pub is_cpu : Bool
  pub is_request : Bool
  pub current_maximum : ℤ
  pub current_usage_percentage : ℤ
  pub policy_threshold : ℤ
  pub target_utilization : ℤ
  pub quota_limit : ℤ
  pub used : ℤ

-- `int64(float64(policy.Used) * 100 / float64(policy.TargetUtilization))`
unfoldable pub calculate_desired_for_target_utilization : ActivePolicy → ℤ
calculate_desired_for_target_utilization policy =
    to_int64
      (div (mul (of_int64 policy.used) (of_int64 (pos 100))) (of_int64 policy.target_utilization))

unfoldable pub calculate_scale_up : ActivePolicy → ℤ
calculate_scale_up policy = min (calculate_desired_for_target_utilization policy) policy.quota_limit

unfoldable pub calculate_scale_down : ActivePolicy → ℤ
calculate_scale_down policy =
    max (calculate_desired_for_target_utilization policy) policy.quota_limit

-- The unexported `activatePolicy`; 0 means that there is nothing to do.
unfoldable pub activate_policy : ActivePolicy → Bool → ℤ
unfolding calculate_scale_up calculate_scale_down
activate_policy active scale_up =
    if leb_ℤ active.target_utilization (pos 0)
    then pos 0
    else if active.policy_threshold ==ℤ pos 100
    then (if not scale_up && not (active.used ==ℤ active.current_maximum)
        then max active.used active.quota_limit
        else pos 0)
    else if scale_up && ltb_ℤ active.policy_threshold active.current_usage_percentage
    then calculate_scale_up active
    else if not scale_up && ltb_ℤ active.current_usage_percentage active.policy_threshold
    then calculate_scale_down active
    else pos 0

-- The resource names of the Kubernetes API.
pub data ResourceName : Type 0 where
  requests_cpu limits_cpu requests_memory limits_memory : ResourceName

abbrev pub key_of : ResourceName → String
key_of requests_cpu = "requests.cpu"
key_of limits_cpu = "limits.cpu"
key_of requests_memory = "requests.memory"
key_of limits_memory = "limits.memory"

abbrev is_request_name : ResourceName → Bool
is_request_name requests_cpu = true
is_request_name requests_memory = true
is_request_name _ = false

abbrev names_memory : QuotaScalePolicy → Bool
names_memory policy = is_lower_case_of "memory" policy.method

-- `int64(float64(active.Used) / float64(active.CurrentMaximum) * 100)`, or 0 for no maximum.
unfoldable pub usage_percentage : ℤ → ℤ → ℤ
usage_percentage used maximum =
    if maximum ==ℤ pos 0
    then pos 0
    else to_int64 (mul (div (of_int64 used) (of_int64 maximum)) (of_int64 (pos 100)))

module _ {Q : Type 0} (q : Quantities Q) where
  -- The value is parsed; the default stands in for an empty value and for one that does not parse.
  unfoldable pub parse_quantity_with_default : String → Scale → ℤ → ℤ
  parse_quantity_with_default value scale def =
      if str_eq value ""
      then def
      else elim (q.parse_quantity value) [ none ↦ def | some v ↦ q.scaled_value v scale ]

  unfoldable pub validate_quota_scaler : QuotaAutoscaler → ValidatedQuotaScaler
  unfolding parse_quantity_with_default
  validate_quota_scaler scaler = record {
    min_cpu = parse_quantity_with_default scaler.spec.min_cpu milli (pos 400);
    max_cpu = parse_quantity_with_default scaler.spec.max_cpu milli (pos 35000);
    min_memory = parse_quantity_with_default scaler.spec.min_memory mega (pos 1000);
    max_memory = parse_quantity_with_default scaler.spec.max_memory mega (pos 150000);
  }

  unfoldable pub quota_resource_value : ResourceList Q → String → String → Scale → ℤ
  quota_resource_value list name legacy scale = elim (lookup name list) [
    | some v ↦ q.scaled_value v scale
    | none ↦ elim (lookup legacy list) [
      | some v ↦ q.scaled_value v scale
      | none ↦ q.scaled_value q.zero scale
    ]
  ]

  -- A read of a nil map is a read of an empty one.
  abbrev pub used_list : ResourceQuota Q → ResourceList Q
  used_list quota = elim quota.status_used [ none ↦ [] | some list ↦ list ]

  unfoldable pub to_active_policy_for_resource :
      ValidatedQuotaScaler → Bool → QuotaScalePolicy → ResourceQuota Q → ResourceName → ActivePolicy
  unfolding usage_percentage
  to_active_policy_for_resource scaler scale_up policy quota name =
      let target =
        if policy.target_utilization ==ℤ pos 0 then policy.value else policy.target_utilization in
      let memory = names_memory policy in
      let cpu = is_lower_case_of "cpu" policy.method in
      let value = λ (list : ResourceList Q).
        if memory
        then quota_resource_value list (key_of name) "memory" mega
        else if cpu
        then quota_resource_value list (key_of name) "cpu" milli
        else pos 0 in
      let maximum = value quota.hard in
      let used = value (used_list quota) in
      record {
        is_cpu = not memory && cpu;
        is_request = is_request_name name;
        current_maximum = maximum;
        current_usage_percentage = usage_percentage used maximum;
        policy_threshold = policy.value;
        target_utilization = target;
        quota_limit =
            if memory
            then (if scale_up then scaler.max_memory else scaler.min_memory)
            else if cpu
            then (if scale_up then scaler.max_cpu else scaler.min_cpu)
            else pos 0;
        used = used;
      }

  unfoldable pub to_active_policy :
      ValidatedQuotaScaler → Bool → QuotaScalePolicy → ResourceQuota Q → ActivePolicy
  to_active_policy scaler scale_up policy quota =
      to_active_policy_for_resource scaler scale_up policy quota
        (if names_memory policy then limits_memory else limits_cpu)

  -- The exported `ActivatePolicy`.
  unfoldable pub activate :
      ValidatedQuotaScaler → Bool → QuotaScalePolicy → ResourceQuota Q → ActivePolicy × ℤ
  unfolding calculate_scale_up calculate_scale_down
  activate scaler scale_up policy quota =
      let active = to_active_policy scaler scale_up policy quota in
      if leb_ℤ active.target_utilization (pos 0)
      then (active, pos 0)
      else if active.policy_threshold ==ℤ pos 100
      then (if not scale_up && not (active.used ==ℤ active.current_maximum)
          then (active, max active.used active.quota_limit)
          else (active, pos 0))
      else if scale_up && ltb_ℤ active.policy_threshold active.current_usage_percentage
      then (active, calculate_scale_up active)
      else if not scale_up && ltb_ℤ active.current_usage_percentage active.policy_threshold
      then (active, calculate_scale_down active)
      else (active, pos 0)

  -- One round of the loop in `ActivateScalerPolicy`: a target other than 0 is stored.
  abbrev store_target : Resources → ResourceName → ℤ → Resources
  store_target desired requests_cpu target =
      if target ==ℤ pos 0 then desired else record desired { requests_cpu = target }
  store_target desired limits_cpu target =
      if target ==ℤ pos 0 then desired else record desired { cpu = target }
  store_target desired requests_memory target =
      if target ==ℤ pos 0 then desired else record desired { requests_memory = target }
  store_target desired limits_memory target =
      if target ==ℤ pos 0 then desired else record desired { memory = target }

  unfoldable pub activate_resources :
      ValidatedQuotaScaler
      → QuotaScalePolicy
      → ResourceQuota Q
      → Bool
      → Resources
      → List ResourceName
      → Resources
  activate_resources scaler policy quota scale_up desired [] = desired
  activate_resources scaler policy quota scale_up desired (name ∷ names) =
      activate_resources scaler policy quota scale_up
        (store_target desired name (
          activate_policy (to_active_policy_for_resource scaler scale_up policy quota name)
            scale_up))
        names

  unfoldable pub activate_scaler_policy :
      ValidatedQuotaScaler → QuotaScalePolicy → ResourceQuota Q → Bool → Resources
  unfolding activate_resources
  activate_scaler_policy scaler policy quota scale_up =
      activate_resources scaler policy quota scale_up empty (
        if names_memory policy
        then requests_memory ∷ limits_memory ∷ []
        else requests_cpu ∷ limits_cpu ∷ [])
