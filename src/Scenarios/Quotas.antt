-- ===== src/Scenarios/Quotas.antt =====
-- Runs of the quota controller: a quota of 4 cores, 3.8 of them used.
use quotascale_controller.Autoscaler.{QuotaAutoscaler, QuotaScalePolicy}
use quotascale_controller.Cluster.{ResourceQuota}
use quotascale_controller.Prelude.{Option, [], arith, false, some, true, ◌∷◌, ◌≡◌, ◌⊎◌}
use quotascale_controller.Prelude.Int.{pos, ℤ, ◌≤ℤ◌}
use quotascale_controller.Quota.Desired.{desired_resources, max_resources, min_resources}
use quotascale_controller.Quota.Desired.Bounds.{desired_resources_lem}
use quotascale_controller.Quota.Scaler.{
  ActivePolicy, activate_policy, parse_quantity_with_default, validate_quota_scaler,
}
use quotascale_controller.Quota.Scaler.Targets.{ScaleDown, ScaleUp, activate_policy_lem}
use quotascale_controller.Resources.{Resources, current_of, empty, grows, is_scale_down}
use quotascale_controller.Resources.Bounds.{IsWithin}
use quotascale_controller.Scenarios.{q}

abbrev quota : ResourceQuota ℤ
quota = record {
  namespace = "team";
  name = "resource-quota";
  hard = ("limits.cpu", pos 4000) ∷ ("limits.memory", pos 8000) ∷ [];
  status_hard = some [];
  status_used = some (("limits.cpu", pos 3800) ∷ []);
  owner_references = [];
}

abbrev policy : QuotaScalePolicy
policy = record { method = "cpu"; value = pos 80; target_utilization = pos 60 }

abbrev scaler : QuotaAutoscaler
scaler = record {
  namespace = "team";
  name = "scaler";
  uid = "1";
  spec = record {
    resource_quota = "resource-quota";
    min_cpu = "";
    max_cpu = "";
    min_memory = "";
    max_memory = "";
    behavior = record {
      scale_up = record { policies = policy ∷ [] };
      scale_down = record { policies = [] };
    };
  };
}

abbrev desired : Resources
desired = record empty { cpu = pos 6333; memory = pos 8000; requests_cpu = pos 7000 }

abbrev demand : Option (Resources × Resources)
demand = some (desired, empty)

abbrev active : ActivePolicy
active = record {
  is_cpu = true;
  is_request = false;
  current_maximum = pos 4000;
  current_usage_percentage = pos 95;
  policy_threshold = pos 80;
  target_utilization = pos 60;
  quota_limit = pos 35000;
  used = pos 3800;
}

desired_resources_lem_example :
    IsWithin
      (min_resources (validate_quota_scaler q scaler))
      (desired_resources q quota scaler demand)
    × ((is_scale_down q (desired_resources q quota scaler demand) quota ≡ false)
        ⊎ ((grows (desired_resources q quota scaler demand) (current_of q quota) ≡ false)
            × IsWithin
                (desired_resources q quota scaler demand)
                (max_resources (validate_quota_scaler q scaler))
            × ((desired_resources q quota scaler demand).requests_cpu
                ≤ℤ (desired_resources q quota scaler demand).cpu)
            × ((desired_resources q quota scaler demand).requests_memory
                ≤ℤ (desired_resources q quota scaler demand).memory)))
unfolding validate_quota_scaler parse_quantity_with_default
desired_resources_lem_example =
    desired_resources_lem q quota scaler demand (omega arith) (omega arith)

activate_policy_lem_example :
    ScaleUp active (activate_policy active true) × ScaleDown active (activate_policy active false)
activate_policy_lem_example = activate_policy_lem active
