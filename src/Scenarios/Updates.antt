-- ===== src/Scenarios/Updates.antt =====
-- Runs of updates of a quota: one of 0.1 cores, which is less than a quota may be.
use quotascale_controller.Prelude.{none, some, true, false, not, [], ◌∷◌, ◌≡◌, refl, any}
use quotascale_controller.Prelude.Int.{ℤ, pos, ◌+ℤ◌, int_laws}
use quotascale_controller.Prelude.Text.{str_eq}
use quotascale_controller.Effects.{ok, err}
use quotascale_controller.Failure.{not_found}
use quotascale_controller.Cluster.{ResourceQuota, quantity_of, lookup, has_key}
use quotascale_controller.Autoscaler.{QuotaAutoscaler}
use quotascale_controller.Resources.{
  empty, is_empty, differs_from, force_no_scale_down_when_scale_up, ensure_requests_fit_limits,
  resource_value, limit, at_most, at_least, max_of, min, max, current_of,
}
use quotascale_controller.Resize.{NamespaceResizeEvent}
use quotascale_controller.Quota.Capacity.{ensure_pod_demand_fits_cluster}
use quotascale_controller.Quota.Scaler.{parse_quantity_with_default, validate_quota_scaler}
use quotascale_controller.Quota.Desired.{
  desired_resources, current_quota_resources, demand_of, pending_pod_requests,
}
use quotascale_controller.Quota.Update.{
  Running, Surroundings, poll_timeout, wait_for_worker_capacity, decide_resize, resize_event,
  update_quota_if_required,
}
use quotascale_controller.Quota.Update.Polling.{Sleeps, Ended, wait_for_worker_capacity-Ended}
use quotascale_controller.Quota.Update.Resizes.{
  update_quota_if_required_resizes, update_quota_if_required_frees,
}
use quotascale_controller.Scenarios.{World, client, q, w}

abbrev around : Surroundings ℤ World
around = record {
  client = client;
  template = λ w ev. err not_found;
  scale_out_request_handler = none;
  post_scale_out_poll_interval = pos 0;
  post_scale_out_poll_timeout = pos 0;
  now = λ w. w.now;
  sleep = λ d s. record s { world = record s.world { now = s.world.now +ℤ d } };
  message = λ e. "no room";
}

abbrev s : Running ℤ World
s = record {
  watcher = record {
    scalers = [];
    quotas = [];
    events = [];
    started = none;
    pending_scale_out = "team" ∷ [];
  };
  world = w;
}

abbrev quota : ResourceQuota ℤ
quota = record {
  namespace = "team";
  name = "resource-quota";
  hard = ("limits.cpu", pos 100) ∷ [];
  status_hard = some [];
  status_used = some [];
  owner_references = [];
}

abbrev scaler : QuotaAutoscaler
scaler = record {
  namespace = "team";
  name = "scaler";
  uid = "1";
  spec = record {
    resource_quota = "resource-quota";
    min_cpu = "";
    max_cpu = "";
    min_memory = "";
    max_memory = "";
    behavior = record {
      scale_up = record { policies = [] };
      scale_down = record { policies = [] };
    };
  };
}

sleeps : Sleeps around
sleeps d s = omega int_laws

abbrev event : NamespaceResizeEvent
event = resize_event q around quota scaler none none

wait_for_worker_capacity-Ended_example :
    Ended q around empty
      (pos 400000000000 +ℤ poll_timeout around)
      (wait_for_worker_capacity q around empty s)
wait_for_worker_capacity-Ended_example = wait_for_worker_capacity-Ended q around empty s sleeps

-- The update sends the resize.
sent : (update_quota_if_required q around quota scaler none s).0 ≡ ok (some event)
unfolding update_quota_if_required decide_resize resize_event desired_resources differs_from
    force_no_scale_down_when_scale_up ensure_requests_fit_limits is_empty pending_pod_requests
    demand_of ensure_pod_demand_fits_cluster validate_quota_scaler parse_quantity_with_default
    quantity_of lookup has_key resource_value limit at_most at_least max_of min max current_of
    current_quota_resources
sent = refl

update_quota_if_required_resizes_example :
    (differs_from q event.new quota ≡ true)
    × (ensure_pod_demand_fits_cluster q around.client
          (pending_pod_requests q (demand_of q around.template s.world none))
          (update_quota_if_required q around quota scaler none s).1.world
        ≡ ok tt)
    × (event.new ≡ desired_resources q quota scaler (demand_of q around.template s.world none))
    × (event.immediate
        ≡ not (is_empty (pending_pod_requests q (demand_of q around.template s.world none))))
    × (event.namespace ≡ quota.namespace)
    × (event.resource_quota ≡ scaler.spec.resource_quota)
update_quota_if_required_resizes_example =
    update_quota_if_required_resizes q around sleeps quota scaler none refl s event sent

update_quota_if_required_frees_example :
    any
      (str_eq quota.namespace)
      (update_quota_if_required q around quota scaler none s).1.watcher.pending_scale_out
    ≡ false
update_quota_if_required_frees_example =
    update_quota_if_required_frees q around sleeps quota scaler none refl s (some event) sent
