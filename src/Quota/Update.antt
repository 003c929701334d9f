-- ===== src/Quota/Update.antt =====
-- internal/quota/controller.go: `UpdateQuotaIfRequired` and `waitForWorkerCapacity`, one run of the
-- goroutine that `UpdateNs` starts. What other goroutines and the cluster do while it sleeps is the
-- parameter `sleep`, which may change all of the state.
pub mod Polling
pub mod Outcome
pub mod Resizes
use quotascale_controller.Prelude.{
  ℕ, zero, suc, ◌+◌, ◌*◌, String, Option, none, some, Bool, true, false, not, List, if◌then◌else◌,
}
use quotascale_controller.Prelude.Int.{ℤ, pos, pos_part, ◌+ℤ◌, ltb_ℤ, leb_ℤ}
use quotascale_controller.Effects.{Result, ok, err, Eff}
use quotascale_controller.Failure as NodeScaling
use quotascale_controller.Cluster.{
  Quantities, giga, quantity_of, KubeClient, ResourceList, ResourceQuota,
}
use quotascale_controller.Autoscaler.{QuotaAutoscaler}
use quotascale_controller.Resources.{Resources, empty, is_empty, differs_from}
use quotascale_controller.NodeScaling.{ScaleOutRequest}
use quotascale_controller.Quota.Failure.{
  QuotaError, quota_status_is_nil, scale_out, scale_out_pending, scale_out_requested,
  polls_exhausted,
}
use quotascale_controller.Quota.PodEvents.{Event, TemplateReader}
use quotascale_controller.Quota.Capacity.{ensure_pod_demand_fits_cluster}
use quotascale_controller.Quota.Desired.{
  current_quota_resources, desired_resources, demand_of, pending_pod_requests,
}
use quotascale_controller.Quota.Watcher.{
  QuotaWatcher, begin_pending_scale_out, clear_pending_scale_out, namespace_needs_scale_out,
}
use quotascale_controller.Resize.{NamespaceResizeEvent}

-- The watcher, and everything outside it.
pub record Running (Q W : Type 0) : Type 0 where
  pub watcher : QuotaWatcher Q
  pub world : W

-- What the watcher is given: `none` is a nil handler. Durations are in nanoseconds.
pub record Surroundings (Q W : Type 0) : Type 0 where
  pub client : KubeClient Q W
  pub template : TemplateReader Q W
  pub scale_out_request_handler : Option (ScaleOutRequest → Eff NodeScaling.Error W (Unit {0}))
  pub post_scale_out_poll_interval : ℤ
  pub post_scale_out_poll_timeout : ℤ
  pub now : W → ℤ
  pub sleep : ℤ → Running Q W → Running Q W
  -- `err.Error()`
  pub message : QuotaError → String

-- `if interval <= 0 { interval = 250 * time.Millisecond }`, and the same for the timeout.
unfoldable pub poll_interval : {Q W : Type 0} → Surroundings Q W → ℤ
poll_interval around =
    if leb_ℤ around.post_scale_out_poll_interval (pos 0)
    then pos 250000000
    else around.post_scale_out_poll_interval

unfoldable pub poll_timeout : {Q W : Type 0} → Surroundings Q W → ℤ
poll_timeout around =
    if leb_ℤ around.post_scale_out_poll_timeout (pos 0)
    then pos 30000000000
    else around.post_scale_out_poll_timeout

abbrev pub settled : Result QuotaError (Unit {0}) → Result QuotaError (Option QuotaError)
settled (ok _) = ok none
settled (err e) = err e

unfoldable pub begin_scale_out : {Q W : Type 0} → String → Running Q W → Bool × Running Q W
begin_scale_out namespace s = (
  (begin_pending_scale_out namespace s.watcher).0,
  record s { watcher = (begin_pending_scale_out namespace s.watcher).1 },
)

unfoldable pub clear_scale_out : {Q W : Type 0} → String → Running Q W → Running Q W
clear_scale_out namespace s = record s { watcher = clear_pending_scale_out namespace s.watcher }

-- The resize to send; `none` where nothing is to change.
unfoldable pub decide_resize :
    {Q : Type 0}
    → Quantities Q
    → ResourceQuota Q
    → NamespaceResizeEvent
    → Result QuotaError (Option QuotaError)
    → Result QuotaError (Option NamespaceResizeEvent)
decide_resize q quota event (err e) = err e
decide_resize q quota event (ok capacity) =
    if differs_from q event.new quota
    then elim capacity [ some e ↦ err e | none ↦ ok (some event) ]
    else ok none

module _ {Q W : Type 0} (q : Quantities Q) (around : Surroundings Q W) where
  -- The loop; it ends with the last result of the check.
  unfoldable pub poll : ℕ → ℤ → ℤ → Resources → Eff QuotaError (Running Q W) (Unit {0})
  poll zero interval deadline demand s = (err polls_exhausted, s)
  poll (suc fuel) interval deadline demand s =
      elim (ensure_pod_demand_fits_cluster q around.client demand s.world) [
        | ok _ ↦ (ok tt, s)
        | err e ↦ elim (ltb_ℤ (around.now s.world) deadline) [
          | false ↦ (err e, s)
          | true ↦ poll fuel interval deadline demand (around.sleep interval s)
        ]
      ]

  -- As many polls as the timeout has nanoseconds, and two more.
  unfoldable pub wait_for_worker_capacity : Resources → Eff QuotaError (Running Q W) (Unit {0})
  unfolding poll
  wait_for_worker_capacity demand s =
      poll (pos_part (poll_timeout around) + 2) (poll_interval around)
        (around.now s.world +ℤ poll_timeout around) demand s

  unfoldable pub after_wait :
      String
      → Result QuotaError (Unit {0}) × Running Q W
      → Result QuotaError (Unit {0}) × Running Q W
  after_wait namespace (err e, s) = (err (scale_out_requested e), s)
  after_wait namespace (ok _, s) = (ok tt, clear_scale_out namespace s)

  unfoldable pub after_request :
      String
      → Resources
      → Running Q W
      → Result NodeScaling.Error (Unit {0}) × W
      → Result QuotaError (Unit {0}) × Running Q W
  unfolding after_wait
  after_request namespace demand s (err e, w) =
      (err (scale_out e), clear_scale_out namespace (record s { world = w }))
  after_request namespace demand s (ok _, w) =
      after_wait namespace (wait_for_worker_capacity demand (record s { world = w }))

  -- The pods do not fit, for the reason `e`, and there is a handler: a scale-out is requested, unless
  -- one is pending, and waited for.
  unfoldable pub request_scale_out :
      (ScaleOutRequest → Eff NodeScaling.Error W (Unit {0}))
      → ScaleOutRequest
      → Resources
      → QuotaError
      → Eff QuotaError (Running Q W) (Unit {0})
  unfolding after_request
  request_scale_out handle request demand e s =
      let (begun, s') = begin_scale_out request.namespace s in
      if begun
      then after_request request.namespace demand s' (handle request s'.world)
      else (err (scale_out_pending e), s')

  -- What stands against the resize once a scale-out has had its chance: an error ends the update, a
  -- value is `capacityErr`, `none` being nil. Without a handler the shortage `e` stays.
  unfoldable pub resolve_shortage :
      ScaleOutRequest
      → Resources
      → QuotaError
      → Option (ScaleOutRequest → Eff NodeScaling.Error W (Unit {0}))
      → Running Q W
      → Result QuotaError (Option QuotaError) × Running Q W
  unfolding request_scale_out
  resolve_shortage request demand e none s = (ok (some e), s)
  resolve_shortage request demand e (some handle) s =
      let r = request_scale_out handle (record request { reason = around.message e }) demand e s in
      (settled r.0, r.1)

  unfoldable pub resolve_capacity :
      ScaleOutRequest
      → Resources
      → Result QuotaError (Unit {0})
      → Running Q W
      → Result QuotaError (Option QuotaError) × Running Q W
  unfolding resolve_shortage
  resolve_capacity request demand (ok _) s = (ok none, s)
  resolve_capacity request demand (err e) s =
      resolve_shortage request demand e around.scale_out_request_handler s

  module _ (quota : ResourceQuota Q) (scaler : QuotaAutoscaler) (events : Option (List Event)) where
    -- `current` with its storage, as messages and requests show it.
    unfoldable pub current_resources : Resources
    current_resources = record (current_quota_resources q quota) {
      storage = q.scaled_value (quantity_of q "requests.storage" quota.hard) giga;
    }

    scale_out_request : Option (Resources × Resources) → ScaleOutRequest
    unfolding current_resources
    scale_out_request demand = record {
      namespace = quota.namespace;
      current = current_resources;
      desired = desired_resources q quota scaler demand;
      reason = "";
    }

    unfoldable pub resize_event : Option (Resources × Resources) → NamespaceResizeEvent
    unfolding current_resources
    resize_event demand = record {
      namespace = quota.namespace;
      resource_quota = scaler.spec.resource_quota;
      old = current_resources;
      new = desired_resources q quota scaler demand;
      immediate = not (is_empty (pending_pod_requests q demand));
    }

    unfoldable pub update_with_demand :
        Option (Resources × Resources)
        → Running Q W
        → Result QuotaError (Option NamespaceResizeEvent) × Running Q W
    unfolding resolve_capacity decide_resize scale_out_request resize_event
    update_with_demand demand s =
        let pods = pending_pod_requests q demand in
        let fits = ensure_pod_demand_fits_cluster q around.client pods s.world in
        let r = resolve_capacity (scale_out_request demand) pods fits s in
        (decide_resize q quota (resize_event demand) r.0, r.1)

    update_if_known :
        Option (ResourceList Q)
        → Option (ResourceList Q)
        → Running Q W
        → Result QuotaError (Option NamespaceResizeEvent) × Running Q W
    unfolding update_with_demand
    update_if_known none hard s = (err quota_status_is_nil, s)
    update_if_known (some used) none s = (err quota_status_is_nil, s)
    update_if_known (some used) (some hard) s =
        update_with_demand (demand_of q around.template s.world events) s

    unfoldable pub update_body :
        Running Q W → Result QuotaError (Option NamespaceResizeEvent) × Running Q W
    unfolding update_if_known
    update_body = update_if_known quota.status_used quota.status_hard

    -- The deferred call: the namespace is no longer pending if it needs no scale-out.
    unfoldable pub release_pending : Running Q W → Running Q W
    release_pending s =
        if namespace_needs_scale_out q around.client around.template quota scaler events s.world
        then s
        else clear_scale_out quota.namespace s

    unfoldable pub update_quota_if_required :
        Running Q W → Result QuotaError (Option NamespaceResizeEvent) × Running Q W
    unfolding update_body release_pending
    update_quota_if_required s = ((update_body s).0, release_pending (update_body s).1)
