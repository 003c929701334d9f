-- ===== src/Quota/Watcher.antt =====
-- internal/quota/controller.go: the watcher's registrations, which events act at once, and the set of
-- namespaces with a scale-out under way. The updates that it starts are in Quota/Update, its loop in
-- Quota/Controller.
pub mod Pending
use quotascale_controller.Prelude.{
  String, Option, none, some, Bool, true, false, not, ◌&&◌, ◌||◌, List, [], ◌∷◌, ◌++◌, any, select,
  if◌then◌else◌,
}
use quotascale_controller.Prelude.Int.{ℤ, ltb_ℤ}
use quotascale_controller.Prelude.Text.{str_eq}
use quotascale_controller.Prelude.Case.{codes, to_lower, contains}
use quotascale_controller.Effects.{Result, ok, err, is_ok}
use quotascale_controller.Cluster.{
  Quantities, KubeClient, ResourceQuota, Map, lookup, insert, delete,
}
use quotascale_controller.Autoscaler.{QuotaAutoscaler}
use quotascale_controller.Resources.{differs_from, is_scale_down}
use quotascale_controller.Quota.PodEvents.{Event, TemplateReader}
use quotascale_controller.Quota.Capacity.{ensure_pod_demand_fits_cluster}
use quotascale_controller.Quota.Desired.{desired_resources, demand_of, pending_pod_requests}

-- `events[ns]` is there, and may be empty, once something happened in the namespace. Times are
-- nanoseconds; `none` is the zero time.
pub record QuotaWatcher (Q : Type 0) : Type 0 where
  pub scalers : Map QuotaAutoscaler
  pub quotas : Map (ResourceQuota Q)
  pub events : Map (List Event)
  pub started : Option ℤ
  pub pending_scale_out : List String

-- The four times of an event.
pub record EventTimes : Type 0 where
  pub event_time : Option ℤ
  pub last_timestamp : Option ℤ
  pub first_timestamp : Option ℤ
  pub creation_timestamp : Option ℤ

abbrev or_else : Option ℤ → Option ℤ → Option ℤ
or_else (some t) later = some t
or_else none later = later

unfoldable pub event_occurred_at : EventTimes → Option ℤ
event_occurred_at t =
    or_else t.event_time (or_else t.last_timestamp (or_else t.first_timestamp t.creation_timestamp))

unfoldable pub should_ignore_historical_event : {Q : Type 0} → EventTimes → QuotaWatcher Q → Bool
unfolding event_occurred_at
should_ignore_historical_event times watcher = elim watcher.started [
  | none ↦ false
  | some started ↦ elim (event_occurred_at times) [ none ↦ false | some at ↦ ltb_ℤ at started ]
]

abbrev says : Event → String → Bool
says ev text = contains (to_lower ev.message) (codes text)

unfoldable pub is_immediate_quota_denied_event : Event → Bool
is_immediate_quota_denied_event ev =
    str_eq ev.reason "FailedCreate"
    && (says ev "exceeded quota"
        || says ev "is forbidden" && says ev "quota"
        || says ev "quota" && says ev "denied")

unfoldable pub is_immediate_capacity_event : Event → Bool
unfolding is_immediate_quota_denied_event
is_immediate_capacity_event ev =
    is_immediate_quota_denied_event ev
    || (str_eq ev.reason "FailedScheduling"
        && str_eq ev.object_kind "Pod"
        && (says ev "insufficient cpu" || says ev "insufficient memory"))

-- The namespace to look at, "" for none, whether at once, and the watcher with the event stored.
unfoldable pub register_namespaced_event :
    {Q : Type 0} → EventTimes → Event → QuotaWatcher Q → String × Bool × QuotaWatcher Q
unfolding should_ignore_historical_event is_immediate_capacity_event
register_namespaced_event times ev watcher =
    if should_ignore_historical_event times watcher then ("", false, watcher) else (
      ev.namespace,
      is_immediate_capacity_event ev,
      record watcher {
        events =
            insert ev.object_namespace
              (elim (lookup ev.object_namespace watcher.events) [
                | none ↦ ev ∷ []
                | some evs ↦ evs ++ ev ∷ []
              ])
              watcher.events;
      },
    )

-- `beginPendingScaleOut`: whether this call has begun one.
unfoldable pub begin_pending_scale_out :
    {Q : Type 0} → String → QuotaWatcher Q → Bool × QuotaWatcher Q
begin_pending_scale_out namespace watcher =
    if str_eq namespace "" || any (str_eq namespace) watcher.pending_scale_out
    then (false, watcher)
    else (true, record watcher { pending_scale_out = namespace ∷ watcher.pending_scale_out })

unfoldable pub clear_pending_scale_out : {Q : Type 0} → String → QuotaWatcher Q → QuotaWatcher Q
clear_pending_scale_out namespace watcher =
    if str_eq namespace "" then watcher else record watcher {
      pending_scale_out = select (λ n. not (str_eq namespace n)) watcher.pending_scale_out;
    }

-- Whether a raise of the quota waits for room on the nodes.
unfoldable pub namespace_needs_scale_out :
    {Q W : Type 0}
    → Quantities Q
    → KubeClient Q W
    → TemplateReader Q W
    → ResourceQuota Q
    → QuotaAutoscaler
    → Option (List Event)
    → W
    → Bool
namespace_needs_scale_out q client template quota scaler events w =
    let demand = demand_of q template w events in
    let desired = desired_resources q quota scaler demand in
    if not (differs_from q desired quota) || is_scale_down q desired quota
    then false
    else not (is_ok (ensure_pod_demand_fits_cluster q client (pending_pod_requests q demand) w))
