-- ===== src/Quota/Controller/Immediate.antt =====
-- What an event that calls for an update at once leads to.
use quotascale_controller.Prelude.{
  Option, none, some, true, false, ◌≡◌, refl, ap, ◌∙◌, List, [], ◌∷◌, ◌++◌,
}
use quotascale_controller.Prelude.Text.{str_eq, str_eq_iff}
use quotascale_controller.Cluster.{ResourceQuota, lookup, has_key, insert, delete}
use quotascale_controller.Cluster.Maps.{lookup-insert, has_key-delete}
use quotascale_controller.Autoscaler.{QuotaAutoscaler}
use quotascale_controller.Quota.PodEvents.{Event}
use quotascale_controller.Quota.Watcher.{
  QuotaWatcher, EventTimes, register_namespaced_event, should_ignore_historical_event,
  is_immediate_capacity_event,
}
use quotascale_controller.Quota.Controller.{
  Loop, on_event, after_registration, update_ns, launch_if, forget_events,
}

-- The events that were waiting, if any, and a new one.
abbrev pub joined : Event → Option (List Event) → List Event
joined ev waiting = elim waiting [ none ↦ ev ∷ [] | some evs ↦ evs ++ ev ∷ [] ]

module _ {Q W : Type 0} (l : Loop Q W) (times : EventTimes) (ev : Event) where
  -- The watcher with the event in it.
  abbrev stored : QuotaWatcher Q
  stored = record l.running.watcher {
    events =
        insert ev.object_namespace (joined ev (lookup ev.object_namespace l.running.watcher.events))
          l.running.watcher.events;
  }

  registration :
      should_ignore_historical_event times l.running.watcher ≡ false
      → is_immediate_capacity_event ev ≡ true
      → register_namespaced_event times ev l.running.watcher ≡ (ev.namespace, true, stored)
  unfolding register_namespaced_event
  registration h k = rw h (ap (λ b. (ev.namespace, b, stored)) k)

  abbrev with_event : Loop Q W
  with_event = record l { running = record l.running { watcher = stored } }

  update_at_once :
      should_ignore_historical_event times l.running.watcher ≡ false
      → is_immediate_capacity_event ev ≡ true
      → str_eq ev.namespace "" ≡ false
      → on_event times ev l ≡ forget_events ev.namespace (update_ns ev.namespace true with_event)
  unfolding on_event after_registration
  update_at_once h k named = ap (λ r. after_registration r l) (registration h k) ∙ (rw named refl)

  waiting_now :
      ev.object_namespace ≡ ev.namespace
      → lookup ev.namespace stored.events
        ≡ some (joined ev (lookup ev.namespace l.running.watcher.events))
  waiting_now same = simp (same, lookup-insert, (str_eq_iff ev.namespace ev.namespace).1 refl)

  launched_now :
      (scaler : QuotaAutoscaler) (quota : ResourceQuota Q)
      → ev.object_namespace ≡ ev.namespace
      → lookup ev.namespace l.running.watcher.scalers ≡ some scaler
      → lookup ev.namespace l.running.watcher.quotas ≡ some quota
      → update_ns ev.namespace true with_event
        ≡ launch_if
            (some scaler)
            (some quota)
            (some (joined ev (lookup ev.namespace l.running.watcher.events)))
            with_event
  unfolding update_ns
  launched_now scaler quota same s t = λ i. launch_if (s i) (t i) (waiting_now same i) with_event

  -- An event that calls for an update at once, in a namespace whose scaler and quota are known: an
  -- update of these two is started with all the events that wait there, this one last, and none of
  -- them waits any longer.
  pub on_event-immediate :
      (scaler : QuotaAutoscaler) (quota : ResourceQuota Q)
      → should_ignore_historical_event times l.running.watcher ≡ false
      → is_immediate_capacity_event ev ≡ true
      → ev.object_namespace ≡ ev.namespace
      → str_eq ev.namespace "" ≡ false
      → lookup ev.namespace l.running.watcher.scalers ≡ some scaler
      → lookup ev.namespace l.running.watcher.quotas ≡ some quota
      → ((on_event times ev l).launched
          ≡ l.launched
            ++ record {
              quota = quota;
              scaler = scaler;
              events = some (joined ev (lookup ev.namespace l.running.watcher.events));
            }
              ∷ [])
        × (has_key ev.namespace (on_event times ev l).running.watcher.events ≡ false)
  unfolding forget_events launch_if
  on_event-immediate scaler quota h k same named s t =
      rw
        (update_at_once h k named
          ∙ ap (forget_events ev.namespace) (launched_now scaler quota same s t))
        (refl, forgotten)
    where
      forgotten : has_key ev.namespace (delete ev.namespace stored.events) ≡ false
      forgotten = simp (has_key-delete, (str_eq_iff ev.namespace ev.namespace).1 refl)
