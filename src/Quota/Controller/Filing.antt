-- ===== src/Quota/Controller/Filing.antt =====
-- How the watcher files scalers and quotas, and what it starts from them.
use quotascale_controller.Prelude.{
  String, Option, none, some, Bool, true, not, ◌&&◌, ◌||◌, ◌≡◌, refl, sym, ◌∙◌, List, [], ◌∷◌, All,
  All-append, Bool-cases, inl, inr,
}
use quotascale_controller.Prelude.Text.{str_eq}
use quotascale_controller.Cluster.{ResourceQuota, lookup, has_key}
use quotascale_controller.Cluster.Maps.{All-insert, lookup-All}
use quotascale_controller.Autoscaler.{QuotaAutoscaler}
use quotascale_controller.Quota.PodEvents.{Event}
use quotascale_controller.Quota.Watcher.{
  QuotaWatcher, EventTimes, register_namespaced_event, should_ignore_historical_event,
}
use quotascale_controller.Quota.Update.{Running}
use quotascale_controller.Quota.Controller.{
  Launch, Loop, set_scaler, set_quota, launch_if, update_ns, forget_events, mark_events,
  after_registration, on_event, on_tick,
}

abbrev pub IsFiledScaler : String × QuotaAutoscaler → Type 0
IsFiledScaler (namespace, scaler) = scaler.namespace ≡ namespace

module _ {Q : Type 0} where
  abbrev pub IsFiledQuota : String × ResourceQuota Q → Type 0
  IsFiledQuota (namespace, quota) = quota.namespace ≡ namespace

  abbrev pub IsPaired : Launch Q → Type 0
  IsPaired u = u.quota.namespace ≡ u.scaler.namespace

  pub registration-IsFiled :
      (times : EventTimes) (ev : Event) (watcher : QuotaWatcher Q)
      → All IsFiledScaler watcher.scalers × All IsFiledQuota watcher.quotas
      → All IsFiledScaler (register_namespaced_event times ev watcher).2.scalers
        × All IsFiledQuota (register_namespaced_event times ev watcher).2.quotas
  unfolding register_namespaced_event
  registration-IsFiled times ev watcher h =
      elim (Bool-cases (should_ignore_historical_event times watcher)) [
        | inl e ↦ rw e h
        | inr e ↦ rw e h
      ]

module _ {Q W : Type 0} where
  abbrev pub IsFiled : Running Q W → Type 0
  IsFiled s = All IsFiledScaler s.watcher.scalers × All IsFiledQuota s.watcher.quotas

  -- Scalers and quotas stand under their namespaces, and each update has two of one namespace.
  abbrev pub IsAligned : Loop Q W → Type 0
  IsAligned l = IsFiled l.running × All IsPaired l.launched

  pub set_scaler-IsFiled :
      (namespace : String) (scaler : QuotaAutoscaler) (s : Running Q W)
      → scaler.namespace ≡ namespace
      → IsFiled s
      → IsFiled (set_scaler namespace scaler s)
  unfolding set_scaler
  set_scaler-IsFiled namespace scaler s e h =
      (All-insert IsFiledScaler namespace scaler s.watcher.scalers e h.0, h.1)

  pub set_quota-IsFiled :
      (namespace : String) (quota : ResourceQuota Q) (s : Running Q W)
      → quota.namespace ≡ namespace
      → IsFiled s
      → IsFiled (set_quota namespace quota s)
  unfolding set_quota
  set_quota-IsFiled namespace quota s e h =
      (h.0, All-insert IsFiledQuota namespace quota s.watcher.quotas e h.1)

  pub launch_if-IsAligned :
      (namespace : String) (scaler : Option QuotaAutoscaler) (quota : Option (ResourceQuota Q))
      (events : Option (List Event)) (l : Loop Q W)
      → lookup namespace l.running.watcher.scalers ≡ scaler
      → lookup namespace l.running.watcher.quotas ≡ quota
      → IsAligned l
      → IsAligned (launch_if scaler quota events l)
  unfolding launch_if
  launch_if-IsAligned namespace none quota events l e f h = h
  launch_if-IsAligned namespace (some scaler) none events l e f h = h
  launch_if-IsAligned namespace (some scaler) (some quota) events l e f h =
      (h.0, All-append IsPaired l.launched _ h.1 (same, tt))
    where
      same : quota.namespace ≡ scaler.namespace
      same =
          lookup-All IsFiledQuota namespace quota l.running.watcher.quotas f h.0.1
          ∙ sym (lookup-All IsFiledScaler namespace scaler l.running.watcher.scalers e h.0.0)

  pub update_ns-IsAligned :
      (namespace : String) (read_events : Bool) (l : Loop Q W)
      → IsAligned l
      → IsAligned (update_ns namespace read_events l)
  unfolding update_ns
  update_ns-IsAligned namespace read_events l h = launch_if-IsAligned namespace _ _ _ l refl refl h

  pub forget_events-IsAligned :
      (namespace : String) (l : Loop Q W) → IsAligned l → IsAligned (forget_events namespace l)
  unfolding forget_events
  forget_events-IsAligned namespace l h = h

  pub mark_events-IsAligned :
      (namespace : String) (l : Loop Q W) → IsAligned l → IsAligned (mark_events namespace l)
  unfolding mark_events
  mark_events-IsAligned namespace l h =
      elim (Bool-cases (str_eq namespace "" || has_key namespace l.running.watcher.events)) [
        | inl e ↦ rw e h
        | inr e ↦ rw e h
      ]

  pub after_registration-IsAligned :
      (namespace : String) (immediate : Bool) (watcher : QuotaWatcher Q) (l : Loop Q W)
      → All IsFiledScaler watcher.scalers × All IsFiledQuota watcher.quotas
      → All IsPaired l.launched
      → IsAligned (after_registration (namespace, immediate, watcher) l)
  unfolding after_registration
  after_registration-IsAligned namespace immediate watcher l h p =
      let l' : Loop Q W = record l { running = record l.running { watcher = watcher } } in
      elim (Bool-cases (not (str_eq namespace "") && immediate)) [
        | inl e ↦ rw e (
            forget_events-IsAligned namespace (update_ns namespace true l')
              (update_ns-IsAligned namespace true l' (h, p)))
        | inr e ↦ rw e (h, p)
      ]

  pub on_event-IsAligned :
      (times : EventTimes) (ev : Event) (l : Loop Q W)
      → IsAligned l
      → IsAligned (on_event times ev l)
  unfolding on_event
  on_event-IsAligned times ev l h =
      after_registration-IsAligned (register_namespaced_event times ev l.running.watcher).0
        (register_namespaced_event times ev l.running.watcher).1
        (register_namespaced_event times ev l.running.watcher).2 l
        (registration-IsFiled times ev l.running.watcher h.0) h.1

  pub on_tick-IsAligned :
      (order : List String) (l : Loop Q W) → IsAligned l → IsAligned (on_tick order l)
  unfolding on_tick
  on_tick-IsAligned [] l h = h
  on_tick-IsAligned (namespace ∷ order) l h =
      on_tick-IsAligned order (forget_events namespace (update_ns namespace true l)) (
        forget_events-IsAligned namespace (update_ns namespace true l)
          (update_ns-IsAligned namespace true l h))
