-- ===== src/Quota/Controller.antt =====
-- internal/quota/controller.go: `QuotaController.Run` and the registrations of scalers and quotas. The
-- select loop is a step relation: each step is one event, or one tick of a ticker. A goroutine that
-- `UpdateNs` starts is an entry of `launched`; its run is Quota/Update. Go ranges over a map in any
-- order, so a step that ranges takes the order. A watch event holds the object it is about; the status
-- object of a watch that failed, on which the type assertion would panic, is left out.
pub mod Filing
pub mod Alignment
pub mod Immediate
use mathlib.Core.List.{Perm}
use quotascale_controller.Prelude.{
  String, Option, none, some, Bool, true, false, ◌&&◌, ◌||◌, not, List, [], ◌∷◌, ◌++◌, map,
  if◌then◌else◌,
}
use quotascale_controller.Prelude.Int.{ℤ, pos, leb_ℤ}
use quotascale_controller.Prelude.Text.{str_eq}
use quotascale_controller.Effects.{Result, ok, err}
use quotascale_controller.Cluster.{
  Quantities, ResourceQuota, QuotaClient, Map, lookup, has_key, insert, delete,
}
use quotascale_controller.Autoscaler.{QuotaAutoscaler}
use quotascale_controller.ScalerResolver.{ScalerClient, ResolveError, resolve_resource_quota}
use quotascale_controller.Quota.PodEvents.{Event}
use quotascale_controller.Quota.Watcher.{QuotaWatcher, EventTimes, register_namespaced_event}
use quotascale_controller.Quota.Update.{Running}

-- The types of watch events that the sources tell apart.
pub data EventType : Type 0 where
  deleted added_or_modified : EventType

-- The arguments of a goroutine that `UpdateNs` starts; `none` is nil.
pub record Launch (Q : Type 0) : Type 0 where
  pub quota : ResourceQuota Q
  pub scaler : QuotaAutoscaler
  pub events : Option (List Event)

pub record Loop (Q W : Type 0) : Type 0 where
  pub running : Running Q W
  pub launched : List (Launch Q)

-- `NewQuotaController`: the interval of the checks, in nanoseconds.
unfoldable pub quota_check_interval : ℤ → ℤ
quota_check_interval interval = if leb_ℤ interval (pos 0) then pos 60000000000 else interval

-- The watcher that `Run` starts with.
unfoldable pub new_quota_watcher : {Q : Type 0} → ℤ → QuotaWatcher Q
new_quota_watcher now = record {
  scalers = [];
  quotas = [];
  events = [];
  started = some now;
  pending_scale_out = [];
}

module _ {Q W : Type 0} where
  abbrev with_watcher : QuotaWatcher Q → Loop Q W → Loop Q W
  with_watcher watcher l = record l { running = record l.running { watcher = watcher } }

  unfoldable pub set_scaler : String → QuotaAutoscaler → Running Q W → Running Q W
  set_scaler namespace scaler s = record s {
    watcher = record s.watcher { scalers = insert namespace scaler s.watcher.scalers };
  }

  unfoldable pub set_quota : String → ResourceQuota Q → Running Q W → Running Q W
  set_quota namespace quota s = record s {
    watcher = record s.watcher { quotas = insert namespace quota s.watcher.quotas };
  }

  unfoldable pub launch_if :
      Option QuotaAutoscaler → Option (ResourceQuota Q) → Option (List Event) → Loop Q W → Loop Q W
  launch_if none quota events l = l
  launch_if (some scaler) none events l = l
  launch_if (some scaler) (some quota) events l = record l {
    launched = l.launched ++ record { quota = quota; scaler = scaler; events = events } ∷ [];
  }

  -- `UpdateNs`
  unfoldable pub update_ns : String → Bool → Loop Q W → Loop Q W
  unfolding launch_if
  update_ns namespace read_events l =
      let watcher = l.running.watcher in
      launch_if (lookup namespace watcher.scalers) (lookup namespace watcher.quotas)
        (if read_events then lookup namespace watcher.events else none) l

  unfoldable pub forget_events : String → Loop Q W → Loop Q W
  forget_events namespace l =
      with_watcher (record l.running.watcher { events = delete namespace l.running.watcher.events })
        l

  -- A quota event only leaves a mark, for the ticker.
  unfoldable pub mark_events : String → Loop Q W → Loop Q W
  mark_events namespace l =
      if str_eq namespace "" || has_key namespace l.running.watcher.events
      then l
      else with_watcher
          (record l.running.watcher { events = insert namespace [] l.running.watcher.events }) l

  -- The case of an event on a pod or its owner.
  unfoldable pub after_registration : String × Bool × QuotaWatcher Q → Loop Q W → Loop Q W
  unfolding update_ns forget_events
  after_registration (namespace, immediate, watcher) l =
      if not (str_eq namespace "") && immediate
      then forget_events namespace (update_ns namespace true (with_watcher watcher l))
      else with_watcher watcher l

  unfoldable pub on_event : EventTimes → Event → Loop Q W → Loop Q W
  unfolding after_registration
  on_event times ev l = after_registration (register_namespaced_event times ev l.running.watcher) l

  -- The ticker's case, over the namespaces with events.
  unfoldable pub on_tick : List String → Loop Q W → Loop Q W
  unfolding update_ns forget_events
  on_tick [] l = l
  on_tick (namespace ∷ order) l =
      on_tick order (forget_events namespace (update_ns namespace true l))

module _ {Q W : Type 0} (q : Quantities Q) (client : Option (QuotaClient Q W))
    (scalers : Option (ScalerClient W)) where
  resolution :
      Running Q W
      → Result ResolveError (ResourceQuota Q × QuotaAutoscaler) × W
      → Result ResolveError QuotaAutoscaler × Running Q W
  unfolding set_quota
  resolution s (err e, w) = (err e, record s { world = w })
  resolution s (ok (quota, scaler), w) =
      (ok scaler, set_quota scaler.namespace quota (record s { world = w }))

  -- The method `ResolveScalerResourceQuota`; the scaler that it changes in place is its value.
  unfoldable pub resolve_scaler_resource_quota :
      QuotaAutoscaler → Running Q W → Result ResolveError QuotaAutoscaler × Running Q W
  unfolding resolution
  resolve_scaler_resource_quota scaler s =
      resolution s (resolve_resource_quota q client scalers (some scaler) s.world)

  -- What is stored last of a scaler: as it is resolved, or as it came with the event.
  registered :
      QuotaAutoscaler → Result ResolveError QuotaAutoscaler × Running Q W → String × Running Q W
  unfolding set_scaler
  registered scaler (err e, s) = (scaler.namespace, set_scaler scaler.namespace scaler s)
  registered scaler (ok resolved, s) =
      (resolved.namespace, set_scaler resolved.namespace resolved s)

  unfoldable pub register_scaler_event :
      EventType → QuotaAutoscaler → Running Q W → String × Running Q W
  unfolding registered resolve_scaler_resource_quota
  register_scaler_event deleted scaler s = (
    "",
    record s { watcher = record s.watcher { scalers = delete scaler.namespace s.watcher.scalers } },
  )
  register_scaler_event added_or_modified scaler s =
      registered scaler
        (resolve_scaler_resource_quota scaler (set_scaler scaler.namespace scaler s))

  unfoldable pub store_quota : EventType → ResourceQuota Q → Running Q W → String × Running Q W
  unfolding set_quota
  store_quota deleted quota s = (
    "",
    record s { watcher = record s.watcher { quotas = delete quota.namespace s.watcher.quotas } },
  )
  store_quota added_or_modified quota s = (quota.namespace, set_quota quota.namespace quota s)

  -- Only the quota that the namespace's scaler names is stored.
  unfoldable pub store_target :
      EventType → ResourceQuota Q → QuotaAutoscaler → Running Q W → String × Running Q W
  unfolding store_quota
  store_target t quota scaler s =
      if str_eq scaler.spec.resource_quota quota.name then store_quota t quota s else ("", s)

  -- A failure to resolve the scaler leaves it without a name.
  retried :
      EventType
      → ResourceQuota Q
      → QuotaAutoscaler
      → Result ResolveError QuotaAutoscaler × Running Q W
      → String × Running Q W
  unfolding store_target set_scaler
  retried t quota scaler (err e, s) = store_target t quota scaler s
  retried t quota scaler (ok resolved, s) =
      store_target t quota resolved (set_scaler quota.namespace resolved s)

  register_known :
      EventType → ResourceQuota Q → Option QuotaAutoscaler → Running Q W → String × Running Q W
  unfolding retried resolve_scaler_resource_quota
  register_known t quota none s = ("", s)
  register_known t quota (some scaler) s =
      if str_eq scaler.spec.resource_quota ""
      then retried t quota scaler (resolve_scaler_resource_quota scaler s)
      else store_target t quota scaler s

  unfoldable pub register_quota_event :
      EventType → ResourceQuota Q → Running Q W → String × Running Q W
  unfolding register_known
  register_quota_event t quota s =
      register_known t quota (lookup quota.namespace s.watcher.scalers) s

  unfoldable pub on_quota : EventType → ResourceQuota Q → Loop Q W → Loop Q W
  unfolding register_quota_event mark_events
  on_quota t quota l =
      let (namespace, s) = register_quota_event t quota l.running in
      mark_events namespace (record l { running = s })

  unfoldable pub on_scaler : EventType → QuotaAutoscaler → Loop Q W → Loop Q W
  unfolding register_scaler_event update_ns
  on_scaler t scaler l =
      let (namespace, s) = register_scaler_event t scaler l.running in
      let l' : Loop Q W = record l { running = s } in
      if str_eq namespace "" then l' else update_ns namespace false l'

  -- One round of `CheckQuotasPeriodically`.
  checked : String → Loop Q W → Result ResolveError QuotaAutoscaler × Running Q W → Loop Q W
  unfolding update_ns set_scaler
  checked namespace l (err e, s) = record l { running = s }
  checked namespace l (ok scaler, s) =
      update_ns namespace false (record l { running = set_scaler namespace scaler s })

  check_known : String → Option QuotaAutoscaler → Loop Q W → Loop Q W
  unfolding checked resolve_scaler_resource_quota
  check_known namespace none l = l
  check_known namespace (some scaler) l =
      checked namespace l (resolve_scaler_resource_quota scaler l.running)

  unfoldable pub check_quotas_periodically : List String → Loop Q W → Loop Q W
  unfolding check_known
  check_quotas_periodically [] l = l
  check_quotas_periodically (namespace ∷ order) l =
      check_quotas_periodically order
        (check_known namespace (lookup namespace l.running.watcher.scalers) l)

  start_scaler : QuotaAutoscaler → Result ResolveError QuotaAutoscaler × Running Q W → Running Q W
  unfolding set_scaler
  start_scaler scaler (err e, s) = set_scaler scaler.namespace scaler s
  start_scaler scaler (ok resolved, s) = set_scaler resolved.namespace resolved s

  -- The loop over the scalers that are there at the start.
  unfoldable pub start_scalers : List QuotaAutoscaler → Running Q W → Running Q W
  unfolding start_scaler resolve_scaler_resource_quota
  start_scalers [] s = s
  start_scalers (scaler ∷ rest) s =
      start_scalers rest (start_scaler scaler (resolve_scaler_resource_quota scaler s))

  -- One round of the select loop. In between, updates that run and the cluster change the set of
  -- pending scale-outs and the world.
  pub data Step : Loop Q W → Loop Q W → Type 0 where
    quota_event :
        {l : Loop Q W} (t : EventType) (quota : ResourceQuota Q) → Step l (on_quota t quota l)
    scaler_event :
        {l : Loop Q W} (t : EventType) (scaler : QuotaAutoscaler) → Step l (on_scaler t scaler l)
    pod_event : {l : Loop Q W} (times : EventTimes) (ev : Event) → Step l (on_event times ev l)
    tick :
        {l : Loop Q W} (order : List String)
        → Perm order (map (λ e. e.0) l.running.watcher.events)
        → Step l (on_tick order l)
    check :
        {l : Loop Q W} (order : List String)
        → Perm order (map (λ e. e.0) l.running.watcher.scalers)
        → Step l (check_quotas_periodically order l)
    meanwhile :
        {l : Loop Q W} (pending : List String) (world : W)
        → Step l (record l {
          running = record {
            watcher = record l.running.watcher { pending_scale_out = pending };
            world = world;
          };
        })

  pub data Reachable (now : ℤ) (start : List QuotaAutoscaler) (world : W) : Loop Q W → Type 0 where
    started : Reachable now start world (record {
      running = start_scalers start (record { watcher = new_quota_watcher now; world = world });
      launched = [];
    })
    step :
        {l l' : Loop Q W} → Reachable now start world l → Step l l' → Reachable now start world l'
