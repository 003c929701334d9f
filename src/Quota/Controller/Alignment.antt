-- ===== src/Quota/Controller/Alignment.antt =====
-- The watcher files each object under its own namespace, so that an update never takes the quota of
-- one namespace and the scaler of another.
use quotascale_controller.Prelude.{
  String, Option, none, some, false, ◌≡◌, refl, sym, ◌∙◌, List, [], ◌∷◌, All, Bool-cases, inl, inr,
}
use quotascale_controller.Prelude.Int.{ℤ}
use quotascale_controller.Prelude.Text.{str_eq}
use quotascale_controller.Effects.{Result, ok, err}
use quotascale_controller.Cluster.{Quantities, ResourceQuota, QuotaClient, lookup}
use quotascale_controller.Cluster.Maps.{All-delete, lookup-All}
use quotascale_controller.Autoscaler.{QuotaAutoscaler}
use quotascale_controller.ScalerResolver.{
  ScalerClient, ResolveError, resolve_resource_quota, resolve_with,
}
use quotascale_controller.ScalerResolver.Namespaces.{KeepsNamespaces, resolve_with-IsLocal}
use quotascale_controller.Quota.Update.{Running}
use quotascale_controller.Quota.Controller.{
  EventType, deleted, added_or_modified, Loop, Step, quota_event, scaler_event, pod_event, tick,
  check, meanwhile, Reachable, started, step, new_quota_watcher, set_scaler, resolution,
  resolve_scaler_resource_quota, registered, register_scaler_event, store_quota, store_target,
  retried, register_known, register_quota_event, on_quota, on_scaler, checked, check_known,
  check_quotas_periodically, start_scaler, start_scalers,
}
use quotascale_controller.Quota.Controller.Filing.{
  IsFiledScaler, IsFiledQuota, IsPaired, IsFiled, IsAligned, set_scaler-IsFiled, set_quota-IsFiled,
  update_ns-IsAligned, mark_events-IsAligned, on_event-IsAligned, on_tick-IsAligned,
}

module _ {Q W : Type 0} (q : Quantities Q) (client : QuotaClient Q W) (scalers : ScalerClient W)
    (keeps : KeepsNamespaces client scalers) where
  -- What a resolution leaves: a filed state, and a scaler of the same namespace where it succeeds.
  abbrev IsResolved : QuotaAutoscaler → Result ResolveError QuotaAutoscaler × Running Q W → Type 0
  IsResolved scaler (ok resolved, s) = (resolved.namespace ≡ scaler.namespace) × IsFiled s
  IsResolved scaler (err e, s) = IsFiled s

  resolution-IsResolved :
      (scaler : QuotaAutoscaler) (s : Running Q W)
      (r : Result ResolveError (ResourceQuota Q × QuotaAutoscaler)) (w : W)
      → (resolve_with q client scaler (some scalers) s.world).0 ≡ r
      → IsFiled s
      → IsResolved scaler (resolution q (some client) (some scalers) s (r, w))
  unfolding resolution
  resolution-IsResolved scaler s (err e) w h f = f
  resolution-IsResolved scaler s (ok (quota, resolved)) w h f =
      let same = resolve_with-IsLocal q client scalers keeps scaler s.world (quota, resolved) h in
      (
        same.1,
        set_quota-IsFiled resolved.namespace quota (record s { world = w }) (same.0 ∙ sym same.1) f,
      )

  resolve-IsResolved :
      (scaler : QuotaAutoscaler) (s : Running Q W)
      → IsFiled s
      → IsResolved scaler (resolve_scaler_resource_quota q (some client) (some scalers) scaler s)
  unfolding resolve_scaler_resource_quota resolve_resource_quota
  resolve-IsResolved scaler s f = resolution-IsResolved scaler s _ _ refl f

  registered-IsFiled :
      (scaler : QuotaAutoscaler) (r : Result ResolveError QuotaAutoscaler) (s : Running Q W)
      → IsResolved scaler (r, s)
      → IsFiled (registered q (some client) (some scalers) scaler (r, s)).1
  unfolding registered
  registered-IsFiled scaler (err e) s f = set_scaler-IsFiled scaler.namespace scaler s refl f
  registered-IsFiled scaler (ok resolved) s f =
      set_scaler-IsFiled resolved.namespace resolved s refl f.1

  register_scaler_event-IsFiled :
      (t : EventType) (scaler : QuotaAutoscaler) (s : Running Q W)
      → IsFiled s
      → IsFiled (register_scaler_event q (some client) (some scalers) t scaler s).1
  unfolding register_scaler_event
  register_scaler_event-IsFiled deleted scaler s f =
      (All-delete IsFiledScaler scaler.namespace s.watcher.scalers f.0, f.1)
  register_scaler_event-IsFiled added_or_modified scaler s f = registered-IsFiled scaler _ _ (
      resolve-IsResolved scaler (set_scaler scaler.namespace scaler s)
        (set_scaler-IsFiled scaler.namespace scaler s refl f))

  store_quota-IsFiled :
      (t : EventType) (quota : ResourceQuota Q) (s : Running Q W)
      → IsFiled s
      → IsFiled (store_quota q (some client) (some scalers) t quota s).1
  unfolding store_quota
  store_quota-IsFiled deleted quota s f =
      (f.0, All-delete IsFiledQuota quota.namespace s.watcher.quotas f.1)
  store_quota-IsFiled added_or_modified quota s f = set_quota-IsFiled quota.namespace quota s refl f

  store_target-IsFiled :
      (t : EventType) (quota : ResourceQuota Q) (scaler : QuotaAutoscaler) (s : Running Q W)
      → IsFiled s
      → IsFiled (store_target q (some client) (some scalers) t quota scaler s).1
  unfolding store_target
  store_target-IsFiled t quota scaler s f =
      elim (Bool-cases (str_eq scaler.spec.resource_quota quota.name)) [
        | inr e ↦ rw e f
        | inl e ↦ rw e (store_quota-IsFiled t quota s f)
      ]

  retried-IsFiled :
      (t : EventType) (quota : ResourceQuota Q) (scaler : QuotaAutoscaler)
      (r : Result ResolveError QuotaAutoscaler) (s : Running Q W)
      → scaler.namespace ≡ quota.namespace
      → IsResolved scaler (r, s)
      → IsFiled (retried q (some client) (some scalers) t quota scaler (r, s)).1
  unfolding retried
  retried-IsFiled t quota scaler (err e) s n f = store_target-IsFiled t quota scaler s f
  retried-IsFiled t quota scaler (ok resolved) s n f =
      store_target-IsFiled t quota resolved (set_scaler quota.namespace resolved s)
        (set_scaler-IsFiled quota.namespace resolved s (f.0 ∙ n) f.1)

  register_known-IsFiled :
      (t : EventType) (quota : ResourceQuota Q) (o : Option QuotaAutoscaler) (s : Running Q W)
      → lookup quota.namespace s.watcher.scalers ≡ o
      → IsFiled s
      → IsFiled (register_known q (some client) (some scalers) t quota o s).1
  unfolding register_known
  register_known-IsFiled t quota none s h f = f
  register_known-IsFiled t quota (some scaler) s h f =
      elim (Bool-cases (str_eq scaler.spec.resource_quota "")) [
        | inr e ↦ rw e (store_target-IsFiled t quota scaler s f)
        | inl e ↦ rw e (
            retried-IsFiled t quota scaler _ _
              (lookup-All IsFiledScaler quota.namespace scaler s.watcher.scalers h f.0)
              (resolve-IsResolved scaler s f))
      ]

  on_quota-IsAligned :
      (t : EventType) (quota : ResourceQuota Q) (l : Loop Q W)
      → IsAligned l
      → IsAligned (on_quota q (some client) (some scalers) t quota l)
  unfolding on_quota register_quota_event
  on_quota-IsAligned t quota l h =
      mark_events-IsAligned
        (register_quota_event q (some client) (some scalers) t quota l.running).0
        (record l {
          running = (register_quota_event q (some client) (some scalers) t quota l.running).1;
        })
        (register_known-IsFiled t quota _ l.running refl h.0, h.1)

  on_scaler-IsAligned :
      (t : EventType) (scaler : QuotaAutoscaler) (l : Loop Q W)
      → IsAligned l
      → IsAligned (on_scaler q (some client) (some scalers) t scaler l)
  unfolding on_scaler
  on_scaler-IsAligned t scaler l h =
      elim (Bool-cases
        (str_eq (register_scaler_event q (some client) (some scalers) t scaler l.running).0 "")) [
          | inl e ↦ rw e (filed, h.1)
          | inr e ↦ rw e (
              update_ns-IsAligned _ false
                (record l {
                  running =
                      (register_scaler_event q (some client) (some scalers) t scaler l.running).1;
                })
                (filed, h.1))
        ]
    where
      filed : IsFiled (register_scaler_event q (some client) (some scalers) t scaler l.running).1
      filed = register_scaler_event-IsFiled t scaler l.running h.0

  checked-IsAligned :
      (namespace : String) (scaler : QuotaAutoscaler) (l : Loop Q W)
      (r : Result ResolveError QuotaAutoscaler) (s : Running Q W)
      → scaler.namespace ≡ namespace
      → IsResolved scaler (r, s)
      → All IsPaired l.launched
      → IsAligned (checked q (some client) (some scalers) namespace l (r, s))
  unfolding checked
  checked-IsAligned namespace scaler l (err e) s n f p = (f, p)
  checked-IsAligned namespace scaler l (ok resolved) s n f p =
      update_ns-IsAligned namespace false (record l { running = set_scaler namespace resolved s })
        (set_scaler-IsFiled namespace resolved s (f.0 ∙ n) f.1, p)

  check_known-IsAligned :
      (namespace : String) (o : Option QuotaAutoscaler) (l : Loop Q W)
      → lookup namespace l.running.watcher.scalers ≡ o
      → IsAligned l
      → IsAligned (check_known q (some client) (some scalers) namespace o l)
  unfolding check_known
  check_known-IsAligned namespace none l e h = h
  check_known-IsAligned namespace (some scaler) l e h =
      checked-IsAligned namespace scaler l _ _
        (lookup-All IsFiledScaler namespace scaler l.running.watcher.scalers e h.0.0)
        (resolve-IsResolved scaler l.running h.0) h.1

  check_quotas_periodically-IsAligned :
      (order : List String) (l : Loop Q W)
      → IsAligned l
      → IsAligned (check_quotas_periodically q (some client) (some scalers) order l)
  unfolding check_quotas_periodically
  check_quotas_periodically-IsAligned [] l h = h
  check_quotas_periodically-IsAligned (namespace ∷ order) l h =
      check_quotas_periodically-IsAligned order
        (check_known q (some client) (some scalers) namespace
          (lookup namespace l.running.watcher.scalers) l)
        (check_known-IsAligned namespace _ l refl h)

  start_scaler-IsFiled :
      (scaler : QuotaAutoscaler) (r : Result ResolveError QuotaAutoscaler) (s : Running Q W)
      → IsResolved scaler (r, s)
      → IsFiled (start_scaler q (some client) (some scalers) scaler (r, s))
  unfolding start_scaler
  start_scaler-IsFiled scaler (err e) s f = set_scaler-IsFiled scaler.namespace scaler s refl f
  start_scaler-IsFiled scaler (ok resolved) s f =
      set_scaler-IsFiled resolved.namespace resolved s refl f.1

  start_scalers-IsFiled :
      (start : List QuotaAutoscaler) (s : Running Q W)
      → IsFiled s
      → IsFiled (start_scalers q (some client) (some scalers) start s)
  unfolding start_scalers
  start_scalers-IsFiled [] s f = f
  start_scalers-IsFiled (scaler ∷ rest) s f =
      start_scalers-IsFiled rest _ (start_scaler-IsFiled scaler _ _ (resolve-IsResolved scaler s f))

  Step-IsAligned :
      {l l' : Loop Q W} → Step q (some client) (some scalers) l l' → IsAligned l → IsAligned l'
  Step-IsAligned (quota_event {l} t quota) h = on_quota-IsAligned t quota l h
  Step-IsAligned (scaler_event {l} t scaler) h = on_scaler-IsAligned t scaler l h
  Step-IsAligned (pod_event {l} times ev) h = on_event-IsAligned times ev l h
  Step-IsAligned (tick {l} order p) h = on_tick-IsAligned order l h
  Step-IsAligned (check {l} order p) h = check_quotas_periodically-IsAligned order l h
  Step-IsAligned (meanwhile pending world) h = h

  -- Where a call on a namespace gives back objects of that namespace, and whatever events arrive in
  -- whatever order: each scaler and each quota stands under its own namespace, and an update is only
  -- ever started for a quota and a scaler of one namespace.
  pub Reachable-IsAligned :
      (now : ℤ) (start : List QuotaAutoscaler) (world : W) (l : Loop Q W)
      → Reachable q (some client) (some scalers) now start world l
      → IsAligned l
  unfolding new_quota_watcher
  Reachable-IsAligned now start world l started = (start_scalers-IsFiled start _ (tt, tt), tt)
  Reachable-IsAligned now start world l (step {l = before} r s) =
      Step-IsAligned s (Reachable-IsAligned now start world before r)
