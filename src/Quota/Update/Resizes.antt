-- ===== src/Quota/Update/Resizes.antt =====
-- When `UpdateQuotaIfRequired` sends a resize, and when its namespace is free for a new scale-out.
use quotascale_controller.Prelude.{
  Option, none, some, true, false, not, ◌≡◌, refl, sym, ap, arith, ◌⊎◌, inl, inr, List, Bool,
  Bool-cases, any, if◌then◌else◌,
}
use quotascale_controller.Prelude.Text.{str_eq}
use quotascale_controller.Effects.{Result, ok, err}
use quotascale_controller.Cluster.{Quantities, ResourceList, ResourceQuota}
use quotascale_controller.Autoscaler.{QuotaAutoscaler}
use quotascale_controller.Resources.{Resources, empty, is_empty, differs_from}
use quotascale_controller.Resize.{NamespaceResizeEvent}
use quotascale_controller.Quota.Failure.{QuotaError}
use quotascale_controller.Quota.Capacity.{ensure_pod_demand_fits_cluster}
use quotascale_controller.Quota.PodEvents.{Event}
use quotascale_controller.Quota.Desired.{desired_resources, demand_of, pending_pod_requests}
use quotascale_controller.Quota.Watcher.{namespace_needs_scale_out}
use quotascale_controller.Quota.Update.{
  Running, Surroundings, clear_scale_out, resolve_capacity, decide_resize, resize_event,
  scale_out_request, update_with_demand, update_if_known, update_body, release_pending,
  update_quota_if_required,
}
use quotascale_controller.Quota.Update.Polling.{Sleeps}
use quotascale_controller.Quota.Update.Outcome.{
  Fits, Free, Free-clear_scale_out, Resolved, fitting, unhandled, expanded, broken,
  resolve_capacity-Resolved, decide_resize-some, decide_resize-ok,
}

either_false : (b : Bool) → (if b then false else false) ≡ false
either_false b = ground arith

module _ {Q W : Type 0} (q : Quantities Q) (around : Surroundings Q W) (sleeps : Sleeps around)
    (quota : ResourceQuota Q) (scaler : QuotaAutoscaler) (events : Option (List Event))
    (named : str_eq quota.namespace "" ≡ false) where
  -- The demand that is read when the update starts.
  abbrev demand_at : Running Q W → Option (Resources × Resources)
  demand_at s = demand_of q around.template s.world events

  resolved :
      (demand : Option (Resources × Resources)) (s : Running Q W)
      → Resolved q around (pending_pod_requests q demand) quota.namespace s (
          resolve_capacity q around
            (scale_out_request q around quota scaler events demand)
            (pending_pod_requests q demand)
            (ensure_pod_demand_fits_cluster q around.client (pending_pod_requests q demand) s.world)
            s)
  unfolding scale_out_request
  resolved demand s =
      resolve_capacity-Resolved q around sleeps
        (scale_out_request q around quota scaler events demand) (pending_pod_requests q demand) _ s
        named refl

  -- Room for the pods, whichever way it came about.
  Resolved-Fits :
      (pods : Resources) (s : Running Q W) (x : Result QuotaError (Option QuotaError) × Running Q W)
      → Resolved q around pods quota.namespace s x
      → x.0 ≡ ok none
      → Fits q around pods x.1
  Resolved-Fits pods s x (fitting h fits) e = rw h fits
  Resolved-Fits pods s x (unhandled e' h) e = cc (ap (λ y. y.0) h)
  Resolved-Fits pods s x (expanded h fits free) e = fits
  Resolved-Fits pods s x (broken e' h) e = cc h

  with_demand_resizes :
      (demand : Option (Resources × Resources)) (s : Running Q W) (event : NamespaceResizeEvent)
      → (update_with_demand q around quota scaler events demand s).0 ≡ ok (some event)
      → (event ≡ resize_event q around quota scaler events demand)
        × (differs_from q event.new quota ≡ true)
        × Fits q around
            (pending_pod_requests q demand)
            (update_with_demand q around quota scaler events demand s).1
  unfolding update_with_demand
  with_demand_resizes demand s event h =
      (sym sent.2, rw (← sent.2) sent.1, Resolved-Fits _ s _ (resolved demand s) sent.0)
    where
      sent :
          ((resolve_capacity q around
              (scale_out_request q around quota scaler events demand)
              (pending_pod_requests q demand)
              (ensure_pod_demand_fits_cluster q around.client
                (pending_pod_requests q demand)
                s.world)
              s).0
            ≡ ok none)
          × (differs_from q (resize_event q around quota scaler events demand).new quota ≡ true)
          × (resize_event q around quota scaler events demand ≡ event)
      sent = decide_resize-some q quota (resize_event q around quota scaler events demand) _ event h

  body_resizes :
      (used hard : Option (ResourceList Q)) (s : Running Q W) (event : NamespaceResizeEvent)
      → (update_if_known q around quota scaler events used hard s).0 ≡ ok (some event)
      → (event ≡ resize_event q around quota scaler events (demand_at s))
        × (differs_from q event.new quota ≡ true)
        × Fits q around
            (pending_pod_requests q (demand_at s))
            (update_if_known q around quota scaler events used hard s).1
  unfolding update_if_known
  body_resizes none hard s event h = cc h
  body_resizes (some used) none s event h = cc h
  body_resizes (some used) (some hard) s event h = with_demand_resizes (demand_at s) s event h

  release_pending-world :
      (s : Running Q W) → (release_pending q around quota scaler events s).world ≡ s.world
  unfolding release_pending clear_scale_out
  release_pending-world s = ground arith

  -- For a namespace with a name, where a sleep takes its time at least: a resize is sent only if the
  -- quota is to change, and only when the pods that wait for it have room on the workers as the update
  -- ends; it asks for the desired quota of the demand that was read at the start, and overtakes
  -- periodic ones exactly if pods wait for it.
  pub update_quota_if_required_resizes :
      (s : Running Q W) (event : NamespaceResizeEvent)
      → (update_quota_if_required q around quota scaler events s).0 ≡ ok (some event)
      → (differs_from q event.new quota ≡ true)
        × (ensure_pod_demand_fits_cluster q around.client
              (pending_pod_requests q (demand_at s))
              (update_quota_if_required q around quota scaler events s).1.world
            ≡ ok tt)
        × (event.new ≡ desired_resources q quota scaler (demand_at s))
        × (event.immediate ≡ not (is_empty (pending_pod_requests q (demand_at s))))
        × (event.namespace ≡ quota.namespace)
        × (event.resource_quota ≡ scaler.spec.resource_quota)
  unfolding update_quota_if_required update_body resize_event
  update_quota_if_required_resizes s event h = (
    body.1,
    rw (release_pending-world _) body.2,
    ap (λ e. e.new) body.0,
    ap (λ e. e.immediate) body.0,
    ap (λ e. e.namespace) body.0,
    ap (λ e. e.resource_quota) body.0,
  )
    where
      body :
          (event ≡ resize_event q around quota scaler events (demand_at s))
          × (differs_from q event.new quota ≡ true)
          × Fits q around
              (pending_pod_requests q (demand_at s))
              (update_body q around quota scaler events s).1
      body = body_resizes quota.status_used quota.status_hard s event h

  -- What clears the namespace in the end.
  release_pending-kept :
      (s : Running Q W)
      → Free q around quota.namespace s
      → Free q around quota.namespace (release_pending q around quota scaler events s)
  unfolding release_pending
  release_pending-kept s h =
      elim (Bool-cases
        (namespace_needs_scale_out q around.client around.template quota scaler events s.world)) [
          | inl e ↦ rw e h
          | inr e ↦ rw e (Free-clear_scale_out q around sleeps quota.namespace named empty s)
        ]

  release_pending-cleared :
      (s : Running Q W)
      → namespace_needs_scale_out q around.client around.template quota scaler events s.world
        ≡ false
      → Free q around quota.namespace (release_pending q around quota scaler events s)
  unfolding release_pending
  release_pending-cleared s e =
      rw e (Free-clear_scale_out q around sleeps quota.namespace named empty s)

  no_need_with_room :
      (s : Running Q W)
      → Fits q around (pending_pod_requests q (demand_at s)) s
      → namespace_needs_scale_out q around.client around.template quota scaler events s.world
        ≡ false
  unfolding namespace_needs_scale_out
  no_need_with_room s h = rw h (either_false _)

  no_need_unchanged :
      (s : Running Q W)
      → differs_from q (desired_resources q quota scaler (demand_at s)) quota ≡ false
      → namespace_needs_scale_out q around.client around.template quota scaler events s.world
        ≡ false
  unfolding namespace_needs_scale_out
  no_need_unchanged s h = rw h refl

  -- What is left pending before the deferred call is released by it, if the update ends well.
  with_demand_frees :
      (s : Running Q W)
      → (x : Result QuotaError (Option QuotaError) × Running Q W)
      → Resolved q around (pending_pod_requests q (demand_at s)) quota.namespace s x
      → (x.0 ≡ ok none)
        ⊎ (differs_from q (desired_resources q quota scaler (demand_at s)) quota ≡ false)
      → (y : Option QuotaError) → x.0 ≡ ok y
      → Free q around quota.namespace (release_pending q around quota scaler events x.1)
  with_demand_frees s x (fitting h fits) d y e =
      rw h (release_pending-cleared s (no_need_with_room s fits))
  with_demand_frees s x (unhandled e' h) (inl d) y e = cc (ap (λ z. z.0) h)
  with_demand_frees s x (unhandled e' h) (inr d) y e =
      rw h (release_pending-cleared s (no_need_unchanged s d))
  with_demand_frees s x (expanded h fits free) d y e = release_pending-kept x.1 free
  with_demand_frees s x (broken e' h) d y e = cc

  settled_ok :
      (event : NamespaceResizeEvent) (r : Result QuotaError (Option QuotaError))
      (sent : Option NamespaceResizeEvent)
      → decide_resize q quota event r ≡ ok sent
      → (y : Option QuotaError) × (r ≡ ok y)
  unfolding decide_resize
  settled_ok event (ok y) sent h = (y, refl)
  settled_ok event (err e) sent h = absurd (cc h)

  body_frees :
      (used hard : Option (ResourceList Q)) (s : Running Q W) (sent : Option NamespaceResizeEvent)
      → (update_if_known q around quota scaler events used hard s).0 ≡ ok sent
      → Free q around quota.namespace (
          release_pending q around quota scaler events
            (update_if_known q around quota scaler events used hard s).1)
  unfolding update_if_known update_with_demand resize_event
  body_frees none hard s sent h = cc h
  body_frees (some used) none s sent h = cc h
  body_frees (some used) (some hard) s sent h =
      let y = settled_ok (resize_event q around quota scaler events (demand_at s)) _ sent h in
      with_demand_frees s _ (resolved (demand_at s) s)
        (decide_resize-ok q quota (resize_event q around quota scaler events (demand_at s)) _ sent
          h)
        y.0 y.1

  -- For a namespace with a name, where a sleep takes its time at least: an update that ends without an
  -- error, whether it sends a resize or finds nothing to change, leaves the namespace free for a new
  -- scale-out request.
  pub update_quota_if_required_frees :
      (s : Running Q W) (sent : Option NamespaceResizeEvent)
      → (update_quota_if_required q around quota scaler events s).0 ≡ ok sent
      → any
          (str_eq quota.namespace)
          (update_quota_if_required q around quota scaler events s).1.watcher.pending_scale_out
        ≡ false
  unfolding update_quota_if_required update_body
  update_quota_if_required_frees s sent h = body_frees quota.status_used quota.status_hard s sent h
