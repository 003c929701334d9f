-- ===== src/Quota/Update/Outcome.antt =====
-- What one run of `UpdateQuotaIfRequired` may end with.
use quotascale_controller.Prelude.{
  String, Option, none, some, true, false, ◌≡◌, refl, ap, arith, ◌⊎◌, inl, inr, any, Bool-cases,
}
use quotascale_controller.Prelude.Int.{ℤ, ◌+ℤ◌}
use quotascale_controller.Prelude.Text.{str_eq}
use quotascale_controller.Effects.{Result, ok, err, Eff}
use quotascale_controller.Failure as NodeScaling
use quotascale_controller.Cluster.{Quantities, ResourceQuota}
use quotascale_controller.Resources.{Resources, differs_from}
use quotascale_controller.NodeScaling.{ScaleOutRequest}
use quotascale_controller.Resize.{NamespaceResizeEvent}
use quotascale_controller.Quota.Failure.{
  QuotaError, scale_out, scale_out_pending, scale_out_requested,
}
use quotascale_controller.Quota.Capacity.{ensure_pod_demand_fits_cluster}
use quotascale_controller.Quota.Watcher.Pending.{cleared}
use quotascale_controller.Quota.Update.{
  Running, Surroundings, begin_scale_out, clear_scale_out, poll_timeout, wait_for_worker_capacity,
  after_wait, after_request, request_scale_out, settled, resolve_shortage, resolve_capacity,
  decide_resize,
}
use quotascale_controller.Quota.Update.Polling.{Ended, Sleeps, wait_for_worker_capacity-Ended}

module _ {Q W : Type 0} (q : Quantities Q) (around : Surroundings Q W) where
  abbrev pub Fits : Resources → Running Q W → Type 0
  Fits demand s = ensure_pod_demand_fits_cluster q around.client demand s.world ≡ ok tt

  abbrev pub Free : String → Running Q W → Type 0
  Free namespace s = any (str_eq namespace) s.watcher.pending_scale_out ≡ false

  -- A scale-out that was waited for with success leaves room for the pods and the namespace free;
  -- one that could not be requested leaves the namespace free.
  pub data Waited (demand : Resources) (namespace : String)
      (x : Result QuotaError (Unit {0}) × Running Q W) : Type 0 where
    came_through : x.0 ≡ ok tt → Fits demand x.1 → Free namespace x.1 → Waited demand namespace x
    failed : (e : QuotaError) → x.0 ≡ err e → Waited demand namespace x

  module _ (sleeps : Sleeps around) (namespace : String) (named : str_eq namespace "" ≡ false)
      (demand : Resources) where
    pub Free-clear_scale_out : (s : Running Q W) → Free namespace (clear_scale_out namespace s)
    unfolding clear_scale_out
    Free-clear_scale_out s = cleared s.watcher namespace named

    Fits-clear_scale_out :
        (s : Running Q W) → Fits demand s → Fits demand (clear_scale_out namespace s)
    unfolding clear_scale_out
    Fits-clear_scale_out s h = h

    after_wait-Waited :
        (deadline : ℤ) (r : Result QuotaError (Unit {0})) (s : Running Q W)
        → Ended q around demand deadline (r, s)
        → Waited demand namespace (after_wait q around namespace (r, s))
    unfolding after_wait
    after_wait-Waited deadline (ok _) s (inl h) =
        came_through refl (Fits-clear_scale_out s h.1) (Free-clear_scale_out s)
    after_wait-Waited deadline (ok _) s (inr (e, h, fits, late)) = cc h
    after_wait-Waited deadline (err e) s h = failed (scale_out_requested e) refl

    after_request-Waited :
        (s : Running Q W) (r : Result NodeScaling.Error (Unit {0})) (w : W)
        → Waited demand namespace (after_request q around namespace demand s (r, w))
    unfolding after_request
    after_request-Waited s (ok _) w =
        after_wait-Waited (around.now w +ℤ poll_timeout around)
          (wait_for_worker_capacity q around demand (record s { world = w })).0
          (wait_for_worker_capacity q around demand (record s { world = w })).1
          (wait_for_worker_capacity-Ended q around demand (record s { world = w }) sleeps)
    after_request-Waited s (err e) w = failed (scale_out e) refl

  request_scale_out-Waited :
      Sleeps around
      → (handle : ScaleOutRequest → Eff NodeScaling.Error W (Unit {0})) (request : ScaleOutRequest)
        (demand : Resources) (e : QuotaError) (s : Running Q W)
      → str_eq request.namespace "" ≡ false
      → Waited demand request.namespace (request_scale_out q around handle request demand e s)
  unfolding request_scale_out
  request_scale_out-Waited sleeps handle request demand e s named =
      elim (Bool-cases (begin_scale_out request.namespace s).0) [
        | inr b ↦ rw b (failed (scale_out_pending e) refl)
        | inl b ↦ rw b (
            after_request-Waited sleeps request.namespace named demand
              (begin_scale_out request.namespace s).1
              (handle request (begin_scale_out request.namespace s).1.world).0
              (handle request (begin_scale_out request.namespace s).1.world).1)
      ]

  -- How the question of capacity is resolved.
  pub data Resolved (demand : Resources) (namespace : String) (s : Running Q W)
      (x : Result QuotaError (Option QuotaError) × Running Q W) : Type 0 where
    fitting : x ≡ (ok none, s) → Fits demand s → Resolved demand namespace s x
    unhandled : (e : QuotaError) → x ≡ (ok (some e), s) → Resolved demand namespace s x
    expanded : x.0 ≡ ok none → Fits demand x.1 → Free namespace x.1 → Resolved demand namespace s x
    broken : (e : QuotaError) → x.0 ≡ err e → Resolved demand namespace s x

  resolve_shortage-Resolved :
      Sleeps around
      → (request : ScaleOutRequest) (demand : Resources) (e : QuotaError)
        (o : Option (ScaleOutRequest → Eff NodeScaling.Error W (Unit {0}))) (s : Running Q W)
      → str_eq request.namespace "" ≡ false
      → Resolved demand request.namespace s (resolve_shortage q around request demand e o s)
  unfolding resolve_shortage
  resolve_shortage-Resolved sleeps request demand e none s named = unhandled e refl
  resolve_shortage-Resolved sleeps request demand e (some handle) s named = waited (
      request_scale_out-Waited sleeps handle (record request { reason = around.message e }) demand e
        s named)
    where
      waited :
          {x : Result QuotaError (Unit {0}) × Running Q W}
          → Waited demand request.namespace x
          → Resolved demand request.namespace s (settled x.0, x.1)
      waited (came_through h fits free) = expanded (ap (settled) h) fits free
      waited (failed e' h) = broken e' (ap (settled) h)

  pub resolve_capacity-Resolved :
      Sleeps around
      → (request : ScaleOutRequest) (demand : Resources) (r : Result QuotaError (Unit {0}))
        (s : Running Q W)
      → str_eq request.namespace "" ≡ false
      → ensure_pod_demand_fits_cluster q around.client demand s.world ≡ r
      → Resolved demand request.namespace s (resolve_capacity q around request demand r s)
  unfolding resolve_capacity
  resolve_capacity-Resolved sleeps request demand (ok _) s named h = fitting refl h
  resolve_capacity-Resolved sleeps request demand (err e) s named h =
      resolve_shortage-Resolved sleeps request demand e around.scale_out_request_handler s named

-- A resize is sent only where nothing stands against it and the quota is to change.
module _ {Q : Type 0} (q : Quantities Q) (quota : ResourceQuota Q)
    (event : NamespaceResizeEvent) where
  pub decide_resize-some :
      (r : Result QuotaError (Option QuotaError)) (sent : NamespaceResizeEvent)
      → decide_resize q quota event r ≡ ok (some sent)
      → (r ≡ ok none) × (differs_from q event.new quota ≡ true) × (event ≡ sent)
  unfolding decide_resize
  decide_resize-some (err e) sent h = cc h
  decide_resize-some (ok none) sent h = ground arith
  decide_resize-some (ok (some e)) sent h = ground arith

  pub decide_resize-ok :
      (r : Result QuotaError (Option QuotaError)) (sent : Option NamespaceResizeEvent)
      → decide_resize q quota event r ≡ ok sent
      → (r ≡ ok none) ⊎ (differs_from q event.new quota ≡ false)
  unfolding decide_resize
  decide_resize-ok (err e) sent h = cc h
  decide_resize-ok (ok none) sent h = inl refl
  decide_resize-ok (ok (some e)) sent h = ground arith
