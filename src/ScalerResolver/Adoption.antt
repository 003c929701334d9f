-- ===== src/ScalerResolver/Adoption.antt =====
-- Which quota a scaler gets.
pub mod Again
use quotascale_controller.Prelude.{
  String, Option, none, some, true, ◌≡◌, refl, sym, ap, subst, ◌∙◌, ◌⊎◌, inl, inr, Bool-cases,
}
use quotascale_controller.Prelude.Text.{str_eq}
use quotascale_controller.Effects.{Result, ok, err, ok_inj}
use quotascale_controller.Failure.{ApiError, already_exists, not_found, other}
use quotascale_controller.Cluster.{Quantities, ResourceQuota, QuotaClient}
use quotascale_controller.Autoscaler.{QuotaAutoscaler}
use quotascale_controller.ScalerResolver.{
  ScalerClient, ResolveError, default_resource_quota_name, is_controlled_by_scaler, managed_quota,
  with_quota_name, adopt, after_create, create_or_adopt, persist_result, persist, after_resolved,
  resolve_parsed, resolve_managed, named_result, resolve_with,
}

module _ {Q W : Type 0} (q : Quantities Q) (client : QuotaClient Q W) where
  adopt-controlled :
      (scaler : QuotaAutoscaler) (r : Result ApiError (ResourceQuota Q)) (quota : ResourceQuota Q)
      → adopt q client scaler r ≡ ok quota
      → (r ≡ ok quota) × (is_controlled_by_scaler quota scaler ≡ true)
  unfolding adopt
  adopt-controlled scaler (err e) quota h = cc h
  adopt-controlled scaler (ok x) quota h = elim (Bool-cases (is_controlled_by_scaler x scaler)) [
    | inl e ↦ let same : x ≡ quota = ok_inj (rw e at h) in (ap (λ y. ok y) same, rw (← same) e)
    | inr e ↦ cc (rw e at h)
  ]

  -- A quota that was created, or one that was found and is the scaler's own.
  abbrev IsOwn : QuotaAutoscaler → Result ApiError (ResourceQuota Q) × W → ResourceQuota Q → Type 0
  IsOwn scaler (r, w) quota =
      (r ≡ ok quota)
      ⊎ ((r ≡ err already_exists)
          × (client.get_quota scaler.namespace default_resource_quota_name w ≡ ok quota)
          × (is_controlled_by_scaler quota scaler ≡ true))

  after_create-IsOwn :
      (scaler : QuotaAutoscaler) (r : Result ApiError (ResourceQuota Q)) (w : W)
      (quota : ResourceQuota Q)
      → (after_create q client scaler (r, w)).0 ≡ ok quota
      → IsOwn scaler (r, w) quota
  unfolding after_create
  after_create-IsOwn scaler (ok x) w quota h = inl (ap (λ y. ok y) (ok_inj h))
  after_create-IsOwn scaler (err already_exists) w quota h =
      let a = adopt-controlled scaler _ quota h in inr (refl, a.0, a.1)
  after_create-IsOwn scaler (err not_found) w quota h = cc h
  after_create-IsOwn scaler (err (other t)) w quota h = cc h

  after_create-world :
      (scaler : QuotaAutoscaler) (r : Result ApiError (ResourceQuota Q)) (w : W)
      → (after_create q client scaler (r, w)).1 ≡ w
  unfolding after_create
  after_create-world scaler (ok x) w = refl
  after_create-world scaler (err already_exists) w = refl
  after_create-world scaler (err not_found) w = refl
  after_create-world scaler (err (other t)) w = refl

  -- Where a resolution succeeds, with what it gave before the scaler was told.
  abbrev IsPersisted :
      QuotaAutoscaler
      → Option (ScalerClient W)
      → Result ResolveError (ResourceQuota Q) × W
      → ResourceQuota Q × QuotaAutoscaler
      → Type 0
  IsPersisted scaler scalers x found =
      (x.0 ≡ ok found.0)
      × (found.1 ≡ (persist q client scaler scalers found.0 x.1).0)
      × ((after_resolved q client scaler scalers x).1
          ≡ (persist q client scaler scalers found.0 x.1).1)

  after_resolved-IsPersisted :
      (scaler : QuotaAutoscaler) (scalers : Option (ScalerClient W))
      (r : Result ResolveError (ResourceQuota Q)) (w : W)
      (found : ResourceQuota Q × QuotaAutoscaler)
      → (after_resolved q client scaler scalers (r, w)).0 ≡ ok found
      → IsPersisted scaler scalers (r, w) found
  unfolding after_resolved
  after_resolved-IsPersisted scaler scalers (err e) w found h = cc h
  after_resolved-IsPersisted scaler scalers (ok x) w found h =
      subst (IsPersisted scaler scalers (ok x, w)) (ok_inj h) (refl, refl, refl)

  -- A managed quota is one that this call created, by the scaler's minimum, or one that was there
  -- and belongs to the scaler.
  some-IsOwn :
      (scaler : QuotaAutoscaler) (scalers : Option (ScalerClient W)) (c m : Q) (w : W)
      (found : ResourceQuota Q × QuotaAutoscaler)
      → (resolve_parsed q client scaler scalers (some c) (some m) w).0 ≡ ok found
      → IsOwn scaler (client.create_quota (managed_quota scaler c m) w) found.0
        × IsPersisted scaler scalers (create_or_adopt q client scaler c m w) found
  unfolding resolve_parsed create_or_adopt
  some-IsOwn scaler scalers c m w found h =
      let p = after_resolved-IsPersisted scaler scalers _ _ found h in
      (after_create-IsOwn scaler _ _ found.0 p.0, p)

  parsed-IsOwn :
      (scaler : QuotaAutoscaler) (scalers : Option (ScalerClient W)) (cpu memory : Option Q) (w : W)
      (found : ResourceQuota Q × QuotaAutoscaler)
      → (resolve_parsed q client scaler scalers cpu memory w).0 ≡ ok found
      → (c m : Q) × (cpu ≡ some c)
        × (memory ≡ some m)
        × IsOwn scaler (client.create_quota (managed_quota scaler c m) w) found.0
  unfolding resolve_parsed
  parsed-IsOwn scaler scalers none memory w found h = absurd (cc h)
  parsed-IsOwn scaler scalers (some c) none w found h = absurd (cc h)
  parsed-IsOwn scaler scalers (some c) (some m) w found h =
      (c, m, refl, refl, (some-IsOwn scaler scalers c m w found h).0)

  -- A scaler that names no quota and is resolved gets one that was just created for it, by its minimum,
  -- or one that was there under the default name and is controlled by it.
  pub resolve_with_own :
      (scaler : QuotaAutoscaler) (scalers : Option (ScalerClient W)) (w : W)
      (found : ResourceQuota Q × QuotaAutoscaler)
      → str_eq scaler.spec.resource_quota "" ≡ true
      → (resolve_with q client scaler scalers w).0 ≡ ok found
      → (c m : Q) × (q.parse_quantity scaler.spec.min_cpu ≡ some c)
        × (q.parse_quantity scaler.spec.min_memory ≡ some m)
        × (((client.create_quota (managed_quota scaler c m) w).0 ≡ ok found.0)
            ⊎ (((client.create_quota (managed_quota scaler c m) w).0 ≡ err already_exists)
                × (client.get_quota scaler.namespace default_resource_quota_name
                      (client.create_quota (managed_quota scaler c m) w).1
                    ≡ ok found.0)
                × (is_controlled_by_scaler found.0 scaler ≡ true)))
  unfolding resolve_with resolve_managed
  resolve_with_own scaler scalers w found unnamed h =
      let p = parsed-IsOwn scaler scalers _ _ w found (rw unnamed at h) in (p.0, p.1, p.2, p.3, p.4)
