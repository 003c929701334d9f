-- ===== src/ScalerResolver/Adoption/Again.antt =====
-- A scaler that has been resolved keeps its quota.
use quotascale_controller.Prelude.{
  String, Option, none, some, true, ◌≡◌, refl, sym, ap, subst, ◌∙◌, inl, inr,
}
use quotascale_controller.Prelude.Text.{str_eq}
use quotascale_controller.Effects.{Result, ok, err}
use quotascale_controller.Failure.{ApiError}
use quotascale_controller.Cluster.{Quantities, ResourceQuota, QuotaClient}
use quotascale_controller.Autoscaler.{QuotaAutoscaler}
use quotascale_controller.ScalerResolver.{
  ScalerClient, ResolveError, default_resource_quota_name, managed_quota, with_quota_name,
  create_or_adopt, persist_result, persist, resolve_parsed, resolve_managed, named_result,
  resolve_with,
}
use quotascale_controller.ScalerResolver.Adoption.{
  IsOwn, IsPersisted, after_create-world, some-IsOwn,
}

-- What the API server promises: a quota that was created is read back, under its own name, and an
-- update of a scaler keeps its namespace and the quota that it names, and touches no quota.
pub record Serves {Q W : Type 0} (client : QuotaClient Q W) (scalers : ScalerClient W)
    : Type 0 where
  pub get-create :
      (quota created : ResourceQuota Q) (w : W)
      → (client.create_quota quota w).0 ≡ ok created
      → client.get_quota quota.namespace quota.name (client.create_quota quota w).1 ≡ ok created
  pub get_name :
      (namespace name : String) (quota : ResourceQuota Q) (w : W)
      → client.get_quota namespace name w ≡ ok quota
      → quota.name ≡ name
  pub get-update :
      (namespace name : String) (scaler : QuotaAutoscaler) (w : W)
      → client.get_quota namespace name (scalers.update_scaler scaler w).1
        ≡ client.get_quota namespace name w
  pub update_same :
      (scaler updated : QuotaAutoscaler) (w : W)
      → (scalers.update_scaler scaler w).0 ≡ ok updated
      → (updated.namespace ≡ scaler.namespace)
        × (updated.spec.resource_quota ≡ scaler.spec.resource_quota)

module _ {Q W : Type 0} (q : Quantities Q) (client : QuotaClient Q W) (scalers : ScalerClient W)
    (serves : Serves client scalers) (scaler : QuotaAutoscaler) where
  -- The quota of a scaler can be read back, under the default name.
  IsOwn-get :
      (c m : Q) (w : W) (quota : ResourceQuota Q)
      → IsOwn q client scaler (client.create_quota (managed_quota scaler c m) w) quota
      → client.get_quota scaler.namespace default_resource_quota_name
          (client.create_quota (managed_quota scaler c m) w).1
        ≡ ok quota
  unfolding managed_quota
  IsOwn-get c m w quota (inl h) = serves.get-create (managed_quota scaler c m) quota w h
  IsOwn-get c m w quota (inr h) = h.1

  -- The scaler names the quota, whether the update of the scaler succeeds or not.
  abbrev Names : QuotaAutoscaler → ResourceQuota Q → Type 0
  Names updated quota =
      (updated.namespace ≡ scaler.namespace) × (updated.spec.resource_quota ≡ quota.name)

  persist_result-Names :
      (quota : ResourceQuota Q) (w : W) (r : Result ApiError QuotaAutoscaler) (w' : W)
      → (scalers.update_scaler (with_quota_name quota.name scaler) w).0 ≡ r
      → Names (persist_result q client scaler quota (r, w')).0 quota
  unfolding persist_result with_quota_name
  persist_result-Names quota w (ok updated) w' h = serves.update_same _ updated w h
  persist_result-Names quota w (err e) w' h = (refl, refl)

  persist-Names :
      (quota : ResourceQuota Q) (w : W)
      → Names (persist q client scaler (some scalers) quota w).0 quota
  unfolding persist
  persist-Names quota w = persist_result-Names quota w _ _ refl

  persist_result-world :
      (quota : ResourceQuota Q) (r : Result ApiError QuotaAutoscaler) (w : W)
      → (persist_result q client scaler quota (r, w)).1 ≡ w
  unfolding persist_result
  persist_result-world quota (ok updated) w = refl
  persist_result-world quota (err e) w = refl

  persist-get :
      (namespace name : String) (quota : ResourceQuota Q) (w : W)
      → client.get_quota namespace name (persist q client scaler (some scalers) quota w).1
        ≡ client.get_quota namespace name w
  unfolding persist
  persist-get namespace name quota w =
      ap (client.get_quota namespace name) (persist_result-world quota _ _)
      ∙ serves.get-update namespace name (with_quota_name quota.name scaler) w

  -- A resolution by a name is a read.
  resolve_with_named :
      (updated : QuotaAutoscaler) (quota : ResourceQuota Q) (w : W)
      → updated.namespace ≡ scaler.namespace
      → updated.spec.resource_quota ≡ default_resource_quota_name
      → client.get_quota scaler.namespace default_resource_quota_name w ≡ ok quota
      → resolve_with q client updated (some scalers) w ≡ (ok (quota, updated), w)
  unfolding resolve_with named_result
  resolve_with_named updated quota w e f h = simp (e, f, h)

  managed_again :
      (c m : Q) (w w' : W) (found : ResourceQuota Q × QuotaAutoscaler)
      → IsOwn q client scaler (client.create_quota (managed_quota scaler c m) w) found.0
      → found.1
        ≡ (persist q client scaler
            (some scalers)
            found.0
            (client.create_quota (managed_quota scaler c m) w).1).0
      → w'
        ≡ (persist q client scaler
            (some scalers)
            found.0
            (client.create_quota (managed_quota scaler c m) w).1).1
      → resolve_with q client found.1 (some scalers) w' ≡ (ok found, w')
  managed_again c m w w' found own e f =
      resolve_with_named found.1 found.0 w' names.0
        (names.1 ∙ serves.get_name _ _ found.0 _ readable)
        (ap (client.get_quota scaler.namespace default_resource_quota_name) f
          ∙ persist-get _ _ found.0 _
          ∙ readable)
    where
      readable :
          client.get_quota scaler.namespace default_resource_quota_name
            (client.create_quota (managed_quota scaler c m) w).1
          ≡ ok found.0
      readable = IsOwn-get c m w found.0 own

      names : Names found.1 found.0
      names = rw e (persist-Names found.0 (client.create_quota (managed_quota scaler c m) w).1)

  -- A creation and what follows it leave the world as the creation does.
  create_or_adopt-world :
      (c m : Q) (w : W)
      → (create_or_adopt q client scaler c m w).1
        ≡ (client.create_quota (managed_quota scaler c m) w).1
  unfolding create_or_adopt
  create_or_adopt-world c m w = after_create-world q client scaler _ _

  parsed_again :
      (cpu memory : Option Q) (w : W) (found : ResourceQuota Q × QuotaAutoscaler)
      → (resolve_parsed q client scaler (some scalers) cpu memory w).0 ≡ ok found
      → resolve_with q client found.1
          (some scalers)
          (resolve_parsed q client scaler (some scalers) cpu memory w).1
        ≡ (ok found, (resolve_parsed q client scaler (some scalers) cpu memory w).1)
  unfolding resolve_parsed
  parsed_again none memory w found h = absurd (cc h)
  parsed_again (some c) none w found h = absurd (cc h)
  parsed_again (some c) (some m) w found h =
      managed_again c m w _ found own.0
        (own.1.1 ∙ ap (λ v. (persist q client scaler (some scalers) found.0 v).0) same)
        (own.1.2 ∙ ap (λ v. (persist q client scaler (some scalers) found.0 v).1) same)
    where
      same :
          (create_or_adopt q client scaler c m w).1
          ≡ (client.create_quota (managed_quota scaler c m) w).1
      same = create_or_adopt-world c m w

      own :
          IsOwn q client scaler (client.create_quota (managed_quota scaler c m) w) found.0
          × IsPersisted q client scaler (some scalers) (create_or_adopt q client scaler c m w) found
      own = some-IsOwn q client scaler (some scalers) c m w found h

  resolve_with_unnamed :
      (w : W)
      → str_eq scaler.spec.resource_quota "" ≡ true
      → resolve_with q client scaler (some scalers) w
        ≡ resolve_parsed q client scaler
            (some scalers)
            (q.parse_quantity scaler.spec.min_cpu)
            (q.parse_quantity scaler.spec.min_memory)
            w
  unfolding resolve_with resolve_managed
  resolve_with_unnamed w h = rw h refl

  -- Where the server gives back what it was given: once a scaler that names no quota has been resolved,
  -- resolving the scaler that this has left reads the same quota and changes nothing, also where the
  -- name could not be written to the server.
  pub resolve_with_again :
      (w : W) (found : ResourceQuota Q × QuotaAutoscaler)
      → str_eq scaler.spec.resource_quota "" ≡ true
      → (resolve_with q client scaler (some scalers) w).0 ≡ ok found
      → resolve_with q client found.1
          (some scalers)
          (resolve_with q client scaler (some scalers) w).1
        ≡ (ok found, (resolve_with q client scaler (some scalers) w).1)
  resolve_with_again w found unnamed h =
      subst
        (λ (x : Result ResolveError (ResourceQuota Q × QuotaAutoscaler) × W).
          resolve_with q client found.1 (some scalers) x.1 ≡ (ok found, x.1))
        (sym (resolve_with_unnamed w unnamed))
        (parsed_again _ _ w found (ap (λ x. x.0) (sym (resolve_with_unnamed w unnamed)) ∙ h))
