-- ===== src/ScalerResolver/Namespaces.antt =====
-- A resolution stays within the scaler's namespace.
use quotascale_controller.Prelude.{
  String, Option, none, some, ◌≡◌, refl, sym, ap, subst, ◌∙◌, Bool-cases, inl, inr,
}
use quotascale_controller.Prelude.Text.{str_eq}
use quotascale_controller.Effects.{Result, ok, err, ok_inj}
use quotascale_controller.Failure.{ApiError, already_exists, not_found, other}
use quotascale_controller.Cluster.{Quantities, ResourceQuota, QuotaClient}
use quotascale_controller.Autoscaler.{QuotaAutoscaler}
use quotascale_controller.ScalerResolver.{
  ScalerClient, ResolveError, is_controlled_by_scaler, managed_quota, with_quota_name, adopt,
  after_create, create_or_adopt, persist_result, persist, after_resolved, resolve_parsed,
  resolve_managed, named_result, resolve_with,
}

-- A call on a namespace gives back an object of that namespace.
pub record KeepsNamespaces {Q W : Type 0} (client : QuotaClient Q W) (scalers : ScalerClient W)
    : Type 0 where
  pub get_namespace :
      (namespace name : String) (quota : ResourceQuota Q) (w : W)
      → client.get_quota namespace name w ≡ ok quota
      → quota.namespace ≡ namespace
  pub create_namespace :
      (quota created : ResourceQuota Q) (w : W)
      → (client.create_quota quota w).0 ≡ ok created
      → created.namespace ≡ quota.namespace
  pub update_namespace :
      (scaler updated : QuotaAutoscaler) (w : W)
      → (scalers.update_scaler scaler w).0 ≡ ok updated
      → updated.namespace ≡ scaler.namespace

module _ {Q W : Type 0} (q : Quantities Q) (client : QuotaClient Q W) (scalers : ScalerClient W)
    (keeps : KeepsNamespaces client scalers) (scaler : QuotaAutoscaler) where
  adopt_namespace :
      (name : String) (w : W) (r : Result ApiError (ResourceQuota Q)) (quota : ResourceQuota Q)
      → client.get_quota scaler.namespace name w ≡ r
      → adopt q client scaler r ≡ ok quota
      → quota.namespace ≡ scaler.namespace
  unfolding adopt
  adopt_namespace name w (err e) quota h k = absurd (cc k)
  adopt_namespace name w (ok x) quota h k = elim (Bool-cases (is_controlled_by_scaler x scaler)) [
    | inl e ↦
        ap (λ (y : ResourceQuota Q). y.namespace) (sym (ok_inj (rw e at k)))
        ∙ keeps.get_namespace scaler.namespace name x w h
    | inr e ↦ absurd (cc (rw e at k))
  ]

  after_create_namespace :
      (c m : Q) (w w' : W) (r : Result ApiError (ResourceQuota Q)) (quota : ResourceQuota Q)
      → (client.create_quota (managed_quota scaler c m) w).0 ≡ r
      → (after_create q client scaler (r, w')).0 ≡ ok quota
      → quota.namespace ≡ scaler.namespace
  unfolding after_create managed_quota
  after_create_namespace c m w w' (ok x) quota h k =
      ap (λ (y : ResourceQuota Q). y.namespace) (sym (ok_inj k))
      ∙ keeps.create_namespace (managed_quota scaler c m) x w h
  after_create_namespace c m w w' (err already_exists) quota h k =
      adopt_namespace _ w' _ quota refl k
  after_create_namespace c m w w' (err not_found) quota h k = absurd (cc k)
  after_create_namespace c m w w' (err (other t)) quota h k = absurd (cc k)

  persist_result_namespace :
      (quota : ResourceQuota Q) (w w' : W) (r : Result ApiError QuotaAutoscaler)
      → (scalers.update_scaler (with_quota_name quota.name scaler) w).0 ≡ r
      → (persist_result q client scaler quota (r, w')).0.namespace ≡ scaler.namespace
  unfolding persist_result with_quota_name
  persist_result_namespace quota w w' (ok updated) h =
      keeps.update_namespace (with_quota_name quota.name scaler) updated w h
  persist_result_namespace quota w w' (err e) h = refl

  -- Both the quota and the scaler are of the namespace.
  abbrev pub IsLocal : ResourceQuota Q × QuotaAutoscaler → Type 0
  IsLocal found = (found.0.namespace ≡ scaler.namespace) × (found.1.namespace ≡ scaler.namespace)

  after_resolved-IsLocal :
      (r : Result ResolveError (ResourceQuota Q)) (w : W)
      (found : ResourceQuota Q × QuotaAutoscaler)
      → ((quota : ResourceQuota Q) → r ≡ ok quota → quota.namespace ≡ scaler.namespace)
      → (after_resolved q client scaler (some scalers) (r, w)).0 ≡ ok found
      → IsLocal found
  unfolding after_resolved persist
  after_resolved-IsLocal (err e) w found own h = absurd (cc h)
  after_resolved-IsLocal (ok x) w found own h =
      subst IsLocal (ok_inj h) (own x refl, persist_result_namespace x w _ _ refl)

  parsed-IsLocal :
      (cpu memory : Option Q) (w : W) (found : ResourceQuota Q × QuotaAutoscaler)
      → (resolve_parsed q client scaler (some scalers) cpu memory w).0 ≡ ok found
      → IsLocal found
  unfolding resolve_parsed create_or_adopt
  parsed-IsLocal none memory w found h = absurd (cc h)
  parsed-IsLocal (some c) none w found h = absurd (cc h)
  parsed-IsLocal (some c) (some m) w found h =
      after_resolved-IsLocal _ _ found (λ quota. after_create_namespace c m w _ _ quota refl) h

  named-IsLocal :
      (name : String) (w : W) (r : Result ApiError (ResourceQuota Q))
      (found : ResourceQuota Q × QuotaAutoscaler)
      → client.get_quota scaler.namespace name w ≡ r
      → named_result q client scaler r ≡ ok found
      → IsLocal found
  unfolding named_result
  named-IsLocal name w (err e) found h k = absurd (cc k)
  named-IsLocal name w (ok quota) found h k =
      subst IsLocal (ok_inj k) (keeps.get_namespace scaler.namespace name quota w h, refl)

  pub resolve_with-IsLocal :
      (w : W) (found : ResourceQuota Q × QuotaAutoscaler)
      → (resolve_with q client scaler (some scalers) w).0 ≡ ok found
      → IsLocal found
  unfolding resolve_with resolve_managed
  resolve_with-IsLocal w found h = elim (Bool-cases (str_eq scaler.spec.resource_quota "")) [
    | inl e ↦ parsed-IsLocal _ _ w found (rw e at h)
    | inr e ↦ named-IsLocal scaler.spec.resource_quota w _ found refl (rw e at h)
  ]
