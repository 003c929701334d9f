-- ===== src/ScalerResolver.antt =====
-- internal/scalerresolver/resourcequota.go: the ResourceQuota of a QuotaAutoscaler: the one that it
-- names, or one that is created for it and managed by it.
pub mod Adoption
pub mod Namespaces
use quotascale_controller.Prelude.{
  String, Option, none, some, Bool, true, false, not, ◌&&◌, List, [], ◌∷◌, any, if◌then◌else◌,
}
use quotascale_controller.Prelude.Text.{str_eq}
use quotascale_controller.Effects.{Result, ok, err, Eff}
use quotascale_controller.Failure.{ApiError, already_exists}
use quotascale_controller.Cluster.{Quantities, ResourceQuota, OwnerReference, QuotaClient}
use quotascale_controller.Autoscaler.{QuotaAutoscaler, api_version}

abbrev pub default_resource_quota_name : String
default_resource_quota_name = "resource-quota"

-- `quotaAutoscalerClient.IchpV1().QuotaAutoscalers(ns).Update`: the object as the server has it then.
pub record ScalerClient (W : Type 0) : Type 0 where
  pub update_scaler : QuotaAutoscaler → Eff ApiError W QuotaAutoscaler

-- The errors, each with the values of its message.
pub data ResolveError : Type 0 where
  client_not_configured scaler_is_nil : ResolveError
  get_failed : ApiError → ResolveError
  invalid_min_cpu invalid_min_memory : String → ResolveError
  not_controlled : String → String → ResolveError
  create_failed : String → ApiError → ResolveError

unfoldable pub is_controlled_by_scaler : {Q : Type 0} → ResourceQuota Q → QuotaAutoscaler → Bool
is_controlled_by_scaler quota scaler =
    any
      (λ owner.
        owner.controller
        && str_eq owner.api_version api_version
        && str_eq owner.kind "QuotaAutoscaler"
        && str_eq owner.name scaler.name)
      quota.owner_references

-- The quota that is created: requests and limits are the scaler's minimum.
unfoldable pub managed_quota : {Q : Type 0} → QuotaAutoscaler → Q → Q → ResourceQuota Q
managed_quota scaler cpu memory = record {
  namespace = scaler.namespace;
  name = default_resource_quota_name;
  hard =
      ("requests.cpu", cpu)
      ∷ ("limits.cpu", cpu)
      ∷ ("requests.memory", memory)
      ∷ ("limits.memory", memory)
      ∷ [];
  status_hard = none;
  status_used = none;
  owner_references =
      record {
        api_version = api_version;
        kind = "QuotaAutoscaler";
        name = scaler.name;
        uid = scaler.uid;
        controller = true;
      }
      ∷ [];
}

-- `scaler.Spec.ResourceQuota = name`
unfoldable pub with_quota_name : String → QuotaAutoscaler → QuotaAutoscaler
with_quota_name name scaler = record scaler { spec = record scaler.spec { resource_quota = name } }

module _ {Q W : Type 0} (q : Quantities Q) (client : QuotaClient Q W)
    (scaler : QuotaAutoscaler) where
  -- After a creation that found the name taken: only a quota that the scaler controls is adopted.
  adopt : Result ApiError (ResourceQuota Q) → Result ResolveError (ResourceQuota Q)
  unfolding is_controlled_by_scaler
  adopt (err e) = err (create_failed scaler.namespace e)
  adopt (ok quota) =
      if is_controlled_by_scaler quota scaler
      then ok quota
      else err (not_controlled scaler.namespace scaler.name)

  after_create : Result ApiError (ResourceQuota Q) × W → Result ResolveError (ResourceQuota Q) × W
  unfolding adopt
  after_create (ok quota, w) = (ok quota, w)
  after_create (err already_exists, w) =
      (adopt (client.get_quota scaler.namespace default_resource_quota_name w), w)
  after_create (err e, w) = (err (create_failed scaler.namespace e), w)

  unfoldable pub create_or_adopt : Q → Q → Eff ResolveError W (ResourceQuota Q)
  unfolding after_create managed_quota
  create_or_adopt cpu memory w =
      after_create (client.create_quota (managed_quota scaler cpu memory) w)

  -- The scaler gets the quota's name. Where the client is there and the update succeeds, it is what
  -- the server then has; otherwise the name is only set here, with a warning.
  persist_result : ResourceQuota Q → Result ApiError QuotaAutoscaler × W → QuotaAutoscaler × W
  unfolding with_quota_name
  persist_result quota (ok updated, w) = (updated, w)
  persist_result quota (err e, w) = (with_quota_name quota.name scaler, w)

  unfoldable pub persist : Option (ScalerClient W) → ResourceQuota Q → W → QuotaAutoscaler × W
  unfolding persist_result
  persist none quota w = (with_quota_name quota.name scaler, w)
  persist (some c) quota w =
      persist_result quota (c.update_scaler (with_quota_name quota.name scaler) w)

  after_resolved :
      Option (ScalerClient W)
      → Result ResolveError (ResourceQuota Q) × W
      → Result ResolveError (ResourceQuota Q × QuotaAutoscaler) × W
  unfolding persist
  after_resolved scalers (err e, w) = (err e, w)
  after_resolved scalers (ok quota, w) = let r = persist scalers quota w in (ok (quota, r.0), r.1)

  -- With the parsed minimum of cpu and memory.
  resolve_parsed :
      Option (ScalerClient W)
      → Option Q
      → Option Q
      → Eff ResolveError W (ResourceQuota Q × QuotaAutoscaler)
  unfolding create_or_adopt after_resolved
  resolve_parsed scalers none memory w = (err (invalid_min_cpu scaler.spec.min_cpu), w)
  resolve_parsed scalers (some cpu) none w = (err (invalid_min_memory scaler.spec.min_memory), w)
  resolve_parsed scalers (some cpu) (some memory) w =
      after_resolved scalers (create_or_adopt cpu memory w)

  unfoldable pub resolve_managed :
      Option (ScalerClient W) → Eff ResolveError W (ResourceQuota Q × QuotaAutoscaler)
  unfolding resolve_parsed
  resolve_managed scalers =
      resolve_parsed scalers (q.parse_quantity scaler.spec.min_cpu)
        (q.parse_quantity scaler.spec.min_memory)

  named_result :
      Result ApiError (ResourceQuota Q) → Result ResolveError (ResourceQuota Q × QuotaAutoscaler)
  named_result (err e) = err (get_failed e)
  named_result (ok quota) = ok (quota, scaler)

  -- With a client and a scaler. The scaler, which is changed in place, is returned with the quota; an
  -- error leaves it as it is.
  unfoldable pub resolve_with :
      Option (ScalerClient W) → Eff ResolveError W (ResourceQuota Q × QuotaAutoscaler)
  unfolding resolve_managed named_result
  resolve_with scalers w =
      if str_eq scaler.spec.resource_quota ""
      then resolve_managed scalers w
      else (named_result (client.get_quota scaler.namespace scaler.spec.resource_quota w), w)

unfoldable pub resolve_resource_quota :
    {Q W : Type 0}
    → Quantities Q
    → Option (QuotaClient Q W)
    → Option (ScalerClient W)
    → Option QuotaAutoscaler
    → Eff ResolveError W (ResourceQuota Q × QuotaAutoscaler)
unfolding resolve_with
resolve_resource_quota q none scalers scaler w = (err client_not_configured, w)
resolve_resource_quota q (some client) scalers none w = (err scaler_is_nil, w)
resolve_resource_quota q (some client) scalers (some scaler) w =
    resolve_with q client scaler scalers w
