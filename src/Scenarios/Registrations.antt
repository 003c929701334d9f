-- ===== src/Scenarios/Registrations.antt =====
-- Runs of the resolver and of the quota controller's loop: a server that has one quota at most.
use quotascale_controller.Prelude.{
  String, Option, none, some, true, false, ◌&&◌, [], ◌∷◌, ◌≡◌, refl, sym, ap, ◌∙◌, ◌⊎◌, Bool-cases,
  inl, inr, if◌then◌else◌,
}
use quotascale_controller.Prelude.Int.{ℤ, pos}
use quotascale_controller.Prelude.Text.{str_eq, str_eq_iff}
use quotascale_controller.Prelude.Case.{contains, to_lower}
use quotascale_controller.Effects.{Result, ok, err, ok_inj}
use quotascale_controller.Failure.{ApiError, not_found, already_exists}
use quotascale_controller.Cluster.{Quantities, ResourceQuota, QuotaClient, lookup, has_key}
use quotascale_controller.Autoscaler.{QuotaAutoscaler, api_version}
use quotascale_controller.ScalerResolver.{
  ScalerClient, default_resource_quota_name, is_controlled_by_scaler, managed_quota,
  with_quota_name, resolve_with,
}
use quotascale_controller.ScalerResolver.Adoption.{resolve_with_own}
use quotascale_controller.ScalerResolver.Adoption.Again.{Serves, resolve_with_again}
use quotascale_controller.ScalerResolver.Namespaces.{KeepsNamespaces}
use quotascale_controller.Quota.PodEvents.{Event}
use quotascale_controller.Quota.Watcher.{
  EventTimes, should_ignore_historical_event, is_immediate_capacity_event,
}
use quotascale_controller.Quota.Controller.{
  added_or_modified, Loop, on_event, on_scaler, new_quota_watcher, start_scalers, scaler_event,
  started, step,
}
use quotascale_controller.Quota.Controller.Filing.{IsAligned}
use quotascale_controller.Quota.Controller.Alignment.{Reachable-IsAligned}
use quotascale_controller.Quota.Controller.Immediate.{joined, on_event-immediate}

-- Every quantity is 500.
abbrev q : Quantities ℤ
q = record {
  zero = pos 0;
  parse_quantity = λ s. some (pos 500);
  scaled_value = λ v s. v;
  add = λ a b. a;
  greater = λ a b. false;
}

abbrev get : String → String → Option (ResourceQuota ℤ) → Result ApiError (ResourceQuota ℤ)
get namespace name none = err not_found
get namespace name (some x) =
    if str_eq x.namespace namespace && str_eq x.name name then ok x else err not_found

abbrev create :
    ResourceQuota ℤ
    → Option (ResourceQuota ℤ)
    → Result ApiError (ResourceQuota ℤ) × Option (ResourceQuota ℤ)
create quota none = (ok quota, some quota)
create quota (some x) = (err already_exists, some x)

abbrev client : QuotaClient ℤ (Option (ResourceQuota ℤ))
client = record { get_quota = get; create_quota = create }

abbrev scalers : ScalerClient (Option (ResourceQuota ℤ))
scalers = record { update_scaler = λ scaler w. (ok scaler, w) }

get-create :
    (quota created : ResourceQuota ℤ) (w : Option (ResourceQuota ℤ))
    → (create quota w).0 ≡ ok created
    → get quota.namespace quota.name (create quota w).1 ≡ ok created
get-create quota created none h =
    rw
      (
        (str_eq_iff quota.namespace quota.namespace).1 refl,
        (str_eq_iff quota.name quota.name).1 refl,
      )
      h
get-create quota created (some x) h = absurd (cc h)

-- A quota that is read stands under the names it is read by.
get_names :
    (namespace name : String) (quota : ResourceQuota ℤ) (w : Option (ResourceQuota ℤ))
    → get namespace name w ≡ ok quota
    → (quota.namespace ≡ namespace) × (quota.name ≡ name)
get_names namespace name quota none h = absurd (cc h)
get_names namespace name quota (some x) h = elim (Bool-cases (str_eq x.namespace namespace)) [
  | inr e ↦ absurd (cc (rw e at h))
  | inl e ↦ elim (Bool-cases (str_eq x.name name)) [
    | inr f ↦ absurd (cc (rw (e, f) at h))
    | inl f ↦
        let same : x ≡ quota = ok_inj (rw (e, f) at h) in
        (
          ap (λ y. y.namespace) (sym same) ∙ (str_eq_iff x.namespace namespace).0 e,
          ap (λ y. y.name) (sym same) ∙ (str_eq_iff x.name name).0 f,
        )
  ]
]

serves : Serves client scalers
serves = record {
  get-create = get-create;
  get_name = λ namespace name quota w h. (get_names namespace name quota w h).1;
  get-update = λ namespace name scaler w. refl;
  update_same = λ scaler updated w h.
      (ap (λ y. y.namespace) (sym (ok_inj h)), ap (λ y. y.spec.resource_quota) (sym (ok_inj h)));
}

create_namespace :
    (quota created : ResourceQuota ℤ) (w : Option (ResourceQuota ℤ))
    → (create quota w).0 ≡ ok created
    → created.namespace ≡ quota.namespace
create_namespace quota created none h = ap (λ y. y.namespace) (sym (ok_inj h))
create_namespace quota created (some x) h = absurd (cc h)

keeps : KeepsNamespaces client scalers
keeps = record {
  get_namespace = λ namespace name quota w h. (get_names namespace name quota w h).0;
  create_namespace = create_namespace;
  update_namespace = λ scaler updated w h. ap (λ y. y.namespace) (sym (ok_inj h));
}

-- A scaler that names no quota.
abbrev scaler : QuotaAutoscaler
scaler = record {
  namespace = "team";
  name = "scaler";
  uid = "1";
  spec = record {
    resource_quota = "";
    min_cpu = "500m";
    max_cpu = "";
    min_memory = "500Mi";
    max_memory = "";
    behavior = record {
      scale_up = record { policies = [] };
      scale_down = record { policies = [] };
    };
  };
}

abbrev quota : ResourceQuota ℤ
quota = record {
  namespace = "team";
  name = "resource-quota";
  hard =
      ("requests.cpu", pos 500)
      ∷ ("limits.cpu", pos 500)
      ∷ ("requests.memory", pos 500)
      ∷ ("limits.memory", pos 500)
      ∷ [];
  status_hard = none;
  status_used = none;
  owner_references =
      record {
        api_version = api_version;
        kind = "QuotaAutoscaler";
        name = "scaler";
        uid = "1";
        controller = true;
      }
      ∷ [];
}

abbrev named : QuotaAutoscaler
named = record scaler { spec = record scaler.spec { resource_quota = "resource-quota" } }

resolve_with_own_example :
    (c m : ℤ) × (◌≡◌ {A = Option ℤ} (some (pos 500)) (some c))
    × (◌≡◌ {A = Option ℤ} (some (pos 500)) (some m))
    × (((client.create_quota (managed_quota scaler c m) none).0 ≡ ok quota)
        ⊎ (((client.create_quota (managed_quota scaler c m) none).0 ≡ err already_exists)
            × (client.get_quota scaler.namespace default_resource_quota_name
                  (client.create_quota (managed_quota scaler c m) none).1
                ≡ ok quota)
            × (is_controlled_by_scaler quota scaler ≡ true)))
unfolding resolve_with managed_quota with_quota_name
resolve_with_own_example =
    resolve_with_own q client scaler (some scalers) none (quota, named) refl refl

resolve_with_again_example :
    resolve_with q client named (some scalers) (resolve_with q client scaler (some scalers) none).1
    ≡ (ok (quota, named), (resolve_with q client scaler (some scalers) none).1)
unfolding resolve_with managed_quota with_quota_name
resolve_with_again_example =
    resolve_with_again q client scalers serves scaler none (quota, named) refl refl

abbrev start : Loop ℤ (Option (ResourceQuota ℤ))
start = record {
  running =
      start_scalers q (some client) (some scalers) []
        (record { watcher = new_quota_watcher (pos 0); world = none });
  launched = [];
}

Reachable-IsAligned_example :
    IsAligned (on_scaler q (some client) (some scalers) added_or_modified scaler start)
Reachable-IsAligned_example =
    Reachable-IsAligned q client scalers keeps (pos 0) [] none
      (on_scaler q (some client) (some scalers) added_or_modified scaler start)
      (step started (scaler_event added_or_modified scaler))

abbrev ev : Event
ev = record {
  namespace = "team";
  reason = "FailedCreate";
  message = "exceeded quota: resource-quota";
  object_kind = "ReplicaSet";
  object_namespace = "team";
  object_name = "web";
}

abbrev times : EventTimes
times = record {
  event_time = some (pos 7);
  last_timestamp = none;
  first_timestamp = none;
  creation_timestamp = none;
}

abbrev known : Loop ℤ (Option (ResourceQuota ℤ))
known = record {
  running = record {
    watcher = record {
      scalers = ("team", named) ∷ [];
      quotas = ("team", quota) ∷ [];
      events = [];
      started = some (pos 0);
      pending_scale_out = [];
    };
    world = none;
  };
  launched = [];
}

on_event-immediate_example :
    ((on_event times ev known).launched
      ≡ record { quota = quota; scaler = named; events = some (joined ev none) } ∷ [])
    × (has_key "team" (on_event times ev known).running.watcher.events ≡ false)
unfolding should_ignore_historical_event is_immediate_capacity_event contains to_lower lookup
on_event-immediate_example =
    on_event-immediate known times ev named quota refl refl refl refl refl refl
