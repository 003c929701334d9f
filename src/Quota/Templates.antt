-- ===== src/Quota/Templates.antt =====
-- internal/quota/pod_events.go: `getPodTemplateSpecFromEv`, the template and the missing replicas of the
-- object of an event. Of a template the sources use the specification of its pods.
use quotascale_controller.Prelude.{String, Option, none, some, if◌then◌else◌}
use quotascale_controller.Prelude.Int.{ℤ, pos, ◌-ℤ◌, wrap32}
use quotascale_controller.Prelude.Text.{str_eq, append}
use quotascale_controller.Effects.{Result, ok, err}
use quotascale_controller.Failure.{ApiError, other}
use quotascale_controller.Cluster.{PodSpec}
use quotascale_controller.Quota.PodEvents.{TemplateReader}

-- An object with replicas: the API server sets a missing number of desired ones to 1, so it is there.
pub record Replicated (Q : Type 0) : Type 0 where
  pub template : PodSpec Q
  pub desired : ℤ  -- int32
  pub current : ℤ  -- int32

-- The reads by namespace and name; `none` is a nil template.
pub record ObjectClient (Q W : Type 0) : Type 0 where
  pub get_pod : String → String → W → Result ApiError (PodSpec Q)
  pub get_replica_set : String → String → W → Result ApiError (Replicated Q)
  pub get_job : String → String → W → Result ApiError (PodSpec Q)
  pub get_stateful_set : String → String → W → Result ApiError (Replicated Q)
  pub get_replication_controller :
      String → String → W → Result ApiError (Option (PodSpec Q) × ℤ × ℤ)

module _ {Q : Type 0} where
  -- One replica is missing of an object that is not replicated.
  one_missing : Result ApiError (PodSpec Q) → Result ApiError (PodSpec Q × ℤ)
  one_missing (err e) = err e
  one_missing (ok spec) = ok (spec, pos 1)

  missing : Result ApiError (Replicated Q) → Result ApiError (PodSpec Q × ℤ)
  missing (err e) = err e
  missing (ok r) = ok (r.template, wrap32 (r.desired -ℤ r.current))

  missing_if_templated :
      String → Result ApiError (Option (PodSpec Q) × ℤ × ℤ) → Result ApiError (PodSpec Q × ℤ)
  missing_if_templated name (err e) = err e
  missing_if_templated name (ok (none, desired, current)) =
      err (other (append "ReplicationController " (append name " Pod Template missing")))
  missing_if_templated name (ok (some spec, desired, current)) =
      ok (spec, wrap32 (desired -ℤ current))

unfoldable pub get_pod_template_spec_from_ev :
    {Q W : Type 0} → ObjectClient Q W → TemplateReader Q W
unfolding one_missing missing missing_if_templated
get_pod_template_spec_from_ev client w ev =
    let namespace = ev.object_namespace in
    let name = ev.object_name in
    if str_eq ev.object_kind "Pod"
    then one_missing (client.get_pod namespace name w)
    else if str_eq ev.object_kind "ReplicaSet"
    then missing (client.get_replica_set namespace name w)
    else if str_eq ev.object_kind "Job"
    then one_missing (client.get_job namespace name w)
    else if str_eq ev.object_kind "StatefulSet"
    then missing (client.get_stateful_set namespace name w)
    else if str_eq ev.object_kind "ReplicationController"
    then missing_if_templated name (client.get_replication_controller namespace name w)
    else err (other "unsupported event")
