-- ===== src/NodeScaling.antt =====
-- internal/nodescaling/controller.go: the controller's fields, its requests, and its settings. Its
-- other methods are in the modules below, which use this one.
pub mod Nodes
pub mod Pods
pub mod Waiters
pub mod Capacity
pub mod ScaleOut
pub mod ScaleIn
pub mod Keeping
pub mod Run
pub mod QuotaTotals
use quotascale_controller.Prelude.{
  ℕ, ◌+◌, ◌*◌, String, Option, none, some, Bool, true, false, not, ◌&&◌, ◌||◌, List, [], ◌∷◌, ◌++◌,
  any, length, if◌then◌else◌, ltb,
}
use quotascale_controller.Prelude.Int.{ℤ, pos, leb_ℤ}
use quotascale_controller.Prelude.Text.{str_eq}
use quotascale_controller.Prelude.Trim.{trim_space}
use quotascale_controller.Effects.{Result, ok, err, Eff}
use quotascale_controller.Failure.{Error, scale_out_queue_full, scale_in_queue_full}
use quotascale_controller.Inventory.Store.{NodeScalingInventoryStore}
use quotascale_controller.Cluster.{Map, KubeClient}
use quotascale_controller.Resources.{Resources}

pub record ScaleOutRequest : Type 0 where
  pub namespace : String
  pub current : Resources
  pub desired : Resources
  pub reason : String

-- The reason only stands in messages, as does the text of the automatic request's reason.
pub record ScaleInRequest : Type 0 where
  pub namespace : String
  pub reason : String

-- A waiter: the time at which it was started, and the request that its goroutine closes over.
pub record ScaleInWaiter : Type 0 where
  pub started_at : ℤ
  pub request : ScaleInRequest

-- What a commit message is made of.
pub data CommitMessage : Type 0 where
  scale_up scale_in initialize : ℤ → CommitMessage

-- `NodeScalingRuntime` as the controller uses it.
pub record NodeScalingRuntime (W : Type 0) : Type 0 where
  pub repo_url : String
  pub sync_repo : Eff Error W (Unit {0})
  pub read_machine_deployment_replicas : W → Result Error ℤ
  pub write_machine_deployment_replicas : ℤ → Eff Error W (Unit {0})
  pub commit_and_push : CommitMessage → Eff Error W (Unit {0})

-- The fields that are set before `Run`. Durations are in nanoseconds.
pub record Settings : Type 0 where
  pub scale_in_trigger_delay : ℤ
  pub scale_in_force_enabled : Bool
  pub scale_in_force_delay : ℤ
  pub max_node_count : ℤ  -- int32
  pub prepared_spare_count : ℤ  -- int32
  pub activated_spare_count : ℤ  -- int32
  pub scale_in_exempt_key : String
  pub scale_in_exempt_value : String
  pub scale_in_exempt_ns : List String

-- The fields that change, with the cluster, the repository and the clock as `world`; `none`
-- is the zero time. A channel is the list of the requests in it.
pub record State (W : Type 0) : Type 0 where
  pub world : W
  pub settings : Settings
  pub scale_in_eligible_since : Option ℤ
  pub scale_in_waiters : Map ScaleInWaiter
  pub scale_out_requests : List ScaleOutRequest
  pub scale_in_requests : List ScaleInRequest

-- What the controller is given; `none` is nil. Of the `QuotaAutoscaler` client it only matters here
-- whether there is one.
pub record Dependencies (Q W : Type 0) : Type 0 where
  pub runtime : Option (NodeScalingRuntime W)
  pub client : Option (KubeClient Q W)
  pub has_quota_autoscaler_client : Bool
  pub inventory_store : Option (NodeScalingInventoryStore W)
  pub now : W → ℤ

unfoldable pub minute : ℕ
minute = 60 * 1000000000

unfoldable pub default_settings : Settings
unfolding minute
default_settings = record {
  scale_in_trigger_delay = pos (5 * minute);
  scale_in_force_enabled = true;
  scale_in_force_delay = pos (5 * minute);
  max_node_count = pos 3;
  prepared_spare_count = pos 1;
  activated_spare_count = pos 1;
  scale_in_exempt_key = "quotascale.dcn.ssu.ac.kr/scale-in-exempt";
  scale_in_exempt_value = "true";
  scale_in_exempt_ns = "kube-system" ∷ [];
}

-- `NewNodeScalingController`
unfoldable pub new_node_scaling_controller : {W : Type 0} → W → State W
unfolding default_settings
new_node_scaling_controller world = record {
  world = world;
  settings = default_settings;
  scale_in_eligible_since = none;
  scale_in_waiters = [];
  scale_out_requests = [];
  scale_in_requests = [];
}

-- `if value <= 0 { value = default }`
abbrev positive_or : ℤ → ℤ → ℤ
positive_or def value = if leb_ℤ value (pos 0) then def else value

unfoldable pub set_scale_in_trigger_delay : ℤ → Settings → Settings
unfolding minute
set_scale_in_trigger_delay delay s = record s {
  scale_in_trigger_delay = positive_or (pos (5 * minute)) delay;
}

unfoldable pub set_max_node_count : ℤ → Settings → Settings
set_max_node_count count s = record s { max_node_count = positive_or (pos 3) count }

unfoldable pub set_prepared_spare_count : ℤ → Settings → Settings
set_prepared_spare_count count s = record s { prepared_spare_count = positive_or (pos 1) count }

unfoldable pub set_activated_spare_count : ℤ → Settings → Settings
set_activated_spare_count count s = record s { activated_spare_count = positive_or (pos 1) count }

unfoldable pub set_scale_in_force_delay : ℤ → Settings → Settings
unfolding minute
set_scale_in_force_delay delay s = record s {
  scale_in_force_delay = positive_or (pos (5 * minute)) delay;
}

unfoldable pub set_scale_in_force_enabled : Bool → Settings → Settings
set_scale_in_force_enabled enabled s = record s { scale_in_force_enabled = enabled }

-- The trimmed names, each once, without the empty one.
unfoldable pub exempt_namespaces : List String → List String
exempt_namespaces [] = []
exempt_namespaces (namespace ∷ namespaces) =
    let exempt = exempt_namespaces namespaces in
    let name = trim_space namespace in
    if str_eq name "" || any (str_eq name) exempt then exempt else name ∷ exempt

unfoldable pub set_scale_in_exempt_namespaces : List String → Settings → Settings
unfolding exempt_namespaces
set_scale_in_exempt_namespaces namespaces s = record s {
  scale_in_exempt_ns = exempt_namespaces namespaces;
}

-- `if text == "" { text = default }`
abbrev text_or : String → String → String
text_or def text = if str_eq text "" then def else text

unfoldable pub set_scale_in_exempt_pod_marker : String → String → Settings → Settings
set_scale_in_exempt_pod_marker key value s = record s {
  scale_in_exempt_key = text_or "quotascale.dcn.ssu.ac.kr/scale-in-exempt" (trim_space key);
  scale_in_exempt_value = text_or "true" (trim_space value);
}

unfoldable pub minimum_prepared_spare_count : Settings → ℤ
minimum_prepared_spare_count s = positive_or (pos 1) s.prepared_spare_count

unfoldable pub scale_out_batch_size : Settings → ℤ
scale_out_batch_size s = positive_or (pos 1) s.activated_spare_count

-- The capacity of both channels.
abbrev pub queue_capacity : ℕ
queue_capacity = 128

-- A send that does not block: the request is queued, or the queue is full.
unfoldable pub handle_scale_out_request :
    {W : Type 0} → ScaleOutRequest → Eff Error (State W) (Unit {0})
handle_scale_out_request request s =
    if ltb (length s.scale_out_requests) queue_capacity
    then (ok tt, record s { scale_out_requests = s.scale_out_requests ++ request ∷ [] })
    else (err scale_out_queue_full, s)

unfoldable pub handle_scale_in_request :
    {W : Type 0} → ScaleInRequest → Eff Error (State W) (Unit {0})
handle_scale_in_request request s =
    if ltb (length s.scale_in_requests) queue_capacity
    then (ok tt, record s { scale_in_requests = s.scale_in_requests ++ request ∷ [] })
    else (err scale_in_queue_full, s)

unfoldable pub reset_scale_in_trigger : {W : Type 0} → State W → State W
reset_scale_in_trigger s = record s { scale_in_eligible_since = none }

-- An effect of the cluster or the repository, and a read of them, in the controller.
abbrev pub on_world : {W A : Type 0} → Eff Error W A → Eff Error (State W) A
on_world m s = ((m s.world).0, record s { world = (m s.world).1 })

abbrev pub reads_world : {W A : Type 0} → (W → Result Error A) → Eff Error (State W) A
reads_world f s = (f s.world, s)
