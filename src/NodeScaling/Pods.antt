-- ===== src/NodeScaling/Pods.antt =====
-- internal/nodescaling/controller.go: which pods keep a reserved node from being given back.
use quotascale_controller.Prelude.{
  String, none, some, Bool, true, false, not, ◌||◌, any, if◌then◌else◌,
}
use quotascale_controller.Prelude.Text.{str_eq}
use quotascale_controller.Effects.{Result, ok, bind_result}
use quotascale_controller.Failure.{Error}
use quotascale_controller.Inventory.Store.{api_failure}
use quotascale_controller.Cluster.{Pod, PodPhase, KubeClient, Map, lookup, has_key}
use quotascale_controller.NodeScaling.{Settings}

unfoldable pub is_daemon_set_pod : {Q : Type 0} → Pod Q → Bool
is_daemon_set_pod pod = any (λ kind. str_eq kind "DaemonSet") pod.owner_kinds

unfoldable pub is_mirror_pod : {Q : Type 0} → Pod Q → Bool
is_mirror_pod pod = has_key "kubernetes.io/config.mirror" pod.annotations

unfoldable pub is_scale_in_exempt_namespace : Settings → String → Bool
is_scale_in_exempt_namespace s namespace = any (λ n. str_eq n namespace) s.scale_in_exempt_ns

-- `value, ok := m[key]; ok && value == wanted`
abbrev is_marked : Map String → String → String → Bool
is_marked m key wanted = elim (lookup key m) [ none ↦ false | some value ↦ str_eq value wanted ]

unfoldable pub is_scale_in_exempt_pod : {Q : Type 0} → Settings → Pod Q → Bool
is_scale_in_exempt_pod s pod =
    if str_eq s.scale_in_exempt_key ""
    then false
    else is_marked pod.labels s.scale_in_exempt_key s.scale_in_exempt_value
      || is_marked pod.annotations s.scale_in_exempt_key s.scale_in_exempt_value

abbrev is_terminal : PodPhase → Bool
is_terminal PodPhase.succeeded = true
is_terminal PodPhase.failed = true
is_terminal _ = false

-- The body of the loop of `NodeHasBlockingPods`: each `if` skips the pod.
unfoldable pub is_blocking : {Q : Type 0} → Settings → String → Pod Q → Bool
unfolding is_mirror_pod is_scale_in_exempt_namespace is_scale_in_exempt_pod is_daemon_set_pod
is_blocking s node_name pod =
    if not (str_eq pod.spec.node_name node_name)
    then false
    else if is_terminal pod.phase
    then false
    else if pod.being_deleted
    then false
    else if is_mirror_pod pod
    then false
    else if is_scale_in_exempt_namespace s pod.namespace
    then false
    else if is_scale_in_exempt_pod s pod
    then false
    else if is_daemon_set_pod pod
    then false
    else true

unfoldable pub node_has_blocking_pods :
    {Q W : Type 0} → KubeClient Q W → Settings → String → W → Result Error Bool
unfolding is_blocking
node_has_blocking_pods client s node_name w =
    bind_result (api_failure (client.list_pods w)) (λ pods. ok (any (is_blocking s node_name) pods))
