-- ===== src/NodeScaling/Nodes.antt =====
-- internal/nodescaling/controller.go and scalein_trigger.go: the label and the taint by which a node
-- is kept in reserve.
pub mod Marks
use quotascale_controller.Prelude.{
  String, Option, none, some, Bool, true, false, not, ◌&&◌, ◌||◌, List, [], ◌∷◌, ◌++◌, map, any,
  select, if◌then◌else◌,
}
use quotascale_controller.Prelude.Int.{ℤ, pos}
use quotascale_controller.Prelude.Text.{str_eq, str_ltb}
use quotascale_controller.Prelude.Sorting.{sort_stable}
use quotascale_controller.Effects.{Result, ok, err, Eff, ◌>>=◌, reads, bind_result}
use quotascale_controller.Failure.{Error}
use quotascale_controller.Inventory.Store.{NodeScalingInventoryStore, api_failure, api_effect}
use quotascale_controller.Cluster.{
  Node, Taint, TaintEffect, KubeClient, Map, lookup, has_key, insert, delete,
}
use quotascale_controller.NodeScaling.{NodeScalingRuntime, Dependencies}

abbrev scaling_key : String
scaling_key = "node-role.kubernetes.io/scaling"

-- `taint.Key == "node-role.kubernetes.io/scaling" && taint.Effect == NoSchedule`
abbrev pub is_scaling_taint : Taint → Bool
is_scaling_taint taint =
    str_eq taint.key scaling_key && elim taint.effect [ TaintEffect.no_schedule ↦ true | _ ↦ false ]

-- `labels["role"] == "scaling"`
abbrev pub has_role_scaling : Map String → Bool
has_role_scaling labels = elim (lookup "role" labels) [
  | none ↦ false
  | some role ↦ str_eq role "scaling"
]

-- The node that `ActivateScalingNode` writes.
unfoldable pub activated : {Q : Type 0} → Node Q → Node Q
activated node =
    let labels = if has_role_scaling node.labels then delete "role" node.labels else node.labels in
    record node {
      labels = delete scaling_key labels;
      taints = select (λ t. not (is_scaling_taint t)) node.taints;
    }

-- The node that `ReserveScalingNode` writes.
unfoldable pub reserved : {Q : Type 0} → Node Q → Node Q
reserved node = record node {
  labels = insert scaling_key "" (insert "role" "scaling" node.labels);
  taints =
      if any is_scaling_taint node.taints
      then node.taints
      else node.taints ++ record { key = scaling_key; effect = TaintEffect.no_schedule } ∷ [];
}

-- The three tests of `NodeHasScalingReservation`.
unfoldable pub has_reservation : {Q : Type 0} → Node Q → Bool
has_reservation node =
    has_role_scaling node.labels
    && has_key scaling_key node.labels
    && any is_scaling_taint node.taints

unfoldable pub node_has_scaling_taint : {Q : Type 0} → Node Q → Bool
node_has_scaling_taint node = any is_scaling_taint node.taints

unfoldable pub node_has_scaling_role : {Q : Type 0} → Node Q → Bool
node_has_scaling_role node =
    has_role_scaling node.labels
    || has_key scaling_key node.labels
    || any is_scaling_taint node.taints

module _ {Q W : Type 0} (client : KubeClient Q W) where
  get_node : String → W → Result Error (Node Q)
  get_node name w = api_failure (client.get_node name w)

  unfoldable pub activate_scaling_node : String → Eff Error W (Unit {0})
  unfolding get_node
  activate_scaling_node name = do
    node ← reads (get_node name)
    api_effect (client.update_node (activated node))

  unfoldable pub reserve_scaling_node : String → Eff Error W (Unit {0})
  unfolding get_node
  reserve_scaling_node name = do
    node ← reads (get_node name)
    api_effect (client.update_node (reserved node))

  unfoldable pub node_has_scaling_reservation : String → W → Result Error Bool
  unfolding get_node
  node_has_scaling_reservation name w =
      bind_result (get_node name w) (λ node. ok (has_reservation node))

module _ {Q W : Type 0} (deps : Dependencies Q W) where
  -- The methods `readMachineDeploymentReplicas` and `syncRepoIfConfigured`.
  unfoldable pub read_machine_deployment_replicas : W → Result Error ℤ
  read_machine_deployment_replicas w = elim deps.runtime [
    | none ↦ ok (pos 0)
    | some runtime ↦ runtime.read_machine_deployment_replicas w
  ]

  sync_listed : NodeScalingInventoryStore W → ℤ → List (Node Q) → Eff Error W (Unit {0})
  sync_listed store replicas nodes =
      store.sync replicas
        (sort_stable str_ltb (map (λ n. n.name) (select node_has_scaling_role nodes)))

  sync_configured : KubeClient Q W → NodeScalingInventoryStore W → Eff Error W (Unit {0})
  unfolding read_machine_deployment_replicas sync_listed
  sync_configured client store = do
    replicas ← reads read_machine_deployment_replicas
    nodes ← reads (λ w. api_failure (client.list_nodes w))
    sync_listed store replicas nodes

  sync_with :
      Option (KubeClient Q W) → Option (NodeScalingInventoryStore W) → Eff Error W (Unit {0})
  unfolding sync_configured
  sync_with none store w = (ok tt, w)
  sync_with (some client) none w = (ok tt, w)
  sync_with (some client) (some store) w = sync_configured client store w

  unfoldable pub sync_scaling_node_inventory : Eff Error W (Unit {0})
  unfolding sync_with
  sync_scaling_node_inventory = sync_with deps.client deps.inventory_store

-- `syncRepoIfConfigured`, where there is a runtime.
unfoldable pub sync_repo_if_configured :
    {W : Type 0} → NodeScalingRuntime W → Eff Error W (Unit {0})
sync_repo_if_configured runtime w =
    if str_eq runtime.repo_url "" then (ok tt, w) else runtime.sync_repo w
