-- ===== src/Inventory/Store.antt =====
-- internal/nodescaling/inventory.go: the interface `NodeScalingInventoryStore` and its implementation
-- over the cluster. The dynamic client, with the conversions to and from unstructured objects, is a
-- parameter: `W` is all that lies behind it.
pub mod Laws
use quotascale_controller.Prelude.{
  String, Option, none, some, Bool, true, false, List, [], ◌∷◌, ◌≡◌, if◌then◌else◌,
}
use quotascale_controller.Prelude.Int.{ℤ}
use quotascale_controller.Prelude.Text.{str_eq}
use quotascale_controller.Effects.{Result, ok, err, Eff, ◌>>=◌, pure, raise, reads}
use quotascale_controller.Failure.{Error, ApiError, not_found, api, inventory_node_not_found}
use quotascale_controller.Inventory.{
  NodeScalingInventory, NodeScalingInventoryNode, NodeScalingInventorySpec,
  build_node_scaling_inventory_spec, build_node_scaling_inventory_status,
}

pub record NodeScalingInventoryStore (W : Type 0) : Type 0 where
  pub sync : ℤ → List String → Eff Error W (Unit {0})
  pub get : W → Result Error NodeScalingInventory
  pub mark_node_used : String → Eff Error W (Unit {0})
  pub mark_node_unused : String → Eff Error W (Unit {0})
  pub update_machine_deployment_replicas : ℤ → Eff Error W (Unit {0})

-- `Resource(nodeScalingInventoryGVR)` of the dynamic client.
pub record InventoryClient (W : Type 0) : Type 0 where
  pub get : String → W → Result ApiError NodeScalingInventory
  pub update : NodeScalingInventory → Eff ApiError W (Unit {0})
  pub create : NodeScalingInventory → Eff ApiError W (Unit {0})

-- What the API server documents: an object that was written is read back.
pub record StoresObjects {W : Type 0} (client : InventoryClient W) : Type 0 where
  pub get-update :
      (inventory : NodeScalingInventory) (w : W)
      → (client.update inventory w).0 ≡ ok tt
      → client.get inventory.name (client.update inventory w).1 ≡ ok inventory
  pub get-create :
      (inventory : NodeScalingInventory) (w : W)
      → (client.create inventory w).0 ≡ ok tt
      → client.get inventory.name (client.create inventory w).1 ≡ ok inventory
  -- An object carries the name under which it is read.
  pub get_name :
      (name : String) (w : W) (inventory : NodeScalingInventory)
      → client.get name w ≡ ok inventory
      → inventory.name ≡ name

unfoldable pub default_node_scaling_inventory_name : String
default_node_scaling_inventory_name = "default"

abbrev pub api_failure : {A : Type 0} → Result ApiError A → Result Error A
api_failure (ok a) = ok a
api_failure (err e) = err (api e)

abbrev pub api_effect : {W A : Type 0} → Eff ApiError W A → Eff Error W A
api_effect m w = (api_failure (m w).0, (m w).1)

-- The loop of `updateNodeUsage`: the first entry of that name gets the flag; `none` if there is none.
unfoldable pub set_node_used :
    String → Bool → List NodeScalingInventoryNode → Option (List NodeScalingInventoryNode)
set_node_used name used [] = none
set_node_used name used (n ∷ ns) =
    if str_eq n.name name
    then some (record n { used = used } ∷ ns)
    else elim (set_node_used name used ns) [ none ↦ none | some rest ↦ some (n ∷ rest) ]

-- The inventory with another spec, and the status that goes with it.
unfoldable pub with_spec : NodeScalingInventory → NodeScalingInventorySpec → NodeScalingInventory
with_spec inventory spec = record inventory {
  spec = spec;
  status = build_node_scaling_inventory_status spec;
}

module _ {W : Type 0} (client : InventoryClient W) (inventory_name : String) where
  unfoldable pub get : W → Result Error NodeScalingInventory
  get w = api_failure (client.get inventory_name w)

  unfoldable pub update : NodeScalingInventory → Eff Error W (Unit {0})
  update inventory = api_effect (client.update inventory)

  unfoldable pub create : ℤ → List String → Eff Error W (Unit {0})
  create replicas node_names =
      let spec =
        build_node_scaling_inventory_spec
          (record { machine_deployment_replicas = ℤ.pos 0; nodes = [] }) replicas node_names in
      api_effect (
        client.create (record {
          api_version = "dcn.ssu.ac.kr/v1";
          kind = "NodeScalingInventory";
          name = inventory_name;
          spec = spec;
          status = build_node_scaling_inventory_status spec;
        }))

  -- `Sync`, after its read.
  unfoldable pub sync_result :
      ℤ → List String → Result Error NodeScalingInventory → Eff Error W (Unit {0})
  unfolding update create with_spec
  sync_result replicas node_names (err (api not_found)) = create replicas node_names
  sync_result replicas node_names (err e) = raise e
  sync_result replicas node_names (ok inventory) = update (
      with_spec
        (record inventory { api_version = "dcn.ssu.ac.kr/v1"; kind = "NodeScalingInventory" })
        (build_node_scaling_inventory_spec inventory.spec replicas node_names))

  unfoldable pub sync : ℤ → List String → Eff Error W (Unit {0})
  unfolding sync_result get
  sync replicas node_names w = sync_result replicas node_names (get w) w

  -- `updateNodeUsage`, after its loop.
  unfoldable pub store_usage :
      NodeScalingInventory
      → String
      → Option (List NodeScalingInventoryNode)
      → Eff Error W (Unit {0})
  unfolding update with_spec
  store_usage inventory name none = raise (inventory_node_not_found name)
  store_usage inventory name (some nodes) =
      update (with_spec inventory (record inventory.spec { nodes = nodes }))

  unfoldable pub update_node_usage : String → Bool → Eff Error W (Unit {0})
  unfolding get store_usage
  update_node_usage name used = do
    inventory ← reads get
    store_usage inventory name (set_node_used name used inventory.spec.nodes)

  unfoldable pub mark_node_used : String → Eff Error W (Unit {0})
  unfolding update_node_usage
  mark_node_used name = update_node_usage name true

  unfoldable pub mark_node_unused : String → Eff Error W (Unit {0})
  unfolding update_node_usage
  mark_node_unused name = update_node_usage name false

  unfoldable pub update_machine_deployment_replicas : ℤ → Eff Error W (Unit {0})
  unfolding get update with_spec
  update_machine_deployment_replicas replicas = do
    inventory ← reads get
    update (with_spec inventory (record inventory.spec { machine_deployment_replicas = replicas }))

-- `NewKubernetesNodeScalingInventoryStore`, as the interface that the controller takes.
unfoldable pub kubernetes_node_scaling_inventory_store :
    {W : Type 0} → InventoryClient W → NodeScalingInventoryStore W
kubernetes_node_scaling_inventory_store client = record {
  sync = sync client default_node_scaling_inventory_name;
  get = get client default_node_scaling_inventory_name;
  mark_node_used = mark_node_used client default_node_scaling_inventory_name;
  mark_node_unused = mark_node_unused client default_node_scaling_inventory_name;
  update_machine_deployment_replicas =
      update_machine_deployment_replicas client default_node_scaling_inventory_name;
}
