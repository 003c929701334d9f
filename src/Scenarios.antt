-- ===== src/Scenarios.antt =====
-- A small cluster and repository, for the runs of the modules below: one node, one inventory, a
-- manifest, and quantities that are plain numbers.
pub mod Inventories
pub mod Scaling
pub mod Quotas
pub mod Resizes
pub mod Repositories
pub mod Updates
pub mod Registrations
pub mod Running
use quotascale_controller.Prelude.{
  String, Option, none, some, Bool, true, false, List, [], ◌∷◌, ◌≡◌, refl, sym, ap, ◌∙◌, arith, inl,
  inr, if◌then◌else◌, Bool-cases, Option-cases,
}
use quotascale_controller.Prelude.Int.{ℤ, pos, ◌+ℤ◌, ltb_ℤ}
use quotascale_controller.Prelude.Text.{str_eq, str_eq_iff}
use quotascale_controller.Effects.{Result, ok, err, Eff}
use quotascale_controller.Failure.{Error, ApiError, not_found, api}
use quotascale_controller.Inventory.{
  NodeScalingInventory, NodeScalingInventoryNode, NodeScalingInventorySpec,
  build_node_scaling_inventory_status,
}
use quotascale_controller.Inventory.Store.{
  NodeScalingInventoryStore, InventoryClient, StoresObjects,
}
use quotascale_controller.Cluster.{Quantities, Scale, Node, KubeClient}
use quotascale_controller.NodeScaling.{NodeScalingRuntime}

pub record World : Type 0 where
  pub inventory : Option NodeScalingInventory
  pub manifest : ℤ
  pub node : Node ℤ
  pub now : ℤ

abbrev pub q : Quantities ℤ
q = record {
  zero = pos 0;
  parse_quantity = λ s. none;
  scaled_value = λ v s. v;
  add = λ a b. a +ℤ b;
  greater = λ a b. ltb_ℤ b a;
}

-- The cluster with the one node and no pod.
abbrev pub client : KubeClient ℤ World
client = record {
  list_nodes = λ w. ok (w.node ∷ []);
  get_node = λ name w. ok w.node;
  update_node = λ n w. (ok tt, record w { node = n });
  list_pods = λ w. ok [];
}

abbrev pick : Bool → NodeScalingInventory → Result ApiError NodeScalingInventory
pick true i = ok i
pick false i = err not_found

abbrev found : String → Option NodeScalingInventory → Result ApiError NodeScalingInventory
found name none = err not_found
found name (some i) = pick (str_eq i.name name) i

abbrev pub inventory_client : InventoryClient World
inventory_client = record {
  get = λ name w. found name w.inventory;
  update = λ i w. (ok tt, record w { inventory = some i });
  create = λ i w. (ok tt, record w { inventory = some i });
}

found_itself : (i : NodeScalingInventory) → found i.name (some i) ≡ ok i
found_itself i = rw ((str_eq_iff i.name i.name).1 refl) refl

pick_name :
    (b : Bool) (name : String) (j i : NodeScalingInventory)
    → str_eq j.name name ≡ b
    → pick b j ≡ ok i
    → i.name ≡ name
pick_name true name j i e h =
    sym (ap (λ r. elim r [ ok x ↦ x.name | err _ ↦ i.name ]) h) ∙ (str_eq_iff j.name name).0 e
pick_name false name j i e h = cc

found_name :
    (name : String) (o : Option NodeScalingInventory) (i : NodeScalingInventory)
    → found name o ≡ ok i
    → i.name ≡ name
found_name name none i h = cc
found_name name (some j) i h = pick_name (str_eq j.name name) name j i refl h

pub laws : StoresObjects inventory_client
laws = record {
  get-update = λ i w h. found_itself i;
  get-create = λ i w h. found_itself i;
  get_name = λ name w i h. found_name name w.inventory i h;
}

-- A store that only reads, and a repository whose working copy is the manifest.
abbrev pub read : World → Result Error NodeScalingInventory
read w = elim w.inventory [ none ↦ err (api not_found) | some i ↦ ok i ]

abbrev pub store : NodeScalingInventoryStore World
store = record {
  sync = λ replicas names w. (ok tt, w);
  get = read;
  mark_node_used = λ name w. (ok tt, w);
  mark_node_unused = λ name w. (ok tt, w);
  update_machine_deployment_replicas = λ replicas w. (ok tt, w);
}

abbrev pub runtime : NodeScalingRuntime World
runtime = record {
  repo_url = "https://git.example/cluster";
  sync_repo = λ w. (ok tt, w);
  read_machine_deployment_replicas = λ w. ok w.manifest;
  write_machine_deployment_replicas = λ n w. (ok tt, record w { manifest = n });
  commit_and_push = λ m w. (ok tt, w);
}

abbrev pub nodes : List NodeScalingInventoryNode
nodes =
    record { name = "b"; order = pos 2; used = true }
    ∷ record { name = "a"; order = pos 1; used = false }
    ∷ []

abbrev pub existing : NodeScalingInventorySpec
existing = record { machine_deployment_replicas = pos 2; nodes = nodes }

abbrev pub inventory : NodeScalingInventory
inventory = record {
  api_version = "dcn.ssu.ac.kr/v1";
  kind = "NodeScalingInventory";
  name = "default";
  spec = existing;
  status = record { desired = pos 2; replicas = pos 2; used = pos 1; unused = pos 1 };
}

abbrev pub node : Node ℤ
node = record {
  name = "b";
  labels = ("role", "scaling") ∷ ("node-role.kubernetes.io/scaling", "") ∷ ("zone", "z1") ∷ [];
  taints =
      record {
        key = "node-role.kubernetes.io/scaling";
        effect = quotascale_controller.Cluster.TaintEffect.no_schedule;
      }
      ∷ [];
  unschedulable = false;
  allocatable = ("cpu", pos 4000) ∷ ("memory", pos 8000) ∷ [];
}

abbrev pub w : World
w = record { inventory = some inventory; manifest = pos 2; node = node; now = pos 400000000000 }
