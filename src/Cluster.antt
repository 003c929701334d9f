-- ===== src/Cluster.antt =====
-- The Kubernetes objects that the sources read and write, with the fields that they use, and the
-- client as an interface. Kubernetes' own code is not part of the repository: quantities and the
-- client are parameters, with what their documentation promises as records of laws.
pub mod Maps
use quotascale_controller.Prelude.{
  String, Option, none, some, Bool, true, false, List, [], ◌∷◌, ◌≡◌, ◌||◌, ◌&&◌, any, if◌then◌else◌,
}
use quotascale_controller.Prelude.Int.{ℤ, pos}
use quotascale_controller.Prelude.Text.{str_eq}
use quotascale_controller.Effects.{Result, Eff}
use quotascale_controller.Failure.{ApiError}

pub data Scale : Type 0 where
  milli mega giga : Scale

-- `resource.Quantity`. `scaled_value` rounds up; `greater a b` is `a.Cmp(b) > 0`.
pub record Quantities (Q : Type 0) : Type 0 where
  pub zero : Q
  pub parse_quantity : String → Option Q
  pub scaled_value : Q → Scale → ℤ
  pub add : Q → Q → Q
  pub greater : Q → Q → Bool

-- A Go map with string keys, which has each key once at most.
abbrev pub Map : Type 0 → Type 0
Map V = List (String × V)

module _ {V : Type 0} where
  unfoldable pub lookup : String → Map V → Option V
  lookup k [] = none
  lookup k ((j, v) ∷ m) = if str_eq j k then some v else lookup k m

  -- `_, ok := m[k]`
  unfoldable pub has_key : String → Map V → Bool
  unfolding lookup
  has_key k m = elim (lookup k m) [ none ↦ false | some v ↦ true ]

  -- `m[k] = v`
  unfoldable pub insert : String → V → Map V → Map V
  insert k v [] = (k, v) ∷ []
  insert k v ((j, w) ∷ m) = if str_eq j k then (k, v) ∷ m else (j, w) ∷ insert k v m

  -- `delete(m, k)`
  unfoldable pub delete : String → Map V → Map V
  delete k [] = []
  delete k ((j, v) ∷ m) = let rest = delete k m in if str_eq j k then rest else (j, v) ∷ rest

abbrev pub ResourceList : Type 0 → Type 0
ResourceList Q = Map Q

-- `list.Cpu()` and `list.Memory()`: the zero quantity where the key is missing.
unfoldable pub quantity_of : {Q : Type 0} → Quantities Q → String → ResourceList Q → Q
quantity_of q key list = elim (lookup key list) [ none ↦ q.zero | some v ↦ v ]

pub data TaintEffect : Type 0 where
  no_schedule prefer_no_schedule no_execute : TaintEffect

pub record Taint : Type 0 where
  pub key : String
  pub effect : TaintEffect

pub record Node (Q : Type 0) : Type 0 where
  pub name : String
  pub labels : Map String
  pub taints : List Taint
  pub unschedulable : Bool
  pub allocatable : ResourceList Q

pub data PodPhase : Type 0 where
  pending running succeeded failed unknown : PodPhase

-- `none` is a nil map of a container's requests or limits.
pub record Container (Q : Type 0) : Type 0 where
  pub requests : Option (ResourceList Q)
  pub limits : Option (ResourceList Q)

pub record PodSpec (Q : Type 0) : Type 0 where
  pub node_name : String
  pub containers : List (Container Q)
  pub init_containers : List (Container Q)

pub record Pod (Q : Type 0) : Type 0 where
  pub namespace : String
  pub labels : Map String
  pub annotations : Map String
  pub owner_kinds : List String
  pub being_deleted : Bool
  pub phase : PodPhase
  pub spec : PodSpec Q

-- The calls of `kubernetes.Interface` that the sources make on nodes and pods. A list or a read
-- leaves the cluster as it is.
pub record KubeClient (Q W : Type 0) : Type 0 where
  pub list_nodes : W → Result ApiError (List (Node Q))
  pub get_node : String → W → Result ApiError (Node Q)
  pub update_node : Node Q → Eff ApiError W (Unit {0})
  pub list_pods : W → Result ApiError (List (Pod Q))

-- `controller` is false where the field is nil.
pub record OwnerReference : Type 0 where
  pub api_version : String
  pub kind : String
  pub name : String
  pub uid : String
  pub controller : Bool

-- A `ResourceQuota`: `none` is a nil map in its status.
pub record ResourceQuota (Q : Type 0) : Type 0 where
  pub namespace : String
  pub name : String
  pub hard : ResourceList Q
  pub status_hard : Option (ResourceList Q)
  pub status_used : Option (ResourceList Q)
  pub owner_references : List OwnerReference

-- The calls on quotas of a namespace: a read by namespace and name, and a creation, which gives back
-- the object as the server has it.
pub record QuotaClient (Q W : Type 0) : Type 0 where
  pub get_quota : String → String → W → Result ApiError (ResourceQuota Q)
  pub create_quota : ResourceQuota Q → Eff ApiError W (ResourceQuota Q)
