-- ===== src/Inventory.antt =====
-- internal/nodescaling/inventory.go: the pure part, which builds the inventory's spec and status and
-- selects nodes from it. pkg/scalerclient/apis/nodescalinginventory/v1/types.go: the data.
-- A Go map that is only asked for its keys is the list of its keys. `int32` values are integers
-- with their wrap-around written out; a slice's length is below 2^31, so `int32(len(...))` is exact
-- there and is wrapped all the same.
pub mod Order
pub mod Build
pub mod Rebuild
pub mod Selection
pub mod Find
pub mod Status
pub mod Store
use quotascale_controller.Prelude.{
  ℕ, suc, String, Option, none, some, Bool, true, false, not, ◌&&◌, ◌||◌, List, [], ◌∷◌, ◌++◌, map,
  if◌then◌else◌, length, select, any, count,
}
use quotascale_controller.Prelude.Int.{ℤ, pos, negsuc, ◌+ℤ◌, ltb_ℤ, leb_ℤ, ◌==ℤ◌, wrap32}
use quotascale_controller.Prelude.Text.{str_eq, str_ltb}
use quotascale_controller.Prelude.Sorting.{sort_stable}
use quotascale_controller.Effects.{Result, ok, err}

pub record NodeScalingInventoryNode : Type 0 where
  pub name : String
  pub order : ℤ  -- int32
  pub used : Bool

pub record NodeScalingInventorySpec : Type 0 where
  pub machine_deployment_replicas : ℤ  -- int32
  pub nodes : List NodeScalingInventoryNode

pub record NodeScalingInventoryStatus : Type 0 where
  pub desired : ℤ
  pub replicas : ℤ
  pub used : ℤ
  pub unused : ℤ

-- The type metadata and the object's name; the rest of the object's metadata is the API server's.
pub record NodeScalingInventory : Type 0 where
  pub api_version : String
  pub kind : String
  pub name : String
  pub spec : NodeScalingInventorySpec
  pub status : NodeScalingInventoryStatus

-- What `FindUnusedInventoryNodes` and its siblings return as errors.
pub data SelectError : Type 0 where
  inventory_is_nil no_unused_nodes no_used_nodes : SelectError

-- The `less` of the sorts by ascending order, ties by name.
unfoldable pub node_less : NodeScalingInventoryNode → NodeScalingInventoryNode → Bool
node_less a b = if a.order ==ℤ b.order then str_ltb a.name b.name else ltb_ℤ a.order b.order

-- The `less` of the sort by descending order.
unfoldable pub node_greater : NodeScalingInventoryNode → NodeScalingInventoryNode → Bool
node_greater a b = if a.order ==ℤ b.order then str_ltb b.name a.name else ltb_ℤ b.order a.order

abbrev pub elem_name : String → List String → Bool
elem_name s = any (λ n. str_eq n s)

abbrev pub has_name : String → NodeScalingInventoryNode → Bool
has_name s n = str_eq n.name s

-- The loop of `normalizeNodeNames`; `seen` is its map.
dedup_names : List String → List String → List String
dedup_names seen [] = []
dedup_names seen (n ∷ ns) =
    let skip = str_eq n "" || elem_name n seen in
    let rest = dedup_names (if skip then seen else n ∷ seen) ns in if skip then rest else n ∷ rest

unfoldable pub normalize_node_names : List String → List String
unfolding dedup_names
normalize_node_names names = sort_stable str_ltb (dedup_names [] names)

-- The first loop of `BuildNodeScalingInventorySpec`: the entries that have a name, and the highest
-- order among them, which starts at 0.
unfoldable pub existing_nodes : List NodeScalingInventoryNode → List NodeScalingInventoryNode
existing_nodes = select (λ n. not (str_eq n.name ""))

-- The entries whose name is observed.
unfoldable pub retained_nodes :
    List String → List NodeScalingInventoryNode → List NodeScalingInventoryNode
retained_nodes observed = select (λ n. elem_name n.name observed)

unfoldable pub max_order_from : ℤ → List NodeScalingInventoryNode → ℤ
max_order_from m [] = m
max_order_from m (n ∷ ns) = max_order_from (if ltb_ℤ m n.order then n.order else m) ns

-- The loop that adds an unused entry for each observed name that has none yet.
unfoldable pub new_nodes : List String → ℤ → List String → List NodeScalingInventoryNode
new_nodes known max_order [] = []
new_nodes known max_order (n ∷ ns) =
    let present = elem_name n known in
    let next = if present then max_order else wrap32 (max_order +ℤ pos 1) in
    let rest = new_nodes known next ns in
    if present then rest else record { name = n; order = next; used = false } ∷ rest

unfoldable pub build_node_scaling_inventory_spec :
    NodeScalingInventorySpec → ℤ → List String → NodeScalingInventorySpec
build_node_scaling_inventory_spec existing replicas node_names =
    let named = existing_nodes existing.nodes in
    let observed = normalize_node_names node_names in
    let added = new_nodes (map (λ n. n.name) named) (max_order_from (pos 0) named) observed in
    record {
      machine_deployment_replicas = replicas;
      nodes = sort_stable node_less (retained_nodes observed named ++ added);
    }

-- The loop of `BuildNodeScalingInventoryStatus`.
unfoldable pub tally :
    NodeScalingInventoryStatus → List NodeScalingInventoryNode → NodeScalingInventoryStatus
tally status [] = status
tally status (n ∷ ns) =
    tally
      (if n.used
        then record status { used = wrap32 (status.used +ℤ pos 1) }
        else record status { unused = wrap32 (status.unused +ℤ pos 1) })
      ns

unfoldable pub build_node_scaling_inventory_status :
    NodeScalingInventorySpec → NodeScalingInventoryStatus
unfolding tally
build_node_scaling_inventory_status spec =
    tally
      (record {
        desired = spec.machine_deployment_replicas;
        replicas = wrap32 (pos (length spec.nodes));
        used = pos 0;
        unused = pos 0;
      })
      spec.nodes

-- The selection loops: each entry that passes is appended, and the loop ends at the limit.
unfoldable pub collect {ℓ κ} :
    {A : Type ℓ} {B : Type κ} → (A → Bool) → (A → B) → ℤ → List B → List A → List B
collect test f limit selected [] = selected
collect test f limit selected (x ∷ xs) = elim (test x) [
  | false ↦ collect test f limit selected xs
  | true ↦ elim (pos (length (selected ++ f x ∷ [])) ==ℤ limit) [
    | true ↦ selected ++ f x ∷ []
    | false ↦ collect test f limit (selected ++ f x ∷ []) xs
  ]
]

-- `if len(selected) == 0 { return nil, error }`
unfoldable pub or_none_left : {A : Type 0} → SelectError → List A → Result SelectError (List A)
or_none_left e [] = err e
or_none_left e (x ∷ xs) = ok (x ∷ xs)

unfoldable pub find_unused_inventory_nodes :
    Option NodeScalingInventory → ℤ → Result SelectError (List NodeScalingInventoryNode)
unfolding collect or_none_left
find_unused_inventory_nodes none limit = err inventory_is_nil
find_unused_inventory_nodes (some inventory) limit =
    if leb_ℤ limit (pos 0)
    then ok []
    else or_none_left no_unused_nodes
        (collect (λ n. not n.used) (λ n. n) limit [] (sort_stable node_less inventory.spec.nodes))

unfoldable pub find_highest_order_used_inventory_nodes :
    Option NodeScalingInventory → ℤ → Result SelectError (List NodeScalingInventoryNode)
unfolding collect or_none_left
find_highest_order_used_inventory_nodes none limit = err inventory_is_nil
find_highest_order_used_inventory_nodes (some inventory) limit =
    if leb_ℤ limit (pos 0)
    then ok []
    else or_none_left no_used_nodes
        (collect (λ n. n.used) (λ n. n) limit [] (sort_stable node_greater inventory.spec.nodes))

-- `&nodes[0]`: the slice of a successful search with limit 1 is not empty.
abbrev first_node :
    Result SelectError (List NodeScalingInventoryNode)
    → Option (Result SelectError NodeScalingInventoryNode)
first_node (ok (n ∷ ns)) = some (ok n)
first_node (ok []) = none
first_node (err e) = some (err e)

-- `none` stands for the panic of `nodes[0]` on an empty slice.
unfoldable pub find_first_unused_inventory_node :
    Option NodeScalingInventory → Option (Result SelectError NodeScalingInventoryNode)
find_first_unused_inventory_node inventory =
    first_node (find_unused_inventory_nodes inventory (pos 1))

unfoldable pub find_highest_order_used_inventory_node :
    Option NodeScalingInventory → Option (Result SelectError NodeScalingInventoryNode)
find_highest_order_used_inventory_node inventory =
    first_node (find_highest_order_used_inventory_nodes inventory (pos 1))

unfoldable pub count_unused_inventory_nodes : Option NodeScalingInventory → ℕ
count_unused_inventory_nodes none = 0
count_unused_inventory_nodes (some inventory) = count (λ n. not n.used) inventory.spec.nodes

unfoldable pub count_used_inventory_nodes : Option NodeScalingInventory → ℕ
count_used_inventory_nodes none = 0
count_used_inventory_nodes (some inventory) = count (λ n. n.used) inventory.spec.nodes
