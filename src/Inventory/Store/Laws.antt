-- ===== src/Inventory/Store/Laws.antt =====
-- What the inventory store does to the stored object.
use quotascale_controller.Prelude.{
  ◌+◌, ◌≡◌, refl, sym, ap, subst, inl, inr, ◌≢◌, String, Option, none, some, Bool, false, List, [],
  ◌∷◌, arith, count, any, if◌then◌else◌, Bool-cases,
}
use quotascale_controller.Prelude.Int.{ℤ, pos}
use quotascale_controller.Effects.{Result, ok, err}
use quotascale_controller.Failure.{Error, api, not_found, inventory_node_not_found}
use quotascale_controller.Inventory.{
  NodeScalingInventory, NodeScalingInventoryNode, NodeScalingInventorySpec, has_name,
  build_node_scaling_inventory_spec, build_node_scaling_inventory_status,
}
use quotascale_controller.Inventory.Store.{
  InventoryClient, StoresObjects, api_failure, set_node_used, with_spec, get, update, create,
  update_node_usage, store_usage, sync, sync_result, update_machine_deployment_replicas,
}

-- The loop finds a node exactly when one has the name.
set_node_used-none :
    (name : String) (used : Bool) (nodes : List NodeScalingInventoryNode)
    → any (has_name name) nodes ≡ false
    → set_node_used name used nodes ≡ none
unfolding set_node_used
set_node_used-none name used [] h = refl
set_node_used-none name used (n ∷ ns) h = ground (arith, set_node_used-none name used ns)

-- What the loop does to the entries that a test counts: those of other names stay, and of the named
-- ones the first is counted with its new flag.
abbrev pub first_named : String → List NodeScalingInventoryNode → Option NodeScalingInventoryNode
first_named name [] = none
first_named name (n ∷ ns) =
    let rest = first_named name ns in if has_name name n then some n else rest

set_node_used-first :
    (name : String) (used : Bool) (nodes : List NodeScalingInventoryNode)
    (n : NodeScalingInventoryNode)
    → first_named name nodes ≡ some n
    → (rest : List NodeScalingInventoryNode) × (set_node_used name used nodes ≡ some rest)
      × ((p : NodeScalingInventoryNode → Bool)
          → count p rest + (if p n then 1 else 0)
            ≡ count p nodes + (if p (record n { used = used }) then 1 else 0))
unfolding set_node_used
set_node_used-first name used [] n h = cc
set_node_used-first name used (m ∷ ms) n h = elim (Bool-cases (has_name name m)) [
  | inl e ↦ (record m { used = used } ∷ ms, ground arith, λ p. ground arith)
  | inr e ↦
      let (rest, found, counted) = set_node_used-first name used ms n (ground arith) in
      (m ∷ rest, ground arith, λ p. ground (arith, counted p))
]

-- What the store holds: an inventory whose status is that of its spec.
abbrev pub Holds : {W : Type 0} → InventoryClient W → String → W → NodeScalingInventorySpec → Type 0
Holds client name w spec =
    (inventory : NodeScalingInventory) × (get client name w ≡ ok inventory)
    × (inventory.spec ≡ spec)
    × (inventory.status ≡ build_node_scaling_inventory_status spec)

module _ {W : Type 0} (client : InventoryClient W) (laws : StoresObjects client)
    (name : String) where
  ok-api_failure : {A : Type 0} (r : _) (a : A) → api_failure r ≡ ok a → r ≡ ok a
  ok-api_failure (ok b) a e = cc
  ok-api_failure (err b) a e = cc

  update-Holds :
      (inventory : NodeScalingInventory) (spec : NodeScalingInventorySpec) (w : W)
      → inventory.name ≡ name
      → (update client name (with_spec inventory spec) w).0 ≡ ok tt
      → Holds client name (update client name (with_spec inventory spec) w).1 spec
  unfolding update get with_spec
  update-Holds inventory spec w n e = (stored, found, refl, refl)
    where
      stored : NodeScalingInventory
      stored = with_spec inventory spec

      found : api_failure (client.get name (client.update stored w).1) ≡ ok stored
      found = ap api_failure (
          subst (λ k. client.get k (client.update stored w).1 ≡ ok stored) n
            (laws.get-update stored w (ok-api_failure _ tt e)))

  get_name :
      (w : W) (inventory : NodeScalingInventory)
      → get client name w ≡ ok inventory
      → inventory.name ≡ name
  unfolding get
  get_name w inventory e = laws.get_name name w inventory (ok-api_failure _ inventory e)

  -- A name that is not tracked: an error, and nothing is written.
  update_node_usage_untracked :
      (node : String) (used : Bool) (w : W) (inventory : NodeScalingInventory)
      → get client name w ≡ ok inventory
      → any (has_name node) inventory.spec.nodes ≡ false
      → update_node_usage client name node used w ≡ (err (inventory_node_not_found node), w)
  unfolding update_node_usage
  update_node_usage_untracked node used w inventory g h =
      rw (g, set_node_used-none node used inventory.spec.nodes h, store_usage) refl

  -- A tracked name: if the write succeeds, the store then holds the old replicas and nodes in which
  -- the first entry of that name has the new flag and every other entry is as it was, with the
  -- status of that spec. "As it was" is said by counts: for every test on entries.
  pub update_node_usage_tracked :
      (node : String) (used : Bool) (w : W) (inventory : NodeScalingInventory)
      (n : NodeScalingInventoryNode)
      → get client name w ≡ ok inventory
      → first_named node inventory.spec.nodes ≡ some n
      → (update_node_usage client name node used w).0 ≡ ok tt
      → (nodes : List NodeScalingInventoryNode) × Holds client name
          (update_node_usage client name node used w).1
          (record inventory.spec { nodes = nodes })
        × ((p : NodeScalingInventoryNode → Bool)
            → count p nodes + (if p n then 1 else 0)
              ≡ count p inventory.spec.nodes + (if p (record n { used = used }) then 1 else 0))
  unfolding update_node_usage
  update_node_usage_tracked node used w inventory n g f e =
      let (nodes, found, counted) = set_node_used-first node used inventory.spec.nodes n f in
      let written = usage_written nodes found in
      (
        nodes,
        subst
            (λ (r : Result Error (Unit {0}) × W).
              Holds client name r.1 (record inventory.spec { nodes = nodes }))
            (sym written)
            (update-Holds inventory (record inventory.spec { nodes = nodes }) w
              (get_name w inventory g)
              (subst (λ (r : Result Error (Unit {0}) × W). r.0 ≡ ok tt) written e)),
        counted,
      )
    where
      usage_written :
          (nodes : List NodeScalingInventoryNode)
          → set_node_used node used inventory.spec.nodes ≡ some nodes
          → update_node_usage client name node used w
            ≡ update client name (with_spec inventory (record inventory.spec { nodes = nodes })) w
      usage_written nodes found = rw (g, found, store_usage) refl

  abbrev Leaves : NodeScalingInventorySpec → Result Error (Unit {0}) × W → Type 0
  Leaves spec r = r.0 ≡ ok tt → Holds client name r.1 spec

  create-Leaves :
      (replicas : ℤ) (node_names : List String) (w : W)
      → Leaves
          (build_node_scaling_inventory_spec
            (record { machine_deployment_replicas = pos 0; nodes = [] })
            replicas
            node_names)
          (create client name replicas node_names w)
  unfolding create get
  create-Leaves replicas node_names w e =
      (_, ap api_failure (laws.get-create _ w (ok-api_failure _ tt e)), refl, refl)

  sync_failed :
      (replicas : ℤ) (node_names : List String) (w : W) (e : Error)
      → e ≢ api not_found
      → sync_result client name replicas node_names (err e) w ≡ (err e, w)
  unfolding sync_result
  sync_failed replicas node_names w (api not_found) h = absurd (h refl)
  sync_failed replicas node_names w e h = refl

  tracked-Leaves :
      (replicas : ℤ) (node_names : List String) (w : W) (inventory : NodeScalingInventory)
      → get client name w ≡ ok inventory
      → Leaves
          (build_node_scaling_inventory_spec inventory.spec replicas node_names)
          (sync client name replicas node_names w)
  unfolding sync
  tracked-Leaves replicas node_names w inventory g =
      rw (g, sync_result)
        (update-Holds
          (record inventory { api_version = "dcn.ssu.ac.kr/v1"; kind = "NodeScalingInventory" }) _ w
          (get_name w inventory g))

  missing-Leaves :
      (replicas : ℤ) (node_names : List String) (w : W)
      → get client name w ≡ err (api not_found)
      → Leaves
          (build_node_scaling_inventory_spec
            (record { machine_deployment_replicas = pos 0; nodes = [] })
            replicas
            node_names)
          (sync client name replicas node_names w)
  unfolding sync
  missing-Leaves replicas node_names w g = rw (g, sync_result) (create-Leaves replicas node_names w)

  -- After a successful `Sync` of a stored inventory the store holds its rebuild for the observed names.
  pub sync_rebuilds :
      (replicas : ℤ) (node_names : List String) (w : W) (inventory : NodeScalingInventory)
      → get client name w ≡ ok inventory
      → (sync client name replicas node_names w).0 ≡ ok tt
      → Holds client name
          (sync client name replicas node_names w).1
          (build_node_scaling_inventory_spec inventory.spec replicas node_names)
  sync_rebuilds replicas node_names w inventory g e =
      tracked-Leaves replicas node_names w inventory g e

  -- After a successful `Sync` where there was no inventory the store holds one that is built from the
  -- empty spec.
  sync_creates :
      (replicas : ℤ) (node_names : List String) (w : W)
      → get client name w ≡ err (api not_found)
      → (sync client name replicas node_names w).0 ≡ ok tt
      → Holds client name (sync client name replicas node_names w).1 (
          build_node_scaling_inventory_spec
            (record { machine_deployment_replicas = pos 0; nodes = [] })
            replicas
            node_names)
  sync_creates replicas node_names w g e = missing-Leaves replicas node_names w g e

  -- A read that fails otherwise is the result of `Sync`, and nothing is written.
  sync_refuses :
      (replicas : ℤ) (node_names : List String) (w : W) (e : Error)
      → get client name w ≡ err e
      → e ≢ api not_found
      → sync client name replicas node_names w ≡ (err e, w)
  unfolding sync
  sync_refuses replicas node_names w e g h = rw g (sync_failed replicas node_names w e h)

  replicas-Leaves :
      (replicas : ℤ) (w : W) (inventory : NodeScalingInventory)
      → get client name w ≡ ok inventory
      → Leaves
          (record inventory.spec { machine_deployment_replicas = replicas })
          (update_machine_deployment_replicas client name replicas w)
  unfolding update_machine_deployment_replicas
  replicas-Leaves replicas w inventory g =
      rw g (update-Holds inventory _ w (get_name w inventory g))

  -- After a successful `UpdateMachineDeploymentReplicas` the store holds the same nodes with the new
  -- replicas.
  update_machine_deployment_replicas_lem :
      (replicas : ℤ) (w : W) (inventory : NodeScalingInventory)
      → get client name w ≡ ok inventory
      → (update_machine_deployment_replicas client name replicas w).0 ≡ ok tt
      → Holds client name
          (update_machine_deployment_replicas client name replicas w).1
          (record inventory.spec { machine_deployment_replicas = replicas })
  update_machine_deployment_replicas_lem replicas w inventory g e =
      replicas-Leaves replicas w inventory g e
