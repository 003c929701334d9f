-- ===== src/Inventory/Build.antt =====
-- What `BuildNodeScalingInventorySpec` makes of the old spec and the observed node names.
use quotascale_controller.Prelude.{
  ℕ, ◌+◌, ◌≡◌, refl, ◌∙◌, inl, inr, String, Bool, true, false, not, ◌&&◌, List, [], ◌∷◌, map, arith,
  if◌then◌else◌, any, count, count-append, Bool-cases, any_iff_count,
}
use quotascale_controller.Prelude.Int.{ℤ, pos, wrap32, ◌+ℤ◌}
use quotascale_controller.Prelude.Text.{str_eq, str_eq_iff, str_ltb}
use quotascale_controller.Prelude.Sorting.{count-sort_stable}
use quotascale_controller.Inventory.{
  NodeScalingInventoryNode, NodeScalingInventorySpec, node_less, elem_name, has_name, dedup_names,
  normalize_node_names, existing_nodes, retained_nodes, new_nodes, max_order_from,
  build_node_scaling_inventory_spec,
}

abbrev count_name : String → List String → ℕ
count_name s = count (λ n. str_eq n s)

-- A name is kept once, unless it is empty or was seen before.
count-dedup_names :
    (s : String) (seen names : List String)
    → count_name s (dedup_names seen names)
      ≡ (if not (str_eq s "") && elem_name s names && not (elem_name s seen) then 1 else 0)
unfolding dedup_names
count-dedup_names s seen [] = ground arith
count-dedup_names s seen (n ∷ ns) =
    ground (arith, str_eq_iff n s, count-dedup_names s seen ns, count-dedup_names s (n ∷ seen) ns)

pub count-normalize_node_names :
    (s : String) (names : List String)
    → count_name s (normalize_node_names names)
      ≡ (if not (str_eq s "") && elem_name s names then 1 else 0)
unfolding normalize_node_names
count-normalize_node_names s names = ground (
  arith,
  count-sort_stable str_ltb (λ n. str_eq n s) (dedup_names [] names),
  count-dedup_names s [] names,
)

-- The normalized names are the observed ones but for the empty name.
pub elem-normalize_node_names :
    (s : String) (names : List String)
    → elem_name s (normalize_node_names names) ≡ (not (str_eq s "") && elem_name s names)
elem-normalize_node_names s names = ground (
  arith,
  any_iff_count (λ n. str_eq n s) (normalize_node_names names),
  count-normalize_node_names s names,
)

-- A selection by name keeps all or none of the entries that have one name and whatever else `p` says.
module _ (s : String) (p : NodeScalingInventoryNode → Bool)
    (named : (n : NodeScalingInventoryNode) → p n ≡ true → str_eq n.name s ≡ true) where
  count-retained_nodes :
      (observed : List String) (xs : List NodeScalingInventoryNode)
      → count p (retained_nodes observed xs) ≡ (if elem_name s observed then count p xs else 0)
  unfolding retained_nodes
  count-retained_nodes observed [] = ground arith
  count-retained_nodes observed (x ∷ xs) =
      ground (arith, named x, str_eq_iff x.name s, count-retained_nodes observed xs)

  count-existing_nodes :
      (xs : List NodeScalingInventoryNode)
      → count p (existing_nodes xs) ≡ (if not (str_eq s "") then count p xs else 0)
  unfolding existing_nodes
  count-existing_nodes [] = ground arith
  count-existing_nodes (x ∷ xs) =
      ground (arith, named x, str_eq_iff x.name s, count-existing_nodes xs)

  -- A known name gets no new entry.
  count-new_nodes_known :
      (known : List String) (m : ℤ) (names : List String)
      → elem_name s known ≡ true
      → count p (new_nodes known m names) ≡ 0
  unfolding new_nodes
  count-new_nodes_known known m [] h = refl
  count-new_nodes_known known m (n ∷ ns) h =
      let next = wrap32 (m +ℤ pos 1) in
      ground (
        arith,
        str_eq_iff n s,
        named (record { name = n; order = next; used = false }),
        count-new_nodes_known known m ns h,
        count-new_nodes_known known next ns h,
      )

  -- Nor does a name that is not observed.
  count-new_nodes_unobserved :
      (known : List String) (m : ℤ) (names : List String)
      → elem_name s names ≡ false
      → count p (new_nodes known m names) ≡ 0
  unfolding new_nodes
  count-new_nodes_unobserved known m [] h = refl
  count-new_nodes_unobserved known m (n ∷ ns) h =
      let next = wrap32 (m +ℤ pos 1) in
      ground (
        arith,
        str_eq_iff n s,
        named (record { name = n; order = next; used = false }),
        count-new_nodes_unobserved known m ns,
        count-new_nodes_unobserved known next ns,
      )

pub elem-map_name :
    (s : String) (xs : List NodeScalingInventoryNode)
    → elem_name s (map (λ n. n.name) xs) ≡ any (has_name s) xs
elem-map_name s [] = refl
elem-map_name s (x ∷ xs) = ground (arith, elem-map_name s xs)

count-new_nodes :
    (s : String) (known : List String) (m : ℤ) (names : List String)
    → elem_name s known ≡ false
    → count (has_name s) (new_nodes known m names) ≡ count_name s names
unfolding new_nodes
count-new_nodes s known m [] h = refl
count-new_nodes s known m (n ∷ ns) h = ground (
  arith,
  str_eq_iff n s,
  count-new_nodes s known m ns h,
  count-new_nodes s known (wrap32 (m +ℤ pos 1)) ns h,
)

any-existing_nodes :
    (s : String) (xs : List NodeScalingInventoryNode)
    → any (has_name s) (existing_nodes xs) ≡ (not (str_eq s "") && any (has_name s) xs)
unfolding existing_nodes
any-existing_nodes s [] = ground arith
any-existing_nodes s (x ∷ xs) = ground (arith, str_eq_iff x.name s, any-existing_nodes s xs)

abbrev added_nodes : NodeScalingInventorySpec → List String → List NodeScalingInventoryNode
added_nodes existing names =
    let named = existing_nodes existing.nodes in
    new_nodes (map (λ n. n.name) named) (max_order_from (pos 0) named) (normalize_node_names names)

-- The entries of one name after a rebuild: those from before, if it is observed, and the added ones.
count-rebuilt :
    (existing : NodeScalingInventorySpec) (replicas : ℤ) (names : List String) (s : String)
    (p : NodeScalingInventoryNode → Bool)
    → ((n : NodeScalingInventoryNode) → p n ≡ true → str_eq n.name s ≡ true)
    → count p (build_node_scaling_inventory_spec existing replicas names).nodes
      ≡ (if not (str_eq s "") && elem_name s names then count p existing.nodes else 0)
        + count p (added_nodes existing names)
unfolding build_node_scaling_inventory_spec
count-rebuilt existing replicas names s p named =
    rw
      (
        count-sort_stable node_less p _,
        count-append p _ _,
        count-retained_nodes s p named (normalize_node_names names) _,
        count-existing_nodes s p named existing.nodes,
        elem-normalize_node_names s names,
      )
      (ground arith)

known-added :
    (existing : NodeScalingInventorySpec) (s : String)
    → elem_name s (map (λ n. n.name) (existing_nodes existing.nodes))
      ≡ (not (str_eq s "") && any (has_name s) existing.nodes)
known-added existing s =
    elem-map_name s (existing_nodes existing.nodes) ∙ any-existing_nodes s existing.nodes

-- A name that was not tracked is added once if it is observed and not empty.
count-added_nodes :
    (existing : NodeScalingInventorySpec) (names : List String) (s : String)
    → any (has_name s) existing.nodes ≡ false
    → count (has_name s) (added_nodes existing names)
      ≡ (if not (str_eq s "") && elem_name s names then 1 else 0)
count-added_nodes existing names s h =
    count-new_nodes s _ _ (normalize_node_names names)
      (known-added existing s ∙ rw h (ground arith))
    ∙ count-normalize_node_names s names

-- A name that was tracked is not added.
count-added_nodes_tracked :
    (existing : NodeScalingInventorySpec) (names : List String) (s : String)
    (p : NodeScalingInventoryNode → Bool)
    → ((n : NodeScalingInventoryNode) → p n ≡ true → str_eq n.name s ≡ true)
    → any (has_name s) existing.nodes ≡ true
    → count p (added_nodes existing names) ≡ 0
count-added_nodes_tracked existing names s p named h = elim (Bool-cases (str_eq s "")) [
  | inl e ↦
      count-new_nodes_unobserved s p named _ _ (normalize_node_names names)
        (elem-normalize_node_names s names ∙ rw e refl)
  | inr e ↦
      count-new_nodes_known s p named _ _ (normalize_node_names names)
        (known-added existing s ∙ rw (e, h) refl)
]

-- How often a name is tracked after a rebuild: never unless it is observed and not empty; as often
-- as before if it was tracked; and once if it was not.
pub count-build_node_scaling_inventory_spec :
    (existing : NodeScalingInventorySpec) (replicas : ℤ) (names : List String) (s : String)
    → count (has_name s) (build_node_scaling_inventory_spec existing replicas names).nodes ≡ (
        if not (str_eq s "") && elem_name s names
        then (if any (has_name s) existing.nodes then count (has_name s) existing.nodes else 1)
        else 0)
count-build_node_scaling_inventory_spec existing replicas names s =
    rw (count-rebuilt existing replicas names s (has_name s) (λ n h. h))
      (elim (Bool-cases (any (has_name s) existing.nodes)) [
        | inl e ↦
            rw (e, count-added_nodes_tracked existing names s (has_name s) (λ n h. h) e)
              (omega arith)
        | inr e ↦ rw (e, count-added_nodes existing names s e, any-count_zero e) (ground arith)
      ])
  where
    any-count_zero : any (has_name s) existing.nodes ≡ false → count (has_name s) existing.nodes ≡ 0
    any-count_zero e = ground (arith, any_iff_count (has_name s) existing.nodes)

-- An entry that is tracked and still observed keeps its order and its use: whatever a test says of
-- the entries of that name, it says of as many of them after the rebuild as before.
pub build_node_scaling_inventory_spec_preserves :
    (existing : NodeScalingInventorySpec) (replicas : ℤ) (names : List String) (s : String)
    (p : NodeScalingInventoryNode → Bool)
    → any (has_name s) existing.nodes ≡ true
    → count
        (λ n. has_name s n && p n)
        (build_node_scaling_inventory_spec existing replicas names).nodes
      ≡ (if not (str_eq s "") && elem_name s names
          then count (λ n. has_name s n && p n) existing.nodes
          else 0)
build_node_scaling_inventory_spec_preserves existing replicas names s p h =
    count-rebuilt existing replicas names s _ head
    ∙ rw (count-added_nodes_tracked existing names s _ head h) (omega arith)
  where
    head : (n : NodeScalingInventoryNode) → (has_name s n && p n) ≡ true → str_eq n.name s ≡ true
    head n e = ground arith
