-- ===== src/Inventory/Rebuild.antt =====
-- The order of a rebuilt inventory, what a new entry looks like, and that a rebuild with the same
-- names changes nothing more.
use mathlib.Core.List.{append-nil}
use quotascale_controller.Prelude.{
  ◌+◌, ◌<◌, ◌^◌, ◌≡◌, refl, sym, ap, ◌∙◌, ◌⊎◌, inl, inr, String, true, false, List, [], ◌∷◌, ◌++◌,
  map, arith, if◌then◌else◌, select, any, Bool-cases, any_iff_count, All, All-append, All-imp,
  All-select, length,
}
use quotascale_controller.Prelude.Int.{
  ℤ, pos, pos_part, wrap32, ◌+ℤ◌, ◌≤ℤ◌, ◌<ℤ◌, ltb_ℤ, int_laws, wrap32_of_range,
}
use quotascale_controller.Prelude.Text.{str_eq, str_eq_iff}
use quotascale_controller.Prelude.Sorting.{
  sort_stable, IsOrdered, sort_stable-All, sort_stable_of_IsOrdered,
}
use quotascale_controller.Inventory.{
  NodeScalingInventoryNode, NodeScalingInventorySpec, node_less, elem_name, has_name,
  normalize_node_names, existing_nodes, retained_nodes, new_nodes, max_order_from,
  build_node_scaling_inventory_spec,
}
use quotascale_controller.Inventory.Order.{sort_less-IsOrdered, IsAscending, IsOrdered-IsAscending}
use quotascale_controller.Inventory.Build.{
  elem-normalize_node_names, count-build_node_scaling_inventory_spec, elem-map_name,
}

build_node_scaling_inventory_spec-IsOrdered :
    (existing : NodeScalingInventorySpec) (replicas : ℤ) (names : List String)
    → IsOrdered node_less (build_node_scaling_inventory_spec existing replicas names).nodes
unfolding build_node_scaling_inventory_spec
build_node_scaling_inventory_spec-IsOrdered existing replicas names = sort_less-IsOrdered _

-- The rebuilt list is in ascending order: an entry has a lower order than each one after it, or the same
-- order and a name that is not greater.
pub build_node_scaling_inventory_spec-IsAscending :
    (existing : NodeScalingInventorySpec) (replicas : ℤ) (names : List String)
    → IsAscending (build_node_scaling_inventory_spec existing replicas names).nodes
build_node_scaling_inventory_spec-IsAscending existing replicas names =
    IsOrdered-IsAscending _ (build_node_scaling_inventory_spec-IsOrdered existing replicas names)

-- `max_order_from` is a bound.
max_order_from-le : (m : ℤ) (xs : List NodeScalingInventoryNode) → m ≤ℤ max_order_from m xs
unfolding max_order_from
max_order_from-le m [] = omega arith
max_order_from-le m (x ∷ xs) = ground (arith, max_order_from-le m xs, max_order_from-le x.order xs)

max_order_from_bounds :
    (m : ℤ) (xs : List NodeScalingInventoryNode) (top : ℤ)
    → max_order_from m xs ≤ℤ top
    → All (λ n. n.order ≤ℤ top) xs
unfolding max_order_from
max_order_from_bounds m [] top h = tt
max_order_from_bounds m (x ∷ xs) top h =
    (ground (arith, max_order_from-le next xs), max_order_from_bounds next xs top h)
  where
    next : ℤ
    next = if ltb_ℤ m x.order then x.order else m

abbrev IsFresh : ℤ → NodeScalingInventoryNode → Type 0
IsFresh m n = (n.used ≡ false) × (m <ℤ n.order)

next_order : (m : ℤ) → pos 0 ≤ℤ m → pos_part m + 1 < 2 ^ 31 → wrap32 (m +ℤ pos 1) ≡ m +ℤ pos 1
next_order m p h = wrap32_of_range (m +ℤ pos 1) (omega int_laws)

new_nodes-IsFresh :
    (known : List String) (m : ℤ) (names : List String)
    → pos 0 ≤ℤ m
    → pos_part m + length names < 2 ^ 31
    → All (IsFresh m) (new_nodes known m names)
unfolding new_nodes
new_nodes-IsFresh known m [] p h = tt
new_nodes-IsFresh known m (n ∷ ns) p h = elim (Bool-cases (elem_name n known)) [
  | inl e ↦ rw e (new_nodes-IsFresh known m ns p (omega arith))
  | inr e ↦
      rw (e, next_order m p (omega arith))
        (
          (refl, omega int_laws),
          All-imp (IsFresh (m +ℤ pos 1)) _ (λ a q. (q.0, omega (int_laws, q.1)))
              (new_nodes-IsFresh known (m +ℤ pos 1) ns (omega int_laws) (omega int_laws)),
        )
]

-- Every entry of the rebuilt list is one of a tracked name, or it is unused and its order is above
-- that of every named entry from before.
abbrev pub IsKeptOrFresh : List NodeScalingInventoryNode → NodeScalingInventoryNode → Type 0
IsKeptOrFresh old n =
    (any (has_name n.name) old ≡ true)
    ⊎ ((n.used ≡ false) × All (λ e. e.order <ℤ n.order) (existing_nodes old))

above_all :
    (old : List NodeScalingInventoryNode) (n : NodeScalingInventoryNode)
    → IsFresh (max_order_from (pos 0) (existing_nodes old)) n
    → IsKeptOrFresh old n
above_all old n h = inr (
  h.0,
  All-imp (λ e. e.order ≤ℤ max_order_from (pos 0) (existing_nodes old)) (existing_nodes old)
      (λ e le. omega (arith, h.1))
      (max_order_from_bounds (pos 0) (existing_nodes old) _ (omega arith)),
)

retained-IsKept :
    (observed : List String) (old xs : List NodeScalingInventoryNode)
    → All (λ n. any (has_name n.name) old ≡ true) xs
    → All (IsKeptOrFresh old) (retained_nodes observed (existing_nodes xs))
unfolding retained_nodes existing_nodes
retained-IsKept observed old xs h =
    All-select _ _ (select _ xs) (All-select _ _ xs (All-imp _ xs (λ n e. inl e) h))

-- Each entry's name is one of the list's names.
tracked-weaken :
    (x : NodeScalingInventoryNode) (xs ys : List NodeScalingInventoryNode)
    → All (λ n. any (has_name n.name) xs ≡ true) ys
    → All (λ n. any (has_name n.name) (x ∷ xs) ≡ true) ys
tracked-weaken x xs ys h = All-imp _ ys (λ n e. ground arith) h

pub All-tracked :
    (xs : List NodeScalingInventoryNode) → All (λ n. any (has_name n.name) xs ≡ true) xs
All-tracked [] = tt
All-tracked (x ∷ xs) =
    (ground (arith, str_eq_iff x.name x.name), tracked-weaken x xs xs (All-tracked xs))

-- After a rebuild every entry has a name that was tracked before, or is unused with an order above
-- that of every named entry from before. The highest order must leave room for the observed names.
pub build_node_scaling_inventory_spec-IsKeptOrFresh :
    (existing : NodeScalingInventorySpec) (replicas : ℤ) (names : List String)
    → pos_part (max_order_from (pos 0) (existing_nodes existing.nodes))
        + length (normalize_node_names names)
      < 2 ^ 31
    → All
        (IsKeptOrFresh existing.nodes)
        (build_node_scaling_inventory_spec existing replicas names).nodes
unfolding build_node_scaling_inventory_spec
build_node_scaling_inventory_spec-IsKeptOrFresh existing replicas names h =
    sort_stable-All node_less _ _ (
      All-append _ _ _ (retained-IsKept _ old old (All-tracked old)) (
        All-imp _ _ (above_all old) (
          new_nodes-IsFresh _ (max_order_from (pos 0) (existing_nodes old)) _
            (max_order_from-le (pos 0) (existing_nodes old)) h)))
  where
    old : List NodeScalingInventoryNode
    old = existing.nodes

-- A rebuild with the same names.
existing_nodes-All :
    (xs : List NodeScalingInventoryNode)
    → All (λ n. str_eq n.name "" ≡ false) xs
    → existing_nodes xs ≡ xs
unfolding existing_nodes
existing_nodes-All [] h = refl
existing_nodes-All (x ∷ xs) h = rw h.0 (ap (◌∷◌ x) (existing_nodes-All xs h.1))

retained_nodes-All :
    (observed : List String) (xs : List NodeScalingInventoryNode)
    → All (λ n. elem_name n.name observed ≡ true) xs
    → retained_nodes observed xs ≡ xs
unfolding retained_nodes
retained_nodes-All observed [] h = refl
retained_nodes-All observed (x ∷ xs) h = rw h.0 (ap (◌∷◌ x) (retained_nodes-All observed xs h.1))

new_nodes_none :
    (known : List String) (m : ℤ) (names : List String)
    → All (λ n. elem_name n known ≡ true) names
    → new_nodes known m names ≡ []
unfolding new_nodes
new_nodes_none known m [] h = refl
new_nodes_none known m (n ∷ ns) h = rw h.0 (new_nodes_none known m ns h.1)

All-elem_weaken :
    (x : String) (xs ys : List String)
    → All (λ n. elem_name n xs ≡ true) ys
    → All (λ n. elem_name n (x ∷ xs) ≡ true) ys
All-elem_weaken x xs ys h = All-imp _ ys (λ n e. ground arith) h

All-elem : (xs : List String) → All (λ n. elem_name n xs ≡ true) xs
All-elem [] = tt
All-elem (x ∷ xs) = (ground (arith, str_eq_iff x x), All-elem_weaken x xs xs (All-elem xs))

-- What the entries of a rebuilt list are called.
module _ (existing : NodeScalingInventorySpec) (replicas : ℤ) (names : List String) where
  rebuilt : List NodeScalingInventoryNode
  rebuilt = (build_node_scaling_inventory_spec existing replicas names).nodes

  tracked_iff_observed :
      (s : String) → any (has_name s) rebuilt ≡ elem_name s (normalize_node_names names)
  unfolding rebuilt
  tracked_iff_observed s = ground (
    arith,
    any_iff_count (has_name s) (build_node_scaling_inventory_spec existing replicas names).nodes,
    count-build_node_scaling_inventory_spec existing replicas names s,
    any_iff_count (has_name s) existing.nodes,
    elem-normalize_node_names s names,
  )

  rebuilt_observed : All (λ n. elem_name n.name (normalize_node_names names) ≡ true) rebuilt
  rebuilt_observed =
      All-imp _ rebuilt (λ n e. sym (tracked_iff_observed n.name) ∙ e) (All-tracked rebuilt)

  rebuilt_named : All (λ n. str_eq n.name "" ≡ false) rebuilt
  rebuilt_named =
      All-imp _ rebuilt (λ n e. ground (arith, elem-normalize_node_names n.name names))
        rebuilt_observed

  observed_known :
      All (λ n. elem_name n (map (λ m. m.name) rebuilt) ≡ true) (normalize_node_names names)
  observed_known =
      All-imp _ (normalize_node_names names)
        (λ n e. elem-map_name n rebuilt ∙ tracked_iff_observed n ∙ e)
        (All-elem (normalize_node_names names))

  rebuilt-IsOrdered : IsOrdered node_less rebuilt
  unfolding rebuilt
  rebuilt-IsOrdered = build_node_scaling_inventory_spec-IsOrdered existing replicas names

  -- Rebuilding from a rebuilt spec with the same names leaves its entries as they are.
  pub build_node_scaling_inventory_spec_idem :
      (replicas' : ℤ)
      → (build_node_scaling_inventory_spec
          (build_node_scaling_inventory_spec existing replicas names)
          replicas'
          names).nodes
        ≡ (build_node_scaling_inventory_spec existing replicas names).nodes
  unfolding build_node_scaling_inventory_spec
  build_node_scaling_inventory_spec_idem replicas' = unfold rebuilt in again
    where
      observed : List String
      observed = normalize_node_names names

      again :
          sort_stable node_less (
            retained_nodes observed (existing_nodes rebuilt)
            ++ new_nodes
                (map (λ n. n.name) (existing_nodes rebuilt))
                (max_order_from (pos 0) (existing_nodes rebuilt))
                observed)
          ≡ rebuilt
      again =
          rw
            (
              existing_nodes-All rebuilt rebuilt_named,
              retained_nodes-All observed rebuilt rebuilt_observed,
              new_nodes_none _ (max_order_from (pos 0) rebuilt) observed observed_known,
              append-nil rebuilt,
            )
            (sort_stable_of_IsOrdered node_less rebuilt rebuilt-IsOrdered)
