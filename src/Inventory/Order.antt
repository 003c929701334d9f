-- ===== src/Inventory/Order.antt =====
-- The comparison functions of the sorts of internal/nodescaling/inventory.go are strict orders, so
-- that what `sort.SliceStable` returns is ordered by them.
use quotascale_controller.Prelude.{◌≡◌, true, false, List, [], ◌∷◌, arith, ◌⊎◌, All, All-imp}
use quotascale_controller.Prelude.Int.{◌<ℤ◌}
use quotascale_controller.Prelude.Text.{str_ltb, str_ltb_asym, str_leb_trans}
use quotascale_controller.Prelude.Sorting.{sort_stable, IsOrdered, sort_stable-IsOrdered}
use quotascale_controller.Inventory.{NodeScalingInventoryNode, node_less, node_greater}

node_less_asym : (a b : NodeScalingInventoryNode) → node_less a b ≡ true → node_less b a ≡ false
unfolding node_less
node_less_asym a b h = ground (arith, str_ltb_asym a.name b.name)

pub node_less_leb_trans :
    (a b c : NodeScalingInventoryNode)
    → node_less b a ≡ false
    → node_less c b ≡ false
    → node_less c a ≡ false
unfolding node_less
node_less_leb_trans a b c h k = ground (arith, str_leb_trans a.name b.name c.name)

node_greater_asym :
    (a b : NodeScalingInventoryNode) → node_greater a b ≡ true → node_greater b a ≡ false
unfolding node_greater
node_greater_asym a b h = ground (arith, str_ltb_asym b.name a.name)

node_greater_leb_trans :
    (a b c : NodeScalingInventoryNode)
    → node_greater b a ≡ false
    → node_greater c b ≡ false
    → node_greater c a ≡ false
unfolding node_greater
node_greater_leb_trans a b c h k = ground (arith, str_leb_trans c.name b.name a.name)

pub sort_less-IsOrdered :
    (xs : List NodeScalingInventoryNode) → IsOrdered node_less (sort_stable node_less xs)
sort_less-IsOrdered = sort_stable-IsOrdered node_less node_less_asym node_less_leb_trans

pub sort_greater-IsOrdered :
    (xs : List NodeScalingInventoryNode) → IsOrdered node_greater (sort_stable node_greater xs)
sort_greater-IsOrdered = sort_stable-IsOrdered node_greater node_greater_asym node_greater_leb_trans

-- The first stands before the second: a lower order, or the same and not a greater name.
abbrev pub IsBefore : NodeScalingInventoryNode → NodeScalingInventoryNode → Type 0
IsBefore a b = (a.order <ℤ b.order) ⊎ ((a.order ≡ b.order) × (str_ltb b.name a.name ≡ false))

abbrev pub IsAscending : List NodeScalingInventoryNode → Type 0
IsAscending [] = Unit {0}
IsAscending (x ∷ xs) = All (IsBefore x) xs × IsAscending xs

node_less-IsBefore : (a b : NodeScalingInventoryNode) → node_less b a ≡ false → IsBefore a b
unfolding node_less
node_less-IsBefore a b h = ground arith

pub IsOrdered-IsAscending :
    (xs : List NodeScalingInventoryNode) → IsOrdered node_less xs → IsAscending xs
IsOrdered-IsAscending [] h = tt
IsOrdered-IsAscending (x ∷ xs) h =
    (All-imp _ xs (node_less-IsBefore x) h.0, IsOrdered-IsAscending xs h.1)
