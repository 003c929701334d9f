-- ===== src/NodeScaling/ScaleOut/Target.antt =====
-- The number of replicas that `ReconcileScaleOut` writes, and how it relates to the maximum.
use quotascale_controller.Prelude.{◌⊎◌, ℕ, ◌+◌, ◌^◌, ◌≤◌, ◌<◌, ◌≡◌, arith, ◌-◌, if◌then◌else◌, ltb}
use quotascale_controller.Prelude.Int.{pos, ◌+ℤ◌, ◌-ℤ◌, ltb_ℤ, wrap32, wrap32_of_range}
use quotascale_controller.NodeScaling.ScaleOut.{replenish_count, scale_out_target}

wrap32_pos : (n : ℕ) → n < 2 ^ 31 → wrap32 (pos n) ≡ pos n
wrap32_pos n h = wrap32_of_range (pos n) (ground arith)

plus_pos : (a b : ℕ) → pos a +ℤ pos b ≡ pos (a + b)
unfolding ◌+ℤ◌
plus_pos a b = ground arith

room_of :
    (max replicas : ℕ)
    → replicas < 2 ^ 31
    → max < 2 ^ 31
    → (if ltb_ℤ (wrap32 (pos max -ℤ pos replicas)) (pos 0)
        then pos 0
        else wrap32 (pos max -ℤ pos replicas))
      ≡ pos (max - replicas)
unfolding wrap32 ◌-ℤ◌
room_of max replicas h k = ground arith

replenish_form :
    (max replicas spares : ℕ)
    → 0 < max
    → max < 2 ^ 31
    → replicas + spares < 2 ^ 31
    → replenish_count (pos max) (pos replicas) spares
      ≡ pos (if ltb max (replicas + spares) then max - replicas else spares)
unfolding replenish_count
replenish_form max replicas spares h k l =
    rw
      (
        wrap32_pos spares (omega arith),
        plus_pos replicas spares,
        wrap32_pos (replicas + spares) l,
        room_of max replicas (omega arith) k,
      )
      (ground arith)

target_form :
    (max replicas replenish : ℕ)
    → 0 < max
    → replicas + replenish < 2 ^ 31
    → scale_out_target (pos max) (pos replicas) (pos replenish)
      ≡ pos (if ltb max (replicas + replenish) then max else replicas + replenish)
unfolding scale_out_target
target_form max replicas replenish h l =
    rw (plus_pos replicas replenish, wrap32_pos (replicas + replenish) l) (ground arith)

-- For `int32` values that are not negative and whose sum does not overflow: where the maximum leaves
-- room for all spares that are used up, as many are added; otherwise the replicas are filled up to the
-- maximum, and nothing is added if they have reached it.
replenish_count_lem :
    (max replicas spares : ℕ)
    → 0 < max
    → max < 2 ^ 31
    → replicas + spares < 2 ^ 31
    → (n : ℕ) × (replenish_count (pos max) (pos replicas) spares ≡ pos n)
      × (n ≤ spares)
      × (((replicas + spares ≤ max) × (n ≡ spares))
          ⊎ ((max < replicas + spares) × ((replicas + n ≡ max) ⊎ ((max ≤ replicas) × (n ≡ 0)))))
replenish_count_lem max replicas spares h k l =
    (_, replenish_form max replicas spares h k l, ground arith, ground arith)

-- As long as the repository's replicas do not exceed the maximum, the replicas written are not fewer
-- than those read and do not exceed the maximum: they are what was asked for, or the maximum if that is
-- less.
pub scale_out_target_lem :
    (max replicas replenish : ℕ)
    → 0 < max
    → replicas ≤ max
    → max < 2 ^ 31
    → replicas + replenish < 2 ^ 31
    → (n : ℕ) × (scale_out_target (pos max) (pos replicas) (pos replenish) ≡ pos n)
      × (replicas ≤ n)
      × (n ≤ max)
      × (((replicas + replenish ≤ max) × (n ≡ replicas + replenish))
          ⊎ ((max < replicas + replenish) × (n ≡ max)))
scale_out_target_lem max replicas replenish h k l m =
    (_, target_form max replicas replenish h m, ground arith, ground arith, ground arith)

-- Replicas above the maximum are cut to it.
pub scale_out_target_capped :
    (max replicas replenish : ℕ)
    → 0 < max
    → max < replicas
    → replicas + replenish < 2 ^ 31
    → scale_out_target (pos max) (pos replicas) (pos replenish) ≡ pos max
scale_out_target_capped max replicas replenish h k l =
    rw (target_form max replicas replenish h l) (ground arith)
