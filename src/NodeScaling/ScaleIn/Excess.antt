-- ===== src/NodeScaling/ScaleIn/Excess.antt =====
-- Which replicas `ReconcileScaleIn` writes.
use quotascale_controller.Prelude.{◌⊎◌, ℕ, ◌+◌, ◌-◌, ◌^◌, ◌≤◌, ◌<◌, ◌≡◌, arith, if◌then◌else◌}
use quotascale_controller.Prelude.Int.{pos, ◌-ℤ◌, ltb_ℤ, wrap32, wrap32_of_range}
use quotascale_controller.NodeScaling.ScaleIn.{scale_in_target}

difference_form :
    (replicas excess : ℕ)
    → replicas < 2 ^ 31
    → excess < 2 ^ 31
    → (if ltb_ℤ (wrap32 (pos replicas -ℤ pos excess)) (pos 0)
        then pos 0
        else wrap32 (pos replicas -ℤ pos excess))
      ≡ pos (replicas - excess)
unfolding wrap32 ◌-ℤ◌
difference_form replicas excess h k = ground arith

target_form :
    (replicas excess : ℕ)
    → replicas < 2 ^ 31
    → excess < 2 ^ 31
    → scale_in_target (pos replicas) (pos excess) ≡ pos (replicas - excess)
unfolding scale_in_target
target_form replicas excess h k =
    rw (wrap32_of_range (pos excess) (ground arith)) (difference_form replicas excess h k)

-- Where nothing overflows: a removal never writes a negative number nor one above what the manifest
-- has; it takes away exactly the excess if there is that much, and leaves none otherwise. Removing two
-- excesses one after the other is removing their sum.
pub scale_in_target_lem :
    (replicas excess more : ℕ)
    → replicas < 2 ^ 31
    → excess + more < 2 ^ 31
    → (n : ℕ) × (scale_in_target (pos replicas) (pos excess) ≡ pos n)
      × (n ≤ replicas)
      × (((excess ≤ replicas) × (n + excess ≡ replicas)) ⊎ ((replicas < excess) × (n ≡ 0)))
      × (scale_in_target (scale_in_target (pos replicas) (pos excess)) (pos more)
          ≡ scale_in_target (pos replicas) (pos (excess + more)))
scale_in_target_lem replicas excess more h k =
    (_, target_form replicas excess h (omega arith), omega arith, ground arith, again)
  where
    again :
        scale_in_target (scale_in_target (pos replicas) (pos excess)) (pos more)
        ≡ scale_in_target (pos replicas) (pos (excess + more))
    again =
        rw
          (
            target_form replicas excess h (omega arith),
            target_form (replicas - excess) more (omega arith) (omega arith),
            target_form replicas (excess + more) h k,
          )
          (ground arith)
