-- ===== src/Resources/Differences.antt =====
-- When `DiffersFrom` asks for an update.
use quotascale_controller.Prelude.{false, ◌≡◌, arith, ◌↔◌}
use quotascale_controller.Prelude.Int.{==ℤ→eq}
use quotascale_controller.Cluster.{Quantities, ResourceQuota}
use quotascale_controller.Resources.{Resources, current_of, differs_from, has_alias}

module _ {Q : Type 0} (q : Quantities Q) where
  -- No update is asked for exactly when the four values are those that the quota grants and none of
  -- its aggregate keys stands beside an explicit one.
  differs_from_iff :
      (res : Resources) (quota : ResourceQuota Q)
      → (differs_from q res quota ≡ false) ↔ (
          (has_alias quota.hard "cpu" "requests.cpu" "limits.cpu" ≡ false)
          × (has_alias quota.hard "memory" "requests.memory" "limits.memory" ≡ false)
          × (res.cpu ≡ (current_of q quota).cpu)
          × (res.memory ≡ (current_of q quota).memory)
          × (res.requests_cpu ≡ (current_of q quota).requests_cpu)
          × (res.requests_memory ≡ (current_of q quota).requests_memory))
  unfolding differs_from
  differs_from_iff res quota = (
    (λ h. (
      ground (arith, h),
      ground (arith, h),
      ==ℤ→eq _ _ (ground (arith, h)),
      ==ℤ→eq _ _ (ground (arith, h)),
      ==ℤ→eq _ _ (ground (arith, h)),
      ==ℤ→eq _ _ (ground (arith, h)),
    )),
    (λ h. ground (arith, h)),
  )
