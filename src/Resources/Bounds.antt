-- ===== src/Resources/Bounds.antt =====
-- `Limit`, `Max`, `EnsureRequestsFitLimits`, `DiffersFrom` and `ForceNoScaleDownWhenScaleUp`.
use quotascale_controller.Prelude.{true, false, ◌≡◌, refl, arith, Bool-cases, ◌⊎◌, inl, inr}
use quotascale_controller.Prelude.Int.{◌≤ℤ◌}
use quotascale_controller.Cluster.{Quantities, ResourceQuota}
use quotascale_controller.Resources.{
  Resources, at_most, at_least, limit, max_of, current_of, force_no_scale_down_when_scale_up,
  is_scale_down, grows,
}

-- Each of the four fields that a quota has is at most that of the other.
abbrev pub IsWithin : Resources → Resources → Type 0
IsWithin a b =
    (a.cpu ≤ℤ b.cpu)
    × (a.memory ≤ℤ b.memory)
    × (a.requests_cpu ≤ℤ b.requests_cpu)
    × (a.requests_memory ≤ℤ b.requests_memory)

-- `Max` is the least upper bound and `Limit` the greatest lower bound of its two arguments; storage is
-- the receiver's.
pub max_of_limit_lem :
    (a b c : Resources)
    → IsWithin a (max_of a b)
      × IsWithin b (max_of a b)
      × (IsWithin a c → IsWithin b c → IsWithin (max_of a b) c)
      × IsWithin (limit a b) a
      × IsWithin (limit a b) b
      × (IsWithin c a → IsWithin c b → IsWithin c (limit a b))
      × ((max_of a b).storage ≡ a.storage)
      × ((limit a b).storage ≡ a.storage)
unfolding max_of limit at_most at_least
max_of_limit_lem a b c = (
  ground arith,
  ground arith,
  (λ h k. ground arith),
  ground arith,
  ground arith,
  (λ h k. ground arith),
  refl,
  refl,
)

module _ {Q : Type 0} (q : Quantities Q) where
  not_scale_down_of_max :
      (res : Resources) (quota : ResourceQuota Q)
      → is_scale_down q (max_of res (current_of q quota)) quota ≡ false
  unfolding is_scale_down max_of at_least current_of
  not_scale_down_of_max res quota = ground arith

  -- A proposal that raises some field lowers none in the end, and each of its own fields is kept or
  -- raised to the current value; one that raises no field is left as it is.
  pub force_no_scale_down_lem :
      (res : Resources) (quota : ResourceQuota Q)
      → ((grows res (current_of q quota) ≡ false)
          × (force_no_scale_down_when_scale_up q res quota ≡ res))
        ⊎ ((grows res (current_of q quota) ≡ true)
            × (is_scale_down q (force_no_scale_down_when_scale_up q res quota) quota ≡ false)
            × IsWithin res (force_no_scale_down_when_scale_up q res quota)
            × IsWithin (current_of q quota) (force_no_scale_down_when_scale_up q res quota))
  unfolding force_no_scale_down_when_scale_up
  force_no_scale_down_lem res quota = elim (Bool-cases (grows res (current_of q quota))) [
    | inr e ↦ inl (e, rw e refl)
    | inl e ↦ inr (
      e,
      rw e (not_scale_down_of_max res quota),
      rw e (max_of_limit_lem res (current_of q quota) res).0,
      rw e (max_of_limit_lem res (current_of q quota) res).1,
    )
  ]
