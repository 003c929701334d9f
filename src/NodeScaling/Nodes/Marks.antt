-- ===== src/NodeScaling/Nodes/Marks.antt =====
-- Reserving and activating a node undo one another, as far as the scheduler and this controller read
-- a node.
use quotascale_controller.Prelude.{
  String, Bool, true, false, not, ◌≡◌, refl, arith, List, [], ◌∷◌, ◌++◌, any, select, if◌then◌else◌,
  Bool-cases, inl, inr,
}
use quotascale_controller.Prelude.Text.{str_eq}
use quotascale_controller.Cluster.{Node, Taint, TaintEffect, Map, lookup, insert, delete}
use quotascale_controller.Cluster.Maps.{lookup-insert, lookup-delete}
use quotascale_controller.Resources.{Resources}
use quotascale_controller.NodeScaling.Nodes.{
  is_scaling_taint, has_role_scaling, activated, reserved,
}

select-not-append_self :
    (p : Taint → Bool) (t : Taint) (ts : List Taint)
    → p t ≡ true
    → select (λ x. not (p x)) (ts ++ t ∷ []) ≡ select (λ x. not (p x)) ts
select-not-append_self p t [] h = rw h refl
select-not-append_self p t (x ∷ xs) h = ground (arith, select-not-append_self p t xs h)

abbrev scaling : String
scaling = "node-role.kubernetes.io/scaling"

abbrev scaling_taint : Taint
scaling_taint = record { key = scaling; effect = TaintEffect.no_schedule }

module _ {Q : Type 0} (node : Node Q) where
  -- Activating a reserved node gives back its other labels, and its taints but for the scaling one;
  -- its name, its allocatable resources and whether it is schedulable stay.
  pub activated-reserved :
      (j : String)
      → str_eq "role" j ≡ false
      → str_eq "node-role.kubernetes.io/scaling" j ≡ false
      → (lookup j (activated (reserved node)).labels ≡ lookup j node.labels)
        × ((activated (reserved node)).taints ≡ select (λ t. not (is_scaling_taint t)) node.taints)
        × ((activated (reserved node)).name ≡ node.name)
        × ((activated (reserved node)).allocatable ≡ node.allocatable)
        × ((activated (reserved node)).unschedulable ≡ node.unschedulable)
  unfolding activated reserved
  activated-reserved j r k = (labels, taints, refl, refl, refl)
    where
      with_role : Map String
      with_role = insert "role" "scaling" node.labels

      marked : Map String
      marked = insert scaling "" with_role

      without_role : Map String
      without_role = if has_role_scaling marked then delete "role" marked else marked

      labels : lookup j (delete scaling without_role) ≡ lookup j node.labels
      labels = ground (
        arith,
        lookup-delete scaling j without_role,
        lookup-delete "role" j marked,
        lookup-insert scaling j "" with_role,
        lookup-insert "role" j "scaling" node.labels,
      )

      taints :
          select
            (λ t. not (is_scaling_taint t))
            (if any is_scaling_taint node.taints
              then node.taints
              else node.taints ++ scaling_taint ∷ [])
          ≡ select (λ t. not (is_scaling_taint t)) node.taints
      taints = elim (Bool-cases (any is_scaling_taint node.taints)) [
        | inl e ↦ rw e refl
        | inr e ↦ rw e (select-not-append_self is_scaling_taint scaling_taint node.taints refl)
      ]
