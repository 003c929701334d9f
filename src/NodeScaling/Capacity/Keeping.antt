-- ===== src/NodeScaling/Capacity/Keeping.antt =====
-- An evaluation of the automatic scale-in changes the queues only by its request to scale in.
use quotascale_controller.Prelude.{Option, none, some, not, ◌||◌, if◌then◌else◌}
use quotascale_controller.Prelude.Int.{ℤ, ltb_ℤ, ◌-ℤ◌}
use quotascale_controller.Effects.{ok, Eff, bind_pair}
use quotascale_controller.Failure.{Error}
use quotascale_controller.Cluster.{Quantities, KubeClient}
use quotascale_controller.Inventory.Store.{NodeScalingInventoryStore}
use quotascale_controller.NodeScaling.{
  State, Dependencies, ScaleInRequest, NodeScalingRuntime, handle_scale_in_request,
  reset_scale_in_trigger,
}
use quotascale_controller.NodeScaling.Keeping.{Property, Holds, Keeps, bind_pair-Holds, if-Keeps}
use quotascale_controller.NodeScaling.Waiters.{has_active_scale_in_waiters}
use quotascale_controller.NodeScaling.Capacity.{
  ScaleInCapacityEvaluation, evaluate_scale_in_capacity, advance_trigger, trigger_with,
  evaluate_automatic_scale_in,
}

module _ {W : Type 0} (P : Property)
    (queues : (request : ScaleInRequest) → Keeps {W = W} P (handle_scale_in_request request)) where
  reset-Holds : (s : State W) → Holds P s → Holds P (reset_scale_in_trigger s)
  unfolding reset_scale_in_trigger
  reset-Holds s h = h

  abbrev since_result : ℤ → Option ℤ → Eff Error (State W) (Unit {0})
  since_result now since s = elim since [
    | none ↦ (ok tt, record s { scale_in_eligible_since = some now })
    | some since ↦
        if ltb_ℤ (now -ℤ since) s.settings.scale_in_trigger_delay
        then (ok tt, s)
        else handle_scale_in_request
            (record {
              namespace = "";
              reason = "worker available resources still stay non-negative";
            })
            (reset_scale_in_trigger s)
  ]

  since-Keeps : (now : ℤ) (since : Option ℤ) → Keeps P (since_result now since)
  since-Keeps now none s h = h
  since-Keeps now (some since) s h =
      if-Keeps P (ltb_ℤ (now -ℤ since) s.settings.scale_in_trigger_delay) (λ s. (ok tt, s))
        (λ s.
          handle_scale_in_request
            (record {
              namespace = "";
              reason = "worker available resources still stay non-negative";
            })
            (reset_scale_in_trigger s))
        s h (queues _ (reset_scale_in_trigger s) (reset-Holds s h))

  advance_trigger-Keeps :
      (now : ℤ) (evaluation : ScaleInCapacityEvaluation)
      → Keeps {W = W} P (advance_trigger now evaluation)
  unfolding advance_trigger
  advance_trigger-Keeps now evaluation s h =
      if-Keeps P (not evaluation.eligible) (λ s. (ok tt, reset_scale_in_trigger s))
        (since_result now s.scale_in_eligible_since) s (reset-Holds s h)
        (since-Keeps now s.scale_in_eligible_since s h)

  module _ {Q : Type 0} (q : Quantities Q) (deps : Dependencies Q W) where
    trigger_with-Keeps :
        (runtime : Option (NodeScalingRuntime W)) (client : Option (KubeClient Q W))
        (store : Option (NodeScalingInventoryStore W))
        → Keeps P (trigger_with q deps runtime client store)
    unfolding trigger_with
    trigger_with-Keeps none client store s h = h
    trigger_with-Keeps (some runtime) none store s h = h
    trigger_with-Keeps (some runtime) (some client) none s h = h
    trigger_with-Keeps (some runtime) (some client) (some store) s h =
        if-Keeps P (not deps.has_quota_autoscaler_client || has_active_scale_in_waiters s)
          (λ s. (ok tt, s))
          (λ s.
            bind_pair (evaluate_scale_in_capacity q client store s.world, s)
              (advance_trigger (deps.now s.world)))
          s h
          (bind_pair-Holds P (evaluate_scale_in_capacity q client store s.world, s)
            (advance_trigger (deps.now s.world)) h (advance_trigger-Keeps (deps.now s.world)))

    pub evaluate_automatic_scale_in-Keeps : Keeps P (evaluate_automatic_scale_in q deps)
    unfolding evaluate_automatic_scale_in
    evaluate_automatic_scale_in-Keeps =
        trigger_with-Keeps deps.runtime deps.client deps.inventory_store
