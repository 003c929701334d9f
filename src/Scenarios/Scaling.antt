-- ===== src/Scenarios/Scaling.antt =====
-- Runs of the node scaling controller: "b" is reserved and has been waited for since time 0.
use quotascale_controller.Cluster.{Map, delete, has_key, lookup}
use quotascale_controller.Effects.{err, ok}
use quotascale_controller.Failure.{external}
use quotascale_controller.Inventory.{NodeScalingInventoryNode, node_less}
use quotascale_controller.Inventory.Selection.{IsSelection}
use quotascale_controller.NodeScaling.{
  NodeScalingRuntime, ScaleInRequest, ScaleInWaiter, Settings, State,
}
use quotascale_controller.NodeScaling.Capacity.{
  ScaleInCapacityEvaluation, advance_trigger, evaluate_candidates, schedulable_available,
}
use quotascale_controller.NodeScaling.Capacity.Agreement.{available_from_agrees}
use quotascale_controller.NodeScaling.Capacity.Removal.{IsRoom, evaluate_candidates_balance, freed}
use quotascale_controller.NodeScaling.Capacity.Trigger.{
  advance_trigger_lem, none_yet, one_more, run_trigger, run_trigger_lem,
}
use quotascale_controller.NodeScaling.Nodes.{
  activated, has_reservation, is_scaling_taint, node_has_scaling_reservation, reserved,
  sync_repo_if_configured,
}
use quotascale_controller.NodeScaling.Nodes.Marks.{activated-reserved}
use quotascale_controller.NodeScaling.Pods.{node_has_blocking_pods}
use quotascale_controller.NodeScaling.ScaleIn.{reserve_nodes, scale_in_target}
use quotascale_controller.NodeScaling.ScaleIn.Excess.{scale_in_target_lem}
use quotascale_controller.NodeScaling.ScaleIn.Reserving.{
  KeepsWaiters, Reserved, reserve_nodes-Reserved,
}
use quotascale_controller.NodeScaling.ScaleOut.{replenish_spares, scale_out_target, write_replicas}
use quotascale_controller.NodeScaling.ScaleOut.Replenish.{
  KeepsManifest, Replenished, done, restored, replenish_spares_bounds, replenish_spares-shrinks,
  synced,
}
use quotascale_controller.NodeScaling.ScaleOut.Target.{scale_out_target_lem}
use quotascale_controller.NodeScaling.Waiters.{find_reusable_scale_in_waiter_nodes, waiter_tick}
use quotascale_controller.NodeScaling.Waiters.Draining.{
  TickOutcome, waiter_tick-TickOutcome, waiter_tick-forces,
}
use quotascale_controller.NodeScaling.Waiters.Reuse.{
  find_reusable_scale_in_waiter_nodes_lem, is_reusable,
}
use quotascale_controller.Prelude.{
  Bool, List, String, [], arith, false, if◌then◌else◌, map, none, none_some, not, refl, select,
  some, subst, true, ℕ, ◌++◌, ◌+◌, ◌<◌, ◌∷◌, ◌≡◌, ◌≤◌, ◌⊎◌,
}
use quotascale_controller.Prelude.Int.{ltb_ℤ, pos, wrap32, ℤ, ◌+ℤ◌, ◌-ℤ◌}
use quotascale_controller.Prelude.Text.{str_eq}
use quotascale_controller.Quota.Capacity.{available_from}
use quotascale_controller.Resources.{Resources, empty}
use quotascale_controller.Scenarios.{World, client, inventory, node, nodes, q, runtime, store, w}

-- The clone whose commits have as many replicas as given, with pushes that succeed.
keeps_manifest : (n : ℕ) → KeepsManifest runtime store (λ w. ok (pos n)) (λ w. Unit {0})
keeps_manifest n = record {
  write-read = λ n w h p k. refl;
  write-committed = λ n w. refl;
  commits = λ m w. done refl refl;
  updates = λ n w. refl;
}

-- A remote that rejects every push: the clone goes back to the commit, which has 2 replicas.
abbrev rejecting : NodeScalingRuntime World
rejecting = record runtime {
  commit_and_push = λ m w. (err (external "rejected"), record w { manifest = pos 2 });
}

keeps_rejected : KeepsManifest rejecting store (λ w. ok (pos 2)) (λ w. Unit {0})
keeps_rejected = record {
  write-read = λ n w h p k. refl;
  write-committed = λ n w. refl;
  commits = λ m w. restored (external "rejected") refl refl;
  updates = λ n w. refl;
}

abbrev request : ScaleInRequest
request = record { namespace = "team"; reason = "manual" }

abbrev waiter : ScaleInWaiter
waiter = record { started_at = pos 0; request = request }

abbrev settings : Settings
settings = record {
  scale_in_trigger_delay = pos 300000000000;
  scale_in_force_enabled = true;
  scale_in_force_delay = pos 300000000000;
  max_node_count = pos 3;
  prepared_spare_count = pos 1;
  activated_spare_count = pos 1;
  scale_in_exempt_key = "";
  scale_in_exempt_value = "";
  scale_in_exempt_ns = [];
}

abbrev s : State World
s = record {
  world = w;
  settings = settings;
  scale_in_eligible_since = none;
  scale_in_waiters = ("b", waiter) ∷ [];
  scale_out_requests = [];
  scale_in_requests = [];
}

abbrev available : Resources
available = record empty { cpu = pos 9000; memory = pos 9000 }

abbrev evaluation : ScaleInCapacityEvaluation
evaluation = record {
  eligible = true;
  current_worker_available = available;
  projected_available = available;
  removable_nodes = "b" ∷ [];
}

abbrev between : List (ℤ × ScaleInCapacityEvaluation)
between = (pos 6, evaluation) ∷ []

abbrev b_capacity : Resources
b_capacity = record empty { cpu = pos 4000; memory = pos 8000 }

abbrev capacity : Map Resources
capacity = ("b", b_capacity) ∷ []

picked : (b : Bool) (c : Resources) → (if b then some b_capacity else none) ≡ some c → IsRoom c
picked true c h =
    subst (λ o. elim o [ none ↦ Unit {0} | some r ↦ IsRoom r ]) h
      ((refl, (omega arith, omega arith)), (refl, (omega arith, omega arith)))
picked false c h = none_some h

known : (name : String) (c : Resources) → lookup name capacity ≡ some c → IsRoom c
unfolding lookup
known name c h = picked (str_eq "b" name) c h

replenish_spares_bounds_example :
    Replenished rejecting store
      (λ w. ok (pos 2))
      (λ w. Unit {0})
      keeps_rejected
      2
      3
      (scale_out_target (pos 3) (pos 2) (pos 2))
      w
      (replenish_spares store rejecting (pos 2) s)
unfolding synced sync_repo_if_configured
replenish_spares_bounds_example =
    replenish_spares_bounds rejecting store (λ w. ok (pos 2)) (λ w. Unit {0}) keeps_rejected s 3 2 2
      refl (refl, refl, tt) (omega arith) (omega arith) (omega arith) (omega arith)

-- The maximum is 3, and the manifest has 5.
abbrev over : World
over = record w { manifest = pos 5 }

replenish_spares-shrinks_example :
    runtime.read_machine_deployment_replicas
      (replenish_spares store runtime (pos 1) (record s { world = over })).1.world
    ≡ ok (pos 3)
unfolding sync_repo_if_configured replenish_spares scale_out_target write_replicas wrap32 ◌+ℤ◌
replenish_spares-shrinks_example =
    replenish_spares-shrinks runtime store (λ w. ok (pos 5)) (λ w. Unit {0}) (keeps_manifest 5)
      (record s { world = over }) over 3 5 1 refl refl (refl, refl, tt) (omega arith) (omega arith)
      (omega arith) refl

scale_out_target_lem_example :
    (n : ℕ) × (scale_out_target (pos 3) (pos 2) (pos 2) ≡ pos n)
    × (2 ≤ n)
    × (n ≤ 3)
    × (((2 + 2 ≤ 3) × (n ≡ 2 + 2)) ⊎ ((3 < 2 + 2) × (n ≡ 3)))
scale_out_target_lem_example =
    scale_out_target_lem 3 2 2 (omega arith) (omega arith) (omega arith) (omega arith)

scale_in_target_lem_example :
    (n : ℕ) × (scale_in_target (pos 5) (pos 2) ≡ pos n)
    × (n ≤ 5)
    × (((2 ≤ 5) × (n + 2 ≡ 5)) ⊎ ((5 < 2) × (n ≡ 0)))
    × (scale_in_target (scale_in_target (pos 5) (pos 2)) (pos 1)
        ≡ scale_in_target (pos 5) (pos (2 + 1)))
scale_in_target_lem_example = scale_in_target_lem 5 2 1 (omega arith) (omega arith)

reserve_nodes-Reserved_example :
    KeepsWaiters s (reserve_nodes q client store (λ w. w.now) request nodes s).1
    × Reserved q client store
        (λ w. w.now)
        request
        nodes
        (reserve_nodes q client store (λ w. w.now) request nodes s).0
        (reserve_nodes q client store (λ w. w.now) request nodes s).1
reserve_nodes-Reserved_example = reserve_nodes-Reserved q client store (λ w. w.now) request nodes s

find_reusable_scale_in_waiter_nodes_lem_example :
    (chosen : List NodeScalingInventoryNode) × (find_reusable_scale_in_waiter_nodes
        (some inventory)
        (pos (2))
        s
      ≡ map (λ n. n.name) chosen)
    × IsSelection node_less (is_reusable s) inventory.spec.nodes (2) chosen
find_reusable_scale_in_waiter_nodes_lem_example =
    find_reusable_scale_in_waiter_nodes_lem inventory 1 s

waiter_tick-TickOutcome_example :
    TickOutcome client store
      (λ w. w.now)
      "b"
      request
      s
      (waiter_tick client store (λ w. w.now) "b" request s)
waiter_tick-TickOutcome_example = waiter_tick-TickOutcome client store (λ w. w.now) "b" request s

waiter_tick-forces_example : waiter_tick client store (λ w. w.now) "b" request s ≡ record s {
  world = w;
  scale_in_waiters = delete "b" s.scale_in_waiters;
  scale_in_requests = s.scale_in_requests ++ request ∷ [];
}
unfolding lookup node_has_scaling_reservation has_reservation node_has_blocking_pods has_key ◌-ℤ◌
waiter_tick-forces_example =
    waiter_tick-forces client store (λ w. w.now) "b" request s waiter false w refl refl refl refl
      refl refl refl

evaluate_candidates_balance_example :
    IsRoom (evaluate_candidates available capacity nodes).projected_available
    × ((evaluate_candidates available capacity nodes).projected_available.cpu
          +ℤ freed
              (λ c. c.cpu)
              capacity
              (evaluate_candidates available capacity nodes).removable_nodes
        ≡ available.cpu)
    × ((evaluate_candidates available capacity nodes).projected_available.memory
          +ℤ freed
              (λ c. c.memory)
              capacity
              (evaluate_candidates available capacity nodes).removable_nodes
        ≡ available.memory)
evaluate_candidates_balance_example =
    evaluate_candidates_balance capacity known available nodes
      ((refl, (omega arith, omega arith)), (refl, (omega arith, omega arith)))

advance_trigger_lem_example :
    (((evaluation.eligible ≡ false)
        × ((advance_trigger (pos 7) evaluation s).1.scale_in_requests ≡ s.scale_in_requests)
        × ((advance_trigger (pos 7) evaluation s).1.scale_in_eligible_since ≡ none))
      ⊎ ((((evaluation.eligible ≡ true)
            × ((advance_trigger (pos 7) evaluation s).1.scale_in_requests ≡ s.scale_in_requests)))
          ⊎ ((since : ℤ) × (request : ScaleInRequest) × (evaluation.eligible ≡ true)
              × (s.scale_in_eligible_since ≡ some since)
              × (ltb_ℤ ((pos 7) -ℤ since) s.settings.scale_in_trigger_delay ≡ false)
              × ((advance_trigger (pos 7) evaluation s).1.scale_in_requests
                  ≡ s.scale_in_requests ++ request ∷ [])
              × ((advance_trigger (pos 7) evaluation s).1.scale_in_eligible_since ≡ none))))
    × ((advance_trigger (pos 7) evaluation s).1.scale_in_waiters ≡ s.scale_in_waiters)
    × ((advance_trigger (pos 7) evaluation s).1.settings ≡ s.settings)
    × ((advance_trigger (pos 7) evaluation s).1.scale_out_requests ≡ s.scale_out_requests)
advance_trigger_lem_example = advance_trigger_lem (pos 7) evaluation s

run_trigger_lem_example :
    ((run_trigger (((pos 5), evaluation) ∷ between) s).scale_in_requests ≡ s.scale_in_requests)
    × ((request : ScaleInRequest) × ((run_trigger
            (((pos 5), evaluation) ∷ between ++ ((pos 400000000000), evaluation) ∷ [])
            s).scale_in_requests
          ≡ s.scale_in_requests ++ request ∷ []))
    × ((run_trigger
          (((pos 5), evaluation) ∷ between ++ ((pos 400000000000), evaluation) ∷ [])
          s).scale_in_eligible_since
        ≡ none)
unfolding ◌-ℤ◌
run_trigger_lem_example =
    run_trigger_lem (pos 5) (pos 400000000000) evaluation evaluation between s refl refl
      (one_more {now = pos 6} refl refl none_yet) refl refl refl

available_from_agrees_example :
    available_from q (node ∷ []) [] ≡ (schedulable_available q (node ∷ []) []).0
available_from_agrees_example = available_from_agrees q (node ∷ []) []

activated-reserved_example :
    (lookup "zone" (activated (reserved node)).labels ≡ lookup "zone" node.labels)
    × ((activated (reserved node)).taints ≡ select (λ t. not (is_scaling_taint t)) node.taints)
    × ((activated (reserved node)).name ≡ node.name)
    × ((activated (reserved node)).allocatable ≡ node.allocatable)
    × ((activated (reserved node)).unschedulable ≡ node.unschedulable)
activated-reserved_example = activated-reserved node "zone" refl refl
