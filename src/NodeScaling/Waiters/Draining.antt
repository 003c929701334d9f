-- ===== src/NodeScaling/Waiters/Draining.antt =====
-- When `ProcessScaleInWaiter` gives a node back, and when a waiter ends.
use quotascale_controller.Prelude.{
  String, some, Bool, true, false, not, ◌||◌, ◌≡◌, refl, ap, ◌∙◌, arith, List, [], ◌∷◌, ◌++◌,
  Bool-cases, ◌⊎◌, inl, inr, ltb, length, if◌then◌else◌,
}
use quotascale_controller.Prelude.Int.{ℤ, ◌-ℤ◌, leb_ℤ}
use quotascale_controller.Effects.{Result, ok, err}
use quotascale_controller.Failure.{Error}
use quotascale_controller.Inventory.Store.{NodeScalingInventoryStore}
use quotascale_controller.Cluster.{KubeClient, lookup, delete}
use quotascale_controller.NodeScaling.{
  State, ScaleInRequest, ScaleInWaiter, handle_scale_in_request, queue_capacity,
}
use quotascale_controller.NodeScaling.Nodes.{node_has_scaling_reservation}
use quotascale_controller.NodeScaling.Pods.{node_has_blocking_pods}
use quotascale_controller.NodeScaling.Waiters.{
  process_scale_in_waiter, process_reserved, process_drained, release_node, should_force_scale_in,
  waiter_tick, clear_scale_in_waiter,
}

still_blocked : (b f : Bool) → (not b || f) ≡ false → (b ≡ true) × (f ≡ false)
still_blocked true false h = (refl, refl)
still_blocked true true h = ground (arith, h)
still_blocked false f h = ground (arith, h)

module _ {Q W : Type 0} (client : KubeClient Q W) (store : NodeScalingInventoryStore W)
    (clock : W → ℤ) (name : String) (request : ScaleInRequest) (s : State W) where
  -- A reserved node with blocking pods, for which it is too early to force, is left as it is.
  process_scale_in_waiter-waits :
      node_has_scaling_reservation client name s.world ≡ ok true
      → node_has_blocking_pods client s.settings name s.world ≡ ok true
      → (should_force_scale_in name (clock s.world) s).1 ≡ false
      → process_scale_in_waiter client store clock name request s ≡ (ok false, s)
  unfolding process_scale_in_waiter process_reserved process_drained
  process_scale_in_waiter-waits r b f = simp (r, b, f)

  -- A node whose reservation is gone is left as it is, and the waiter is done.
  process_scale_in_waiter-gone :
      node_has_scaling_reservation client name s.world ≡ ok false
      → process_scale_in_waiter client store clock name request s ≡ (ok true, s)
  unfolding process_scale_in_waiter process_reserved
  process_scale_in_waiter-gone r = simp r

  -- A reserved node is given back once no pod blocks it or the time to force has come.
  process_scale_in_waiter-releases :
      (blocking : Bool)
      → node_has_scaling_reservation client name s.world ≡ ok true
      → node_has_blocking_pods client s.settings name s.world ≡ ok blocking
      → (not blocking || (should_force_scale_in name (clock s.world) s).1) ≡ true
      → process_scale_in_waiter client store clock name request s
        ≡ release_node client store clock name request s
  unfolding process_scale_in_waiter process_reserved process_drained
  process_scale_in_waiter-releases true r b f = simp (r, b, f)
  process_scale_in_waiter-releases false r b f = simp (r, b)

  -- The end of a tick.
  ends : Result Error Bool × State W → State W
  ends r = elim r.0 [
    | err e ↦ clear_scale_in_waiter name r.1
    | ok true ↦ clear_scale_in_waiter name r.1
    | ok false ↦ r.1
  ]

  tick-ends :
      waiter_tick client store clock name request s
      ≡ ends (process_scale_in_waiter client store clock name request s)
  unfolding waiter_tick ends
  tick-ends = refl

  -- The node was reserved, and no pod blocked it or the time to force had come.
  abbrev pub MayRelease : Type 0
  MayRelease =
      (blocking : Bool) × (node_has_scaling_reservation client name s.world ≡ ok true)
      × (node_has_blocking_pods client s.settings name s.world ≡ ok blocking)
      × ((not blocking || (should_force_scale_in name (clock s.world) s).1) ≡ true)

  -- The node was reserved, a pod blocked it, and it was too early to force.
  abbrev pub IsTooEarly : Type 0
  IsTooEarly =
      (node_has_scaling_reservation client name s.world ≡ ok true)
      × (node_has_blocking_pods client s.settings name s.world ≡ ok true)
      × ((should_force_scale_in name (clock s.world) s).1 ≡ false)

  -- The reservation was gone, or a check failed.
  abbrev pub IsOver : Type 0
  IsOver =
      (node_has_scaling_reservation client name s.world ≡ ok false)
      ⊎ (((e : Error) × (node_has_scaling_reservation client name s.world ≡ err e))
          ⊎ ((e : Error) × (node_has_scaling_reservation client name s.world ≡ ok true)
              × (node_has_blocking_pods client s.settings name s.world ≡ err e)))

  -- The requests that wait once the node has been marked, or could not be.
  abbrev pub queued : Result Error (Unit {0}) → List ScaleInRequest
  queued (err e) = s.scale_in_requests
  queued (ok _) =
      if ltb (length s.scale_in_requests) queue_capacity
      then s.scale_in_requests ++ request ∷ []
      else s.scale_in_requests

  pub TickOutcome : State W → Type 0
  TickOutcome s' =
      (IsTooEarly × (s' ≡ s))
      ⊎ ((IsOver × (s' ≡ record s { scale_in_waiters = delete name s.scale_in_waiters }))
          ⊎ (MayRelease
              × (s' ≡ record s {
                world = (store.mark_node_unused name s.world).1;
                scale_in_waiters = delete name s.scale_in_waiters;
                scale_in_requests = queued (store.mark_node_unused name s.world).0;
              })))

  released_state : Result Error (Unit {0}) → W → State W
  released_state r w = record s {
    world = w;
    scale_in_waiters = delete name s.scale_in_waiters;
    scale_in_requests = queued r;
  }

  ends-release_node :
      (r : Result Error (Unit {0})) (w : W)
      → store.mark_node_unused name s.world ≡ (r, w)
      → ends (release_node client store clock name request s) ≡ released_state r w
  unfolding release_node handle_scale_in_request ends clear_scale_in_waiter released_state
  ends-release_node (err e) w h = simp h
  ends-release_node (ok u) w h =
      elim (Bool-cases (ltb (length s.scale_in_requests) queue_capacity)) [
        | inl room ↦ rw h (rw room refl)
        | inr full ↦ rw h (rw full refl)
      ]

  release-outcome :
      MayRelease
      → (r : Result Error (Unit {0}) × W) → store.mark_node_unused name s.world ≡ r
      → TickOutcome (ends (release_node client store clock name request s))
  unfolding TickOutcome released_state
  release-outcome m (r, w) h = rw (ends-release_node r w h) (inr (inr (m, simp h refl)))

  abbrev Cleared : Result Error Bool → Type 0
  Cleared r = (r ≡ ok true) ⊎ ((e : Error) × (r ≡ err e))

  ends-Cleared :
      (r : Result Error Bool)
      → IsOver
      → Cleared r
      → process_scale_in_waiter client store clock name request s ≡ (r, s)
      → TickOutcome (ends (process_scale_in_waiter client store clock name request s))
  unfolding ends clear_scale_in_waiter TickOutcome
  ends-Cleared r o (inl e) h = rw (h, e) (inr (inl (o, refl)))
  ends-Cleared r o (inr (x, e)) h = rw (h, e) (inr (inl (o, refl)))

  failed_reservation :
      (e : Error)
      → node_has_scaling_reservation client name s.world ≡ err e
      → process_scale_in_waiter client store clock name request s ≡ (err e, s)
  unfolding process_scale_in_waiter
  failed_reservation e h = simp h

  failed_pods :
      (e : Error)
      → node_has_scaling_reservation client name s.world ≡ ok true
      → node_has_blocking_pods client s.settings name s.world ≡ err e
      → process_scale_in_waiter client store clock name request s ≡ (err e, s)
  unfolding process_scale_in_waiter process_reserved
  failed_pods e r h = simp (r, h)

  too_early-outcome :
      IsTooEarly → TickOutcome (ends (process_scale_in_waiter client store clock name request s))
  unfolding ends TickOutcome
  too_early-outcome t = rw (process_scale_in_waiter-waits t.0 t.1 t.2) (inl (t, refl))

  drained-outcome :
      (blocking : Bool)
      → node_has_scaling_reservation client name s.world ≡ ok true
      → node_has_blocking_pods client s.settings name s.world ≡ ok blocking
      → TickOutcome (ends (process_scale_in_waiter client store clock name request s))
  drained-outcome blocking r b =
      elim (Bool-cases (not blocking || (should_force_scale_in name (clock s.world) s).1)) [
        | inl f ↦
            rw (process_scale_in_waiter-releases blocking r b f)
              (release-outcome (blocking, r, b, f) (store.mark_node_unused name s.world) refl)
        | inr f ↦
            let blocked = still_blocked blocking _ f in
            too_early-outcome (r, b ∙ ap ok blocked.0, blocked.1)
      ]

  blocking-outcome :
      (p : Result Error Bool)
      → node_has_scaling_reservation client name s.world ≡ ok true
      → node_has_blocking_pods client s.settings name s.world ≡ p
      → TickOutcome (ends (process_scale_in_waiter client store clock name request s))
  blocking-outcome (err e) r b =
      ends-Cleared (err e) (inr (inr (e, r, b))) (inr (e, refl)) (failed_pods e r b)
  blocking-outcome (ok blocking) r b = drained-outcome blocking r b

  reservation-outcome :
      (p : Result Error Bool)
      → node_has_scaling_reservation client name s.world ≡ p
      → TickOutcome (ends (process_scale_in_waiter client store clock name request s))
  reservation-outcome (err e) r =
      ends-Cleared (err e) (inr (inl (e, r))) (inr (e, refl)) (failed_reservation e r)
  reservation-outcome (ok false) r =
      ends-Cleared (ok true) (inl r) (inl refl) (process_scale_in_waiter-gone r)
  reservation-outcome (ok true) r = blocking-outcome _ r refl

  -- A tick does one of three things. While the node is reserved, a pod blocks it and it is too early to
  -- force, nothing changes. Where the reservation is gone or a check fails, the waiter is removed and
  -- nothing else changes. Where the node is reserved, and no pod blocks it or the time to force has
  -- come, the node is marked unused, the waiter is removed and, if the marking succeeded, the request is
  -- queued again as far as the queue has room.
  pub waiter_tick-TickOutcome : TickOutcome (waiter_tick client store clock name request s)
  waiter_tick-TickOutcome = rw tick-ends (reservation-outcome _ refl)

  forced :
      (waiter : ScaleInWaiter) (blocking : Bool)
      → lookup name s.scale_in_waiters ≡ some waiter
      → s.settings.scale_in_force_enabled ≡ true
      → leb_ℤ s.settings.scale_in_force_delay (clock s.world -ℤ waiter.started_at) ≡ true
      → (not blocking || (should_force_scale_in name (clock s.world) s).1) ≡ true
  unfolding should_force_scale_in
  forced waiter true l enabled late = ground (arith, l, enabled, late)
  forced waiter false l enabled late = refl

  -- A reserved node that has been waited for longer than the delay is given back, blocked or not, if
  -- forcing is enabled: with the inventory updated and room in the queue, the tick ends with the
  -- node marked unused, the waiter gone and its request queued again.
  pub waiter_tick-forces :
      (waiter : ScaleInWaiter) (blocking : Bool) (w : W)
      → lookup name s.scale_in_waiters ≡ some waiter
      → s.settings.scale_in_force_enabled ≡ true
      → leb_ℤ s.settings.scale_in_force_delay (clock s.world -ℤ waiter.started_at) ≡ true
      → node_has_scaling_reservation client name s.world ≡ ok true
      → node_has_blocking_pods client s.settings name s.world ≡ ok blocking
      → store.mark_node_unused name s.world ≡ (ok tt, w)
      → ltb (length s.scale_in_requests) queue_capacity ≡ true
      → waiter_tick client store clock name request s ≡ record s {
        world = w;
        scale_in_waiters = delete name s.scale_in_waiters;
        scale_in_requests = s.scale_in_requests ++ request ∷ [];
      }
  unfolding ends clear_scale_in_waiter release_node handle_scale_in_request
  waiter_tick-forces waiter blocking w l enabled late r b m room =
      tick-ends
      ∙ ap ends
          (process_scale_in_waiter-releases blocking r b (forced waiter blocking l enabled late))
      ∙ simp (m, room)
