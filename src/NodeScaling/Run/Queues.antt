-- ===== src/NodeScaling/Run/Queues.antt =====
-- The requests for a scale-out of a running controller are served in the order in which they came.
use mathlib.Core.List.{append-nil, append_assoc}
use quotascale_controller.Prelude.{
  List, [], ◌∷◌, ◌++◌, length, ltb, ◌≡◌, refl, sym, ap, ◌∙◌, Bool-cases, inl, inr,
}
use quotascale_controller.Effects.{Result, ok, err}
use quotascale_controller.Failure.{Error}
use quotascale_controller.Cluster.{Quantities}
use quotascale_controller.NodeScaling.{
  State, Settings, Dependencies, ScaleOutRequest, ScaleInRequest, new_node_scaling_controller,
  handle_scale_out_request, handle_scale_in_request, queue_capacity, on_world,
}
use quotascale_controller.NodeScaling.Keeping.{Property, Keeps}
use quotascale_controller.NodeScaling.Waiters.{clear_scale_in_waiter}
use quotascale_controller.NodeScaling.Waiters.Keeping.{waiter_tick-Holds}
use quotascale_controller.NodeScaling.Capacity.Keeping.{evaluate_automatic_scale_in-Keeps}
use quotascale_controller.NodeScaling.ScaleOut.Keeping.{reconcile_scale_out-Keeps}
use quotascale_controller.NodeScaling.ScaleIn.Keeping.{
  reconcile_scale_in-Keeps, ensure_machine_deployment_replica_baseline-Keeps,
}
use quotascale_controller.NodeScaling.Nodes.{sync_scaling_node_inventory}
use quotascale_controller.NodeScaling.Run.{
  start_run, take_scale_out, take_scale_in, on_tick, Step, scale_out_arrives, scale_in_arrives,
  scale_out_taken, scale_in_taken, ticks, waiter_ticks, waiter_ends, world_changes, Reachable,
  started, step,
}

-- The queue is the given one.
abbrev Queued : List ScaleOutRequest → Property
Queued queue settings outs ins = outs ≡ queue

module _ {W : Type 0} (queue : List ScaleOutRequest) where
  handle_scale_in_request-Keeps :
      (request : ScaleInRequest) → Keeps {W = W} (Queued queue) (handle_scale_in_request request)
  unfolding handle_scale_in_request
  handle_scale_in_request-Keeps request s h =
      elim (Bool-cases (ltb (length s.scale_in_requests) queue_capacity)) [
        | inl e ↦ rw e h
        | inr e ↦ rw e h
      ]

-- The request, if its handler has accepted it.
abbrev pub if_accepted : Result Error (Unit {0}) → ScaleOutRequest → List ScaleOutRequest
if_accepted (ok _) request = request ∷ []
if_accepted (err e) request = []

module _ {Q W : Type 0} (q : Quantities Q) (deps : Dependencies Q W) where
  -- The requests that a step accepts from others, and those that the loop takes from the queue.
  pub accepted_by : {s s' : State W} → Step q deps s s' → List ScaleOutRequest
  accepted_by (scale_out_arrives {s} request) =
      if_accepted (handle_scale_out_request request s).0 request
  accepted_by (scale_in_arrives request) = []
  accepted_by (scale_out_taken request rest e) = []
  accepted_by (scale_in_taken request rest e) = []
  accepted_by ticks = []
  accepted_by (waiter_ticks client store name request a b) = []
  accepted_by (waiter_ends name) = []
  accepted_by (world_changes world) = []

  pub taken_by : {s s' : State W} → Step q deps s s' → List ScaleOutRequest
  taken_by (scale_out_arrives request) = []
  taken_by (scale_in_arrives request) = []
  taken_by (scale_out_taken request rest e) = request ∷ []
  taken_by (scale_in_taken request rest e) = []
  taken_by ticks = []
  taken_by (waiter_ticks client store name request a b) = []
  taken_by (waiter_ends name) = []
  taken_by (world_changes world) = []

  -- The same for a whole run.
  pub accepted_in :
      {settings : Settings} {world : W} {s : State W}
      → Reachable q deps settings world s
      → List ScaleOutRequest
  unfolding accepted_by
  accepted_in started = []
  accepted_in (step r t) = accepted_in r ++ accepted_by t

  pub taken_in :
      {settings : Settings} {world : W} {s : State W}
      → Reachable q deps settings world s
      → List ScaleOutRequest
  unfolding taken_by
  taken_in started = []
  taken_in (step r t) = taken_in r ++ taken_by t

  arrival :
      (request : ScaleOutRequest) (s : State W)
      → s.scale_out_requests ++ if_accepted (handle_scale_out_request request s).0 request
        ≡ (handle_scale_out_request request s).1.scale_out_requests
  unfolding handle_scale_out_request
  arrival request s = elim (Bool-cases (ltb (length s.scale_out_requests) queue_capacity)) [
    | inl e ↦ rw e refl
    | inr e ↦ rw e (append-nil s.scale_out_requests)
  ]

  -- A step that neither accepts nor takes a request leaves the queue.
  unchanged : (queue queue' : List ScaleOutRequest) → queue' ≡ queue → queue ++ [] ≡ [] ++ queue'
  unchanged queue queue' h = append-nil queue ∙ sym h

  on_tick-queue : (s : State W) → (on_tick q deps s).scale_out_requests ≡ s.scale_out_requests
  unfolding on_tick
  on_tick-queue s =
      evaluate_automatic_scale_in-Keeps (Queued s.scale_out_requests)
        (handle_scale_in_request-Keeps s.scale_out_requests) q deps
        (on_world (sync_scaling_node_inventory deps) s).1 refl

  Step-queue :
      {s s' : State W} (t : Step q deps s s')
      → s.scale_out_requests ++ accepted_by t ≡ taken_by t ++ s'.scale_out_requests
  unfolding accepted_by taken_by take_scale_out take_scale_in clear_scale_in_waiter
  Step-queue (scale_out_arrives {s} request) = arrival request s
  Step-queue (scale_in_arrives {s} request) =
      unchanged s.scale_out_requests _
        (handle_scale_in_request-Keeps s.scale_out_requests request s refl)
  Step-queue (scale_out_taken {s} request rest e) =
      append-nil s.scale_out_requests
      ∙ e
      ∙ ap (◌∷◌ request) (
          sym (
            reconcile_scale_out-Keeps (Queued rest) deps request
              (record s { scale_out_requests = rest }) refl))
  Step-queue (scale_in_taken {s} request rest e) = unchanged s.scale_out_requests _ (
      reconcile_scale_in-Keeps (Queued s.scale_out_requests) q deps request
        (record s { scale_in_requests = rest }) refl)
  Step-queue (ticks {s}) = unchanged s.scale_out_requests _ (on_tick-queue s)
  Step-queue (waiter_ticks {s} client store name request a b) = unchanged s.scale_out_requests _ (
      waiter_tick-Holds (Queued s.scale_out_requests) client store deps.now name request
        (handle_scale_in_request-Keeps s.scale_out_requests request) s refl)
  Step-queue (waiter_ends {s} name) = unchanged s.scale_out_requests _ refl
  Step-queue (world_changes {s} world) = unchanged s.scale_out_requests _ refl

  start_run-queue :
      (settings : Settings) (world : W)
      → (start_run q deps
          (record (new_node_scaling_controller world) { settings = settings })).scale_out_requests
        ≡ []
  unfolding start_run new_node_scaling_controller
  start_run-queue settings world =
      ensure_machine_deployment_replica_baseline-Keeps (Queued []) q deps
        (record (new_node_scaling_controller world) { settings = settings }) refl

  -- However requests, ticks and drained nodes interleave and whatever fails: the requests for a
  -- scale-out that the controller has accepted are those that it has taken up, in the same order, and
  -- then those that still wait in the queue; none is lost, repeated or overtaken.
  pub accepted-taken :
      {settings : Settings} {world : W} (s : State W) (r : Reachable q deps settings world s)
      → accepted_in r ≡ taken_in r ++ s.scale_out_requests
  unfolding accepted_in taken_in
  accepted-taken s started = sym (start_run-queue _ _)
  accepted-taken s (step {s = before} r t) =
      ap (λ xs. xs ++ accepted_by t) (accepted-taken before r)
      ∙ append_assoc (taken_in r) before.scale_out_requests (accepted_by t)
      ∙ ap (λ xs. taken_in r ++ xs) (Step-queue t)
      ∙ sym (append_assoc (taken_in r) (taken_by t) s.scale_out_requests)
