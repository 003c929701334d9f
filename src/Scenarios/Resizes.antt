-- ===== src/Scenarios/Resizes.antt =====
-- Runs of the resize handler: an immediate and a periodic event.
use quotascale_controller.Cluster.{lookup}
use quotascale_controller.Prelude.{String, [], false, none, refl, true, ◌∷◌, ◌≡◌, ◌≤◌}
use quotascale_controller.Prelude.Int.{pos, ◌+ℤ◌}
use quotascale_controller.Resize.{
  EventHandler, NamespaceResizeEvent, Reachable, done, is_in_progress, new_event_handler, receive,
  received, start, step,
}
use quotascale_controller.Resize.InFlight.{IsConsistent, Reachable-IsConsistent, in_flight}
use quotascale_controller.Resize.Priority.{done_drops, done_starts}
use quotascale_controller.Resources.{empty}

abbrev event : NamespaceResizeEvent
event = record {
  namespace = "team";
  resource_quota = "resource-quota";
  old = empty;
  new = record empty { cpu = pos 6333 };
  immediate = true;
}

abbrev busy : EventHandler
busy = record {
  update_interval = pos 60;
  in_progress = ("team", true) ∷ [];
  pending = ("team", event) ∷ [];
  cache = [];
  running = [];
}

abbrev periodic : NamespaceResizeEvent
periodic = record event { immediate = false }

abbrev waiting : EventHandler
waiting = record busy { pending = ("team", periodic) ∷ [] }

abbrev handler : EventHandler
handler = receive (pos 5) event (new_event_handler (pos 60))

reached : Reachable (pos 60) handler
reached = step start (received (pos 5) event)

Reachable-IsConsistent_example :
    IsConsistent handler × ((ns : String) → in_flight ns handler.running ≤ 1)
Reachable-IsConsistent_example = Reachable-IsConsistent reached

done_starts_example :
    ((done (pos 5) (pos 6) event busy).running ≡ event ∷ busy.running)
    × (lookup event.namespace (done (pos 5) (pos 6) event busy).pending ≡ none)
unfolding lookup
done_starts_example = done_starts (pos 5) (pos 6) event event busy refl refl

done_drops_example :
    ((done (pos 5) (pos 6) event waiting).running ≡ waiting.running)
    × (lookup event.namespace (done (pos 5) (pos 6) event waiting).pending ≡ none)
    × (is_in_progress event.namespace (done (pos 5) (pos 6) event waiting) ≡ false)
unfolding lookup ◌+ℤ◌
done_drops_example = done_drops (pos 5) (pos 6) event periodic waiting refl refl refl refl
