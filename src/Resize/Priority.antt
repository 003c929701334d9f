-- ===== src/Resize/Priority.antt =====
-- Immediate resizes are not lost; a periodic one that had to wait is put off.
use quotascale_controller.Prelude.{
  Bool-cases, ◌⊎◌, inl, inr, Option, none, some, true, false, ◌∷◌, ◌≡◌, refl, arith,
}
use quotascale_controller.Prelude.Int.{ℤ, ◌+ℤ◌, ltb_ℤ}
use quotascale_controller.Prelude.Text.{str_eq, str_eq_iff}
use quotascale_controller.Cluster.{lookup, insert, delete}
use quotascale_controller.Cluster.Maps.{lookup-insert, lookup-delete}
use quotascale_controller.Resize.{
  NamespaceResizeEvent, ResizeCache, EventHandler, is_in_progress, receive, done, updated_recently,
  replaces, set_in_progress,
}
use quotascale_controller.Resize.InFlight.{
  pends, launches, continues, drops, consumed, cached, is_in_progress-set,
}

module _ (now : ℤ) (event : NamespaceResizeEvent) (h : EventHandler) where
  not_put_off : event.immediate ≡ true → updated_recently now event h ≡ false
  unfolding updated_recently
  not_put_off i = ground (arith, i)

  replaces_any :
      event.immediate ≡ true → (o : Option NamespaceResizeEvent) → replaces event o ≡ true
  unfolding replaces
  replaces_any i none = refl
  replaces_any i (some p) = ground (arith, i)

  -- An immediate resize is started at once, unless one of its namespace is running; then it becomes
  -- what is pending, and what runs stays.
  receive-immediate :
      event.immediate ≡ true
      → ((is_in_progress event.namespace h ≡ false)
          × ((receive now event h).running ≡ event ∷ h.running))
        ⊎ ((is_in_progress event.namespace h ≡ true)
            × (lookup event.namespace (receive now event h).pending ≡ some event)
            × ((receive now event h).running ≡ h.running))
  unfolding set_in_progress
  receive-immediate i = elim (Bool-cases (is_in_progress event.namespace h)) [
    | inr p ↦ inl (p, rw (launches now event h p (not_put_off i)) refl)
    | inl p ↦ inr (
      p,
      rw (pends now event h p (replaces_any i _)) there,
      rw (pends now event h p (replaces_any i _)) refl,
    )
  ]
    where
      there : lookup event.namespace (insert event.namespace event h.pending) ≡ some event
      there = ground (
        arith,
        lookup-insert event.namespace event.namespace event h.pending,
        str_eq_iff event.namespace event.namespace,
      )

module _ (now later : ℤ) (event next : NamespaceResizeEvent) (h : EventHandler)
    (e : lookup event.namespace h.pending ≡ some next) where
  abbrev finished_entry : ResizeCache
  finished_entry = record { timestamp = now; event = event }

  put_off_again :
      str_eq next.namespace event.namespace ≡ true
      → next.immediate ≡ false
      → ltb_ℤ later (now +ℤ h.update_interval) ≡ true
      → updated_recently later next (consumed now later event h next e) ≡ true
  unfolding updated_recently consumed cached
  put_off_again same i l =
      rw
        (
          lookup-insert event.namespace next.namespace finished_entry h.cache,
          reversed,
          updated_recently,
        )
        (ground (arith, i, l))
    where
      reversed : str_eq event.namespace next.namespace ≡ true
      reversed = ground (
        arith,
        same,
        str_eq_iff next.namespace event.namespace,
        str_eq_iff event.namespace next.namespace,
      )

  emptied : lookup event.namespace (delete event.namespace h.pending) ≡ none
  emptied = ground (
    arith,
    lookup-delete event.namespace event.namespace h.pending,
    str_eq_iff event.namespace event.namespace,
  )

  idle_now :
      is_in_progress event.namespace
        (set_in_progress event.namespace false (consumed now later event h next e))
      ≡ false
  idle_now = ground (
    arith,
    is_in_progress-set event.namespace event.namespace false (consumed now later event h next e),
    str_eq_iff event.namespace event.namespace,
  )

  -- When a resize of the namespace ends, a pending immediate one starts, whatever the clock says.
  pub done_starts :
      next.immediate ≡ true
      → ((done now later event h).running ≡ next ∷ h.running)
        × (lookup event.namespace (done now later event h).pending ≡ none)
  unfolding consumed cached
  done_starts i =
      rw (continues now later event h next e (not_put_off later next _ i)) (refl, emptied)

  -- When a resize of the namespace ends, a pending periodic one of that namespace is thrown away if
  -- the interval has not elapsed since that very end, and the namespace is idle then.
  pub done_drops :
      str_eq next.namespace event.namespace ≡ true
      → next.immediate ≡ false
      → ltb_ℤ later (now +ℤ h.update_interval) ≡ true
      → ((done now later event h).running ≡ h.running)
        × (lookup event.namespace (done now later event h).pending ≡ none)
        × (is_in_progress event.namespace (done now later event h) ≡ false)
  unfolding set_in_progress consumed cached
  done_drops same i l =
      rw (drops now later event h next e (put_off_again same i l)) (refl, emptied, idle_now)
