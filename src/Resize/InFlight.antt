-- ===== src/Resize/InFlight.antt =====
-- At most one resize of a namespace is running.
use quotascale_controller.Prelude.{
  ℕ, ◌+◌, ◌≤◌, String, Option, none, some, Bool, true, false, List, ◌∷◌, ◌++◌, ◌≡◌, refl, sym, ap,
  ◌∙◌, arith, count, count-append, if◌then◌else◌, Bool-cases, Option-cases, some_inj, none_some,
  inl, inr,
}
use quotascale_controller.Prelude.Int.{ℤ}
use quotascale_controller.Prelude.Text.{str_eq, str_eq_iff}
use quotascale_controller.Cluster.{lookup, has_key, insert, delete}
use quotascale_controller.Cluster.Maps.{
  lookup-insert, has_key-insert, has_key-delete, lookup-delete,
}
use quotascale_controller.Resize.{
  NamespaceResizeEvent, EventHandler, new_event_handler, is_in_progress, resize, receive, done,
  receive, received, finished, Reachable, start, step, updated_recently, replaces, set_in_progress,
  start_pending,
}

-- How many resizes of `ns` are running.
pub in_flight : String → List NamespaceResizeEvent → ℕ
in_flight ns running = count (λ e. str_eq e.namespace ns) running

-- For each namespace: the flag says whether a resize is running, and then it is one; what is pending
-- waits for a running one, and is filed under its own namespace.
abbrev pub IsConsistent : EventHandler → Type 0
IsConsistent h =
    (ns : String)
    → (in_flight ns h.running ≡ (if is_in_progress ns h then 1 else 0))
      × (has_key ns h.pending ≡ true → is_in_progress ns h ≡ true)
      × ((e : NamespaceResizeEvent) → lookup ns h.pending ≡ some e → str_eq e.namespace ns ≡ true)

in_flight-cons :
    (ns : String) (event : NamespaceResizeEvent) (running : List NamespaceResizeEvent)
    → in_flight ns (event ∷ running)
      ≡ (if str_eq event.namespace ns then 1 else 0) + in_flight ns running
unfolding in_flight
in_flight-cons ns event running = ground arith

in_flight-append :
    (ns : String) (before after : List NamespaceResizeEvent)
    → in_flight ns (before ++ after) ≡ in_flight ns before + in_flight ns after
unfolding in_flight
in_flight-append ns before after = count-append (λ e. str_eq e.namespace ns) before after

pub is_in_progress-set :
    (ns other : String) (b : Bool) (h : EventHandler)
    → is_in_progress other (set_in_progress ns b h)
      ≡ (if str_eq ns other then b else is_in_progress other h)
unfolding is_in_progress set_in_progress
is_in_progress-set ns other b h = ground (arith, lookup-insert ns other b h.in_progress)

same_flag :
    (ns other : String) (h : EventHandler)
    → str_eq ns other ≡ true
    → is_in_progress ns h ≡ is_in_progress other h
same_flag ns other h e = ap (λ n. is_in_progress n h) ((str_eq_iff ns other).0 e)

module _ (now : ℤ) (event : NamespaceResizeEvent) (h : EventHandler) where
  pub refuses : updated_recently now event h ≡ true → resize now event h ≡ (false, h)
  unfolding resize
  refuses e = simp e

  pub starts :
      updated_recently now event h ≡ false
      → resize now event h ≡ (true, record h { running = event ∷ h.running })
  unfolding resize
  starts e = simp e

  -- The four ways in which an event is received.
  pub pends :
      is_in_progress event.namespace h ≡ true
      → replaces event (lookup event.namespace h.pending) ≡ true
      → receive now event h ≡ record h { pending = insert event.namespace event h.pending }
  unfolding receive
  pends p r = simp (p, r)

  pub ignores :
      is_in_progress event.namespace h ≡ true
      → replaces event (lookup event.namespace h.pending) ≡ false
      → receive now event h ≡ h
  unfolding receive
  ignores p r = simp (p, r)

  pub launches :
      is_in_progress event.namespace h ≡ false
      → updated_recently now event h ≡ false
      → receive now event h
        ≡ set_in_progress event.namespace true (record h { running = event ∷ h.running })
  unfolding receive
  launches p u = simp (p, starts u)

  pub puts_off :
      is_in_progress event.namespace h ≡ false
      → updated_recently now event h ≡ true
      → receive now event h ≡ h
  unfolding receive
  puts_off p u = simp (p, refuses u)

  filed :
      (ns : String) (e : NamespaceResizeEvent) (old new : Option NamespaceResizeEvent)
      → new ≡ (if str_eq event.namespace ns then some event else old)
      → new ≡ some e
      → (old ≡ some e → str_eq e.namespace ns ≡ true)
      → str_eq e.namespace ns ≡ true
  filed ns e old new l k before = elim (Bool-cases (str_eq event.namespace ns)) [
    | inl t ↦
        ap (λ n. str_eq n.namespace ns)
          (some_inj (sym k ∙ l ∙ ap (λ b. if b then some event else old) t))
        ∙ t
    | inr f ↦ before (sym (l ∙ ap (λ b. if b then some event else old) f) ∙ k)
  ]

  receive-IsConsistent : IsConsistent h → IsConsistent (receive now event h)
  unfolding is_in_progress set_in_progress
  receive-IsConsistent c ns = elim (Bool-cases (is_in_progress event.namespace h)) [
    | inl p ↦ elim (Bool-cases (replaces event (lookup event.namespace h.pending))) [
      | inl r ↦ rw (pends p r) (
        (c ns).0,
        (λ k. ground (
          arith,
          k,
          p,
          has_key-insert event.namespace ns event h.pending,
          (c ns).1,
          same_flag event.namespace ns h,
        )),
        (λ e k. filed ns e _ _ (lookup-insert event.namespace ns event h.pending) k ((c ns).2 e)),
      )
      | inr r ↦ rw (ignores p r) (c ns)
    ]
    | inr p ↦ elim (Bool-cases (updated_recently now event h)) [
      | inl u ↦ rw (puts_off p u) (c ns)
      | inr u ↦ rw (launches p u) (
        ground (
          arith,
          c ns,
          p,
          in_flight-cons ns event h.running,
          same_flag event.namespace ns h,
          is_in_progress-set event.namespace ns true (record h { running = event ∷ h.running }),
        ),
        (λ k. ground (
          arith,
          k,
          (c ns).1,
          is_in_progress-set event.namespace ns true (record h { running = event ∷ h.running }),
        )),
        (c ns).2,
      )
    ]
  ]

module _ (now later : ℤ) (event : NamespaceResizeEvent) (h : EventHandler) where
  unfoldable pub cached : EventHandler
  cached = record h {
    cache = insert event.namespace (record { timestamp = now; event = event }) h.cache;
  }

  -- What is pending for the namespace of the finished resize.
  pub idle :
      lookup event.namespace h.pending ≡ none
      → done now later event h ≡ set_in_progress event.namespace false cached
  unfolding done cached
  idle e = rw (e, done) refl

  module _ (next : NamespaceResizeEvent) (e : lookup event.namespace h.pending ≡ some next) where
    unfoldable pub consumed : EventHandler
    unfolding cached
    consumed = record cached { pending = delete event.namespace h.pending }

    pub continues :
        updated_recently later next consumed ≡ false
        → done now later event h ≡ record consumed { running = next ∷ h.running }
    unfolding done start_pending consumed cached
    continues u = rw (e, done, start_pending, starts later next consumed u) refl

    pub drops :
        updated_recently later next consumed ≡ true
        → done now later event h ≡ set_in_progress event.namespace false consumed
    unfolding done start_pending consumed cached
    drops u = rw (e, done, start_pending, refuses later next consumed u) refl

module _ (now later : ℤ) (event : NamespaceResizeEvent) (h : EventHandler)
    (before after : List NamespaceResizeEvent) (splits : h.running ≡ before ++ event ∷ after)
    (c : IsConsistent h) where
  -- The handler without the goroutine that has finished.
  abbrev ended : EventHandler
  ended = record h { running = before ++ after }

  -- Of the namespace of the finished resize nothing runs any more; of another as much as before.
  left :
      (ns : String)
      → in_flight ns (before ++ after)
        ≡ (if str_eq event.namespace ns then 0 else if is_in_progress ns h then 1 else 0)
  left ns = ground (
    arith,
    (c ns).0,
    ap (in_flight ns) splits,
    in_flight-append ns before after,
    in_flight-append ns before (event ∷ after),
    in_flight-cons ns event after,
  )

  was_in_progress : (ns : String) → str_eq event.namespace ns ≡ true → is_in_progress ns h ≡ true
  was_in_progress ns e = ground (
    arith,
    e,
    (c ns).0,
    ap (in_flight ns) splits,
    in_flight-append ns before (event ∷ after),
    in_flight-cons ns event after,
  )

  same_key :
      (ns : String)
      → str_eq event.namespace ns ≡ true
      → has_key event.namespace h.pending ≡ has_key ns h.pending
  same_key ns e = ap (λ n. has_key n h.pending) ((str_eq_iff event.namespace ns).0 e)

  idle-IsConsistent :
      lookup event.namespace h.pending ≡ none → IsConsistent (done now later event ended)
  unfolding is_in_progress set_in_progress cached has_key
  idle-IsConsistent e = rw (idle now later event ended e) (λ ns. (
    ground (arith, left ns, is_in_progress-set event.namespace ns false h),
    (λ k.
        ground (arith, k, e, same_key ns, (c ns).1, is_in_progress-set event.namespace ns false h)),
    (c ns).2,
  ))

  module _ (next : NamespaceResizeEvent) (e : lookup event.namespace h.pending ≡ some next) where
    same_namespace : (ns : String) → str_eq next.namespace ns ≡ str_eq event.namespace ns
    same_namespace ns =
        ap (λ n. str_eq n ns)
          ((str_eq_iff next.namespace event.namespace).0 ((c event.namespace).2 next e))

    still_filed :
        (ns : String) (x : NamespaceResizeEvent)
        → lookup ns (delete event.namespace h.pending) ≡ some x
        → str_eq x.namespace ns ≡ true
    still_filed ns x k = elim (Bool-cases (str_eq event.namespace ns)) [
      | inl t ↦ none_some (
          sym (
            lookup-delete event.namespace ns h.pending
            ∙ ap (λ b. if b then none else lookup ns h.pending) t)
          ∙ k)
      | inr f ↦ (c ns).2 x (
          sym (
            lookup-delete event.namespace ns h.pending
            ∙ ap (λ b. if b then none else lookup ns h.pending) f)
          ∙ k)
    ]

    still_waits :
        (ns : String)
        → has_key ns (delete event.namespace h.pending) ≡ true
        → (str_eq event.namespace ns ≡ false) × (is_in_progress ns h ≡ true)
    still_waits ns k = (
      ground (arith, k, has_key-delete event.namespace ns h.pending),
      ground (arith, k, has_key-delete event.namespace ns h.pending, (c ns).1),
    )

    dropped-IsConsistent :
        updated_recently later next (consumed now later event ended next e) ≡ true
        → IsConsistent (done now later event ended)
    unfolding is_in_progress set_in_progress cached consumed
    dropped-IsConsistent u = rw (drops now later event ended next e u) (λ ns. (
      ground (arith, left ns, is_in_progress-set event.namespace ns false h),
      (λ k. ground (arith, still_waits ns k, is_in_progress-set event.namespace ns false h)),
      still_filed ns,
    ))

    continued-IsConsistent :
        updated_recently later next (consumed now later event ended next e) ≡ false
        → IsConsistent (done now later event ended)
    unfolding is_in_progress cached consumed
    continued-IsConsistent u = rw (continues now later event ended next e u) (λ ns. (
      ground (
        arith,
        left ns,
        same_namespace ns,
        in_flight-cons ns next (before ++ after),
        was_in_progress ns,
      ),
      (λ k. (still_waits ns k).1),
      still_filed ns,
    ))

  done-IsConsistent : IsConsistent (done now later event ended)
  done-IsConsistent = elim (Option-cases (lookup event.namespace h.pending)) [
    | inl e ↦ idle-IsConsistent e
    | inr (next, e) ↦
        elim (Bool-cases (updated_recently later next (consumed now later event ended next e))) [
          | inl u ↦ dropped-IsConsistent next e u
          | inr u ↦ continued-IsConsistent next e u
        ]
  ]

start-IsConsistent : (interval : ℤ) → IsConsistent (new_event_handler interval)
unfolding new_event_handler is_in_progress in_flight has_key lookup
start-IsConsistent interval ns = (refl, (λ k. k), (λ e k. none_some k))

-- Whatever order events arrive in and resizes end in, the flags, what runs and what is pending fit
-- together; in particular at most one resize of a namespace is running at any time.
pub Reachable-IsConsistent :
    {interval : ℤ} {h : EventHandler}
    → Reachable interval h
    → IsConsistent h × ((ns : String) → in_flight ns h.running ≤ 1)
Reachable-IsConsistent r = (consistent r, (λ ns. ground (arith, (consistent r ns).0)))
  where
    consistent : {interval : ℤ} {h : EventHandler} → Reachable interval h → IsConsistent h
    consistent start = start-IsConsistent _
    consistent (step r (received now event)) = receive-IsConsistent now event _ (consistent r)
    consistent (step r (finished now later event before after e)) =
        done-IsConsistent now later event _ before after e (consistent r)
