-- ===== src/Resize.antt =====
-- internal/resize/api.go: `RunEventHandler`, which runs at most one resize of a namespace at a time
-- and puts off what comes too early. A goroutine that it starts is an event in `running` until it
-- reports on `eventDoneChan`; what it does is in Resize/Calls.
pub mod InFlight
pub mod Priority
pub mod Calls
use quotascale_controller.Prelude.{
  ◌*◌, String, Option, none, some, Bool, true, false, not, ◌&&◌, ◌||◌, List, [], ◌∷◌, ◌++◌, ◌≡◌,
  if◌then◌else◌,
}
use quotascale_controller.Prelude.Int.{ℤ, pos, ◌+ℤ◌, leb_ℤ, ltb_ℤ}
use quotascale_controller.Cluster.{Map, lookup, has_key, insert, delete}
use quotascale_controller.Resources.{Resources}

pub record NamespaceResizeEvent : Type 0 where
  pub namespace : String
  pub resource_quota : String
  pub old : Resources
  pub new : Resources
  pub immediate : Bool

pub record ResizeCache : Type 0 where
  pub timestamp : ℤ
  pub event : NamespaceResizeEvent

-- The variables of `RunEventHandler`, and the goroutines that it has started. Times are nanoseconds.
pub record EventHandler : Type 0 where
  pub update_interval : ℤ
  pub in_progress : Map Bool
  pub pending : Map NamespaceResizeEvent
  pub cache : Map ResizeCache
  pub running : List NamespaceResizeEvent

-- The state in which the loop starts.
unfoldable pub new_event_handler : ℤ → EventHandler
new_event_handler update_interval = record {
  update_interval =
      if leb_ℤ update_interval (pos 0) then pos (60 * 1000000000) else update_interval;
  in_progress = [];
  pending = [];
  cache = [];
  running = [];
}

-- `inProgress[ns]`, which is false where the key is missing.
unfoldable pub is_in_progress : String → EventHandler → Bool
is_in_progress ns h = elim (lookup ns h.in_progress) [ none ↦ false | some b ↦ b ]

-- Whether a resize of the namespace is too recent for an event that is not immediate.
unfoldable pub updated_recently : ℤ → NamespaceResizeEvent → EventHandler → Bool
updated_recently now event h = elim (lookup event.namespace h.cache) [
  | none ↦ false
  | some previous ↦ not event.immediate && ltb_ℤ now (previous.timestamp +ℤ h.update_interval)
]

-- The closure `resize`: whether the resize was started.
unfoldable pub resize : ℤ → NamespaceResizeEvent → EventHandler → Bool × EventHandler
resize now event h =
    if updated_recently now event h
    then (false, h)
    else (true, record h { running = event ∷ h.running })

unfoldable pub set_in_progress : String → Bool → EventHandler → EventHandler
set_in_progress ns b h = record h { in_progress = insert ns b h.in_progress }

-- Whether an event takes the place of what is pending.
unfoldable pub replaces : NamespaceResizeEvent → Option NamespaceResizeEvent → Bool
replaces event none = true
replaces event (some previous) = event.immediate || not previous.immediate

-- An event from `ResizeNsChan`.
unfoldable pub receive : ℤ → NamespaceResizeEvent → EventHandler → EventHandler
unfolding replaces set_in_progress
receive now event h =
    let started = resize now event h in
    if is_in_progress event.namespace h
    then (if replaces event (lookup event.namespace h.pending)
        then record h { pending = insert event.namespace event h.pending }
        else h)
    else if started.0
    then set_in_progress event.namespace true started.1
    else started.1

-- The pending event of a namespace is consumed.
unfoldable pub start_pending : ℤ → String → NamespaceResizeEvent → EventHandler → EventHandler
unfolding set_in_progress
start_pending now ns event h =
    let started = resize now event (record h { pending = delete ns h.pending }) in
    if started.0 then started.1 else set_in_progress ns false started.1

-- An event from `eventDoneChan`: its goroutine is no longer in `running`. The clock is read twice, for
-- the cache and for what is pending.
unfoldable pub done : ℤ → ℤ → NamespaceResizeEvent → EventHandler → EventHandler
unfolding start_pending set_in_progress
done now later event h =
    let cached = record h {
      cache = insert event.namespace (record { timestamp = now; event = event }) h.cache;
    } in
    elim (lookup event.namespace cached.pending) [
      | some next ↦ start_pending later event.namespace next cached
      | none ↦ set_in_progress event.namespace false cached
    ]

-- One round of the loop. A goroutine reports the event that it was started with, in any order.
pub data Step : EventHandler → EventHandler → Type 0 where
  received :
      {h : EventHandler} (now : ℤ) (event : NamespaceResizeEvent) → Step h (receive now event h)
  finished :
      {h : EventHandler} (now later : ℤ) (event : NamespaceResizeEvent)
      (before after : List NamespaceResizeEvent)
      → h.running ≡ before ++ event ∷ after
      → Step h (done now later event (record h { running = before ++ after }))

-- What the loop can reach.
pub data Reachable (interval : ℤ) : EventHandler → Type 0 where
  start : Reachable interval (new_event_handler interval)
  step : {h h' : EventHandler} → Reachable interval h → Step h h' → Reachable interval h'
