-- ===== src/IoManager.antt =====
-- `IOManager` (serverframework/net/iomanager.h, iomanager.cc): the contexts of the descriptors, and
-- the events that wait on them. A failed ASSERT, and a use of a null scheduler, is `none`.
-- `epoll_ctl` is an argument: whether the kernel accepts a request. Descriptors are not negative.
-- What `Schedule` is given is added to `scheduled`; an operation holds its locks to its end, so it
-- is one step, `AddEvent` too, which lets its lock go between its two tests.
pub mod Calls
pub mod Contexts
pub mod Slots
pub mod Events
pub mod Ready
pub mod Idle
pub mod Rounds
pub mod Tests
use my_server_framework.Prelude.{
  ℕ, zero, suc, ◌+◌, ◌-◌, ◌*◌, ◌/◌, ◌%◌, ◌^◌, Bool, true, false, ◌&&◌, ◌||◌, not, Option, none,
  some, List, [], ◌∷◌, ◌++◌, if◌then◌else◌, ltb, length, take, set, get_elem?,
}

-- `Event`. Its other values are sets of events, in `events` alone.
pub data Event : Type 0 where
  no_event : Event
  read_event : Event
  write_event : Event

pub record EventSet : Type 0 where
  pub readable : Bool
  pub writable : Bool

-- `events & event`, `events | event` and `events & ~event`.
abbrev pub has : EventSet → Event → Bool
has s no_event = false
has s read_event = s.readable
has s write_event = s.writable

abbrev pub with_event : EventSet → Event → EventSet
with_event s no_event = s
with_event s read_event = record s { readable = true }
with_event s write_event = record s { writable = true }

abbrev pub without : EventSet → Event → EventSet
without s no_event = s
without s read_event = record s { readable = false }
without s write_event = record s { writable = false }

abbrev pub is_none : EventSet → Bool
is_none s = not s.readable && not s.writable

pub record EventContext : Type 0 where
  pub scheduler : Option ℕ
  pub fiber : Option ℕ
  pub cb : Option ℕ

pub record FdContext : Type 0 where
  pub read : EventContext
  pub write : EventContext
  pub fd : ℕ
  pub events : EventSet

-- What a scheduler is given: its number, and the callback or the fiber.
pub data Task : Type 0 where
  run_cb : (scheduler cb : ℕ) → Task
  run_fiber : (scheduler : ℕ) (fiber : Option ℕ) → Task

pub record IoManager : Type 0 where
  pub fd_contexts : List FdContext
  pub pending_event_count : ℕ
  pub scheduled : List Task

-- `GetEventContext`
abbrev pub get_event_context : FdContext → Event → Option EventContext
get_event_context c no_event = none
get_event_context c read_event = some c.read
get_event_context c write_event = some c.write

abbrev pub set_event_context : FdContext → Event → EventContext → FdContext
set_event_context c no_event x = c
set_event_context c read_event x = record c { read = x }
set_event_context c write_event x = record c { write = x }

-- `ResetEventContext`
abbrev pub reset_event_context : EventContext
reset_event_context = record { scheduler = none; fiber = none; cb = none }

-- `Schedule` of a callback, or of the fiber where there is none.
abbrev pub task_of : EventContext → ℕ → Task
task_of x s = elim x.cb [ none ↦ run_fiber s x.fiber | some cb ↦ run_cb s cb ]

-- `TriggerEvent`
abbrev pub trigger_with : FdContext → Event → EventContext → Option (Task × FdContext)
trigger_with c event x = elim x.scheduler [
  | none ↦ none
  | some s ↦ some (
    task_of x s,
    set_event_context (record c { events = without c.events event }) event reset_event_context,
  )
]

unfoldable pub trigger_event : FdContext → Event → Option (Task × FdContext)
trigger_event c event =
    if has c.events event
    then elim (get_event_context c event) [ none ↦ none | some x ↦ trigger_with c event x ]
    else none

abbrev pub new_context : ℕ → FdContext
new_context i = record {
  read = reset_event_context;
  write = reset_event_context;
  fd = i;
  events = record { readable = false; writable = false };
}

abbrev pub new_contexts : ℕ → ℕ → List FdContext
new_contexts i zero = []
new_contexts i (suc n) = new_context i ∷ new_contexts (suc i) n

-- `ContextResize`
unfoldable pub context_resize : ℕ → List FdContext → List FdContext
context_resize size cs = take size cs ++ new_contexts (length cs) (size - length cs)

-- The start of `AddEvent`: the contexts, enlarged where the descriptor has none.
unfoldable pub contexts_for : ℕ → List FdContext → List FdContext
contexts_for fd cs = if ltb fd (length cs) then cs else context_resize (fd * 3 / 2) cs

-- The number of pending events, a `size_t`.
abbrev pub increment : ℕ → ℕ
increment n = (n + 1) % 2 ^ 64

abbrev pub decrement : ℕ → ℕ
decrement n = (n + 2 ^ 64 - 1) % 2 ^ 64

abbrev pub is_set : Option ℕ → Bool
is_set none = false
is_set (some a) = true
