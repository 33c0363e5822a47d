-- ===== src/IoManager/Calls.antt =====
-- The operations of `IOManager` (serverframework/net/iomanager.cc) and the events that its `Idle`
-- handles, on the contexts of the descriptors.
use my_server_framework.Prelude.{
  ℕ, Bool, true, false, ◌&&◌, ◌||◌, not, Option, none, some, List, [], ◌∷◌, ◌++◌, if◌then◌else◌,
  set, get_elem?,
}
use my_server_framework.IoManager.{
  Event, read_event, write_event, EventSet, has, with_event, without, is_none, EventContext,
  FdContext, IoManager, get_event_context, set_event_context, reset_event_context, is_set,
  increment, decrement, trigger_event, contexts_for,
}

pub data EpollOp : Type 0 where
  ctl_add : EpollOp
  ctl_mod : EpollOp
  ctl_del : EpollOp

-- `epoll_ctl`: whether a request for a descriptor, with the events to wait for, succeeds.
abbrev pub EpollCtl : Type 0
EpollCtl = EpollOp → ℕ → EventSet → Bool

-- `GetThis()` of the scheduler and of the fiber, and whether that fiber's state is RUNNING.
pub record Caller : Type 0 where
  pub scheduler : Option ℕ
  pub fiber : ℕ
  pub running : Bool

-- The context that `AddEvent` fills in.
abbrev pub filled : Caller → Option ℕ → Option EventContext
filled who none =
    if who.running
    then some (record { scheduler = who.scheduler; fiber = some who.fiber; cb = none })
    else none
filled who (some cb) = some (record { scheduler = who.scheduler; fiber = none; cb = some cb })

abbrev pub is_reset : EventContext → Bool
is_reset x = not (is_set x.scheduler) && not (is_set x.fiber) && not (is_set x.cb)

-- The end of `AddEvent`, once epoll accepts the events.
unfoldable pub registered_context : FdContext → Event → Caller → Option ℕ → Option FdContext
registered_context c event who cb = elim (get_event_context c event) [
  | none ↦ none
  | some x ↦
      if is_reset x
      then (elim (filled who cb) [
        | none ↦ none
        | some y ↦
            some (set_event_context (record c { events = with_event c.events event }) event y)
      ])
      else none
]

-- `AddEvent`: true for its result 0, false for -1.
unfoldable pub add_event :
    IoManager → EpollCtl → ℕ → Event → Caller → Option ℕ → Option (Bool × IoManager)
add_event m epoll_ctl fd event who cb =
    let cs = contexts_for fd m.fd_contexts in
    elim (get_elem? cs fd) [
      | none ↦ none
      | some c ↦
          let op = if is_none c.events then ctl_add else ctl_mod in
          if has c.events event
          then none
          else if not (epoll_ctl op fd (with_event c.events event))
          then some (false, record m { fd_contexts = cs })
          else elim (registered_context c event who cb) [
            | none ↦ none
            | some c' ↦ some (
              true,
              record m {
                fd_contexts = set cs fd c';
                pending_event_count = increment m.pending_event_count;
              },
            )
          ]
    ]

abbrev pub op_for : EventSet → EpollOp
op_for left = if is_none left then ctl_del else ctl_mod

-- `DelEvent`
abbrev pub dropped_context : FdContext → Event → FdContext
dropped_context c event =
    set_event_context (record c { events = without c.events event }) event reset_event_context

unfoldable pub del_event : IoManager → EpollCtl → ℕ → Event → Bool × IoManager
del_event m epoll_ctl fd event = elim (get_elem? m.fd_contexts fd) [
  | none ↦ (false, m)
  | some c ↦
      let left = without c.events event in
      if not (has c.events event)
      then (false, m)
      else if not (epoll_ctl (op_for left) fd left)
      then (false, m)
      else (
        true,
        record m {
          fd_contexts = set m.fd_contexts fd (dropped_context c event);
          pending_event_count = decrement m.pending_event_count;
        },
      )
]

-- One `TriggerEvent` and the decrement after it.
unfoldable pub trigger : IoManager → ℕ → Event → Option IoManager
trigger m fd event = elim (get_elem? m.fd_contexts fd) [
  | none ↦ none
  | some c ↦ elim (trigger_event c event) [
    | none ↦ none
    | some (task, c') ↦ some (record {
      fd_contexts = set m.fd_contexts fd c';
      pending_event_count = decrement m.pending_event_count;
      scheduled = m.scheduled ++ (task ∷ []);
    })
  ]
]

abbrev pub answered : Bool → Option IoManager → Option (Bool × IoManager)
answered b none = none
answered b (some m) = some (b, m)

-- `CancelEvent`
unfoldable pub cancel_event : IoManager → EpollCtl → ℕ → Event → Option (Bool × IoManager)
cancel_event m epoll_ctl fd event = elim (get_elem? m.fd_contexts fd) [
  | none ↦ some (false, m)
  | some c ↦
      let left = without c.events event in
      if not (has c.events event)
      then some (false, m)
      else if not (epoll_ctl (op_for left) fd left)
      then some (false, m)
      else answered true (trigger m fd event)
]

-- A trigger under an `if`, and what follows it.
unfoldable pub trigger_if : Bool → ℕ → Event → Option IoManager → Option IoManager
trigger_if b fd event none = none
trigger_if b fd event (some m) = if b then trigger m fd event else some m

-- The events of a descriptor, none where it has no context.
abbrev pub events_at : List FdContext → ℕ → EventSet
events_at cs fd = elim (get_elem? cs fd) [
  | none ↦ record { readable = false; writable = false }
  | some c ↦ c.events
]

abbrev pub events_of : IoManager → ℕ → EventSet
events_of m fd = events_at m.fd_contexts fd

-- `if (fd_ctx->events & event)` and the trigger under it.
unfoldable pub trigger_registered : ℕ → Event → Option IoManager → Option IoManager
trigger_registered fd event none = none
trigger_registered fd event (some m) = trigger_if (has (events_of m fd) event) fd event (some m)

-- The ASSERT at the end of `CancelAll`.
abbrev pub all_triggered : ℕ → Option IoManager → Option (Bool × IoManager)
all_triggered fd none = none
all_triggered fd (some m) = if is_none (events_of m fd) then some (true, m) else none

-- `CancelAll`
unfoldable pub cancel_all : IoManager → EpollCtl → ℕ → Option (Bool × IoManager)
cancel_all m epoll_ctl fd = elim (get_elem? m.fd_contexts fd) [
  | none ↦ some (false, m)
  | some c ↦
      if is_none c.events
      then some (false, m)
      else if not (epoll_ctl ctl_del fd (record { readable = false; writable = false }))
      then some (false, m)
      else all_triggered fd
          (trigger_registered fd write_event (trigger_registered fd read_event (some m)))
]

-- What `epoll_wait` reports of a descriptor: EPOLLIN, EPOLLOUT, and EPOLLERR or EPOLLHUP.
pub record Report : Type 0 where
  pub fd : ℕ
  pub epollin : Bool
  pub epollout : Bool
  pub failed : Bool

abbrev pub real_events : Report → EventSet → EventSet
real_events r events = record {
  readable = r.epollin || (r.failed && events.readable);
  writable = r.epollout || (r.failed && events.writable);
}

abbrev pub minus : EventSet → EventSet → EventSet
minus s t = record {
  readable = s.readable && not t.readable;
  writable = s.writable && not t.writable;
}

-- The body of the loop of `Idle` over the events that `epoll_wait` reports.
unfoldable pub handle_report : IoManager → EpollCtl → Report → Option IoManager
handle_report m epoll_ctl r = elim (get_elem? m.fd_contexts r.fd) [
  | none ↦ none
  | some c ↦
      let real = real_events r c.events in
      let left = minus c.events real in
      if not (c.events.readable && real.readable) && not (c.events.writable && real.writable)
      then some m
      else if not (epoll_ctl (op_for left) c.fd left)
      then some m
      else trigger_if real.writable r.fd write_event
          (trigger_if real.readable r.fd read_event (some m))
]

-- The loop over the reports, but for those of the pipe of `Tickle`, which `Idle` only drains.
unfoldable pub handle_reports : IoManager → EpollCtl → List Report → Option IoManager
handle_reports m epoll_ctl [] = some m
handle_reports m epoll_ctl (r ∷ rs) = elim (handle_report m epoll_ctl r) [
  | none ↦ none
  | some m' ↦ handle_reports m' epoll_ctl rs
]
