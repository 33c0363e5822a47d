-- ===== src/IoManager/Idle.antt =====
-- The idle fiber of `IOManager` (serverframework/net/iomanager.cc), which is a `TimerManager` too: a round
-- of `Idle` takes the callbacks of the timers that are due, and handles what `epoll_wait` reports. What
-- `Scheduler::Stopping` answers, the clock and the reports are arguments. A wait that a signal ends is
-- taken up again, and has no round of its own. The byte that `Schedule` may write into the pipe, by `Tickle`,
-- is left out of a round.
use my_server_framework.Prelude.{
  ℕ, ◌+◌, ◌%◌, ◌^◌, Bool, not, ◌&&◌, Option, none, some, List, [], ◌∷◌, ◌++◌, if◌then◌else◌, ltb,
  ◌==◌, min,
}
use my_server_framework.Timer.{TimerManager, Callback, no_timeout, get_next_timer, list_expired_cb}
use my_server_framework.IoManager.{IoManager, Task, run_cb}
use my_server_framework.IoManager.Calls.{EpollCtl, Report, handle_report}

-- The bytes in the pipe of `Tickle`, and what the fiber works on.
pub record Idler : Type 0 where
  pub io : IoManager
  pub timers : TimerManager
  pub pipe : ℕ

-- `Tickle`, of which `wrote` is whether `write` puts its byte into the pipe; `none` is the failed ASSERT.
unfoldable pub tickle : Bool → Bool → Idler → Option Idler
tickle has_idle_threads wrote s =
    if not has_idle_threads
    then some s
    else if wrote
    then some (record s { pipe = s.pipe + 1 })
    else none

-- `Stopping`, with the timeout that it sets.
unfoldable pub stopping : Bool → Idler → ℕ → Bool × ℕ × Idler
stopping base_stopping s now =
    let r = get_next_timer s.timers now in
    (
      r.0 == no_timeout && (s.io.pending_event_count == 0 && base_stopping),
      r.0,
      record s { timers = r.1 },
    )

-- How long `epoll_wait` waits: a time, or with no end.
pub data Wait : Type 0 where
  millis : ℕ → Wait
  forever : Wait

-- The timeout given to `epoll_wait`: `(int)next_timeout` keeps 32 bits, of which the highest is the sign,
-- and a negative timeout is none.
unfoldable pub epoll_timeout : ℕ → Wait
epoll_timeout next_timeout =
    let kept = next_timeout % 2 ^ 32 in
    if next_timeout == no_timeout
    then millis 5000
    else if ltb kept (2 ^ 31)
    then millis (min kept 5000)
    else forever

-- `Schedule` of each callback; an empty one is not taken.
unfoldable pub schedule_all : ℕ → List Callback → List Task
schedule_all me [] = []
schedule_all me (none ∷ cbs) = schedule_all me cbs
schedule_all me (some cb ∷ cbs) = run_cb me cb ∷ schedule_all me cbs

-- What is reported: the pipe, or a descriptor.
pub data Event : Type 0 where
  tickled : Event
  reported : Report → Event

-- The loop over the events; the pipe is read until it is empty.
unfoldable pub handle_events : EpollCtl → Idler → List Event → Option Idler
handle_events epoll_ctl s [] = some s
handle_events epoll_ctl s (tickled ∷ es) = handle_events epoll_ctl (record s { pipe = 0 }) es
handle_events epoll_ctl s (reported r ∷ es) = elim (handle_report s.io epoll_ctl r) [
  | none ↦ none
  | some io' ↦ handle_events epoll_ctl (record s { io = io' }) es
]

-- A round: the fiber leaves the loop, or it yields after the round; `none` is a failed ASSERT.
pub data Round : Type 0 where
  leaves : Idler → Round
  yields : Wait → Idler → Round

unfoldable pub idle_round : ℕ → EpollCtl → Bool → ℕ → ℕ → ℕ → List Event → Idler → Option Round
idle_round me epoll_ctl base_stopping before now probe events s =
    let stop = stopping base_stopping s before in
    let expired = list_expired_cb stop.2.timers now probe in
    let io' = record s.io { scheduled = s.io.scheduled ++ schedule_all me expired.0 } in
    let s' : Idler = record { io = io'; timers = expired.1; pipe = s.pipe } in
    if stop.0 then some (leaves stop.2) else elim (handle_events epoll_ctl s' events) [
      | none ↦ none
      | some s'' ↦ some (yields (epoll_timeout stop.1) s'')
    ]
