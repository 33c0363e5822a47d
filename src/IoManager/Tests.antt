-- ===== src/IoManager/Tests.antt =====
-- Runs of `IOManager` (serverframework/net/iomanager.cc) that waits for input of descriptor 0.
use my_server_framework.Timer.{Timer, get_next_timer, detect_clock_rollover}
use my_server_framework.Timer.Calls.{InOrder}
use my_server_framework.IoManager.Idle
use my_server_framework.IoManager.Idle.{
  Idler, tickled, reported, millis, forever, yields, stopping, epoll_timeout, idle_round,
}
use my_server_framework.IoManager.Rounds.{Expects, due_tasks, idle_round-schedules}
use my_server_framework.Prelude.{
  ℕ, ◌≡◌, refl, arith, Bool, true, false, none, some, List, [], ◌∷◌, ◌++◌, ◌⊎◌, ◌==◌, if◌then◌else◌,
}
use my_server_framework.IoManager.{
  EventSet, write_event, FdContext, IoManager, reset_event_context, new_contexts, with_event,
  is_none, contexts_for, Task,
}
use my_server_framework.IoManager.Calls.{
  EpollCtl, EpollOp, Caller, add_event, cancel_all, Report, events_of, real_events, minus,
  handle_report,
}
use my_server_framework.IoManager.Contexts.{
  IsValid, new_contexts-Proper, total-new_contexts, length-new_contexts,
}
use my_server_framework.IoManager.Events.{Answers, add_event-IsValid}
use my_server_framework.IoManager.Ready.{cancel_all-IsValid, handle_report-IsValid}

abbrev reading : FdContext
reading = record {
  read = record { scheduler = some 1; fiber = none; cb = some 9 };
  write = reset_event_context;
  fd = 0;
  events = record { readable = true; writable = false };
}

abbrev manager : IoManager
manager = record {
  fd_contexts = reading ∷ new_contexts 1 31;
  pending_event_count = 1;
  scheduled = [];
}

manager-IsValid : IsValid manager
manager-IsValid = (
  omega (arith, length-new_contexts 1 31),
  ((refl, refl), new_contexts-Proper 1 31),
  omega (arith, total-new_contexts 1 31),
)

abbrev accepts : EpollCtl
accepts op fd events = true

abbrev caller : Caller
caller = record { scheduler = some 1; fiber = 4; running = true }

add_event-IsValid_example :
    (r : Bool × IoManager) × (add_event manager accepts 40 write_event caller none ≡ some r)
    × Answers
        (record manager { fd_contexts = contexts_for 40 manager.fd_contexts })
        40
        (with_event (events_of manager 40) write_event)
        r
    × (((op : EpollOp) (f : ℕ) (e : EventSet) → accepts op f e ≡ true) → r.0 ≡ true)
add_event-IsValid_example =
    add_event-IsValid manager accepts 40 write_event caller none manager-IsValid
      (λ e. ground (arith, e)) refl refl refl

cancel_all-IsValid_example :
    (r : Bool × IoManager) × (cancel_all manager accepts 0 ≡ some r)
    × IsValid r.1
    × (r.0 ≡ true → is_none (events_of r.1 0) ≡ true)
    × (r.0 ≡ false → r.1 ≡ manager)
cancel_all-IsValid_example = cancel_all-IsValid manager accepts 0 manager-IsValid

-- The peer has closed the connection.
abbrev hung_up : Report
hung_up = record { fd = 0; epollin = true; epollout = false; failed = true }

handle_report-IsValid_example :
    (m' : IoManager) × (handle_report manager accepts hung_up ≡ some m')
    × IsValid m'
    × ((events_of m' 0 ≡ events_of manager 0)
        ⊎ (events_of m' 0
            ≡ minus (events_of manager 0) (real_events hung_up (events_of manager 0))))
handle_report-IsValid_example =
    handle_report-IsValid manager accepts hung_up manager-IsValid (λ e. ground (arith, e))
      (λ e. refl, λ e. absurd (ground (arith, e)))

-- The manager with a timer that is due and one that is not; the pipe was written to, and the peer of the
-- descriptor 0 has closed the connection.
abbrev two_timers : ℕ → Timer
two_timers u =
    if u == 1
    then record { recurring = true; ms = 5; next = 10; cb = some 100 }
    else record { recurring = false; ms = 20; next = 20; cb = some 200 }

abbrev idler : Idler
idler = record {
  io = manager;
  timers = record {
    heap = two_timers;
    timers = 1 ∷ 2 ∷ [];
    tickled = false;
    previous_use_time = 3;
  };
  pipe = 1;
}

abbrev two_events : List Idle.Event
two_events = tickled ∷ reported hung_up ∷ []

idle_round-schedules_example :
    (s' : Idler) × (rest : List Task) × (idle_round 1 accepts true 14 15 7 two_events idler
      ≡ some (yields (millis 0) s'))
    × IsValid s'.io
    × InOrder s'.timers
    × (s'.io.scheduled ≡ ([] ++ due_tasks 1 idler.timers 15) ++ rest)
unfolding stopping get_next_timer epoll_timeout detect_clock_rollover Expects
idle_round-schedules_example =
    idle_round-schedules 1 accepts true 14 15 7 two_events idler manager-IsValid
      ((refl, tt), (tt, tt)) refl refl
      ((λ e. ground (arith, e)), ((λ e. refl), (λ e. absurd (ground (arith, e)))), λ m' e. tt)
