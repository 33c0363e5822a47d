-- ===== src/Hook.antt =====
-- The hooks of the system's calls (serverframework/net/hook.cc) that go through `do_io`: `read`,
-- `write`, `accept` and the like. The original function is the list of its outcomes, one for each
-- time that it is called; with each stands what happens while the fiber is away, if that call makes
-- it wait. A failed ASSERT is `crashed`, and a call still under way where the list ends `waiting`.
pub mod Waits
pub mod Blocking
pub mod Calls
pub mod Flags
pub mod Timeouts
pub mod Tests
use my_server_framework.Prelude.{
  ℕ, ◌-◌, ◌^◌, Bool, true, false, ◌&&◌, ◌||◌, not, Option, none, some, List, [], ◌∷◌, if◌then◌else◌,
  ◌==◌,
}
use my_server_framework.FdManager.{FdCtx, TimeoutType, get_timeout, no_timeout}
use my_server_framework.IoManager.{Event, IoManager}
use my_server_framework.IoManager.Calls.{EpollCtl, Caller, add_event}
use my_server_framework.Timer.{TimerManager, add_timer, cancel}

-- What a call gives: a number that is not -1, or -1 with `errno`.
pub data Outcome : Type 0 where
  got : ℕ → Outcome
  failed : ℕ → Outcome

abbrev pub eintr : ℕ
eintr = 4

abbrev pub ebadf : ℕ
ebadf = 9

abbrev pub eagain : ℕ
eagain = 11

abbrev pub etimedout : ℕ
etimedout = 110

abbrev pub einprogress : ℕ
einprogress = 115

-- The `IOManager` of the thread, which is also its manager of timers.
pub record World : Type 0 where
  pub iom : IoManager
  pub timers : TimerManager

-- From `Yield` until the fiber goes on: whether `cancelled` is set then, and what has become of the world;
-- `none` for a failed ASSERT, and for a fiber that nothing schedules.
abbrev pub Away : Type 0
Away = World → Option (Bool × World)

pub data Io : Type 0 where
  returned : Outcome → World → Io
  crashed : Io
  waiting : World → Io

-- What stays the same over a call: the descriptor and its event, the time limit, the caller, and what
-- the system answers; `timer` is the address of the timer that is made, `callback` its callback.
pub record Call : Type 0 where
  pub fd : ℕ
  pub event : Event
  pub timeout : ℕ
  pub who : Caller
  pub epoll_ctl : EpollCtl
  pub epoll_errno : ℕ
  pub now : ℕ
  pub timer : ℕ
  pub callback : ℕ

-- The timer, made where there is a time limit.
abbrev pub with_timer : Call → World → World
with_timer c w = record w {
  timers =
      if c.timeout == no_timeout
      then w.timers
      else (add_timer w.timers c.now c.timer c.timeout (some c.callback) false).1;
}

abbrev pub cancelled_timers : World → Option (Bool × TimerManager) → Option World
cancelled_timers w none = none
cancelled_timers w (some r) = some (record w { timers = r.1 })

-- `if (timer) timer->Cancel();`
unfoldable pub cancel_timer : Call → World → Option World
cancel_timer c w =
    cancelled_timers w
      (if c.timeout == no_timeout then some (false, w.timers) else cancel w.timers c.timer)

abbrev pub returned_or : Outcome → Option World → Io
returned_or o none = crashed
returned_or o (some w) = returned o w

-- From the return of `AddEvent` to `Yield`: it has failed, or the fiber is away.
pub data Wait : Type 0 where
  refused : Io → Wait
  away : World → Wait
  broken : Wait

abbrev pub added : Call → World → Option (Bool × IoManager) → Wait
added c w none = broken
added c w (some (true, iom)) = away (record w { iom = iom })
added c w (some (false, iom)) =
    refused (returned_or (failed c.epoll_errno) (cancel_timer c (record w { iom = iom })))

unfoldable pub begin_wait : Call → World → Wait
begin_wait c w =
    let w' = with_timer c w in added c w' (add_event w'.iom c.epoll_ctl c.fd c.event c.who none)

-- `retry` and the loop over EINTR.
unfoldable pub io_loop : Call → World → List (Outcome × Away) → Io
io_loop c w [] = waiting w
io_loop c w ((got n, a) ∷ rest) = returned (got n) w
io_loop c w ((failed e, a) ∷ rest) = elim (e == eintr) [
  | true ↦ io_loop c w rest
  | false ↦ elim (e == eagain) [
    | false ↦ returned (failed e) w
    | true ↦ elim (begin_wait c w) [
      | refused io ↦ io
      | broken ↦ crashed
      | away w' ↦ elim (a w') [
        | none ↦ crashed
        | some r ↦ elim (cancel_timer c r.1) [
          | none ↦ crashed
          | some w'' ↦ elim r.0 [
            | true ↦ returned (failed etimedout) w''
            | false ↦ io_loop c w'' rest
          ]
        ]
      ]
    ]
  ]
]

-- The original function, called once.
unfoldable pub original : World → List (Outcome × Away) → Io
original w [] = waiting w
original w ((o, a) ∷ rest) = returned o w

-- `do_io`: `hooked` is `t_hook_enable`, and `ctx` what `FdManager` has of the descriptor. The time
-- limit in `c` is replaced by that of the context.
unfoldable pub do_io : Bool → Option FdCtx → TimeoutType → Call → World → List (Outcome × Away) → Io
do_io hooked none so c w script = original w script
do_io hooked (some ctx) so c w script =
    if not hooked
    then original w script
    else if ctx.is_closed
    then returned (failed ebadf) w
    else if not ctx.is_socket || ctx.user_nonblock
    then original w script
    else io_loop (record c { timeout = get_timeout ctx so }) w script
