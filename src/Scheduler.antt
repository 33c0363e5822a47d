-- ===== src/Scheduler.antt =====
-- `Scheduler` (serverframework/fiber/scheduler.h, scheduler.cc): the queue of tasks and the counts
-- that its threads share. What a thread does between two locks of the queue is one step; the steps
-- of several threads are in System. A failed ASSERT is `none`.
pub mod Pick
pub mod System
pub mod Invariant
pub mod Steps
pub mod Runs
pub mod Progress
pub mod Tests
use my_server_framework.Prelude.{
  ℕ, suc, ◌+◌, ◌-◌, Bool, true, false, ◌&&◌, ◌||◌, not, Option, none, some, List, [], ◌∷◌, ◌++◌,
  if◌then◌else◌, ltb, ◌==◌,
}

-- `ScheduleTask`: a fiber or a callback, by number, and the thread that is to run it, `none` for -1.
pub record Task : Type 0 where
  pub fiber : Option ℕ
  pub cb : Option ℕ
  pub thread : Option ℕ

pub record Scheduler : Type 0 where
  pub use_caller : Bool
  pub thread_count : ℕ
  pub tasks : List Task
  pub active_thread_count : ℕ
  pub idle_thread_count : ℕ
  pub stopping : Bool

abbrev pub is_some : Option ℕ → Bool
is_some none = false
is_some (some a) = true

abbrev pub is_empty : List Task → Bool
is_empty [] = true
is_empty (t ∷ ts) = false

-- The constructor, for at least one thread; the thread that calls it is one of them if it is used.
unfoldable pub new_scheduler : ℕ → Bool → Option Scheduler
new_scheduler threads use_caller =
    if ltb 0 threads
    then some (record {
      use_caller = use_caller;
      thread_count = if use_caller then threads - 1 else threads;
      tasks = [];
      active_thread_count = 0;
      idle_thread_count = 0;
      stopping = false;
    })
    else none

-- `ScheduleNoLock`: whether to tickle, and the scheduler.
unfoldable pub schedule : Scheduler → Task → Bool × Scheduler
schedule s task =
    let need_tickle = is_empty s.tasks in
    if is_some task.fiber || is_some task.cb
    then (need_tickle, record s { tasks = s.tasks ++ (task ∷ []) })
    else (need_tickle, s)

-- `Stopping`
abbrev pub is_stopping : Scheduler → Bool
is_stopping s = s.stopping && is_empty s.tasks && s.active_thread_count == 0

abbrev pub has_idle_threads : Scheduler → Bool
has_idle_threads s = ltb 0 s.idle_thread_count

-- The start of `Stop`, up to the calls of `Tickle`, of which the number is given; `here` is whether
-- the scheduler of the calling thread is this one.
unfoldable pub stop : Scheduler → Bool → Option (ℕ × Scheduler)
stop s here =
    let tickles = if s.use_caller then s.thread_count + 1 else s.thread_count in
    if is_stopping s
    then some (0, s)
    else if (if s.use_caller then here else not here)
    then some (tickles, record s { stopping = true })
    else none

-- What the walk over the queue in `Run` finds: the task taken, the queue that is left, and whether
-- to tickle the other threads.
pub record Picked : Type 0 where
  pub task : Option Task
  pub rest : List Task
  pub tickle_me : Bool

-- The iterator moves on.
abbrev pub skipped : Bool → Task → Option Picked → Option Picked
skipped tickle t none = none
skipped tickle t (some p) = some (record p { rest = t ∷ p.rest; tickle_me = tickle || p.tickle_me })

-- Whether a task is for another thread, or is a fiber that still runs.
abbrev pub is_elsewhere : ℕ → Task → Bool
is_elsewhere me t = elim t.thread [ none ↦ false | some i ↦ not (i == me) ]

abbrev pub still_runs : (ℕ → Bool) → Task → Bool
still_runs running t = elim t.fiber [ none ↦ false | some f ↦ running f ]

-- The walk of thread `me`; `running` says of a fiber whether its state is RUNNING.
unfoldable pub pick : ℕ → (ℕ → Bool) → List Task → Option Picked
pick me running [] = some (record { task = none; rest = []; tickle_me = false })
pick me running (t ∷ ts) =
    let next = pick me running ts in
    if is_elsewhere me t
    then skipped true t next
    else if not (is_some t.fiber || is_some t.cb)
    then none
    else if still_runs running t
    then skipped false t next
    else some (record { task = some t; rest = ts; tickle_me = not (is_empty ts) })

-- The scheduler after the lock is let go: a thread that has a task is active.
abbrev pub picked : Scheduler → Picked → Scheduler
picked s p = record s {
  tasks = p.rest;
  active_thread_count = elim p.task [
    | none ↦ s.active_thread_count
    | some t ↦ suc s.active_thread_count
  ];
}
