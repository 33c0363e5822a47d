-- ===== src/Scheduler/System.antt =====
-- The threads that run `Scheduler::Run` (serverframework/fiber/scheduler.cc) over one queue, as a step
-- relation: each step is what a thread does under one lock, and the threads take steps in any order.
use my_server_framework.Prelude.{
  ℕ, suc, ◌-◌, ◌≡◌, Bool, true, false, Option, none, some, List, [], ◌∷◌, ◌++◌, if◌then◌else◌,
  get_elem?, set, length, ◌||◌,
}
use my_server_framework.Scheduler.{
  Task, Scheduler, Picked, is_some, schedule, is_stopping, stop, pick, picked,
}

-- Where a thread is in the loop of `Run`: before the walk, in a task, in the idle fiber, or out.
pub data Phase : Type 0 where
  walking : Phase
  executing : Task → Phase
  in_idle : Phase
  left_run : Phase

-- A thread, with whether its idle fiber has ended (TERM).
pub record Worker : Type 0 where
  pub id : ℕ
  pub phase : Phase
  pub idle_over : Bool

-- `added` and `executed` are the history: the tasks put into the queue, and those that were run,
-- each with its thread.
pub record System : Type 0 where
  pub shared : Scheduler
  pub workers : List Worker
  pub added : List Task
  pub executed : List (ℕ × Task)

-- What `Run` does with what it found: the task, the idle fiber, or the end of the loop.
abbrev pub next_phase : Bool → Option Task → Phase
next_phase idle_over none = if idle_over then left_run else in_idle
next_phase idle_over (some t) = executing t

abbrev pub idle_added : Phase → ℕ → ℕ
idle_added in_idle n = suc n
idle_added walking n = n
idle_added (executing t) n = n
idle_added left_run n = n

abbrev pub walked : System → ℕ → Worker → Picked → System
walked s i w p =
    let phase = next_phase w.idle_over p.task in
    let shared = picked s.shared p in
    record s {
      shared = record shared { idle_thread_count = idle_added phase shared.idle_thread_count };
      workers = set s.workers i (record w { phase = phase });
    }

abbrev pub walk_of : System → ℕ → (ℕ → Bool) → Worker → Phase → Option System
walk_of s i running w walking = elim (pick w.id running s.shared.tasks) [
  | none ↦ none
  | some p ↦ some (walked s i w p)
]
walk_of s i running w (executing t) = none
walk_of s i running w in_idle = none
walk_of s i running w left_run = none

-- One walk of the thread at `i`.
unfoldable pub walk : System → ℕ → (ℕ → Bool) → Option System
walk s i running = elim (get_elem? s.workers i) [
  | none ↦ none
  | some w ↦ walk_of s i running w w.phase
]

abbrev pub end_of : System → ℕ → Worker → Phase → Option System
end_of s i w (executing t) = some (record s {
  shared = record s.shared { active_thread_count = s.shared.active_thread_count - 1 };
  workers = set s.workers i (record w { phase = walking });
  executed = s.executed ++ ((w.id, t) ∷ []);
})
end_of s i w walking = none
end_of s i w in_idle = none
end_of s i w left_run = none

-- The task of the thread at `i` is over: its fiber has yielded or ended, or its callback returned.
unfoldable pub end_task : System → ℕ → Option System
end_task s i = elim (get_elem? s.workers i) [ none ↦ none | some w ↦ end_of s i w w.phase ]

abbrev pub return_of : System → ℕ → Bool → Worker → Phase → Option System
return_of s i over w in_idle = some (record s {
  shared = record s.shared { idle_thread_count = s.shared.idle_thread_count - 1 };
  workers = set s.workers i (record w { phase = walking; idle_over = over });
})
return_of s i over w walking = none
return_of s i over w (executing t) = none
return_of s i over w left_run = none

-- The idle fiber of the thread at `i` yields, or ends.
unfoldable pub leave_idle : System → ℕ → Bool → Option System
leave_idle s i over = elim (get_elem? s.workers i) [
  | none ↦ none
  | some w ↦ return_of s i over w w.phase
]

-- `Schedule`, from any thread.
unfoldable pub add_task : System → Task → System
add_task s t = record s {
  shared = (schedule s.shared t).1;
  added = if is_some t.fiber || is_some t.cb then s.added ++ (t ∷ []) else s.added;
}

-- The steps. `Idle` ends only where `Stopping` holds; `IOManager` asks for more.
pub data Step (s u : System) : Type 0 where
  scheduled : (t : Task) → u ≡ add_task s t → Step s u
  stopped :
      (here : Bool) (n : ℕ) (sh : Scheduler)
      → stop s.shared here ≡ some (n, sh)
      → u ≡ record s { shared = sh }
      → Step s u
  walks : (i : ℕ) (running : ℕ → Bool) → walk s i running ≡ some u → Step s u
  ends : (i : ℕ) → end_task s i ≡ some u → Step s u
  yields : (i : ℕ) → leave_idle s i false ≡ some u → Step s u
  idle_ends : (i : ℕ) → is_stopping s.shared ≡ true → leave_idle s i true ≡ some u → Step s u

pub data Reach (s : System) : System → Type 0 where
  start : Reach s s
  later : {t u : System} → Reach s t → Step t u → Reach s u

-- Threads before their first walk, over an empty queue.
abbrev pub starting : List ℕ → List Worker
starting [] = []
starting (i ∷ is) = record { id = i; phase = walking; idle_over = false } ∷ starting is

abbrev pub initial : List ℕ → Bool → System
initial ids use_caller = record {
  shared = record {
    use_caller = use_caller;
    thread_count = if use_caller then length ids - 1 else length ids;
    tasks = [];
    active_thread_count = 0;
    idle_thread_count = 0;
    stopping = false;
  };
  workers = starting ids;
  added = [];
  executed = [];
}
