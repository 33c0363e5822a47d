-- ===== src/Scheduler/Tests.antt =====
-- Runs of `Scheduler` (serverframework/fiber/scheduler.cc) with one thread and one callback.
use my_server_framework.Prelude.{
  ℕ, ◌≡◌, refl, arith, Bool, true, false, none, some, List, [], ◌∷◌, ◌++◌,
}
use my_server_framework.Prelude.Sums.{sum_by}
use my_server_framework.Scheduler.{Task, schedule, stop, pick}
use my_server_framework.Scheduler.Pick.{runs_on}
use my_server_framework.Scheduler.System.{
  Phase, walking, executing, Worker, System, walk, walked, end_task, add_task, scheduled, stopped,
  walks, ends, Reach, start, later, initial,
}
use my_server_framework.Scheduler.Invariant.{Inv}
use my_server_framework.Scheduler.Runs.{Reach-Inv, stopping-executed}
use my_server_framework.Scheduler.Progress.{
  walk-runs, rounds, schedule_each, rounds-schedule_each, by_thread,
}

abbrev task : Task
task = record { fiber = none; cb = some 5; thread = none }

abbrev other_task : Task
other_task = record { fiber = some 2; cb = none; thread = some 8 }

abbrev in_phase : Phase → Worker
in_phase p = record { id = 7; phase = p; idle_over = false }

abbrev state : List Task → ℕ → Bool → Phase → List (ℕ × Task) → System
state ts active stopping p ran = record {
  shared = record {
    use_caller = true;
    thread_count = 0;
    tasks = ts;
    active_thread_count = active;
    idle_thread_count = 0;
    stopping = stopping;
  };
  workers = in_phase p ∷ [];
  added = task ∷ [];
  executed = ran;
}

abbrev waiting : System
waiting = state (task ∷ []) 0 false walking []

abbrev busy : System
busy = state [] 1 false (executing task) []

abbrev idle : System
idle = state [] 0 false walking ((7, task) ∷ [])

abbrev done : System
done = state [] 0 true walking ((7, task) ∷ [])

adds : waiting ≡ add_task (initial (7 ∷ []) true) task
unfolding add_task schedule
adds = refl

takes : walk waiting 0 (λ f. false) ≡ some busy
unfolding walk pick
takes = refl

finishes : end_task busy 0 ≡ some idle
unfolding end_task
finishes = refl

stops : stop idle.shared true ≡ some (1, done.shared)
unfolding stop
stops = refl

waiting-reached : Reach (initial (7 ∷ []) true) waiting
waiting-reached = later start (scheduled task adds)

busy-reached : Reach (initial (7 ∷ []) true) busy
busy-reached = later waiting-reached (walks 0 (λ f. false) takes)

done-reached : Reach (initial (7 ∷ []) true) done
done-reached = later (later busy-reached (ends 0 finishes)) (stopped true 1 done.shared stops refl)

Reach-Inv_example : Inv busy
Reach-Inv_example = Reach-Inv (7 ∷ []) true busy-reached

stopping-executed_example : sum_by (λ t. 1) done.added ≡ sum_by (λ (e : ℕ × Task). 1) done.executed
stopping-executed_example = stopping-executed (7 ∷ []) true done done-reached refl (λ t. 1)

walk-runs_example :
    (t : Task) × (rest : List Task) × (tickle : Bool) × (walk waiting 0 (λ f. false)
      ≡ some (
          walked waiting 0
            (in_phase walking)
            (record { task = some t; rest = rest; tickle_me = tickle })))
    × (runs_on 7 (λ f. false) t ≡ true)
walk-runs_example =
    walk-runs (7 ∷ []) true waiting 0 (in_phase walking) (λ f. false) waiting-reached refl refl
      (λ n. absurd (ground (arith, n.0)))

abbrev empty_queue : System
empty_queue = state [] 0 false walking []

abbrev two_tasks : List Task
two_tasks = task ∷ record { fiber = some 2; cb = none; thread = some 7 } ∷ []

rounds-schedule_each_example :
    (u : System) × (rounds 2
        (record empty_queue { shared = schedule_each empty_queue.shared two_tasks })
      ≡ some u)
    × (u.shared.tasks ≡ [])
    × (u.executed ≡ [] ++ by_thread 7 two_tasks)
rounds-schedule_each_example =
    rounds-schedule_each two_tasks empty_queue (in_phase walking) refl refl refl
      ((refl, refl), ((refl, refl), tt))
