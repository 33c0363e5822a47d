-- ===== src/Scheduler/Invariant.antt =====
-- What holds of the threads and the queue of `Scheduler` (serverframework/fiber/scheduler.cc) in every
-- order of their steps.
use my_server_framework.Prelude.{
  All, ℕ, ◌+◌, ◌≡◌, refl, sym, arith, Bool, true, false, List, [], ◌∷◌,
}
use my_server_framework.Prelude.Sums.{sum_by}
use my_server_framework.Scheduler.{Task, is_elsewhere}
use my_server_framework.Scheduler.Pick.{Proper}
use my_server_framework.Scheduler.System.{
  Phase, walking, executing, in_idle, left_run, Worker, System, starting, initial,
}

abbrev pub is_active : Phase → ℕ
is_active (executing t) = 1
is_active walking = 0
is_active in_idle = 0
is_active left_run = 0

abbrev pub is_idle : Phase → ℕ
is_idle in_idle = 1
is_idle (executing t) = 0
is_idle walking = 0
is_idle left_run = 0

-- The weight of the task that a thread is in.
abbrev pub held : (Task → ℕ) → Phase → ℕ
held w (executing t) = w t
held w walking = 0
held w in_idle = 0
held w left_run = 0

abbrev pub InPlace : ℕ → Phase → Type 0
InPlace i (executing t) = is_elsewhere i t ≡ false
InPlace i walking = Unit {0}
InPlace i in_idle = Unit {0}
InPlace i left_run = Unit {0}

abbrev pub Over : Bool → Worker → Type 0
Over stopping w = w.idle_over ≡ true → stopping ≡ true

-- The counts count the threads; the tasks added are those in the queue, those that threads are in
-- and those executed; a task is run by its thread only; an idle fiber ends only after `Stop`.
pub record Inv (s : System) : Type 0 where
  pub proper : All Proper s.shared.tasks
  pub active : s.shared.active_thread_count ≡ sum_by (λ (w : Worker). is_active w.phase) s.workers
  pub idle : s.shared.idle_thread_count ≡ sum_by (λ (w : Worker). is_idle w.phase) s.workers
  pub kept :
      (f : Task → ℕ)
      → sum_by f s.added
        ≡ sum_by f s.shared.tasks
          + sum_by (λ (w : Worker). held f w.phase) s.workers
          + sum_by (λ (e : ℕ × Task). f e.1) s.executed
  pub placed : All (λ (w : Worker). InPlace w.id w.phase) s.workers
  pub ran : All (λ (e : ℕ × Task). is_elsewhere e.0 e.1 ≡ false) s.executed
  pub over : All (Over s.shared.stopping) s.workers

-- At the start.
start-sum :
    (f : Worker → ℕ) (is : List ℕ)
    → ((i : ℕ) → f (record { id = i; phase = walking; idle_over = false }) ≡ 0)
    → sum_by f (starting is) ≡ 0
start-sum f [] z = refl
start-sum f (i ∷ is) z = omega (arith, z i, start-sum f is z)

start-All :
    (P : Worker → Type 0) (is : List ℕ)
    → ((i : ℕ) → P (record { id = i; phase = walking; idle_over = false }))
    → All P (starting is)
start-All P [] z = tt
start-All P (i ∷ is) z = (z i, start-All P is z)

pub initial-Inv : (ids : List ℕ) (use_caller : Bool) → Inv (initial ids use_caller)
initial-Inv ids use_caller = record {
  proper = tt;
  active = sym (start-sum (λ w. is_active w.phase) ids (λ i. refl));
  idle = sym (start-sum (λ w. is_idle w.phase) ids (λ i. refl));
  kept = λ f. omega (arith, start-sum (λ w. held f w.phase) ids (λ i. refl));
  placed = start-All (λ w. InPlace w.id w.phase) ids (λ i. tt);
  ran = tt;
  over = start-All (Over false) ids (λ i e. absurd (ground (arith, e)));
}
