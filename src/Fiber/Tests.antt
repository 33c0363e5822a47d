-- ===== src/Fiber/Tests.antt =====
-- A run of `Fiber` (serverframework/fiber/fiber.cc) with one fiber beside the main one.
use my_server_framework.Prelude.{◌≡◌, refl, arith, true, false, ◌==◌, none, some, if◌then◌else◌}
use my_server_framework.Fiber.{ready, running, Fiber, Thread, resume}
use my_server_framework.Fiber.States.{state_of, Parked, turns, turns-executing}

abbrev worker : Fiber
worker = record { state = ready; cb = some 5; stack = true; run_in_scheduler = false }

abbrev main : Fiber
main = record { state = running; cb = none; stack = false; run_in_scheduler = true }

abbrev thread : Thread
thread = record {
  fibers = λ u. if u == 1 then some worker else some main;
  current = some 0;
  thread_fiber = some 0;
  scheduler_fiber = none;
  executing = 0;
  saved = λ u. some u;
  next_id = 2;
}

worker-Parked : Parked thread 1 0 worker
worker-Parked = record {
  there = refl;
  at_rest = refl;
  own = refl;
  partner_of = refl;
  other = λ e. ground (arith, e);
}

turns-executing_example :
    (u : Thread) × (v : Thread) × (turns 3 thread 1 ≡ some u)
    × (u.executing ≡ 0)
    × (u.current ≡ some 0)
    × Parked u 1 0 (record worker { state = ready })
    × (u.saved 0 ≡ some 0)
    × (resume u 1 ≡ some v)
    × (v.executing ≡ 1)
    × (v.current ≡ some 1)
    × (state_of v 1 ≡ some running)
turns-executing_example = turns-executing 2 thread 1 0 worker worker-Parked
