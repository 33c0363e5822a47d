-- ===== src/Timer/Tests.antt =====
-- Runs of `TimerManager` (serverframework/util/timer.cc) with two timers, the first of them recurring.
use my_server_framework.Prelude.{◌≡◌, refl, true, false, ◌==◌, some, [], ◌∷◌, if◌then◌else◌}
use my_server_framework.Timer.{Heap, TimerManager, refresh, detect_clock_rollover, list_expired_cb}
use my_server_framework.Timer.Calls.{InOrder, refresh-InOrder}
use my_server_framework.Timer.Firing.{due}
use my_server_framework.Timer.Listing.{Collects, list_expired_cb-due}

abbrev two_timers : Heap
two_timers u =
    if u == 1
    then record { recurring = true; ms = 5; next = 10; cb = some 100 }
    else record { recurring = false; ms = 20; next = 20; cb = some 200 }

abbrev manager : TimerManager
manager = record { heap = two_timers; timers = 1 ∷ 2 ∷ []; tickled = false; previous_use_time = 3 }

manager-InOrder : InOrder manager
manager-InOrder = ((refl, tt), (tt, tt))

-- The clock stood at two hours, and is back at zero.
abbrev later_manager : TimerManager
later_manager = record {
  heap = two_timers;
  timers = 1 ∷ 2 ∷ [];
  tickled = false;
  previous_use_time = 7200000;
}

forward : (detect_clock_rollover manager 15).0 ≡ false
unfolding detect_clock_rollover
forward = refl

back : (detect_clock_rollover later_manager 0).0 ≡ true
unfolding detect_clock_rollover
back = refl

refresh-InOrder_example : InOrder (refresh manager 9 1).1
refresh-InOrder_example = refresh-InOrder manager 9 1 manager-InOrder

list_expired_cb-due_example :
    Collects manager (due two_timers 15 (1 ∷ 2 ∷ [])) (list_expired_cb manager 15 7)
list_expired_cb-due_example = list_expired_cb-due manager 15 7 manager-InOrder forward
