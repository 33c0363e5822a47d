-- ===== src/IoManager/Rounds.antt =====
-- What a round of the idle fiber does (serverframework/net/iomanager.cc).
use my_server_framework.Prelude.{
  ℕ, ◌%◌, ◌^◌, ◌≤◌, ◌<◌, ◌≡◌, ◌≢◌, refl, sym, ap, ◌∙◌, subst, Bool, true, false, not, ◌&&◌,
  Bool-cases, Option-cases, inl, inr, Option, none, some, List, [], ◌∷◌, ◌++◌, append-nil,
  append_assoc, ltb, ◌==◌, min, get_elem?, set, arith,
}
use my_server_framework.Prelude.Sums.{some-injective}
use my_server_framework.Timer.{
  TimerManager, no_timeout, get_next_timer, list_expired_cb, detect_clock_rollover,
}
use my_server_framework.Timer.Firing.{due, callbacks}
use my_server_framework.Timer.Calls.{InOrder}
use my_server_framework.Timer.Listing.{list_expired_cb-due}
use my_server_framework.IoManager.{
  IoManager, Task, trigger_event, decrement, read_event, write_event,
}
use my_server_framework.IoManager
use my_server_framework.IoManager.Contexts.{IsValid}
use my_server_framework.IoManager.Calls.{
  EpollCtl, Report, real_events, minus, op_for, events_of, trigger, trigger_if, handle_report,
}
use my_server_framework.IoManager.Ready.{Expected, handle_report-IsValid}
use my_server_framework.IoManager.Idle.{
  Idler, stopping, millis, forever, epoll_timeout, schedule_all, Event, tickled, reported,
  handle_events, yields, idle_round,
}

-- Tasks are only added behind those that are scheduled.
abbrev pub Grows : IoManager → IoManager → Type 0
Grows m m' = (rest : List Task) × (m'.scheduled ≡ m.scheduled ++ rest)

Grows-refl : (m : IoManager) → Grows m m
Grows-refl m = ([], sym (append-nil m.scheduled))

Grows-trans : (m m' m'' : IoManager) → Grows m m' → Grows m' m'' → Grows m m''
Grows-trans m m' m'' g h =
    (g.0 ++ h.0, h.1 ∙ ap (λ ts. ts ++ h.0) g.1 ∙ append_assoc m.scheduled g.0 h.0)

trigger-Grows :
    (m m' : IoManager) (fd : ℕ) (event : IoManager.Event)
    → trigger m fd event ≡ some m'
    → Grows m m'
unfolding trigger
trigger-Grows m m' fd event e = elim (Option-cases (get_elem? m.fd_contexts fd)) [
  | inl out ↦ absurd (ground (arith, e, out))
  | inr c ↦ elim (Option-cases (trigger_event c.0 event)) [
    | inl nothing ↦ absurd (ground (arith, e, c.1, nothing))
    | inr t ↦
        let m₁ : IoManager = record {
          fd_contexts = set m.fd_contexts fd t.0.1;
          pending_event_count = decrement m.pending_event_count;
          scheduled = m.scheduled ++ (t.0.0 ∷ []);
        } in
        let step : trigger m fd event ≡ some m₁ = rw (trigger, c.1, t.1) refl in
        let same : m₁ ≡ m' = some-injective m₁ m' (sym step ∙ e) in
        (t.0.0 ∷ [], ap (λ x. x.scheduled) (sym same))
  ]
]

none_differs : (m : IoManager) → ◌≡◌ {A = Option IoManager} none (some m) → ⊥
none_differs m e = ground (arith, e)

trigger_if-Grows :
    (m m' : IoManager) (b : Bool) (fd : ℕ) (event : IoManager.Event)
    → trigger_if b fd event (some m) ≡ some m'
    → Grows m m'
unfolding trigger_if
trigger_if-Grows m m' true fd event e = trigger-Grows m m' fd event e
trigger_if-Grows m m' false fd event e = subst (Grows m) (some-injective m m' e) (Grows-refl m)

twice-Grows :
    (m m' : IoManager) (a b : Bool) (fd : ℕ)
    → trigger_if a fd write_event (trigger_if b fd read_event (some m)) ≡ some m'
    → Grows m m'
unfolding trigger_if
twice-Grows m m' a b fd e = elim (Option-cases (trigger_if b fd read_event (some m))) [
  | inl nothing ↦ absurd (none_differs m' (sym (ap (trigger_if a fd write_event) nothing) ∙ e))
  | inr r ↦
      Grows-trans m r.0 m' (trigger_if-Grows m r.0 b fd read_event r.1)
        (trigger_if-Grows r.0 m' a fd write_event (sym (ap (trigger_if a fd write_event) r.1) ∙ e))
]

handle_report-Grows :
    (m m' : IoManager) (epoll_ctl : EpollCtl) (r : Report)
    → handle_report m epoll_ctl r ≡ some m'
    → Grows m m'
unfolding handle_report
handle_report-Grows m m' epoll_ctl r e = elim (Option-cases (get_elem? m.fd_contexts r.fd)) [
  | inl out ↦ absurd (ground (arith, e, out))
  | inr c ↦
      let events = c.0.events in
      let real = real_events r events in
      let left = minus events real in
      elim (Bool-cases
        (not (events.readable && real.readable) && not (events.writable && real.writable))) [
          | inl idle ↦
              let step : handle_report m epoll_ctl r ≡ some m =
                rw (handle_report, c.1, idle) refl in
              subst (Grows m) (some-injective m m' (sym step ∙ e)) (Grows-refl m)
          | inr ready ↦ elim (Bool-cases (epoll_ctl (op_for left) c.0.fd left)) [
            | inl accepted ↦
                let step : handle_report m epoll_ctl r
                    ≡ trigger_if real.writable r.fd write_event
                        (trigger_if real.readable r.fd read_event (some m)) =
                  rw (handle_report, c.1, ready, accepted) refl in
                twice-Grows m m' real.writable real.readable r.fd (sym step ∙ e)
            | inr refused ↦
                let step : handle_report m epoll_ctl r ≡ some m =
                  rw (handle_report, c.1, ready, refused) refl in
                subst (Grows m) (some-injective m m' (sym step ∙ e)) (Grows-refl m)
          ]
        ]
]

-- Each event is of the pipe, or of a descriptor with a context, of which it is reported what is waited
-- for when it is handled.
unfoldable pub Expects : EpollCtl → IoManager → List Event → Type 0
Expects epoll_ctl m [] = Unit {0}
Expects epoll_ctl m (tickled ∷ es) = Expects epoll_ctl m es
Expects epoll_ctl m (reported r ∷ es) =
    (get_elem? m.fd_contexts r.fd ≢ none)
    × Expected r (events_of m r.fd)
    × ((m' : IoManager) → handle_report m epoll_ctl r ≡ some m' → Expects epoll_ctl m' es)

abbrev pub Handled : Idler → Option Idler → Type 0
Handled s r =
    (s' : Idler) × (r ≡ some s') × IsValid s'.io × Grows s.io s'.io × (s'.timers ≡ s.timers)

handle_events-Handled :
    (epoll_ctl : EpollCtl) (s : Idler) (es : List Event)
    → IsValid s.io
    → Expects epoll_ctl s.io es
    → Handled s (handle_events epoll_ctl s es)
unfolding handle_events Expects
handle_events-Handled epoll_ctl s [] v x = (s, refl, v, Grows-refl s.io, refl)
handle_events-Handled epoll_ctl s (tickled ∷ es) v x =
    handle_events-Handled epoll_ctl (record s { pipe = 0 }) es v x
handle_events-Handled epoll_ctl s (reported r ∷ es) v x =
    let (m', step, v', left) = handle_report-IsValid s.io epoll_ctl r v x.0 x.1 in
    let (s', steps, v'', grows, timers) =
      handle_events-Handled epoll_ctl (record s { io = m' }) es v' (x.2 m' step) in
    (
      s',
      rw (handle_events, step) steps,
      v'',
      Grows-trans s.io m' s'.io (handle_report-Grows s.io m' epoll_ctl r step) grows,
      timers,
    )

-- The tasks of the timers that are due.
abbrev pub due_tasks : ℕ → TimerManager → ℕ → List Task
due_tasks me m now = schedule_all me (callbacks m.heap (due m.heap now m.timers))

abbrev pub with_tasks : IoManager → List Task → IoManager
with_tasks m ts = record m { scheduled = m.scheduled ++ ts }

-- Where the contexts are valid, the set of timers is in its order, the clock has not gone back, the manager
-- does not stop, and each event is of the pipe, or of a descriptor with a context of which only what is
-- waited for when it is handled is reported as input and output, a round of the idle fiber ends with no
-- failed ASSERT and yields: the callbacks of just the timers that are due are scheduled, in the order of the timers and
-- before all that the events schedule, and the contexts are valid and the timers in order again.
pub idle_round-schedules :
    (me : ℕ) (epoll_ctl : EpollCtl) (base_stopping : Bool) (before now probe : ℕ)
    (events : List Event) (s : Idler)
    → IsValid s.io
    → InOrder s.timers
    → (detect_clock_rollover (get_next_timer s.timers before).1 now).0 ≡ false
    → (stopping base_stopping s before).0 ≡ false
    → Expects epoll_ctl (with_tasks s.io (due_tasks me s.timers now)) events
    → (s' : Idler) × (rest : List Task) × (idle_round me epoll_ctl base_stopping before now probe
          events s
        ≡ some (yields (epoll_timeout (stopping base_stopping s before).1) s'))
      × IsValid s'.io
      × InOrder s'.timers
      × (s'.io.scheduled ≡ (s.io.scheduled ++ due_tasks me s.timers now) ++ rest)
unfolding idle_round stopping get_next_timer
idle_round-schedules me epoll_ctl base_stopping before now probe events s v o clock goes x =
    let timers : TimerManager = record s.timers { tickled = false } in
    let expired = list_expired_cb timers now probe in
    let collects = list_expired_cb-due timers now probe o clock in
    let tasks : schedule_all me expired.0 ≡ due_tasks me s.timers now =
      ap (schedule_all me) collects.0 in
    let start : Idler = record {
      io = with_tasks s.io (schedule_all me expired.0);
      timers = expired.1;
      pipe = s.pipe;
    } in
    let (s', steps, v', grows, same) =
      handle_events-Handled epoll_ctl start events v
        (subst (λ ts. Expects epoll_ctl (with_tasks s.io ts) events) (sym tasks) x) in
    (
      s',
      grows.0,
      rw (idle_round, goes, steps) refl,
      v',
      subst InOrder (sym same) collects.1,
      grows.1 ∙ ap (λ ts. (s.io.scheduled ++ ts) ++ grows.0) tasks,
    )

-- The idle fiber waits at most five seconds, and no longer than to the next timer, where that is due in
-- fewer than 2 ^ 31 milliseconds or there is none; but where it is due in 2 ^ 31 or more and fewer than
-- 2 ^ 32 milliseconds, the wait has no end.
epoll_timeout-forever :
    (soon late : ℕ)
    → soon < 2 ^ 31
    → 2 ^ 31 ≤ late
    → late < 2 ^ 32
    → (epoll_timeout no_timeout ≡ millis 5000)
      × (epoll_timeout soon ≡ millis (min soon 5000))
      × (epoll_timeout late ≡ forever)
unfolding epoll_timeout
epoll_timeout-forever soon late a b c =
    let kept : soon % 2 ^ 32 ≡ soon = omega arith in
    let kept' : late % 2 ^ 32 ≡ late = omega arith in
    let some_ : (soon == no_timeout) ≡ false = ground arith in
    let some_' : (late == no_timeout) ≡ false = ground arith in
    let positive : ltb soon (2 ^ 31) ≡ true = ground (arith, a) in
    let negative : ltb late (2 ^ 31) ≡ false = ground (arith, b) in
    (
      refl,
      rw (epoll_timeout, some_, kept, positive) refl,
      rw (epoll_timeout, some_', kept', negative) refl,
    )
