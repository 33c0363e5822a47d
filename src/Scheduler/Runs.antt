-- ===== src/Scheduler/Runs.antt =====
-- What `Scheduler` (serverframework/fiber/scheduler.cc) promises in every order of the steps of its
-- threads.
use my_server_framework.Prelude.{
  All, ℕ, ◌≡◌, refl, sym, subst, arith, Bool, true, false, ◌||◌, some, inl, inr, Bool-cases, List,
  [], ◌∷◌, ◌⊎◌,
}
use my_server_framework.Prelude.Sums.{sum_by, sum_by-append, All-append}
use my_server_framework.Scheduler.{Task, Scheduler, is_some, is_empty, schedule, is_stopping, stop}
use my_server_framework.Scheduler.Pick.{Proper}
use my_server_framework.Scheduler.System.{
  Phase, walking, executing, in_idle, left_run, Worker, System, add_task, Step, scheduled, stopped,
  walks, ends, yields, idle_ends, Reach, start, later, initial,
}
use my_server_framework.Scheduler.Invariant.{is_active, held, Over, Inv, initial-Inv}
use my_server_framework.Scheduler.Steps.{walk-Inv, end_task-Inv, leave_idle-Inv}

add_task-Inv : (s : System) (t : Task) → Inv s → Inv (add_task s t)
unfolding add_task schedule
add_task-Inv s t v = elim (Bool-cases (is_some t.fiber || is_some t.cb)) [
  | inl full ↦ rw full (record {
    proper = All-append Proper s.shared.tasks (t ∷ []) v.proper (full, tt);
    active = v.active;
    idle = v.idle;
    kept = λ f. omega (
      arith,
      v.kept f,
      sum_by-append f s.added (t ∷ []),
      sum_by-append f s.shared.tasks (t ∷ []),
    );
    placed = v.placed;
    ran = v.ran;
    over = v.over;
  })
  | inr empty ↦ rw empty (record {
    proper = v.proper;
    active = v.active;
    idle = v.idle;
    kept = v.kept;
    placed = v.placed;
    ran = v.ran;
    over = v.over;
  })
]

All-true :
    (b c : Bool) (ws : List Worker) → (b ≡ true → c ≡ true) → All (Over b) ws → All (Over c) ws
All-true b c [] h a = tt
All-true b c (w ∷ ws) h a = ((λ e. h (a.0 e)), All-true b c ws h a.1)

stop_lem :
    (sh sh' : Scheduler) (here : Bool) (n : ℕ)
    → stop sh here ≡ some (n, sh')
    → (sh' ≡ sh) ⊎ (sh' ≡ record sh { stopping = true })
unfolding stop
stop_lem sh sh' here n e = ground (arith, e)

stop-Inv :
    (s : System) (sh : Scheduler) (here : Bool) (n : ℕ)
    → Inv s
    → stop s.shared here ≡ some (n, sh)
    → Inv (record s { shared = sh })
stop-Inv s sh here n v e = elim (stop_lem s.shared sh here n e) [
  | inl same ↦
      subst (λ (x : Scheduler). Inv (record s { shared = x })) (sym same)
        (record {
          proper = v.proper;
          active = v.active;
          idle = v.idle;
          kept = v.kept;
          placed = v.placed;
          ran = v.ran;
          over = v.over;
        })
  | inr set_ ↦
      subst (λ (x : Scheduler). Inv (record s { shared = x })) (sym set_)
        (record {
          proper = v.proper;
          active = v.active;
          idle = v.idle;
          kept = v.kept;
          placed = v.placed;
          ran = v.ran;
          over = All-true s.shared.stopping true s.workers (λ x. refl) v.over;
        })
]

-- Every step keeps the invariant.
Step-Inv : {s u : System} → Step s u → Inv s → Inv u
Step-Inv {s} (scheduled t e) v = subst Inv (sym e) (add_task-Inv s t v)
Step-Inv {s} (stopped here n sh e q) v = subst Inv (sym q) (stop-Inv s sh here n v e)
Step-Inv {s} {u} (walks i running e) v = walk-Inv s u i running v e
Step-Inv {s} {u} (ends i e) v = end_task-Inv s u i v e
Step-Inv {s} {u} (yields i e) v = leave_idle-Inv s u i false v (λ x. absurd (ground (arith, x))) e
Step-Inv {s} {u} (idle_ends i h e) v = leave_idle-Inv s u i true v (λ x. ground (arith, h)) e

-- Whatever the threads do and in whatever order: the counts of active and of idle threads are right,
-- the tasks scheduled are just those that wait, that a thread is in and that were run, each as
-- often, no task is run by another thread than its own, and no idle fiber ends before `Stop`.
pub Reach-Inv :
    (ids : List ℕ) (use_caller : Bool) {s : System} → Reach (initial ids use_caller) s → Inv s
Reach-Inv ids use_caller start = initial-Inv ids use_caller
Reach-Inv ids use_caller (later r st) = Step-Inv st (Reach-Inv ids use_caller r)

idle_holds : (f : Task → ℕ) (ph : Phase) → is_active ph ≡ 0 → held f ph ≡ 0
idle_holds f (executing t) e = absurd (omega (arith, e))
idle_holds f walking e = refl
idle_holds f in_idle e = refl
idle_holds f left_run e = refl

empty_sum : (f : Task → ℕ) (ts : List Task) → is_empty ts ≡ true → sum_by f ts ≡ 0
empty_sum f [] e = refl
empty_sum f (t ∷ ts) e = absurd (ground (arith, e))

held-none :
    (f : Task → ℕ) (ws : List Worker)
    → sum_by (λ (w : Worker). is_active w.phase) ws ≡ 0
    → sum_by (λ (w : Worker). held f w.phase) ws ≡ 0
held-none f [] e = refl
held-none f (w ∷ ws) e =
    omega (arith, idle_holds f w.phase (omega (arith, e)), held-none f ws (omega (arith, e)))

-- Once `Stopping` holds, every task that was scheduled has been executed, each as often as it was
-- scheduled: `Stop` loses no task and none is run twice.
pub stopping-executed :
    (ids : List ℕ) (use_caller : Bool) (s : System)
    → Reach (initial ids use_caller) s
    → is_stopping s.shared ≡ true
    → (f : Task → ℕ) → sum_by f s.added ≡ sum_by (λ (e : ℕ × Task). f e.1) s.executed
stopping-executed ids use_caller s r h f =
    let v = Reach-Inv ids use_caller r in
    let none_active : s.shared.active_thread_count ≡ 0 = ground (arith, h) in
    let none_waits : sum_by f s.shared.tasks ≡ 0 = empty_sum f s.shared.tasks (ground (arith, h)) in
    omega
      (arith, v.kept f, none_waits, held-none f s.workers (omega (arith, v.active, none_active)))
