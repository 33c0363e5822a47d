-- ===== src/Scheduler/Progress.antt =====
-- That `Scheduler` (serverframework/fiber/scheduler.cc) gets its tasks done.
use my_server_framework.Prelude.{
  All, ℕ, zero, suc, ◌≡◌, refl, sym, ap, ap₂, subst, ◌∙◌, arith, Bool, true, false, not, Option,
  none, some, inl, inr, Option-cases, List, [], ◌∷◌, ◌++◌, get_elem?, set, map, length, append-nil,
  append_assoc,
}
use my_server_framework.Scheduler.{
  Task, Scheduler, schedule, Picked, is_empty, is_elsewhere, still_runs, pick,
}
use my_server_framework.Scheduler.Pick.{Proper, pick-Finds, runs_on, Fits}
use my_server_framework.Scheduler.System.{
  Phase, walking, executing, Worker, System, walked, walk_of, walk, end_of, end_task, Reach,
  initial,
}
use my_server_framework.Scheduler.Runs.{Reach-Inv}

-- The tasks of which none may be run by a thread.
abbrev pub NoneRuns : ℕ → (ℕ → Bool) → List Task → Type 0
NoneRuns me running ts = All (λ t. runs_on me running t ≡ false) ts

walk_eq :
    (s : System) (i : ℕ) (running : ℕ → Bool) (w : Worker) (p : Picked)
    → get_elem? s.workers i ≡ some w
    → w.phase ≡ walking
    → pick w.id running s.shared.tasks ≡ some p
    → walk s i running ≡ some (walked s i w p)
unfolding walk
walk_eq s i running w p e ph f =
    ap (λ o. elim o [ none ↦ none | some w ↦ walk_of s i running w w.phase ]) e
    ∙ ap (λ q. walk_of s i running w q) ph
    ∙ ap (λ o. elim o [ none ↦ none | some p ↦ some (walked s i w p) ]) f

end_eq :
    (s : System) (i : ℕ) (w : Worker) (t : Task)
    → get_elem? s.workers i ≡ some w
    → w.phase ≡ executing t
    → end_task s i ≡ end_of s i w (executing t)
unfolding end_task
end_eq s i w t e ph =
    ap (λ o. elim o [ none ↦ none | some w ↦ end_of s i w w.phase ]) e ∙ ap (λ q. end_of s i w q) ph

-- In every state that the threads can reach, a thread before its walk takes a task if the queue has
-- one that it may run: it never goes to its idle fiber over such a task.
pub walk-runs :
    (ids : List ℕ) (use_caller : Bool) (s : System) (i : ℕ) (w : Worker) (running : ℕ → Bool)
    → Reach (initial ids use_caller) s
    → get_elem? s.workers i ≡ some w
    → w.phase ≡ walking
    → ¬ NoneRuns w.id running s.shared.tasks
    → (t : Task) × (rest : List Task) × (tickle : Bool) × (walk s i running
        ≡ some (walked s i w (record { task = some t; rest = rest; tickle_me = tickle })))
      × (runs_on w.id running t ≡ true)
walk-runs ids use_caller s i w running r e ph some_runs =
    let v = Reach-Inv ids use_caller r in
    let (p, found, f) = pick-Finds w.id running s.shared.tasks v.proper in
    elim (Option-cases p.task) [
      | inl nothing ↦ absurd (some_runs (f.none_runs nothing))
      | inr (t, took) ↦
          let same : p ≡ record { task = some t; rest = p.rest; tickle_me = p.tickle_me } =
            ap (λ (o : Option Task). record { task = o; rest = p.rest; tickle_me = p.tickle_me })
              took in
          (
            t,
            p.rest,
            p.tickle_me,
            walk_eq s i running w p e ph found ∙ ap (λ q. some (walked s i w q)) same,
            (subst (Fits w.id running) took f.fits).0,
          )
    ]

-- A walk of the only thread and the end of the task that it finds, while no fiber of the queue runs.
abbrev pub round : System → Option System
round s = elim (walk s 0 (λ f. false)) [ none ↦ none | some u ↦ end_task u 0 ]

abbrev pub rounds : ℕ → System → Option System
rounds zero s = some s
rounds (suc n) s = elim (round s) [ none ↦ none | some u ↦ rounds n u ]

-- Tasks that the thread may run.
abbrev pub ForMe : ℕ → List Task → Type 0
ForMe me ts = All (λ t. (is_elsewhere me t ≡ false) × Proper t) ts

abbrev pub by_thread : ℕ → List Task → List (ℕ × Task)
by_thread me ts = map (λ t. (me, t)) ts

-- The state after one round.
abbrev after : System → Worker → Task → List Task → System
after s w t ts = record s {
  shared = record s.shared { tasks = ts };
  executed = s.executed ++ ((w.id, t) ∷ []);
}

never : (o : Option ℕ) → elim o [ none ↦ false | some f ↦ false ] ≡ false
never none = refl
never (some f) = refl

pick_first :
    (me : ℕ) (t : Task) (ts : List Task)
    → is_elsewhere me t ≡ false
    → Proper t
    → pick me (λ f. false) (t ∷ ts)
      ≡ some (record { task = some t; rest = ts; tickle_me = not (is_empty ts) })
unfolding pick
pick_first me t ts mine p =
    let idle : still_runs (λ f. false) t ≡ false = never t.fiber in rw (mine, p, idle) refl

round-after :
    (s : System) (w : Worker) (t : Task) (ts : List Task)
    → s.workers ≡ w ∷ []
    → w.phase ≡ walking
    → s.shared.tasks ≡ t ∷ ts
    → is_elsewhere w.id t ≡ false
    → Proper t
    → round s ≡ some (after s w t ts)
round-after s w t ts one ph q mine p' =
    let p : Picked = record { task = some t; rest = ts; tickle_me = not (is_empty ts) } in
    let w₁ : Worker = record w { phase = executing t } in
    let w₂ : Worker = record w { phase = walking } in
    let u = walked s 0 w p in
    let first : walk s 0 (λ f. false) ≡ some u =
      walk_eq s 0 (λ f. false) w p (ap (λ ws. get_elem? ws 0) one) ph
        (ap (pick w.id (λ f. false)) q ∙ pick_first w.id t ts mine p') in
    let at : get_elem? u.workers 0 ≡ some w₁ = ap (λ ws. get_elem? (set ws 0 w₁) 0) one in
    let back : set (set s.workers 0 w₁) 0 w₂ ≡ s.workers =
      ap (λ ws. set (set ws 0 w₁) 0 w₂) one
      ∙ ap (λ (x : Phase). record w { phase = x } ∷ []) (sym ph)
      ∙ sym one in
    ap (λ o. elim o [ none ↦ none | some u ↦ end_task u 0 ]) first
    ∙ end_eq u 0 w₁ t at refl
    ∙ ap₂
        (λ (ws : List Worker) (n : ℕ). some (record (after s w t ts) {
          shared = record s.shared { tasks = ts; active_thread_count = n };
          workers = ws;
        }))
        back (omega arith)

-- A queue of tasks that the only thread may run is executed in its order, and then is empty.
rounds_drain_queue :
    (ts : List Task) (s : System) (w : Worker)
    → s.workers ≡ w ∷ []
    → w.phase ≡ walking
    → s.shared.tasks ≡ ts
    → ForMe w.id ts
    → (u : System) × (rounds (length ts) s ≡ some u)
      × (u.shared.tasks ≡ [])
      × (u.executed ≡ s.executed ++ by_thread w.id ts)
rounds_drain_queue [] s w one ph q a = (s, refl, q, sym (append-nil s.executed))
rounds_drain_queue (t ∷ ts) s w one ph q a =
    let (u, e, done, order) = rounds_drain_queue ts (after s w t ts) w one ph refl a.1 in
    (
      u,
      ap (λ o. elim o [ none ↦ none | some u ↦ rounds (length ts) u ])
            (round-after s w t ts one ph q a.0.0 a.0.1)
          ∙ e,
      done,
      order ∙ append_assoc s.executed ((w.id, t) ∷ []) (by_thread w.id ts),
    )

-- `Schedule` of each task, in order.
unfoldable pub schedule_each : Scheduler → List Task → Scheduler
schedule_each s [] = s
schedule_each s (t ∷ ts) = schedule_each (schedule s t).1 ts

schedule-tasks :
    (s : Scheduler) (t : Task) → Proper t → (schedule s t).1.tasks ≡ s.tasks ++ (t ∷ [])
unfolding schedule
schedule-tasks s t p = rw p refl

schedule_each-tasks :
    (me : ℕ) (ts : List Task) (s : Scheduler)
    → ForMe me ts
    → (schedule_each s ts).tasks ≡ s.tasks ++ ts
unfolding schedule_each
schedule_each-tasks me [] s h = sym (append-nil s.tasks)
schedule_each-tasks me (t ∷ ts) s h =
    schedule_each-tasks me ts (schedule s t).1 h.1
    ∙ ap (λ xs. xs ++ ts) (schedule-tasks s t h.0.1)
    ∙ append_assoc s.tasks (t ∷ []) ts

-- The tasks that are scheduled one after another with an empty queue, each a fiber or a callback for any
-- thread or for this one, are executed by the only thread of the scheduler, which stands before its walk
-- while no fiber of the queue runs elsewhere, in the order in which they were scheduled and in as many
-- rounds of `Run`, after which the queue is empty.
pub rounds-schedule_each :
    (ts : List Task) (s : System) (w : Worker)
    → s.workers ≡ w ∷ []
    → w.phase ≡ walking
    → s.shared.tasks ≡ []
    → ForMe w.id ts
    → (u : System) × (rounds (length ts) (record s { shared = schedule_each s.shared ts }) ≡ some u)
      × (u.shared.tasks ≡ [])
      × (u.executed ≡ s.executed ++ by_thread w.id ts)
rounds-schedule_each ts s w one ph q a =
    rounds_drain_queue ts (record s { shared = schedule_each s.shared ts }) w one ph
      (schedule_each-tasks w.id ts s.shared a ∙ ap (λ xs. xs ++ ts) q) a
