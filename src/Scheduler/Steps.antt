-- ===== src/Scheduler/Steps.antt =====
-- Every step of the threads of `Scheduler` (serverframework/fiber/scheduler.cc) keeps the invariant.
use my_server_framework.Prelude.{
  All, ℕ, ◌+◌, ◌-◌, ◌≡◌, refl, sym, ap, subst, ◌∙◌, arith, Bool, true, false, Option, none, some,
  inl, inr, Option-cases, List, [], ◌∷◌, ◌++◌, if◌then◌else◌, get_elem?, set,
}
use my_server_framework.Prelude.Sums.{
  some-injective, sum_by, sum_by-append, sum_by-set, All-append, All-set, All-at,
}
use my_server_framework.Scheduler.{Task, Scheduler, Picked, is_elsewhere, stop, picked}
use my_server_framework.Scheduler.Pick.{Proper, Finds, pick-Finds}
use my_server_framework.Scheduler.System.{
  Phase, walking, executing, in_idle, left_run, Worker, System, idle_added, walked, walk_of, walk,
  end_of, end_task, return_of, leave_idle,
}
use my_server_framework.Scheduler.Invariant.{is_active, is_idle, held, InPlace, Over, Inv}

-- What a change of one thread has to keep.
record Change (s : System) (w : Worker) (sh : Scheduler) (w' : Worker) (ex : List (ℕ × Task))
    : Type 0 where
  proper : All Proper sh.tasks
  active :
      sh.active_thread_count + is_active w.phase ≡ s.shared.active_thread_count + is_active w'.phase
  idle : sh.idle_thread_count + is_idle w.phase ≡ s.shared.idle_thread_count + is_idle w'.phase
  kept :
      (f : Task → ℕ)
      → sum_by f sh.tasks + held f w'.phase + sum_by (λ (e : ℕ × Task). f e.1) ex
        ≡ sum_by f s.shared.tasks + held f w.phase + sum_by (λ (e : ℕ × Task). f e.1) s.executed
  placed : InPlace w'.id w'.phase
  ran : All (λ (e : ℕ × Task). is_elsewhere e.0 e.1 ≡ false) ex
  stopping : sh.stopping ≡ s.shared.stopping
  over : Over s.shared.stopping w'

replaced-Inv :
    (s : System) (i : ℕ) (w : Worker) (sh : Scheduler) (w' : Worker) (ex : List (ℕ × Task))
    → Inv s
    → get_elem? s.workers i ≡ some w
    → Change s w sh w' ex
    → Inv (record s { shared = sh; workers = set s.workers i w'; executed = ex })
replaced-Inv s i w sh w' ex v e c =
    let total = λ (g : Worker → ℕ). sum_by-set g s.workers i w w' e in
    record {
      proper = c.proper;
      active = omega (arith, total (λ u. is_active u.phase), v.active, c.active);
      idle = omega (arith, total (λ u. is_idle u.phase), v.idle, c.idle);
      kept = λ f. omega (arith, total (λ u. held f u.phase), v.kept f, c.kept f);
      placed = All-set (λ (u : Worker). InPlace u.id u.phase) s.workers i w' v.placed c.placed;
      ran = c.ran;
      over =
          subst (λ b. All (Over b) (set s.workers i w')) (sym c.stopping)
            (All-set (Over s.shared.stopping) s.workers i w' v.over c.over);
    }

abbrev aside : Bool → Phase
aside b = if b then left_run else in_idle

aside-is_active : (b : Bool) → is_active (aside b) ≡ 0
aside-is_active true = refl
aside-is_active false = refl

aside-is_idle : (b : Bool) (n : ℕ) → idle_added (aside b) n ≡ n + is_idle (aside b)
aside-is_idle true n = omega arith
aside-is_idle false n = omega arith

aside-held : (f : Task → ℕ) (b : Bool) → held f (aside b) ≡ 0
aside-held f true = refl
aside-held f false = refl

aside-InPlace : (i : ℕ) (b : Bool) → InPlace i (aside b)
aside-InPlace i true = tt
aside-InPlace i false = tt

walked-Inv :
    (s : System) (i : ℕ) (running : ℕ → Bool) (w : Worker) (task : Option Task) (rest : List Task)
    (tickle : Bool)
    → Inv s
    → get_elem? s.workers i ≡ some w
    → w.phase ≡ walking
    → Finds w.id running s.shared.tasks (record { task = task; rest = rest; tickle_me = tickle })
    → Inv (walked s i w (record { task = task; rest = rest; tickle_me = tickle }))
walked-Inv s i running w (some t) rest tickle v e ph f =
    let p : Picked = record { task = some t; rest = rest; tickle_me = tickle } in
    replaced-Inv s i w (picked s.shared p) (record w { phase = executing t }) s.executed v e
      (record {
        proper = f.proper;
        active = omega (arith, ap is_active ph);
        idle = omega (arith, ap is_idle ph);
        kept = λ g. omega (arith, f.kept g, ap (held g) ph);
        placed = ground (arith, f.fits.0);
        ran = v.ran;
        stopping = refl;
        over = All-at (Over s.shared.stopping) s.workers i w v.over e;
      })
walked-Inv s i running w none rest tickle v e ph f =
    let p : Picked = record { task = none; rest = rest; tickle_me = tickle } in
    let ph' = aside w.idle_over in
    replaced-Inv s i w
      (record (picked s.shared p) { idle_thread_count = idle_added ph' s.shared.idle_thread_count })
      (record w { phase = ph' }) s.executed v e
      (record {
        proper = f.proper;
        active = omega (arith, ap is_active ph, aside-is_active w.idle_over);
        idle = omega (arith, ap is_idle ph, aside-is_idle w.idle_over s.shared.idle_thread_count);
        kept = λ g. omega (arith, f.kept g, ap (held g) ph, aside-held g w.idle_over);
        placed = aside-InPlace w.id w.idle_over;
        ran = v.ran;
        stopping = refl;
        over = All-at (Over s.shared.stopping) s.workers i w v.over e;
      })

end-Inv :
    (s : System) (i : ℕ) (w : Worker) (t : Task)
    → Inv s
    → get_elem? s.workers i ≡ some w
    → w.phase ≡ executing t
    → Inv (record s {
      shared = record s.shared { active_thread_count = s.shared.active_thread_count - 1 };
      workers = set s.workers i (record w { phase = walking });
      executed = s.executed ++ ((w.id, t) ∷ []);
    })
end-Inv s i w t v e ph =
    let sum = sum_by-set (λ u. is_active u.phase) s.workers i w (record w { phase = walking }) e in
    let mine =
      subst (InPlace w.id) ph
        (All-at (λ (u : Worker). InPlace u.id u.phase) s.workers i w v.placed e) in
    replaced-Inv s i w (record s.shared { active_thread_count = s.shared.active_thread_count - 1 })
      (record w { phase = walking }) (s.executed ++ ((w.id, t) ∷ [])) v e
      (record {
        proper = v.proper;
        active = omega (arith, sum, v.active, ap is_active ph);
        idle = omega (arith, ap is_idle ph);
        kept = λ g. omega (
          arith,
          ap (held g) ph,
          sum_by-append (λ (x : ℕ × Task). g x.1) s.executed ((w.id, t) ∷ []),
        );
        placed = tt;
        ran =
            All-append (λ (x : ℕ × Task). is_elsewhere x.0 x.1 ≡ false) s.executed ((w.id, t) ∷ [])
              v.ran (mine, tt);
        stopping = refl;
        over = All-at (Over s.shared.stopping) s.workers i w v.over e;
      })

return-Inv :
    (s : System) (i : ℕ) (over : Bool) (w : Worker)
    → Inv s
    → get_elem? s.workers i ≡ some w
    → w.phase ≡ in_idle
    → (over ≡ true → s.shared.stopping ≡ true)
    → Inv (record s {
      shared = record s.shared { idle_thread_count = s.shared.idle_thread_count - 1 };
      workers = set s.workers i (record w { phase = walking; idle_over = over });
    })
return-Inv s i over w v e ph stop =
    let sum =
      sum_by-set (λ u. is_idle u.phase) s.workers i w
        (record w { phase = walking; idle_over = over }) e in
    replaced-Inv s i w (record s.shared { idle_thread_count = s.shared.idle_thread_count - 1 })
      (record w { phase = walking; idle_over = over }) s.executed v e
      (record {
        proper = v.proper;
        active = omega (arith, ap is_active ph);
        idle = omega (arith, sum, v.idle, ap is_idle ph);
        kept = λ g. omega (arith, ap (held g) ph);
        placed = tt;
        ran = v.ran;
        stopping = refl;
        over = stop;
      })

walk_of-Inv :
    (s u : System) (i : ℕ) (running : ℕ → Bool) (w : Worker) (ph : Phase)
    → Inv s
    → get_elem? s.workers i ≡ some w
    → w.phase ≡ ph
    → walk_of s i running w ph ≡ some u
    → Inv u
walk_of-Inv s u i running w walking v e q r =
    let (p, found, f) = pick-Finds w.id running s.shared.tasks v.proper in
    let same : walked s i w p ≡ u =
      some-injective (walked s i w p) u
        (sym (ap (λ o. elim o [ none ↦ none | some p ↦ some (walked s i w p) ]) found) ∙ r) in
    subst Inv same (walked-Inv s i running w p.task p.rest p.tickle_me v e q f)
walk_of-Inv s u i running w (executing t) v e q r = absurd (ground (arith, r))
walk_of-Inv s u i running w in_idle v e q r = absurd (ground (arith, r))
walk_of-Inv s u i running w left_run v e q r = absurd (ground (arith, r))

pub walk-Inv :
    (s u : System) (i : ℕ) (running : ℕ → Bool) → Inv s → walk s i running ≡ some u → Inv u
unfolding walk
walk-Inv s u i running v r = elim (Option-cases (get_elem? s.workers i)) [
  | inl out ↦ absurd (ground (arith, out, r))
  | inr (w, e) ↦
      walk_of-Inv s u i running w w.phase v e refl
        (sym (ap (λ o. elim o [ none ↦ none | some w ↦ walk_of s i running w w.phase ]) e) ∙ r)
]

end_of-Inv :
    (s u : System) (i : ℕ) (w : Worker) (ph : Phase)
    → Inv s
    → get_elem? s.workers i ≡ some w
    → w.phase ≡ ph
    → end_of s i w ph ≡ some u
    → Inv u
end_of-Inv s u i w (executing t) v e q r = subst Inv (some-injective _ u r) (end-Inv s i w t v e q)
end_of-Inv s u i w walking v e q r = absurd (ground (arith, r))
end_of-Inv s u i w in_idle v e q r = absurd (ground (arith, r))
end_of-Inv s u i w left_run v e q r = absurd (ground (arith, r))

pub end_task-Inv : (s u : System) (i : ℕ) → Inv s → end_task s i ≡ some u → Inv u
unfolding end_task
end_task-Inv s u i v r = elim (Option-cases (get_elem? s.workers i)) [
  | inl out ↦ absurd (ground (arith, out, r))
  | inr (w, e) ↦
      end_of-Inv s u i w w.phase v e refl
        (sym (ap (λ o. elim o [ none ↦ none | some w ↦ end_of s i w w.phase ]) e) ∙ r)
]

return_of-Inv :
    (s u : System) (i : ℕ) (over : Bool) (w : Worker) (ph : Phase)
    → Inv s
    → (over ≡ true → s.shared.stopping ≡ true)
    → get_elem? s.workers i ≡ some w
    → w.phase ≡ ph
    → return_of s i over w ph ≡ some u
    → Inv u
return_of-Inv s u i over w in_idle v h e q r =
    subst Inv (some-injective _ u r) (return-Inv s i over w v e q h)
return_of-Inv s u i over w (executing t) v h e q r = absurd (ground (arith, r))
return_of-Inv s u i over w walking v h e q r = absurd (ground (arith, r))
return_of-Inv s u i over w left_run v h e q r = absurd (ground (arith, r))

pub leave_idle-Inv :
    (s u : System) (i : ℕ) (over : Bool)
    → Inv s
    → (over ≡ true → s.shared.stopping ≡ true)
    → leave_idle s i over ≡ some u
    → Inv u
unfolding leave_idle
leave_idle-Inv s u i over v h r = elim (Option-cases (get_elem? s.workers i)) [
  | inl out ↦ absurd (ground (arith, out, r))
  | inr (w, e) ↦
      return_of-Inv s u i over w w.phase v h e refl
        (sym (ap (λ o. elim o [ none ↦ none | some w ↦ return_of s i over w w.phase ]) e) ∙ r)
]
