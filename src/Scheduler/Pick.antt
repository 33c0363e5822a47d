-- ===== src/Scheduler/Pick.antt =====
-- What the walk over the queue in `Scheduler::Run` (serverframework/fiber/scheduler.cc) finds.
use my_server_framework.Prelude.{
  All, ℕ, ◌+◌, ◌≡◌, refl, arith, Bool, true, false, ◌||◌, ◌&&◌, not, Option, none, some, inl, inr,
  Bool-cases, List, [], ◌∷◌,
}
use my_server_framework.Prelude.Sums.{sum_by}
use my_server_framework.Scheduler.{Task, Picked, is_some, is_empty, is_elsewhere, still_runs, pick}

-- A task has something to run.
abbrev pub Proper : Task → Type 0
Proper t = is_some t.fiber || is_some t.cb ≡ true

-- A task that a thread may run: it is for that thread or for any, and no fiber that runs.
abbrev pub runs_on : ℕ → (ℕ → Bool) → Task → Bool
runs_on me running t = not (is_elsewhere me t) && not (still_runs running t)

abbrev pub weight_of : (Task → ℕ) → Option Task → ℕ
weight_of w none = 0
weight_of w (some t) = w t

abbrev pub Fits : ℕ → (ℕ → Bool) → Option Task → Type 0
Fits me running none = Unit {0}
Fits me running (some t) = (runs_on me running t ≡ true) × Proper t

-- The task taken is one that the thread may run; it and the queue left are the queue before; there
-- is none only where the thread may run none; and without a tickle no task is left for others.
pub record Finds (me : ℕ) (running : ℕ → Bool) (ts : List Task) (p : Picked) : Type 0 where
  pub fits : Fits me running p.task
  pub proper : All Proper p.rest
  pub kept : (w : Task → ℕ) → sum_by w ts ≡ weight_of w p.task + sum_by w p.rest
  pub none_runs : p.task ≡ none → All (λ t. runs_on me running t ≡ false) ts
  pub left : p.tickle_me ≡ false → All (λ t. still_runs running t ≡ true) p.rest

skipped-Finds :
    (me : ℕ) (running : ℕ → Bool) (t : Task) (ts : List Task) (p : Picked) (tickle : Bool)
    → Proper t
    → runs_on me running t ≡ false
    → (tickle ≡ false → still_runs running t ≡ true)
    → Finds me running ts p
    → Finds me running (t ∷ ts) (record p { rest = t ∷ p.rest; tickle_me = tickle || p.tickle_me })
skipped-Finds me running t ts p tickle pr passed left f = record {
  fits = f.fits;
  proper = (pr, f.proper);
  kept = λ w. omega (arith, f.kept w);
  none_runs = λ e. (passed, f.none_runs e);
  left = λ e. (left (ground (arith, e)), f.left (ground (arith, e)));
}

is_empty-nil : (ts : List Task) → is_empty ts ≡ true → ts ≡ []
is_empty-nil [] e = refl
is_empty-nil (t ∷ ts) e = absurd (ground (arith, e))

nothing-left : (P : Task → Type 0) (ts : List Task) → not (is_empty ts) ≡ false → All P ts
nothing-left P [] e = tt
nothing-left P (t ∷ ts) e = absurd (ground (arith, e))

-- On a queue of proper tasks the walk fails no ASSERT, and finds what it should.
pub pick-Finds :
    (me : ℕ) (running : ℕ → Bool) (ts : List Task)
    → All Proper ts
    → (p : Picked) × (pick me running ts ≡ some p) × Finds me running ts p
unfolding pick
pick-Finds me running [] a = (
  record { task = none; rest = []; tickle_me = false },
  refl,
  record { fits = tt; proper = tt; kept = λ w. omega arith; none_runs = λ e. tt; left = λ e. tt },
)
pick-Finds me running (t ∷ ts) a =
    let (p, e, f) = pick-Finds me running ts a.1 in
    elim (Bool-cases (is_elsewhere me t)) [
      | inl elsewhere ↦ (
        record p { rest = t ∷ p.rest; tickle_me = true || p.tickle_me },
        rw (elsewhere, e) refl,
        skipped-Finds me running t ts p true a.0 (ground (arith, elsewhere))
            (λ x. absurd (ground (arith, x))) f,
      )
      | inr mine ↦ elim (Bool-cases (still_runs running t)) [
        | inl runs ↦ (
          record p { rest = t ∷ p.rest; tickle_me = false || p.tickle_me },
          rw (mine, a.0, runs, e) refl,
          skipped-Finds me running t ts p false a.0 (ground (arith, runs)) (λ x. runs) f,
        )
        | inr free ↦ (
          record { task = some t; rest = ts; tickle_me = not (is_empty ts) },
          rw (mine, a.0, free) refl,
          record {
            fits = (ground (arith, mine, free), a.0);
            proper = a.1;
            kept = λ w. omega arith;
            none_runs = λ x. absurd (ground (arith, x));
            left = nothing-left (λ u. still_runs running u ≡ true) ts;
          },
        )
      ]
    ]
