-- ===== src/Fiber/States.antt =====
-- The life of a fiber (serverframework/fiber/fiber.cc): its states, what may be called in each, and who goes
-- on when it yields.
use my_server_framework.Prelude.{
  ℕ, zero, suc, ◌≡◌, ◌≢◌, refl, sym, ap, ◌∙◌, arith, Bool, true, false, Option, none, some, ◌||◌,
  ◌==◌, if◌then◌else◌,
}
use my_server_framework.Fiber.{
  State, ready, running, term, Fiber, Thread, is_running, is_term, store, keep, partner, reset,
  resume, yield, finish, swapcontext, yielded,
}

-- The state of a fiber.
abbrev pub state_of : Thread → ℕ → Option State
state_of t id = elim (t.fibers id) [ none ↦ none | some f ↦ some f.state ]

store_self : (fs : ℕ → Option Fiber) (id : ℕ) (f : Fiber) → store fs id f id ≡ some f
store_self fs id f = ground arith

keep_self : (saved : ℕ → Option ℕ) (id code : ℕ) → keep saved id code id ≡ some code
keep_self saved id code = ground arith

keep_other : (saved : ℕ → Option ℕ) (id code u : ℕ) → u ≢ id → keep saved id code u ≡ saved u
keep_other saved id code u h =
    let other : (u == id) ≡ false = ground (arith, h) in
    ap (λ (b : Bool). if b then some code else saved u) other

abbrev switched : Thread → ℕ → ℕ → Thread
switched t from code = record t { executing = code; saved = keep t.saved from t.executing }

swapcontext_lem :
    (t : Thread) (from to code : ℕ)
    → keep t.saved from t.executing to ≡ some code
    → swapcontext t from to ≡ some (switched t from code)
unfolding swapcontext
swapcontext_lem t from to code e = rw (swapcontext, e) refl

abbrev begun : Thread → ℕ → Fiber → Thread
begun t id f = record t {
  current = some id;
  fibers = store t.fibers id (record f { state = running });
}

abbrev ended : Thread → ℕ → Fiber → Thread
ended t id f = record t {
  current = t.thread_fiber;
  fibers = store t.fibers id (record f { state = yielded f.state });
}

resume_lem :
    (t : Thread) (id p : ℕ) (f : Fiber)
    → t.fibers id ≡ some f
    → is_term f.state || is_running f.state ≡ false
    → partner t f ≡ some p
    → resume t id ≡ swapcontext (begun t id f) p id
unfolding resume
resume_lem t id p f e r q = rw (resume, e, r, q) refl

resume-over :
    (t : Thread) (id : ℕ) (f : Fiber)
    → t.fibers id ≡ some f
    → is_term f.state || is_running f.state ≡ true
    → resume t id ≡ none
unfolding resume
resume-over t id f e r = rw (resume, e, r) refl

yield_lem :
    (t : Thread) (id p : ℕ) (f : Fiber)
    → t.fibers id ≡ some f
    → is_running f.state || is_term f.state ≡ true
    → partner t f ≡ some p
    → yield t id ≡ swapcontext (ended t id f) id p
unfolding yield
yield_lem t id p f e r q = rw (yield, e, r, q) refl

state_of_lem :
    (t : Thread) (id : ℕ) (f : Fiber) → t.fibers id ≡ some f → state_of t id ≡ some f.state
state_of_lem t id f e = rw (state_of, e) refl

-- A fiber that may be resumed: it is ready, its context has its own code, and its partner is another.
pub record Parked (t : Thread) (id p : ℕ) (f : Fiber) : Type 0 where
  pub there : t.fibers id ≡ some f
  pub at_rest : f.state ≡ ready
  pub own : t.saved id ≡ some id
  pub partner_of : partner t f ≡ some p
  pub other : id ≢ p

-- The thread after a fiber was resumed, and after it yielded.
abbrev inside : Thread → ℕ → ℕ → Fiber → Thread
inside t id p f = switched (begun t id f) p id

abbrev outside : Thread → ℕ → ℕ → Fiber → Thread
outside t id p f =
    switched (ended (inside t id p f) id (record f { state = running })) id t.executing

resume-Parked :
    (t : Thread) (id p : ℕ) (f : Fiber) → Parked t id p f → resume t id ≡ some (inside t id p f)
resume-Parked t id p f k =
    let idle : is_term f.state || is_running f.state ≡ false =
      ap (λ s. is_term s || is_running s) k.at_rest in
    resume_lem t id p f k.there idle k.partner_of
    ∙ swapcontext_lem (begun t id f) p id id (keep_other t.saved p t.executing id k.other ∙ k.own)

yield-inside :
    (t : Thread) (id p : ℕ) (f : Fiber)
    → Parked t id p f
    → yield (inside t id p f) id ≡ some (outside t id p f)
yield-inside t id p f k =
    let f₁ : Fiber = record f { state = running } in
    let t₁ = inside t id p f in
    yield_lem t₁ id p f₁ (store_self t.fibers id f₁) refl k.partner_of
    ∙ swapcontext_lem (ended t₁ id f₁) id p t.executing
        (keep_other t₁.saved id id p (λ e. k.other (sym e)) ∙ keep_self t.saved p t.executing)

-- The fiber is parked again, as it was.
outside-Parked :
    (t : Thread) (id p : ℕ) (f : Fiber)
    → Parked t id p f
    → Parked (outside t id p f) id p (record f { state = ready })
outside-Parked t id p f k = record {
  there = store_self (inside t id p f).fibers id (record f { state = ready });
  at_rest = refl;
  own = keep_self (inside t id p f).saved id id;
  partner_of = k.partner_of;
  other = k.other;
}

-- A fiber is resumed, and yields, a number of times.
unfoldable pub turns : ℕ → Thread → ℕ → Option Thread
turns zero t id = some t
turns (suc n) t id = elim (resume t id) [
  | none ↦ none
  | some t₁ ↦ elim (yield t₁ id) [ none ↦ none | some t₂ ↦ turns n t₂ id ]
]

turns_step :
    (n : ℕ) (t : Thread) (id p : ℕ) (f : Fiber)
    → Parked t id p f
    → turns (suc n) t id ≡ turns n (outside t id p f) id
unfolding turns
turns_step n t id p f k = rw (turns, resume-Parked t id p f k, yield-inside t id p f k) refl

turns-outside :
    (n : ℕ) (t : Thread) (id p : ℕ) (f : Fiber)
    → Parked t id p f
    → (u : Thread) × (turns (suc n) t id ≡ some u)
      × (u.executing ≡ t.executing)
      × (u.current ≡ t.thread_fiber)
      × Parked u id p (record f { state = ready })
      × (u.saved p ≡ some t.executing)
unfolding turns
turns-outside zero t id p f k = (
  outside t id p f,
  turns_step zero t id p f k,
  refl,
  refl,
  outside-Parked t id p f k,
  keep_other (inside t id p f).saved id id p (λ e. k.other (sym e))
      ∙ keep_self t.saved p t.executing,
)
turns-outside (suc n) t id p f k =
    let (u, e, same, now, parked, at) =
      turns-outside n (outside t id p f) id p (record f { state = ready })
        (outside-Parked t id p f k) in
    (u, turns_step (suc n) t id p f k ∙ e, same, now, parked, at)

-- A ready fiber whose context has its own code, and whose partner is another fiber, may be resumed and yield
-- any number of times, at least once, and then be resumed: no ASSERT fails. Each time that it has yielded,
-- the fiber that resumed it goes on, whichever it is, `t_fiber` is the main fiber of the thread, the fiber
-- is ready with its own code in its context, and the context of the partner has the code of the fiber that
-- resumed; once it is resumed again, it goes on itself, is running, and is the one that `t_fiber` points to.
pub turns-executing :
    (n : ℕ) (t : Thread) (id p : ℕ) (f : Fiber)
    → Parked t id p f
    → (u : Thread) × (v : Thread) × (turns (suc n) t id ≡ some u)
      × (u.executing ≡ t.executing)
      × (u.current ≡ t.thread_fiber)
      × Parked u id p (record f { state = ready })
      × (u.saved p ≡ some t.executing)
      × (resume u id ≡ some v)
      × (v.executing ≡ id)
      × (v.current ≡ some id)
      × (state_of v id ≡ some running)
turns-executing n t id p f k =
    let (u, e, same, now, parked, at) = turns-outside n t id p f k in
    let f₁ : Fiber = record f { state = ready } in
    let v = inside u id p f₁ in
    (
      u,
      v,
      e,
      same,
      now,
      parked,
      at,
      resume-Parked u id p f₁ parked,
      refl,
      refl,
      state_of_lem v id (record f { state = running })
          (store_self u.fibers id (record f { state = running })),
    )

-- A fiber that runs to its end, with code in the context of its partner, which is another fiber, has the
-- state TERM, and that code goes on; the fiber cannot be resumed any more, and may be given another
-- callback, with which it is ready again and has its own code.
finish-reset :
    (t : Thread) (id p code : ℕ) (f : Fiber) (cb : Option ℕ)
    → t.fibers id ≡ some f
    → f.stack ≡ true
    → partner t f ≡ some p
    → id ≢ p
    → t.saved p ≡ some code
    → (t₁ : Thread) × (t₂ : Thread) × (finish t id ≡ some t₁)
      × (t₁.executing ≡ code)
      × (state_of t₁ id ≡ some term)
      × (resume t₁ id ≡ none)
      × (reset t₁ id cb ≡ some t₂)
      × (state_of t₂ id ≡ some ready)
      × (t₂.saved id ≡ some id)
unfolding finish reset
finish-reset t id p code f cb e k q n at =
    let f₀ : Fiber = record f { cb = none; state = term } in
    let t₀ : Thread = record t { fibers = store t.fibers id f₀ } in
    let t₁ = switched (ended t₀ id f₀) id code in
    let e₁ = store_self t₀.fibers id f₀ in
    let f₂ : Fiber = record f₀ { cb = cb; state = ready } in
    let t₂ : Thread = record t₁ { fibers = store t₁.fibers id f₂; saved = keep t₁.saved id id } in
    (
      t₁,
      t₂,
      rw (finish, e)
          (yield_lem t₀ id p f₀ (store_self t.fibers id f₀) refl q
            ∙ swapcontext_lem (ended t₀ id f₀) id p code
                (keep_other t.saved id t.executing p (λ x. n (sym x)) ∙ at)),
      refl,
      state_of_lem t₁ id f₀ e₁,
      resume-over t₁ id f₀ e₁ refl,
      rw (reset, e₁, k) refl,
      state_of_lem t₂ id f₂ (store_self t₁.fibers id f₂),
      keep_self t₁.saved id id,
    )
