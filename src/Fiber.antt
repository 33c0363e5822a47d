-- ===== src/Fiber.antt =====
-- `Fiber` (serverframework/fiber/fiber.h, fiber.cc) on one thread. A fiber is a number into `fibers`;
-- `executing` is the fiber whose code the processor runs, and `saved` says of the context of each fiber
-- whose code goes on from it, `none` where nothing was stored. A failed ASSERT, a use of a null pointer and
-- the start of a context that was not stored are `none`. What a callback
-- does is the sequence of calls made while its fiber executes.
pub mod States
pub mod Tests
use my_server_framework.Prelude.{
  ℕ, suc, Bool, true, false, ◌&&◌, ◌||◌, not, Option, none, some, if◌then◌else◌, ◌==◌,
}

pub data State : Type 0 where
  ready : State
  running : State
  term : State

pub record Fiber : Type 0 where
  pub state : State
  pub cb : Option ℕ
  pub stack : Bool
  pub run_in_scheduler : Bool

-- `t_fiber`, `t_thread_fiber` and `t_scheduler_fiber` of the thread.
pub record Thread : Type 0 where
  pub fibers : ℕ → Option Fiber
  pub current : Option ℕ
  pub thread_fiber : Option ℕ
  pub scheduler_fiber : Option ℕ
  pub executing : ℕ
  pub saved : ℕ → Option ℕ
  pub next_id : ℕ

abbrev pub store : (ℕ → Option Fiber) → ℕ → Fiber → ℕ → Option Fiber
store fs id f u = if u == id then some f else fs u

-- `getcontext`, `makecontext` and the first half of `swapcontext`.
abbrev pub keep : (ℕ → Option ℕ) → ℕ → ℕ → ℕ → Option ℕ
keep saved id code u = if u == id then some code else saved u

abbrev pub is_running : State → Bool
is_running running = true
is_running ready = false
is_running term = false

abbrev pub is_term : State → Bool
is_term term = true
is_term running = false
is_term ready = false

-- `Fiber::Fiber()`, which makes the thread's main fiber. It does not set `run_in_scheduler_`, which
-- is then any value, `left_over`.
unfoldable pub main_fiber : Thread → Bool → ℕ × Thread
main_fiber t left_over = (
  t.next_id,
  record t {
    fibers =
        store t.fibers t.next_id
          (record { state = running; cb = none; stack = false; run_in_scheduler = left_over });
    current = some t.next_id;
    saved = keep t.saved t.next_id t.executing;
    next_id = suc t.next_id;
  },
)

-- `GetThis`
unfoldable pub get_this : Thread → Bool → ℕ × Thread
get_this t left_over = elim t.current [
  | some id ↦ (id, t)
  | none ↦ let (id, t') = main_fiber t left_over in (id, record t' { thread_fiber = some id })
]

-- `Fiber::Fiber(cb, stacksize, run_in_scheduler)`
unfoldable pub new_fiber : Thread → Option ℕ → Bool → ℕ × Thread
new_fiber t cb run_in_scheduler = (
  t.next_id,
  record t {
    fibers =
        store t.fibers t.next_id
          (record { state = ready; cb = cb; stack = true; run_in_scheduler = run_in_scheduler });
    saved = keep t.saved t.next_id t.next_id;
    next_id = suc t.next_id;
  },
)

-- `Reset`
unfoldable pub reset : Thread → ℕ → Option ℕ → Option Thread
reset t id cb = elim (t.fibers id) [
  | none ↦ none
  | some f ↦
      if f.stack && is_term f.state
      then some (record t {
        fibers = store t.fibers id (record f { cb = cb; state = ready });
        saved = keep t.saved id id;
      })
      else none
]

-- `swapcontext`: the code that runs is stored in the context of one fiber, and what the context of another
-- has goes on.
unfoldable pub swapcontext : Thread → ℕ → ℕ → Option Thread
swapcontext t from to =
    let saved = keep t.saved from t.executing in
    elim (saved to) [
      | none ↦ none
      | some code ↦ some (record t { executing = code; saved = saved })
    ]

-- The fiber that a fiber is resumed from and yields to.
abbrev pub partner : Thread → Fiber → Option ℕ
partner t f = if f.run_in_scheduler then t.scheduler_fiber else t.thread_fiber

-- `Resume`
unfoldable pub resume : Thread → ℕ → Option Thread
resume t id = elim (t.fibers id) [
  | none ↦ none
  | some f ↦ if is_term f.state || is_running f.state then none else elim (partner t f) [
    | none ↦ none
    | some from ↦
        swapcontext
          (record t {
            current = some id;
            fibers = store t.fibers id (record f { state = running });
          })
          from id
  ]
]

-- The state that `Yield` leaves.
abbrev pub yielded : State → State
yielded ready = ready
yielded running = ready
yielded term = term

-- `Yield`
unfoldable pub yield : Thread → ℕ → Option Thread
yield t id = elim (t.fibers id) [
  | none ↦ none
  | some f ↦
      if is_running f.state || is_term f.state
      then (elim (partner t f) [
        | none ↦ none
        | some to ↦
            swapcontext
              (record t {
                current = t.thread_fiber;
                fibers = store t.fibers id (record f { state = yielded f.state });
              })
              id to
      ])
      else none
]

-- The end of `MainFunc`, after the callback returns.
unfoldable pub finish : Thread → ℕ → Option Thread
finish t id = elim (t.fibers id) [
  | none ↦ none
  | some f ↦
      yield (record t { fibers = store t.fibers id (record f { cb = none; state = term }) }) id
]

-- The ASSERTs of the destructor, and `t_fiber` after it.
unfoldable pub destroy : Thread → ℕ → Option Thread
destroy t id = elim (t.fibers id) [
  | none ↦ none
  | some f ↦
      let gone = λ (u : ℕ). if u == id then none else t.fibers u in
      let current : Option ℕ = elim t.current [
        | none ↦ none
        | some c ↦ if c == id then none else some c
      ] in
      let no_cb : Bool = elim f.cb [ none ↦ true | some c ↦ false ] in
      if f.stack
      then (if is_term f.state then some (record t { fibers = gone }) else none)
      else if no_cb && is_running f.state
      then some (record t { fibers = gone; current = current })
      else none
]
