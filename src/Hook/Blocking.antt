-- ===== src/Hook/Blocking.antt =====
-- A hooked call (serverframework/net/hook.cc) that is interrupted, and that waits for its event.
use my_server_framework.Prelude.{
  ℕ, ◌≡◌, refl, sym, ap, subst, ◌∙◌, Bool, true, false, some, inl, inr, Bool-cases, List, [], ◌∷◌,
  ◌++◌, append-nil, append_assoc, if◌then◌else◌, ◌==◌,
}
use my_server_framework.IoManager.{IoManager, Task, run_fiber}
use my_server_framework.Timer.{add_timer, cancel}
use my_server_framework.Timer.Added.{cancel-add_timer}
use my_server_framework.FdManager.{FdCtx, TimeoutType, no_timeout, get_timeout}
use my_server_framework.Hook.{
  Outcome, got, failed, eintr, eagain, World, Away, returned, Call, with_timer, cancelled_timers,
  cancel_timer, away, added, begin_wait, io_loop, do_io,
}
use my_server_framework.Hook.Waits.{Ready, Rested, Waits, comes, add_event-Waits, comes-Waits}

-- What the original gives before its last outcome: an interruption, or "try again" and then the event.
pub data Retry : Type 0 where
  interrupted : Retry
  awaited : Retry

abbrev pub retries : Call → List Retry → Outcome → List (Outcome × Away)
retries c [] o = (o, comes c) ∷ []
retries c (interrupted ∷ rs) o = (failed eintr, comes c) ∷ retries c rs o
retries c (awaited ∷ rs) o = (failed eagain, comes c) ∷ retries c rs o

-- The fiber, once for each wait.
abbrev pub woken : ℕ → ℕ → List Retry → List Task
woken s fiber [] = []
woken s fiber (interrupted ∷ rs) = woken s fiber rs
woken s fiber (awaited ∷ rs) = run_fiber s (some fiber) ∷ woken s fiber rs

-- An outcome that ends the loop.
abbrev pub IsLast : Outcome → Type 0
IsLast (got n) = Unit {0}
IsLast (failed e) = ((e == eintr) ≡ false) × ((e == eagain) ≡ false)

pub begin_wait-Waits :
    (c : Call) (s : ℕ) (w : World)
    → Ready c s
    → Rested c w
    → (iom : IoManager) × (begin_wait c w ≡ away (record (with_timer c w) { iom = iom }))
      × Waits c s w.iom iom
unfolding begin_wait
begin_wait-Waits c s w k h =
    let (iom, e, x) = add_event-Waits c s w.iom k h.0 h.1 in
    (iom, ap (added c (with_timer c w)) e, x)

-- The timer of the call, if it has one, may be cancelled.
cancel_timer-with_timer :
    (c : Call) (w : World) (iom : IoManager)
    → (w' : World) × (cancel_timer c (record (with_timer c w) { iom = iom }) ≡ some w')
      × (w'.iom ≡ iom)
unfolding cancel_timer
cancel_timer-with_timer c w iom =
    let made = (add_timer w.timers c.now c.timer c.timeout (some c.callback) false).1 in
    let at : Bool → World = λ b. record w { iom = iom; timers = if b then w.timers else made } in
    let run = λ (b : Bool).
      cancelled_timers (at b)
        (if b then some (false, (at b).timers) else cancel (at b).timers c.timer) in
    elim (Bool-cases (c.timeout == no_timeout)) [
      | inl forever ↦ (at true, ap run forever, refl)
      | inr limited ↦
          let (r, e) = cancel-add_timer w.timers c.now c.timer c.timeout c.callback in
          (
            record (at false) { timers = r.1 },
            ap run limited ∙ ap (cancelled_timers (at false)) e,
            refl,
          )
    ]

abbrev Returns : Call → ℕ → World → List Retry → Outcome → Type 0
Returns c s w rs o =
    (w' : World) × (io_loop c w (retries c rs o) ≡ returned o w')
    × Rested c w'
    × (w'.iom.scheduled ≡ w.iom.scheduled ++ woken s c.who.fiber rs)

io_loop-last :
    (c : Call) (s : ℕ) (w : World) (o : Outcome) → Rested c w → IsLast o → Returns c s w [] o
unfolding io_loop
io_loop-last c s w (got n) h l = (w, refl, h, sym (append-nil w.iom.scheduled))
io_loop-last c s w (failed e) h l =
    (w, rw (io_loop, l.0, l.1) refl, h, sym (append-nil w.iom.scheduled))

io_loop-retries :
    (c : Call) (s : ℕ) (rs : List Retry) (w : World) (o : Outcome)
    → Ready c s
    → Rested c w
    → IsLast o
    → Returns c s w rs o
unfolding io_loop
io_loop-retries c s [] w o k h l = io_loop-last c s w o h l
io_loop-retries c s (interrupted ∷ rs) w o k h l = io_loop-retries c s rs w o k h l
io_loop-retries c s (awaited ∷ rs) w o k h l =
    let (iom, began, x) = begin_wait-Waits c s w k h in
    let w₁ : World = record (with_timer c w) { iom = iom } in
    let came = comes-Waits c s w.iom w₁ x in
    let (m, t, (valid, off, grew)) = x.3 in
    let (w₂, ended, same) = cancel_timer-with_timer c w m in
    let rested : Rested c w₂ =
      subst (λ (n : IoManager). Rested c (record w₂ { iom = n })) (sym same) (valid, off) in
    let (w', r, h', more) = io_loop-retries c s rs w₂ o k rested l in
    (
      w',
      rw (io_loop, began, came, ended) r,
      h',
      more
          ∙ ap (λ (n : IoManager). n.scheduled ++ woken s c.who.fiber rs) same
          ∙ ap (λ ts. ts ++ woken s c.who.fiber rs) grew
          ∙ append_assoc w.iom.scheduled (run_fiber s (some c.who.fiber) ∷ [])
              (woken s c.who.fiber rs),
    )

pub Ready-timeout : (c : Call) (s t : ℕ) → Ready c s → Ready (record c { timeout = t }) s
Ready-timeout c s t k = record {
  event = k.event;
  scheduler = k.scheduler;
  running = k.running;
  accepts = k.accepts;
}

comes-timeout :
    (c : Call) (t : ℕ) (rs : List Retry) (o : Outcome)
    → retries c rs o ≡ retries (record c { timeout = t }) rs o
unfolding comes
comes-timeout c t [] o = refl
comes-timeout c t (interrupted ∷ rs) o =
    ap (λ r. (failed eintr, comes c) ∷ r) (comes-timeout c t rs o)
comes-timeout c t (awaited ∷ rs) o = ap (λ r. (failed eagain, comes c) ∷ r) (comes-timeout c t rs o)

-- The context of a socket that is open and that the user has left blocking.
abbrev pub IsBlocking : FdCtx → Type 0
IsBlocking ctx = (ctx.is_closed ≡ false) × (ctx.is_socket ≡ true) × (ctx.user_nonblock ≡ false)

-- With hooks, on an open socket that the user has left blocking, with valid contexts in which the event is
-- not waited for, where the caller runs under a scheduler and epoll accepts every request: however often
-- the original is interrupted, or answers "try again" and the event comes while the fiber is away, before
-- an outcome that is neither, `do_io` fails no ASSERT and returns that outcome, with a time limit or
-- without one. Each event that comes has scheduled the fiber once, for its scheduler, and nothing else; the
-- contexts are valid then, and the event is not waited for.
pub do_io-retries :
    (ctx : FdCtx) (so : TimeoutType) (c : Call) (s : ℕ) (rs : List Retry) (w : World) (o : Outcome)
    → IsBlocking ctx
    → Ready c s
    → Rested c w
    → IsLast o
    → (w' : World) × (do_io true (some ctx) so c w (retries c rs o) ≡ returned o w')
      × Rested c w'
      × (w'.iom.scheduled ≡ w.iom.scheduled ++ woken s c.who.fiber rs)
unfolding do_io get_timeout
do_io-retries ctx so c s rs w o b k h l =
    let t = get_timeout ctx so in
    let c' : Call = record c { timeout = t } in
    let (w', r, h', more) = io_loop-retries c' s rs w o (Ready-timeout c s t k) h l in
    (w', rw (do_io, b.0, b.1, b.2) (ap (io_loop c' w) (comes-timeout c t rs o) ∙ r), h', more)
