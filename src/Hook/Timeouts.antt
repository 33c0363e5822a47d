-- ===== src/Hook/Timeouts.antt =====
-- The timer that ends a wait of `do_io` (serverframework/net/hook.cc), with `AddConditionTimer` and
-- `OnTimer` (serverframework/util/timer.cc).
use my_server_framework.Prelude.{
  ℕ, ◌≡◌, refl, sym, ap, subst, ◌∙◌, arith, Bool, true, false, none, some, inl, inr, Bool-cases,
  List, [], ◌∷◌, ◌++◌, if◌then◌else◌, ◌==◌, leb,
}
use my_server_framework.IoManager.{run_fiber}
use my_server_framework.Timer.{
  Heap, Timer, TimerManager, update, add64, add_locked, add_timer, cancel, is_set, list_expired_cb,
  detect_clock_rollover,
}
use my_server_framework.Timer.Sorted.{Apart}
use my_server_framework.Timer.Calls.{InOrder, add_timer-InOrder}
use my_server_framework.Timer.Firing.{callbacks, due}
use my_server_framework.Timer.Listing.{list_expired_cb-due}
use my_server_framework.Timer.Added.{among, among-set_insert, among-due, list_expired_cb-cleared}
use my_server_framework.FdManager.{FdCtx, TimeoutType, no_timeout, get_timeout}
use my_server_framework.Hook.{
  failed, eagain, etimedout, World, returned, Call, away, begin_wait, cancel_timer, io_loop, do_io,
}
use my_server_framework.Hook.Waits.{Ready, Rested, collected, times_out, time_out, time_out-Waits}
use my_server_framework.Hook.Blocking.{IsBlocking, begin_wait-Waits, Ready-timeout}

collected-callbacks :
    (h : Heap) (t cb : ℕ) (ts : List ℕ)
    → (h t).cb ≡ some cb
    → among t ts ≡ true
    → collected cb (callbacks h ts) ≡ true
unfolding collected among
collected-callbacks h t cb [] e a = absurd (ground (arith, a))
collected-callbacks h t cb (u ∷ ts) e a = elim (Bool-cases (u == t)) [
  | inl same ↦
      let here : (h u).cb ≡ some cb =
        subst (λ x. (h x).cb ≡ some cb) (sym (ground (arith, same))) e in
      let test : (cb == cb) ≡ true = ground arith in rw (here, collected, test) refl
  | inr other ↦
      let rest = collected-callbacks h t cb ts e (rw other at a) in
      elim (h u).cb as (λ o. collected cb (o ∷ callbacks h ts) ≡ true) [
        | none ↦ rest
        | some x ↦ elim (Bool-cases (x == cb)) [
          | inl hit ↦ rw (collected, hit) refl
          | inr miss ↦ rw (collected, miss) rest
        ]
      ]
]

-- The timer that the call makes.
abbrev made : Call → World → TimerManager
made c w = (add_timer w.timers c.now c.timer c.timeout (some c.callback) false).1

made_timer :
    (c : Call) (w : World)
    → Apart c.timer w.timers.timers
    → ((made c w).heap c.timer ≡ record {
      recurring = false;
      ms = c.timeout;
      next = add64 c.now c.timeout;
      cb = some c.callback;
    })
      × (among c.timer (made c w).timers ≡ true)
unfolding add_timer add_locked
made_timer c w a =
    let timer : Timer = record {
      recurring = false;
      ms = c.timeout;
      next = add64 c.now c.timeout;
      cb = some c.callback;
    } in
    let here : (c.timer == c.timer) ≡ true = ground arith in
    (rw here refl, among-set_insert (update w.timers.heap c.timer timer) c.timer w.timers.timers a)

-- From its time on, where the clock has not gone back, it is taken and has no callback.
made-fires :
    (c : Call) (w : World) (later probe : ℕ)
    → InOrder w.timers
    → Apart c.timer w.timers.timers
    → leb (add64 c.now c.timeout) later ≡ true
    → (detect_clock_rollover (made c w) later).0 ≡ false
    → (collected c.callback (list_expired_cb (made c w) later probe).0 ≡ true)
      × (is_set ((list_expired_cb (made c w) later probe).1.heap c.timer).cb ≡ false)
made-fires c w later probe s a l f =
    let m = made c w in
    let facts = made_timer c w a in
    let ordered = add_timer-InOrder w.timers c.now c.timer c.timeout (some c.callback) false s a in
    let early : leb (m.heap c.timer).next later ≡ true =
      subst (λ (x : Timer). leb x.next later ≡ true) (sym facts.0) l in
    let due_ = among-due m.heap later c.timer m.timers early facts.1 in
    let (cbs, order) = list_expired_cb-due m later probe ordered f in
    (
      ap (collected c.callback) cbs
          ∙ collected-callbacks m.heap c.timer c.callback (due m.heap later m.timers)
              (ap (λ (x : Timer). x.cb) facts.0) due_,
      list_expired_cb-cleared m later probe c.timer ordered f
          (ap (λ (x : Timer). x.recurring) facts.0) early facts.1,
    )

made-clock :
    (c : Call) (w : World) (later : ℕ)
    → (detect_clock_rollover (made c w) later).0 ≡ (detect_clock_rollover w.timers later).0
unfolding detect_clock_rollover add_timer add_locked
made-clock c w later = refl

cancel_timer-fired :
    (c : Call) (w : World)
    → (c.timeout == no_timeout) ≡ false
    → is_set (w.timers.heap c.timer).cb ≡ false
    → cancel_timer c w ≡ some w
unfolding cancel_timer cancel
cancel_timer-fired c w limited gone = rw (limited, cancel, gone) refl

-- What the loop gives where the timer ends the wait.
io_loop-times_out :
    (c : Call) (s : ℕ) (w : World) (later probe : ℕ)
    → Ready c s
    → Rested c w
    → (c.timeout == no_timeout) ≡ false
    → InOrder w.timers
    → Apart c.timer w.timers.timers
    → leb (add64 c.now c.timeout) later ≡ true
    → (detect_clock_rollover w.timers later).0 ≡ false
    → (w' : World) × (io_loop c w ((failed eagain, times_out c later probe) ∷ [])
        ≡ returned (failed etimedout) w')
      × Rested c w'
      × (w'.iom.scheduled ≡ w.iom.scheduled ++ (run_fiber s (some c.who.fiber) ∷ []))
      × (is_set (w'.timers.heap c.timer).cb ≡ false)
unfolding io_loop times_out
io_loop-times_out c s w later probe k h limited ordered apart l f =
    let (iom, began, x) = begin_wait-Waits c s w k h in
    let m = made c w in
    let w₁ : World = record { iom = iom; timers = m } in
    let begins : begin_wait c w ≡ away w₁ =
      began
      ∙ ap (λ (b : Bool). away (record { iom = iom; timers = if b then w.timers else m }))
          limited in
    let r = list_expired_cb m later probe in
    let (taken, gone) = made-fires c w later probe ordered apart l (made-clock c w later ∙ f) in
    let (m', t, (valid, off, grew)) = x.3 in
    let w₂ : World = record { iom = m'; timers = r.1 } in
    let (ends, goes) = time_out-Waits c s w.iom (record { iom = iom; timers = r.1 }) x k in
    let back : times_out c later probe w₁ ≡ some (true, w₂) = rw (times_out, taken, ends) goes in
    let ended : cancel_timer c w₂ ≡ some w₂ = cancel_timer-fired c w₂ limited gone in
    (w₂, rw (io_loop, begins, back, ended) refl, (valid, off), grew, gone)

-- With hooks, on an open socket that the user has left blocking, which has a time limit, with valid contexts
-- in which the event is not waited for, where the caller runs under a scheduler, epoll accepts every
-- request, the set of timers is in its order without the new timer, and the original says "try again": if
-- the event does not come, then the manager that looks at its timers once the limit is over, with a clock
-- that has not gone back, ends the call. `do_io` fails no ASSERT and returns ETIMEDOUT, the fiber was
-- scheduled once, the contexts are valid, the event is not waited for and the timer has no callback.
pub do_io-times_out :
    (ctx : FdCtx) (so : TimeoutType) (c : Call) (s : ℕ) (w : World) (later probe : ℕ)
    → IsBlocking ctx
    → Ready c s
    → Rested c w
    → (get_timeout ctx so == no_timeout) ≡ false
    → InOrder w.timers
    → Apart c.timer w.timers.timers
    → leb (add64 c.now (get_timeout ctx so)) later ≡ true
    → (detect_clock_rollover w.timers later).0 ≡ false
    → (w' : World) × (do_io true (some ctx) so c w ((failed eagain, times_out c later probe) ∷ [])
        ≡ returned (failed etimedout) w')
      × Rested c w'
      × (w'.iom.scheduled ≡ w.iom.scheduled ++ (run_fiber s (some c.who.fiber) ∷ []))
      × (is_set (w'.timers.heap c.timer).cb ≡ false)
unfolding do_io times_out time_out get_timeout
do_io-times_out ctx so c s w later probe b k h limited ordered apart l f =
    let t = get_timeout ctx so in
    let c' : Call = record c { timeout = t } in
    let (w', r, h', grew, gone) =
      io_loop-times_out c' s w later probe (Ready-timeout c s t k) h limited ordered apart l f in
    let same : times_out c later probe ≡ times_out c' later probe = refl in
    (
      w',
      rw (do_io, b.0, b.1, b.2) (ap (λ a. io_loop c' w ((failed eagain, a) ∷ [])) same ∙ r),
      h',
      grew,
      gone,
    )
