-- ===== src/Timer/Listing.antt =====
-- The whole of `ListExpiredCb` (serverframework/util/timer.cc).
use my_server_framework.Prelude.{
  ℕ, ◌≡◌, refl, sym, ap, subst, ◌∙◌, true, false, inl, inr, Bool-cases, List, [], ◌++◌, append-nil,
}
use my_server_framework.Timer.{
  TimerManager, Callback, split_expired, fire, list_expired_cb, detect_clock_rollover, is_empty,
  due_first,
}
use my_server_framework.Timer.Sorted.{Sorted}
use my_server_framework.Timer.Calls.{InOrder}
use my_server_framework.Timer.Expiry.{split_expired-due}
use my_server_framework.Timer.Firing.{
  callbacks, due, Sorted-Loose, fire-callbacks, due-parts, due-none, is_empty-nil,
}

clock :
    (m : TimerManager) (now : ℕ)
    → (detect_clock_rollover m now).1 ≡ record m { previous_use_time = now }
unfolding detect_clock_rollover
clock m now = refl

-- The callbacks of the timers given are collected, and the set is in its order.
abbrev pub Collects : TimerManager → List ℕ → List Callback × TimerManager → Type 0
Collects m ts r = (r.0 ≡ callbacks m.heap ts) × InOrder r.1

collect :
    (m : TimerManager) (now : ℕ) (ts rest : List ℕ)
    → Sorted m.heap (ts ++ rest)
    → Sorted m.heap rest
    → Collects m ts (fire now ts (record (detect_clock_rollover m now).1 { timers = rest }))
collect m now ts rest s r =
    subst (λ (d : TimerManager). Collects m ts (fire now ts (record d { timers = rest })))
      (sym (clock m now))
      (fire-callbacks now ts (record m { timers = rest; previous_use_time = now })
        (Sorted-Loose m.heap ts rest s) r)

expired_none :
    (m : TimerManager) (now probe : ℕ)
    → is_empty m.timers ≡ true
    → list_expired_cb m now probe ≡ ([], m)
unfolding list_expired_cb
expired_none m now probe e = rw e refl

expired_later :
    (m : TimerManager) (now probe : ℕ)
    → is_empty m.timers ≡ false
    → (detect_clock_rollover m now).0 ≡ false
    → due_first m.heap now m.timers ≡ false
    → list_expired_cb m now probe ≡ ([], (detect_clock_rollover m now).1)
unfolding list_expired_cb
expired_later m now probe e f d = rw (e, f, d) refl

pub expired_due :
    (m : TimerManager) (now probe : ℕ)
    → is_empty m.timers ≡ false
    → (detect_clock_rollover m now).0 ≡ false
    → due_first m.heap now m.timers ≡ true
    → list_expired_cb m now probe
      ≡ fire now
          (split_expired m.heap now probe m.timers).0
          (record (detect_clock_rollover m now).1 {
            timers = (split_expired m.heap now probe m.timers).1;
          })
unfolding list_expired_cb
expired_due m now probe e f d = rw (e, f, d) refl

expired_all :
    (m : TimerManager) (now probe : ℕ)
    → is_empty m.timers ≡ false
    → (detect_clock_rollover m now).0 ≡ true
    → list_expired_cb m now probe
      ≡ fire now m.timers (record (detect_clock_rollover m now).1 { timers = [] })
unfolding list_expired_cb
expired_all m now probe e f = rw (e, f) refl

-- Where the clock has not gone back, `ListExpiredCb` collects the callbacks of just the timers that
-- are due, in their order and as they stood before the call, and keeps the set in its order.
pub list_expired_cb-due :
    (m : TimerManager) (now probe : ℕ)
    → InOrder m
    → (detect_clock_rollover m now).0 ≡ false
    → Collects m (due m.heap now m.timers) (list_expired_cb m now probe)
list_expired_cb-due m now probe s f = elim (Bool-cases (is_empty m.timers)) [
  | inl empty ↦
      subst (Collects m (due m.heap now m.timers)) (sym (expired_none m now probe empty))
        (sym (ap (λ xs. callbacks m.heap (due m.heap now xs)) (is_empty-nil m.timers empty)), s)
  | inr there ↦ elim (Bool-cases (due_first m.heap now m.timers)) [
    | inl first ↦
        let (e, early, late, s') = split_expired-due m.heap now probe m.timers s in
        let (expired, rest) = split_expired m.heap now probe m.timers in
        let all : due m.heap now m.timers ≡ expired =
          ap (due m.heap now) (sym e) ∙ due-parts m.heap now expired rest early late in
        subst (Collects m (due m.heap now m.timers)) (sym (expired_due m now probe there f first)) (
          subst
            (λ ts.
              Collects m ts
                (fire now expired (record (detect_clock_rollover m now).1 { timers = rest })))
            (sym all) (collect m now expired rest (subst (Sorted m.heap) (sym e) s) s'))
    | inr later ↦
        subst (Collects m (due m.heap now m.timers)) (sym (expired_later m now probe there f later))
          (
            sym (ap (callbacks m.heap) (due-none m.heap now m.timers s later)),
            subst InOrder (sym (clock m now)) s,
          )
  ]
]

-- Where the clock has gone back, it collects the callbacks of all timers, in their order.
list_expired_cb-rollover :
    (m : TimerManager) (now probe : ℕ)
    → InOrder m
    → (detect_clock_rollover m now).0 ≡ true
    → Collects m m.timers (list_expired_cb m now probe)
list_expired_cb-rollover m now probe s f = elim (Bool-cases (is_empty m.timers)) [
  | inl empty ↦
      subst (Collects m m.timers) (sym (expired_none m now probe empty))
        (sym (ap (callbacks m.heap) (is_empty-nil m.timers empty)), s)
  | inr there ↦
      subst (Collects m m.timers) (sym (expired_all m now probe there f))
        (collect m now m.timers [] (subst (Sorted m.heap) (sym (append-nil m.timers)) s) tt)
]
