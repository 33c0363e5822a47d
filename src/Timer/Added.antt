-- ===== src/Timer/Added.antt =====
-- A timer that is added to a `TimerManager` (serverframework/util/timer.cc): it is found until it is due, and
-- then it is taken, after which it has no callback.
use my_server_framework.Prelude.{
  ℕ, ◌≡◌, refl, sym, ap, subst, ◌∙◌, arith, Bool, true, false, none, some, inl, inr, Bool-cases,
  List, [], ◌∷◌, if◌then◌else◌, ◌==◌, leb,
}
use my_server_framework.Timer.{
  Heap, Timer, TimerManager, update, less, set_insert, set_find, set_erase, fire, list_expired_cb,
  add64, add_locked, add_timer, cancel, detect_clock_rollover, split_expired, is_empty, is_set,
  due_first,
}
use my_server_framework.Timer.Order.{less_irrefl, less_total}
use my_server_framework.Timer.Sorted.{Apart}
use my_server_framework.Timer.Calls.{InOrder}
use my_server_framework.Timer.Expiry.{split_expired-due}
use my_server_framework.Timer.Firing.{due, due-parts, due-none, is_empty-nil}
use my_server_framework.Timer.Listing.{expired_due}

unfoldable pub among : ℕ → List ℕ → Bool
among t [] = false
among t (x ∷ xs) = let rest = among t xs in if x == t then true else rest

pub among-set_insert :
    (h : Heap) (t : ℕ) (xs : List ℕ) → Apart t xs → among t (set_insert h t xs) ≡ true
unfolding among set_insert
among-set_insert h t [] a = ground arith
among-set_insert h t (x ∷ xs) a = elim (Bool-cases (less h t x)) [
  | inl first ↦ rw first (ground arith)
  | inr later ↦ elim (Bool-cases (less h x t)) [
    | inl after ↦ rw (later, after) (ground (arith, among-set_insert h t xs a.1))
    | inr same ↦ absurd (a.0 (less_total h x t same later))
  ]
]

pub set_find-set_insert : (h : Heap) (t : ℕ) (xs : List ℕ) → set_find h t (set_insert h t xs) ≡ true
unfolding set_find set_insert
set_find-set_insert h t [] = rw (less_irrefl h t) refl
set_find-set_insert h t (x ∷ xs) = elim (Bool-cases (less h t x)) [
  | inl first ↦ rw (first, less_irrefl h t) refl
  | inr later ↦ elim (Bool-cases (less h x t)) [
    | inl after ↦ rw (later, after) (rw after (set_find-set_insert h t xs))
    | inr same ↦ rw (later, same) (rw (same, later) refl)
  ]
]

pub among-due :
    (h : Heap) (now t : ℕ) (xs : List ℕ)
    → leb (h t).next now ≡ true
    → among t xs ≡ true
    → among t (due h now xs) ≡ true
unfolding among
among-due h now t [] l a = absurd (ground (arith, a))
among-due h now t (x ∷ xs) l a = elim (Bool-cases (x == t)) [
  | inl same ↦
      let here : leb (h x).next now ≡ true =
        subst (λ y. leb (h y).next now ≡ true) (sym (ground (arith, same))) l in
      rw (here, among, same) refl
  | inr other ↦
      let rest = among-due h now t xs l (rw other at a) in
      elim (Bool-cases (leb (h x).next now)) [
        | inl early ↦ rw (early, among, other) rest
        | inr late ↦ rw late rest
      ]
]

-- A timer without a callback stays so where another is changed or has its time changed.
update_next-cleared :
    (h : Heap) (t u n : ℕ)
    → is_set (h t).cb ≡ false
    → is_set (update h u (record (h u) { next = n }) t).cb ≡ false
update_next-cleared h t u n e = elim (Bool-cases (t == u)) [
  | inl same ↦ rw same (subst (λ x. is_set (h x).cb ≡ false) (ground (arith, same)) e)
  | inr other ↦ rw other e
]

update-none-cleared :
    (h : Heap) (t u : ℕ)
    → is_set (h t).cb ≡ false
    → is_set (update h u (record (h u) { cb = none }) t).cb ≡ false
update-none-cleared h t u e = elim (Bool-cases (t == u)) [
  | inl same ↦ rw same refl
  | inr other ↦ rw other e
]

-- What a timer of the loop leaves to the rest of it.
abbrev again : ℕ → ℕ → TimerManager → TimerManager
again now u m =
    let h = update m.heap u (record (m.heap u) { next = add64 now (m.heap u).ms }) in
    record m { heap = h; timers = set_insert h u m.timers }

abbrev over : ℕ → TimerManager → TimerManager
over u m = record m { heap = update m.heap u (record (m.heap u) { cb = none }) }

fire_rest :
    (now u : ℕ) (ts : List ℕ) (m : TimerManager) (b : Bool)
    → (m.heap u).recurring ≡ b
    → (fire now (u ∷ ts) m).1 ≡ (fire now ts (if b then again now u m else over u m)).1
unfolding fire
fire_rest now u ts m b e =
    ap (λ (c : Bool). (fire now ts (if c then again now u m else over u m)).1) e

-- The timer has no callback.
abbrev Cleared : ℕ → TimerManager → Type 0
Cleared t m = is_set (m.heap t).cb ≡ false

fire_keeps_Cleared :
    (now t : ℕ) (ts : List ℕ) (m : TimerManager) → Cleared t m → Cleared t (fire now ts m).1
unfolding fire
fire_keeps_Cleared now t [] m e = e
fire_keeps_Cleared now t (u ∷ ts) m e = elim (Bool-cases (m.heap u).recurring) [
  | inl recurs ↦ subst (Cleared t) (sym (fire_rest now u ts m true recurs)) (
      fire_keeps_Cleared now t ts (again now u m)
        (update_next-cleared m.heap t u (add64 now (m.heap u).ms) e))
  | inr once ↦
      subst (Cleared t) (sym (fire_rest now u ts m false once))
        (fire_keeps_Cleared now t ts (over u m) (update-none-cleared m.heap t u e))
]

update-recurring :
    (h : Heap) (t u : ℕ) (v : Timer)
    → v.recurring ≡ (h u).recurring
    → (h t).recurring ≡ false
    → (update h u v t).recurring ≡ false
update-recurring h t u v k e = elim (Bool-cases (t == u)) [
  | inl same ↦ rw same (k ∙ subst (λ x. (h x).recurring ≡ false) (ground (arith, same)) e)
  | inr other ↦ rw other e
]

over-Cleared : (u t : ℕ) (m : TimerManager) → (t == u) ≡ true → Cleared t (over u m)
over-Cleared u t m e = rw e refl

fire-Cleared :
    (now t : ℕ) (ts : List ℕ) (m : TimerManager)
    → (m.heap t).recurring ≡ false
    → among t ts ≡ true
    → Cleared t (fire now ts m).1
unfolding fire among
fire-Cleared now t [] m o a = absurd (ground (arith, a))
fire-Cleared now t (u ∷ ts) m o a = elim (Bool-cases (u == t)) [
  | inl same ↦
      let once : (m.heap u).recurring ≡ false =
        subst (λ x. (m.heap x).recurring ≡ false) (sym (ground (arith, same))) o in
      subst (Cleared t) (sym (fire_rest now u ts m false once))
        (fire_keeps_Cleared now t ts (over u m) (over-Cleared u t m (ground (arith, same))))
  | inr other ↦
      let rest : among t ts ≡ true = rw other at a in
      elim (Bool-cases (m.heap u).recurring) [
        | inl recurs ↦ subst (Cleared t) (sym (fire_rest now u ts m true recurs)) (
            fire-Cleared now t ts (again now u m)
              (update-recurring m.heap t u (record (m.heap u) { next = add64 now (m.heap u).ms })
                refl o)
              rest)
        | inr once ↦ subst (Cleared t) (sym (fire_rest now u ts m false once)) (
            fire-Cleared now t ts (over u m)
              (update-recurring m.heap t u (record (m.heap u) { cb = none }) refl o) rest)
      ]
]

-- A timer of the set that is due and does not recur has no callback after `ListExpiredCb`, where the
-- clock has not gone back.
pub list_expired_cb-cleared :
    (m : TimerManager) (now probe t : ℕ)
    → InOrder m
    → (detect_clock_rollover m now).0 ≡ false
    → (m.heap t).recurring ≡ false
    → leb (m.heap t).next now ≡ true
    → among t m.timers ≡ true
    → is_set ((list_expired_cb m now probe).1.heap t).cb ≡ false
unfolding among detect_clock_rollover
list_expired_cb-cleared m now probe t s f o l a = elim (Bool-cases (is_empty m.timers)) [
  | inl empty ↦ absurd (ground (arith, ap (among t) (sym (is_empty-nil m.timers empty)), a))
  | inr there ↦ elim (Bool-cases (due_first m.heap now m.timers)) [
    | inr later ↦
        let gone : among t [] ≡ true =
          ap (among t) (sym (due-none m.heap now m.timers s later))
          ∙ among-due m.heap now t m.timers l a in
        absurd (ground (arith, gone))
    | inl first ↦
        let (e, early, late, s') = split_expired-due m.heap now probe m.timers s in
        let (expired, rest) = split_expired m.heap now probe m.timers in
        let all : due m.heap now m.timers ≡ expired =
          ap (due m.heap now) (sym e) ∙ due-parts m.heap now expired rest early late in
        let taken : among t expired ≡ true =
          ap (among t) (sym all) ∙ among-due m.heap now t m.timers l a in
        subst (λ r. Cleared t r.1) (sym (expired_due m now probe there f first))
          (fire-Cleared now t expired (record (detect_clock_rollover m now).1 { timers = rest }) o
            taken)
  ]
]

cancel-found :
    (m : TimerManager) (t : ℕ)
    → is_set (m.heap t).cb ≡ true
    → set_find m.heap t m.timers ≡ true
    → (r : Bool × TimerManager) × (cancel m t ≡ some r)
unfolding cancel
cancel-found m t set found = (
  (
    true,
    record m {
      heap = update m.heap t (record (m.heap t) { cb = none });
      timers = set_erase m.heap t m.timers;
    },
  ),
  rw (set, found) refl,
)

-- A timer that was just added may be cancelled.
pub cancel-add_timer :
    (m : TimerManager) (now t ms cb : ℕ)
    → (r : Bool × TimerManager) × (cancel (add_timer m now t ms (some cb) false).1 t ≡ some r)
unfolding add_timer add_locked
cancel-add_timer m now t ms cb =
    let timer : Timer = record { recurring = false; ms = ms; next = add64 now ms; cb = some cb } in
    let here : (t == t) ≡ true = ground arith in
    cancel-found (add_timer m now t ms (some cb) false).1 t (rw here refl)
      (set_find-set_insert (update m.heap t timer) t m.timers)
