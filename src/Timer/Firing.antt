-- ===== src/Timer/Firing.antt =====
-- The loop of `ListExpiredCb` over the expired timers (serverframework/util/timer.cc).
use my_server_framework.Prelude.{
  All, ℕ, ◌≤◌, ◌<◌, ◌≡◌, refl, sym, ap, ap₂, subst, ◌∙◌, arith, true, false, none, inl, inr,
  Bool-cases, List, [], ◌∷◌, ◌++◌, map, if◌then◌else◌, leb, ◌==◌,
}
use my_server_framework.Timer.{
  Heap, Timer, TimerManager, Callback, update, set_insert, fire, add64, is_empty, due_first,
}
use my_server_framework.Timer.Sorted.{
  Before, Sorted, Apart, set_insert-Sorted, Sorted-update, Before-Apart, Apart-set_insert,
}
use my_server_framework.Timer.Calls.{InOrder}

-- The timers are different ones, and none of them is in the set.
abbrev pub Loose : List ℕ → List ℕ → Type 0
Loose [] xs = Unit {0}
Loose (t ∷ ts) xs = Apart t ts × Apart t xs × Loose ts xs

-- The callbacks of timers, as they stand on the heap.
abbrev pub callbacks : Heap → List ℕ → List Callback
callbacks h ts = map (λ t. (h t).cb) ts

callbacks-update :
    (h : Heap) (t : ℕ) (v : Timer) (ts : List ℕ)
    → Apart t ts
    → callbacks (update h t v) ts ≡ callbacks h ts
callbacks-update h t v [] a = refl
callbacks-update h t v (u ∷ ts) a =
    let other : (u == t) ≡ false = ground (arith, a.0) in
    ap₂ (λ c cs. c ∷ cs) (ap (λ b. (if b then v else h u).cb) other) (callbacks-update h t v ts a.1)

Loose-set_insert :
    (h : Heap) (t : ℕ) (ts xs : List ℕ) → Apart t ts → Loose ts xs → Loose ts (set_insert h t xs)
Loose-set_insert h t [] xs a l = tt
Loose-set_insert h t (u ∷ ts) xs a l =
    (l.0, Apart-set_insert h u t xs (λ e. a.0 (sym e)) l.1, Loose-set_insert h t ts xs a.1 l.2)

Apart-parts : (t : ℕ) (xs ys : List ℕ) → Apart t (xs ++ ys) → Apart t xs × Apart t ys
Apart-parts t [] ys a = (tt, a)
Apart-parts t (x ∷ xs) ys a = ((a.0, (Apart-parts t xs ys a.1).0), (Apart-parts t xs ys a.1).1)

pub Sorted-Loose : (h : Heap) (ts xs : List ℕ) → Sorted h (ts ++ xs) → Loose ts xs
Sorted-Loose h [] xs s = tt
Sorted-Loose h (t ∷ ts) xs s =
    let (a, b) = Apart-parts t ts xs (Before-Apart h t (ts ++ xs) s.0) in
    (a, b, Sorted-Loose h ts xs s.1)

-- The callbacks are those of the timers before the loop changes any of them, and the set stays in
-- order with the recurring timers put back.
pub fire-callbacks :
    (now : ℕ) (ts : List ℕ) (m : TimerManager)
    → Loose ts m.timers
    → InOrder m
    → ((fire now ts m).0 ≡ callbacks m.heap ts) × InOrder (fire now ts m).1
unfolding fire
fire-callbacks now [] m l s = (refl, s)
fire-callbacks now (t ∷ ts) m l s =
    let timer = m.heap t in
    let again : Timer = record timer { next = add64 now timer.ms } in
    let over : Timer = record timer { cb = none } in
    let h = update m.heap t again in
    let m₁ : TimerManager = record m { heap = h; timers = set_insert h t m.timers } in
    let m₂ : TimerManager = record m { heap = update m.heap t over } in
    let Goal = λ (m' : TimerManager).
      (timer.cb ∷ (fire now ts m').0 ≡ callbacks m.heap (t ∷ ts)) × InOrder (fire now ts m').1 in
    elim (Bool-cases timer.recurring) [
      | inl recurs ↦
          let s' = set_insert-Sorted h t m.timers (Sorted-update m.heap t again m.timers l.1 s) in
          let (c, o) = fire-callbacks now ts m₁ (Loose-set_insert h t ts m.timers l.0 l.2) s' in
          subst Goal (sym (ap (λ b. if b then m₁ else m₂) recurs))
            (ap (λ cs. timer.cb ∷ cs) (c ∙ callbacks-update m.heap t again ts l.0), o)
      | inr once ↦
          let (c, o) = fire-callbacks now ts m₂ l.2 (Sorted-update m.heap t over m.timers l.1 s) in
          subst Goal (sym (ap (λ b. if b then m₁ else m₂) once))
            (ap (λ cs. timer.cb ∷ cs) (c ∙ callbacks-update m.heap t over ts l.0), o)
    ]

-- The timers that are due, in the order of the set.
abbrev pub due : Heap → ℕ → List ℕ → List ℕ
due h now [] = []
due h now (t ∷ ts) = if leb (h t).next now then t ∷ due h now ts else due h now ts

pub due-parts :
    (h : Heap) (now : ℕ) (xs ys : List ℕ)
    → All (λ t. (h t).next ≤ now) xs
    → All (λ t. now < (h t).next) ys
    → due h now (xs ++ ys) ≡ xs
due-parts h now [] [] a b = refl
due-parts h now [] (y ∷ ys) a b =
    let late : leb (h y).next now ≡ false = ground (arith, b.0) in
    ap (λ c. if c then y ∷ due h now ys else due h now ys) late ∙ due-parts h now [] ys a b.1
due-parts h now (x ∷ xs) ys a b =
    let early : leb (h x).next now ≡ true = ground (arith, a.0) in
    ap (λ c. if c then x ∷ due h now (xs ++ ys) else due h now (xs ++ ys)) early
    ∙ ap (λ t. x ∷ t) (due-parts h now xs ys a.1 b)

due-later_none :
    (h : Heap) (now x : ℕ) (ys : List ℕ)
    → leb (h x).next now ≡ false
    → Before h x ys
    → due h now ys ≡ []
due-later_none h now x [] f b = refl
due-later_none h now x (y ∷ ys) f b =
    let late : leb (h y).next now ≡ false = ground (arith, b.0, f) in
    ap (λ c. if c then y ∷ due h now ys else due h now ys) late ∙ due-later_none h now x ys f b.1

pub due-none :
    (h : Heap) (now : ℕ) (xs : List ℕ)
    → Sorted h xs
    → due_first h now xs ≡ false
    → due h now xs ≡ []
due-none h now [] s f = refl
due-none h now (x ∷ xs) s f =
    ap (λ c. if c then x ∷ due h now xs else due h now xs) f ∙ due-later_none h now x xs f s.0

pub is_empty-nil : (xs : List ℕ) → is_empty xs ≡ true → xs ≡ []
is_empty-nil [] e = refl
is_empty-nil (x ∷ xs) e = absurd (ground (arith, e))
