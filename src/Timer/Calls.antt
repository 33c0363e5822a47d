-- ===== src/Timer/Calls.antt =====
-- What `AddTimer`, `Cancel`, `Refresh`, `reset` and `GetNextTimer` (serverframework/util/timer.cc) keep
-- and promise.
use my_server_framework.Prelude.{
  All, ℕ, ◌-◌, ◌≤◌, ◌≡◌, refl, ap, subst, arith, Bool, true, false, not, none, some, inl, inr,
  Bool-cases, List, [], ◌∷◌, if◌then◌else◌, leb, ◌==◌, ◌&&◌,
}
use my_server_framework.Timer.{
  Heap, Timer, TimerManager, Callback, update, set_insert, set_find, set_erase, add_locked,
  add_timer, is_set, cancel, refresh, reset, get_next_timer, add64, sub64,
}
use my_server_framework.Timer.Sorted.{
  Before, Sorted, Apart, set_insert-Sorted, set_erase-Sorted, set_erase-Apart, Sorted-update,
}

abbrev pub InOrder : TimerManager → Type 0
InOrder m = Sorted m.heap m.timers

-- A timer that is not in the set changes, and is put in.
reinsert-Sorted :
    (h : Heap) (t : ℕ) (v : Timer) (xs : List ℕ)
    → Apart t xs
    → Sorted h xs
    → Sorted (update h t v) (set_insert (update h t v) t xs)
reinsert-Sorted h t v xs a s = set_insert-Sorted (update h t v) t xs (Sorted-update h t v xs a s)

erased-reinsert-Sorted :
    (h : Heap) (t : ℕ) (v : Timer) (xs : List ℕ)
    → Sorted h xs
    → Sorted (update h t v) (set_insert (update h t v) t (set_erase h t xs))
erased-reinsert-Sorted h t v xs s =
    reinsert-Sorted h t v (set_erase h t xs) (set_erase-Apart h t xs s) (set_erase-Sorted h t xs s)

-- `AddTimer` keeps the set in its order, for a timer at an address that is not in it.
pub add_timer-InOrder :
    (m : TimerManager) (now t ms : ℕ) (cb : Callback) (recurring : Bool)
    → InOrder m
    → Apart t m.timers
    → InOrder (add_timer m now t ms cb recurring).1
unfolding add_timer add_locked
add_timer-InOrder m now t ms cb recurring s a =
    reinsert-Sorted m.heap t
      (record { recurring = recurring; ms = ms; next = add64 now ms; cb = cb }) m.timers a s

-- `Refresh` keeps the set in its order, although it changes what the order looks at.
pub refresh-InOrder : (m : TimerManager) (now t : ℕ) → InOrder m → InOrder (refresh m now t).1
unfolding refresh
refresh-InOrder m now t s = elim (Bool-cases (is_set (m.heap t).cb)) [
  | inl on ↦ elim (Bool-cases (set_find m.heap t m.timers)) [
    | inl found ↦
        rw (on, found)
          (erased-reinsert-Sorted m.heap t (record (m.heap t) { next = add64 now (m.heap t).ms })
            m.timers s)
    | inr lost ↦ rw (on, lost) s
  ]
  | inr off ↦ rw off s
]

-- `reset` keeps the set in its order, from now or from the timer's own start.
reset-InOrder :
    (m : TimerManager) (now t ms : ℕ) (from_now : Bool)
    → InOrder m
    → InOrder (reset m now t ms from_now).2
unfolding reset add_locked
reset-InOrder m now t ms from_now s = elim (Bool-cases (ms == (m.heap t).ms && not from_now)) [
  | inl same ↦ rw same s
  | inr other ↦ elim (Bool-cases (is_set (m.heap t).cb)) [
    | inl on ↦ elim (Bool-cases (set_find m.heap t m.timers)) [
      | inl found ↦
          let start = if from_now then now else sub64 (m.heap t).next (m.heap t).ms in
          rw (other, on, found)
            (erased-reinsert-Sorted m.heap t (record (m.heap t) { ms = ms; next = add64 start ms })
              m.timers s)
      | inr lost ↦ rw (other, on, lost) s
    ]
    | inr off ↦ rw (other, off) s
  ]
]

the_same : (t : ℕ) → (t == t) ≡ true
the_same t = ground arith

-- A timer that has its callback and is in the set is cancelled: it is in the set no more, which stays
-- in its order, and to cancel it again answers false and changes nothing.
cancel-twice :
    (m : TimerManager) (t : ℕ)
    → InOrder m
    → is_set (m.heap t).cb ≡ true
    → set_find m.heap t m.timers ≡ true
    → (m' : TimerManager) × (cancel m t ≡ some (true, m'))
      × Apart t m'.timers
      × InOrder m'
      × (cancel m' t ≡ some (false, m'))
unfolding cancel
cancel-twice m t s on found =
    let apart = set_erase-Apart m.heap t m.timers s in
    let h = update m.heap t (record (m.heap t) { cb = none }) in
    let m' : TimerManager = record m { heap = h; timers = set_erase m.heap t m.timers } in
    let off : is_set (h t).cb ≡ false =
      ap (λ b. is_set (if b then (record (m.heap t) { cb = none }) else m.heap t).cb)
        (the_same t) in
    (
      m',
      rw (on, found) refl,
      apart,
      Sorted-update m.heap t (record (m.heap t) { cb = none }) (set_erase m.heap t m.timers) apart
          (set_erase-Sorted m.heap t m.timers s),
      rw off refl,
    )

later-waits :
    (m : TimerManager) (now t : ℕ) (xs : List ℕ)
    → Before m.heap t xs
    → All (λ u. (m.heap t).next - now ≤ (m.heap u).next - now) xs
later-waits m now t [] b = tt
later-waits m now t (x ∷ xs) b =
    let soon : (m.heap t).next ≤ (m.heap x).next = ground (arith, b.0) in
    (omega (arith, soon), later-waits m now t xs b.1)

soonest :
    (m : TimerManager) (now : ℕ) (xs : List ℕ)
    → Sorted m.heap xs
    → All (λ t. (get_next_timer (record m { timers = xs }) now).0 ≤ (m.heap t).next - now) xs
unfolding get_next_timer
soonest m now [] s = tt
soonest m now (x ∷ xs) s =
    let timeout : ℕ = if leb (m.heap x).next now then 0 else (m.heap x).next - now in
    let same : (m.heap x).next - now ≡ timeout = ground arith in
    (
      omega (arith, same),
      subst (λ n. All (λ t. n ≤ (m.heap t).next - now) xs) same (later-waits m now x xs s.0),
    )

-- What `GetNextTimer` gives is no more than the time that any timer of the set still has, zero where
-- that is over.
get_next_timer-soonest :
    (m : TimerManager) (now : ℕ)
    → InOrder m
    → All (λ t. (get_next_timer m now).0 ≤ (m.heap t).next - now) m.timers
get_next_timer-soonest m now s = soonest m now m.timers s
