-- ===== src/Timer.antt =====
-- `Timer` and `TimerManager` (serverframework/util/timer.h, timer.cc). The timer objects stand on a
-- heap by address; `timers_`, a set ordered by the comparator, is the list of the addresses in its
-- order. `GetElapsedMS` is an argument of what calls it, and so is the address that `new` gives.
-- Each operation runs under the manager's lock, hence in one step.
pub mod Order
pub mod Sorted
pub mod Expiry
pub mod Firing
pub mod Listing
pub mod Added
pub mod Calls
pub mod Tests
use my_server_framework.Prelude.{
  ℕ, ◌+◌, ◌-◌, ◌^◌, ◌%◌, ◌*◌, Bool, true, false, ◌&&◌, ◌||◌, not, Option, none, some, List, [], ◌∷◌,
  ◌++◌, if◌then◌else◌, ltb, leb, ◌==◌,
}

-- A callback, by a number of its own; `none` for an empty `std::function`.
abbrev pub Callback : Type 0
Callback = Option ℕ

pub record Timer : Type 0 where
  pub recurring : Bool
  pub ms : ℕ
  pub next : ℕ
  pub cb : Callback

abbrev pub Heap : Type 0
Heap = ℕ → Timer

abbrev pub update : Heap → ℕ → Timer → Heap
update h t v u = if u == t then v else h u

pub record TimerManager : Type 0 where
  pub heap : Heap
  pub timers : List ℕ
  pub tickled : Bool
  pub previous_use_time : ℕ

-- `uint64_t` sums and differences wrap.
abbrev pub add64 : ℕ → ℕ → ℕ
add64 a b = (a + b) % 2 ^ 64

abbrev pub sub64 : ℕ → ℕ → ℕ
sub64 a b = (a + 2 ^ 64 - b) % 2 ^ 64

-- The order of `Comparator` on two timers, by `next_` and then by address.
abbrev pub less_key : ℕ → ℕ → ℕ → ℕ → Bool
less_key n a m b = if ltb n m then true else if ltb m n then false else ltb a b

abbrev pub less : Heap → ℕ → ℕ → Bool
less h a b = less_key (h a).next a (h b).next b

-- `Comparator::operator()`, null pointers included.
unfoldable pub comparator : Heap → Option ℕ → Option ℕ → Bool
comparator h none none = false
comparator h none (some b) = true
comparator h (some a) none = false
comparator h (some a) (some b) = less h a b

-- `timers_.insert`: nothing is added where an equivalent element stands.
unfoldable pub set_insert : Heap → ℕ → List ℕ → List ℕ
set_insert h t [] = t ∷ []
set_insert h t (x ∷ xs) =
    if less h t x then t ∷ (x ∷ xs) else if less h x t then x ∷ set_insert h t xs else x ∷ xs

-- `timers_.find`, as a test for `end()`, and `timers_.erase` of what it finds.
unfoldable pub set_find : Heap → ℕ → List ℕ → Bool
set_find h t [] = false
set_find h t (x ∷ xs) = if less h x t || less h t x then set_find h t xs else true

unfoldable pub set_erase : Heap → ℕ → List ℕ → List ℕ
set_erase h t [] = []
set_erase h t (x ∷ xs) = if less h x t || less h t x then x ∷ set_erase h t xs else xs

abbrev pub is_begin : ℕ → List ℕ → Bool
is_begin t [] = false
is_begin t (x ∷ xs) = t == x

-- `AddTimer` with the lock: whether `OnTimerInsertedAtFront` is called, and the manager.
unfoldable pub add_locked : TimerManager → ℕ → Bool × TimerManager
add_locked m t =
    let timers = set_insert m.heap t m.timers in
    let at_front = is_begin t timers && not m.tickled in
    (at_front, record m { timers = timers; tickled = if at_front then true else m.tickled })

-- The public `AddTimer`, which makes the timer at the address `t`.
unfoldable pub add_timer : TimerManager → ℕ → ℕ → ℕ → Callback → Bool → Bool × TimerManager
add_timer m now t ms cb recurring =
    let timer : Timer = record { recurring = recurring; ms = ms; next = add64 now ms; cb = cb } in
    add_locked (record m { heap = update m.heap t timer }) t

abbrev pub is_set : Callback → Bool
is_set none = false
is_set (some c) = true

-- `Timer::Cancel`: erasing what `find` does not find is a fault, `none`.
unfoldable pub cancel : TimerManager → ℕ → Option (Bool × TimerManager)
cancel m t =
    let timer = m.heap t in
    let dropped = record m {
      heap = update m.heap t (record timer { cb = none });
      timers = set_erase m.heap t m.timers;
    } in
    if is_set timer.cb
    then (if set_find m.heap t m.timers then some (true, dropped) else none)
    else some (false, m)

-- `Timer::Refresh`: the timer is taken out of the set before its time changes.
unfoldable pub refresh : TimerManager → ℕ → ℕ → Bool × TimerManager
refresh m now t =
    let timer = m.heap t in
    let heap = update m.heap t (record timer { next = add64 now timer.ms }) in
    let timers = set_insert heap t (set_erase m.heap t m.timers) in
    if not (is_set timer.cb)
    then (false, m)
    else if not (set_find m.heap t m.timers)
    then (false, m)
    else (true, record m { heap = heap; timers = timers })

-- `Timer::reset`: the result, whether the front changed, and the manager.
unfoldable pub reset : TimerManager → ℕ → ℕ → ℕ → Bool → Bool × Bool × TimerManager
reset m now t ms from_now =
    let timer = m.heap t in
    let start = if from_now then now else sub64 timer.next timer.ms in
    let heap = update m.heap t (record timer { ms = ms; next = add64 start ms }) in
    let (front, m') =
      add_locked (record m { heap = heap; timers = set_erase m.heap t m.timers }) t in
    if ms == timer.ms && not from_now
    then (true, false, m)
    else if not (is_set timer.cb)
    then (false, false, m)
    else if not (set_find m.heap t m.timers)
    then (false, false, m)
    else (true, front, m')

abbrev pub is_empty : List ℕ → Bool
is_empty [] = true
is_empty (x ∷ xs) = false

unfoldable pub has_timer : TimerManager → Bool
has_timer m = not (is_empty m.timers)

-- `~0ull`
abbrev pub no_timeout : ℕ
no_timeout = 2 ^ 64 - 1

unfoldable pub get_next_timer : TimerManager → ℕ → ℕ × TimerManager
get_next_timer m now =
    let wait = λ (t : ℕ). if leb (m.heap t).next now then 0 else (m.heap t).next - now in
    let timeout : ℕ = elim m.timers [ [] ↦ no_timeout | t ∷ ts ↦ wait t ] in
    (timeout, record m { tickled = false })

unfoldable pub detect_clock_rollover : TimerManager → ℕ → Bool × TimerManager
detect_clock_rollover m now =
    let previous = m.previous_use_time in
    (
      ltb now previous && ltb now (sub64 previous (60 * 60 * 1000)),
      record m { previous_use_time = now },
    )

-- The longest prefix of which the test holds, and what follows it.
unfoldable pub span : (ℕ → Bool) → List ℕ → List ℕ × List ℕ
span p [] = ([], [])
span p (x ∷ xs) = let (ys, zs) = span p xs in if p x then (x ∷ ys, zs) else ([], x ∷ xs)

-- `lower_bound` of a timer at the address `probe` due now, and the step over the timers due now.
unfoldable pub split_expired : Heap → ℕ → ℕ → List ℕ → List ℕ × List ℕ
split_expired h now probe xs =
    let (earlier, from) = span (λ t. less_key (h t).next t now probe) xs in
    let (equal, rest) = span (λ t. (h t).next == now) from in (earlier ++ equal, rest)

-- The loop over the expired timers: the callbacks collected, and the manager.
unfoldable pub fire : ℕ → List ℕ → TimerManager → List Callback × TimerManager
fire now [] m = ([], m)
fire now (t ∷ ts) m =
    let timer = m.heap t in
    let again = update m.heap t (record timer { next = add64 now timer.ms }) in
    let m' =
      if timer.recurring
      then record m { heap = again; timers = set_insert again t m.timers }
      else record m { heap = update m.heap t (record timer { cb = none }) } in
    let (cbs, m'') = fire now ts m' in (timer.cb ∷ cbs, m'')

abbrev pub due_first : Heap → ℕ → List ℕ → Bool
due_first h now [] = false
due_first h now (t ∷ ts) = leb (h t).next now

-- `ListExpiredCb`. With no timer it returns before it looks at the clock's past.
unfoldable pub list_expired_cb : TimerManager → ℕ → ℕ → List Callback × TimerManager
list_expired_cb m now probe =
    let (rollover, m') = detect_clock_rollover m now in
    let (expired, rest) =
      if rollover then (m.timers, []) else split_expired m.heap now probe m.timers in
    if is_empty m.timers
    then ([], m)
    else if not rollover && not (due_first m.heap now m.timers)
    then ([], m')
    else fire now expired (record m' { timers = rest })
