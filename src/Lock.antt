-- ===== src/Lock.antt =====
-- Locks and the guards that hold them (serverframework/env/mutex.h): `ScopedLockImpl` over a mutex, and
-- `CASLock`. A thread here has one guard on the mutex that all the threads share: it makes it, calls
-- `lock` and `unlock` on it as it wants, and destroys it. `ReadScopedLockImpl` and
-- `WriteScopedLockImpl` are the same code with `rdlock` and `wrlock` for `lock`. That a mutex excludes
-- is an argument, `Excludes`, which `CasLock` fills: `Mutex` and `Spinlock` are calls of pthread.
pub mod Guard
pub mod Exclusion
pub mod Progress
pub mod CasLock
pub mod ReadWrite
pub mod Tests
use my_server_framework.Prelude.{
  ℕ, zero, suc, ◌≡◌, Bool, true, false, Option, none, some, List, [], ◌∷◌, length, if◌then◌else◌,
}

-- What a guard calls on a mutex in the state `M`: `lock` has no result where it does not return yet.
pub record Lockable (M : Type 0) : Type 0 where
  pub lock : M → Option M
  pub unlock : M → M

-- What a mutex promises, with its view as held or not.
pub record Excludes {M : Type 0} (mutex : Lockable M) : Type 0 where
  pub held : M → Bool
  pub lock_free : (m : M) → held m ≡ false → (m' : M) × (mutex.lock m ≡ some m') × (held m' ≡ true)
  pub lock_held : (m : M) → held m ≡ true → mutex.lock m ≡ none
  pub unlock_free : (m : M) → held (mutex.unlock m) ≡ false

-- The uses of a guard between its constructor and its destructor.
pub data Use : Type 0 where
  lock : Use
  unlock : Use

-- A thread that has not got its guard, one that has it, with `locked_` of it, and one whose guard is
-- destroyed.
pub data Thread : Type 0 where
  fresh : List Use → Thread
  inside : Bool → List Use → Thread
  done : Thread

module _ {M : Type 0} (mutex : Lockable M) where
  -- The constructor: the mutex, and `locked_`.
  unfoldable pub scoped_new : M → Option (M × Bool)
  scoped_new m = elim (mutex.lock m) [ none ↦ none | some m' ↦ some (m', true) ]

  -- `lock` and `unlock` of a guard.
  unfoldable pub scoped_lock : M → Bool → Option (M × Bool)
  scoped_lock m true = some (m, true)
  scoped_lock m false = elim (mutex.lock m) [ none ↦ none | some m' ↦ some (m', true) ]

  unfoldable pub scoped_unlock : M → Bool → M × Bool
  scoped_unlock m locked = if locked then (mutex.unlock m, false) else (m, locked)

  -- The destructor
  unfoldable pub scoped_end : M → Bool → M
  scoped_end m locked = (scoped_unlock m locked).0

  -- The next call of a thread, which stays before it where the mutex is not given.
  unfoldable pub turn : M → Thread → M × Thread
  turn m (fresh uses) = elim (scoped_new m) [
    | none ↦ (m, fresh uses)
    | some r ↦ (r.0, inside r.1 uses)
  ]
  turn m (inside locked (lock ∷ uses)) = elim (scoped_lock m locked) [
    | none ↦ (m, inside locked (lock ∷ uses))
    | some r ↦ (r.0, inside r.1 uses)
  ]
  turn m (inside locked (unlock ∷ uses)) = let r = scoped_unlock m locked in (r.0, inside r.1 uses)
  turn m (inside locked []) = (scoped_end m locked, done)
  turn m done = (m, done)

  -- The turn of the thread at a place of the list.
  unfoldable pub turn_at : ℕ → M → List Thread → M × List Thread
  turn_at i m [] = (m, [])
  turn_at zero m (t ∷ ts) = let r = turn m t in (r.0, r.1 ∷ ts)
  turn_at (suc i) m (t ∷ ts) = let r = turn_at i m ts in (r.0, t ∷ r.1)

  -- An interleaving: the threads take turns in the order of a list.
  unfoldable pub run : List ℕ → M → List Thread → M × List Thread
  run [] m ts = (m, ts)
  run (i ∷ is) m ts = let r = turn_at i m ts in run is r.0 r.1

  -- A turn of each thread.
  unfoldable pub round : M → List Thread → M × List Thread
  round m [] = (m, [])
  round m (t ∷ ts) = let r = turn m t in let rest = round r.0 ts in (rest.0, r.1 ∷ rest.1)

  unfoldable pub rounds : ℕ → M → List Thread → M × List Thread
  rounds zero m ts = (m, ts)
  rounds (suc n) m ts = let r = round m ts in rounds n r.0 r.1

-- Whether a thread holds the mutex.
unfoldable pub holds : Thread → Bool
holds (fresh uses) = false
holds (inside locked uses) = locked
holds done = false

-- The calls that a thread has left.
unfoldable pub calls_left : Thread → ℕ
calls_left (fresh uses) = suc (suc (length uses))
calls_left (inside locked uses) = suc (length uses)
calls_left done = 0
