-- ===== src/Lock/Guard.antt =====
-- What a turn keeps, for any property of `locked_` and of the mutex (serverframework/env/mutex.h).
use my_server_framework.Prelude.{◌≡◌, Bool, true, false, Option-cases, inl, inr, some, [], ◌∷◌}
use my_server_framework.Lock.{
  Lockable, lock, unlock, Thread, fresh, inside, done, scoped_new, scoped_lock, scoped_unlock,
  scoped_end, turn, holds,
}

module _ {M : Type 0} (mutex : Lockable M) (P : Bool → M → Type 0)
    (locks : (m m' : M) → P false m → mutex.lock m ≡ some m' → P true m')
    (unlocks : (m : M) → P true m → P false (mutex.unlock m)) where
  -- What holds of the guard and the mutex, and is kept where the mutex is locked and unlocked, is kept
  -- by a turn.
  pub turn_keeps :
      (m : M) (t : Thread) → P (holds t) m → P (holds (turn mutex m t).1) (turn mutex m t).0
  unfolding turn scoped_new scoped_lock scoped_unlock scoped_end holds
  turn_keeps m (fresh uses) p = elim (Option-cases (mutex.lock m)) [
    | inl e ↦ rw (turn, scoped_new, e) p
    | inr r ↦ rw (turn, scoped_new, r.1) (locks m r.0 p r.1)
  ]
  turn_keeps m (inside true (lock ∷ uses)) p = p
  turn_keeps m (inside false (lock ∷ uses)) p = elim (Option-cases (mutex.lock m)) [
    | inl e ↦ rw (turn, scoped_lock, e) p
    | inr r ↦ rw (turn, scoped_lock, r.1) (locks m r.0 p r.1)
  ]
  turn_keeps m (inside true (unlock ∷ uses)) p = unlocks m p
  turn_keeps m (inside false (unlock ∷ uses)) p = p
  turn_keeps m (inside true []) p = unlocks m p
  turn_keeps m (inside false []) p = p
  turn_keeps m done p = p
