-- ===== src/Lock/CasLock.antt =====
-- `CASLock` (serverframework/env/mutex.h): an atomic flag that is tested and set. It fills `Excludes`.
use my_server_framework.Prelude.{
  ◌≡◌, refl, Bool, true, false, Option, none, some, if◌then◌else◌, arith,
}
use my_server_framework.Lock.{Lockable, Excludes}

-- `std::atomic_flag_test_and_set_explicit`: the flag before, and the flag after.
unfoldable pub test_and_set : Bool → Bool × Bool
test_and_set flag = (flag, true)

-- The constructor, which clears the flag.
unfoldable pub cas_new : Bool
cas_new = false

-- One pass of the loop of `lock`: the loop ends where the flag was clear. Where it was set, setting it
-- again changes nothing, and another pass is due.
unfoldable pub cas_lock : Bool → Option Bool
cas_lock flag = let r = test_and_set flag in if r.0 then none else some r.1

unfoldable pub cas_unlock : Bool → Bool
cas_unlock flag = false

abbrev pub cas_mutex : Lockable Bool
cas_mutex = record { lock = cas_lock; unlock = cas_unlock }

pub flag_clear : (flag : Bool) → flag ≡ false → (m : Bool) × (cas_lock flag ≡ some m) × (m ≡ true)
unfolding cas_lock test_and_set
flag_clear false e = (true, refl, refl)
flag_clear true e = absurd (ground (arith, e))

pub flag_set : (flag : Bool) → flag ≡ true → cas_lock flag ≡ none
unfolding cas_lock test_and_set
flag_set true e = refl
flag_set false e = absurd (ground (arith, e))

unfoldable pub cas_excludes : Excludes cas_mutex
unfolding cas_unlock
cas_excludes = record {
  held = λ flag. flag;
  lock_free = flag_clear;
  lock_held = flag_set;
  unlock_free = λ flag. refl;
}
