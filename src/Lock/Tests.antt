-- ===== src/Lock/Tests.antt =====
-- Two and three threads on one `CASLock`.
use my_server_framework.Prelude.{
  sym, ap, ℕ, zero, suc, ◌-◌, arith, ◌⊎◌, Option, none, some, ◌≡◌, ◌≤◌, refl, Bool, true, false,
  List, [], ◌∷◌, All, if◌then◌else◌,
}
use my_server_framework.Prelude.Sums.{some-injective}
use my_server_framework.Lock.{
  Use, lock, unlock, fresh, inside, done, run, rounds, turn_at, turn, scoped_new, scoped_lock,
  scoped_unlock, scoped_end,
}
use my_server_framework.Lock.Exclusion.{holders, starting, run-holders}
use my_server_framework.Lock.Progress.{total_left, rounds-done}
use my_server_framework.Lock.ReadWrite.{
  RwLockable, Shares, guarded_run, guarded_starting, readers_in, writers_in, guarded_run-readers_in,
}
use my_server_framework.Lock.CasLock.{
  test_and_set, cas_lock, cas_unlock, cas_new, cas_mutex, cas_excludes,
}

-- One thread unlocks and locks again, one only holds its guard, one calls `lock` on a locked guard.
abbrev three_programs : List (List Use)
three_programs = (unlock ∷ lock ∷ []) ∷ [] ∷ (lock ∷ []) ∷ []

-- The first thread holds the flag, the second waits, then gets it while the first waits to lock again.
handed_over :
    run cas_mutex (0 ∷ 1 ∷ 0 ∷ 1 ∷ 0 ∷ []) cas_new (starting three_programs)
    ≡ (true, inside false (lock ∷ []) ∷ inside true [] ∷ fresh (lock ∷ []) ∷ [])
unfolding run turn_at turn scoped_new scoped_lock scoped_unlock scoped_end cas_lock cas_unlock
    test_and_set cas_new
handed_over = refl

run-holders_example :
    let r = run cas_mutex (0 ∷ 1 ∷ 0 ∷ 1 ∷ 0 ∷ []) cas_new (starting three_programs) in
    (holders r.1 ≤ 1) × (holders r.1 ≡ (if r.0 then 1 else 0))
unfolding cas_excludes cas_new
run-holders_example =
    run-holders cas_mutex cas_excludes (0 ∷ 1 ∷ 0 ∷ 1 ∷ 0 ∷ []) cas_new three_programs refl

rounds-done_example :
    let r =
      rounds cas_mutex (total_left (starting three_programs)) cas_new (starting three_programs) in
    All (λ t. t ≡ done) r.1 × (r.0 ≡ false)
unfolding cas_excludes cas_new
rounds-done_example = rounds-done cas_mutex cas_excludes cas_new three_programs refl

-- A lock that counts its readers and keeps a flag for its writer.
unfoldable counting_rdlock : ℕ × Bool → Option (ℕ × Bool)
counting_rdlock (n, true) = none
counting_rdlock (n, false) = some (suc n, false)

unfoldable counting_wrlock : ℕ × Bool → Option (ℕ × Bool)
counting_wrlock (zero, false) = some (0, true)
counting_wrlock (suc n, false) = none
counting_wrlock (n, true) = none

unfoldable counting_unlock : ℕ × Bool → ℕ × Bool
counting_unlock (n, true) = (n, false)
counting_unlock (n, false) = (n - 1, false)

abbrev counting : RwLockable (ℕ × Bool)
counting = record { rdlock = counting_rdlock; wrlock = counting_wrlock; unlock = counting_unlock }

counting_rdlock_given :
    (m m' : ℕ × Bool)
    → counting_rdlock m ≡ some m'
    → (m.1 ≡ false) × (m'.0 ≡ suc m.0) × (m'.1 ≡ false)
unfolding counting_rdlock
counting_rdlock_given (n, true) m' e = absurd (ground (arith, e))
counting_rdlock_given (n, false) m' e =
    let q = some-injective (suc n, false) m' e in
    (refl, sym (ap (λ x. x.0) q), sym (ap (λ x. x.1) q))

counting_wrlock_given :
    (m m' : ℕ × Bool)
    → counting_wrlock m ≡ some m'
    → (m.1 ≡ false) × (m.0 ≡ 0) × (m'.0 ≡ 0) × (m'.1 ≡ true)
unfolding counting_wrlock
counting_wrlock_given (zero, true) m' e = absurd (ground (arith, e))
counting_wrlock_given (zero, false) m' e =
    let q = some-injective (0, true) m' e in
    (refl, refl, sym (ap (λ x. x.0) q), sym (ap (λ x. x.1) q))
counting_wrlock_given (suc n, true) m' e = absurd (ground (arith, e))
counting_wrlock_given (suc n, false) m' e = absurd (ground (arith, e))

counting_unlock_reader :
    (m : ℕ × Bool) (n : ℕ)
    → m.1 ≡ false
    → m.0 ≡ suc n
    → ((counting_unlock m).0 ≡ n) × ((counting_unlock m).1 ≡ false)
unfolding counting_unlock
counting_unlock_reader (k, true) n e f = absurd (ground (arith, e))
counting_unlock_reader (k, false) n e f = (omega (arith, f), refl)

counting_unlock_writer :
    (m : ℕ × Bool) → m.1 ≡ true → ((counting_unlock m).0 ≡ m.0) × ((counting_unlock m).1 ≡ false)
unfolding counting_unlock
counting_unlock_writer (k, true) e = (refl, refl)
counting_unlock_writer (k, false) e = absurd (ground (arith, e))

abbrev counting_shares : Shares counting
counting_shares = record {
  readers = λ m. m.0;
  writer = λ m. m.1;
  rdlock_given = counting_rdlock_given;
  wrlock_given = counting_wrlock_given;
  unlock_reader = counting_unlock_reader;
  unlock_writer = counting_unlock_writer;
}

-- Two readers and a writer: the writer waits while the readers hold the lock, then the readers wait.
abbrev two_readers : List (Bool × List Use)
two_readers = (false, lock ∷ []) ∷ (true, unlock ∷ []) ∷ (false, unlock ∷ lock ∷ []) ∷ []

guarded_run-readers_in_example :
    let s =
      guarded_run counting
        (0 ∷ 1 ∷ 2 ∷ 1 ∷ 2 ∷ 0 ∷ 0 ∷ 1 ∷ 2 ∷ [])
        (0, false)
        (guarded_starting two_readers) in
    (writers_in s.1 ≤ 1) × ((writers_in s.1 ≡ 0) ⊎ (readers_in s.1 ≡ 0)) × (readers_in s.1 ≡ s.0.0)
guarded_run-readers_in_example =
    guarded_run-readers_in counting counting_shares (0 ∷ 1 ∷ 2 ∷ 1 ∷ 2 ∷ 0 ∷ 0 ∷ 1 ∷ 2 ∷ [])
      (0, false) two_readers refl refl
