-- ===== src/Lock/ReadWrite.antt =====
-- Guards on a `RWMutex` (serverframework/env/mutex.h): `ReadScopedLockImpl` and `WriteScopedLockImpl`,
-- which are the guards of `Lock` with `rdlock` and with `wrlock` for `lock`. `RWMutex` calls pthread:
-- what its documentation promises is an argument, `Shares`.
use my_server_framework.Prelude.{
  ℕ, zero, suc, ◌+◌, ◌≤◌, ◌≡◌, refl, sym, ap, ◌∙◌, subst, Bool, true, false, Bool-cases, inl, inr,
  ◌⊎◌, Option, some, List, [], ◌∷◌, arith,
}
use my_server_framework.Lock.{Lockable, Use, Thread, fresh, turn, holds}
use my_server_framework.Lock.Guard.{turn_keeps}
use my_server_framework.Lock.Exclusion.{bit, bit_le}

pub record RwLockable (M : Type 0) : Type 0 where
  pub rdlock : M → Option M
  pub wrlock : M → Option M
  pub unlock : M → M

-- What the lock promises, with its view as the readers that hold it and whether a writer does. A reader
-- may have to wait where no writer holds the lock.
pub record Shares {M : Type 0} (mutex : RwLockable M) : Type 0 where
  pub readers : M → ℕ
  pub writer : M → Bool
  pub rdlock_given :
      (m m' : M)
      → mutex.rdlock m ≡ some m'
      → (writer m ≡ false) × (readers m' ≡ suc (readers m)) × (writer m' ≡ false)
  pub wrlock_given :
      (m m' : M)
      → mutex.wrlock m ≡ some m'
      → (writer m ≡ false) × (readers m ≡ 0) × (readers m' ≡ 0) × (writer m' ≡ true)
  pub unlock_reader :
      (m : M) (n : ℕ)
      → writer m ≡ false
      → readers m ≡ suc n
      → (readers (mutex.unlock m) ≡ n) × (writer (mutex.unlock m) ≡ false)
  pub unlock_writer :
      (m : M)
      → writer m ≡ true
      → (readers (mutex.unlock m) ≡ readers m) × (writer (mutex.unlock m) ≡ false)

-- A thread with a `ReadScopedLockImpl`, or one with a `WriteScopedLockImpl`.
pub data Guarded : Type 0 where
  reading : Thread → Guarded
  writing : Thread → Guarded

module _ {M : Type 0} (mutex : RwLockable M) where
  -- What each kind of guard calls.
  abbrev pub read_scoped : Lockable M
  read_scoped = record { lock = mutex.rdlock; unlock = mutex.unlock }

  abbrev pub write_scoped : Lockable M
  write_scoped = record { lock = mutex.wrlock; unlock = mutex.unlock }

  unfoldable pub guarded_turn : M → Guarded → M × Guarded
  guarded_turn m (reading t) = let r = turn read_scoped m t in (r.0, reading r.1)
  guarded_turn m (writing t) = let r = turn write_scoped m t in (r.0, writing r.1)

  -- The turn of the thread at a place of the list, and an interleaving.
  unfoldable pub guarded_at : ℕ → M → List Guarded → M × List Guarded
  guarded_at i m [] = (m, [])
  guarded_at zero m (g ∷ gs) = let r = guarded_turn m g in (r.0, r.1 ∷ gs)
  guarded_at (suc i) m (g ∷ gs) = let r = guarded_at i m gs in (r.0, g ∷ r.1)

  unfoldable pub guarded_run : List ℕ → M → List Guarded → M × List Guarded
  guarded_run [] m gs = (m, gs)
  guarded_run (i ∷ is) m gs = let r = guarded_at i m gs in guarded_run is r.0 r.1

-- How many read guards and how many write guards are locked.
unfoldable pub readers_in : List Guarded → ℕ
readers_in [] = 0
readers_in (reading t ∷ gs) = bit (holds t) + readers_in gs
readers_in (writing t ∷ gs) = readers_in gs

unfoldable pub writers_in : List Guarded → ℕ
writers_in [] = 0
writers_in (reading t ∷ gs) = writers_in gs
writers_in (writing t ∷ gs) = bit (holds t) + writers_in gs

module _ {M : Type 0} (mutex : RwLockable M) (sh : Shares mutex) where
  -- The lock is held as `r` readers and `w` writers hold it, and no reader holds it beside a writer.
  abbrev Counts : ℕ → ℕ → M → Type 0
  Counts r w m = (r ≡ sh.readers m) × (w ≡ bit (sh.writer m)) × ((w ≡ 0) ⊎ (r ≡ 0))

  read_keeps :
      (r w : ℕ) (m : M) (t : Thread)
      → Counts (bit (holds t) + r) w m
      → let s = turn (read_scoped mutex) m t in Counts (bit (holds s.1) + r) w s.0
  read_keeps r w =
      turn_keeps (read_scoped mutex) (λ b m. Counts (bit b + r) w m)
        (λ m m' p e.
          let g = sh.rdlock_given m m' e in
          let none_writes : w ≡ 0 = p.1 ∙ ap bit g.0 in
          (omega (arith, p.0, g.1), none_writes ∙ sym (ap bit g.2), inl none_writes))
        (λ m p. elim (Bool-cases (sh.writer m)) [
          | inl y ↦ absurd (omega (arith, p.1, p.2, ap bit y))
          | inr n ↦
              let g = sh.unlock_reader m r n (sym p.0 ∙ omega arith) in
              (omega (arith, g.0), p.1 ∙ ap bit n ∙ sym (ap bit g.1), inl (p.1 ∙ ap bit n))
        ])

  write_keeps :
      (r w : ℕ) (m : M) (t : Thread)
      → Counts r (bit (holds t) + w) m
      → let s = turn (write_scoped mutex) m t in Counts r (bit (holds s.1) + w) s.0
  write_keeps r w =
      turn_keeps (write_scoped mutex) (λ b m. Counts r (bit b + w) m)
        (λ m m' p e.
          let g = sh.wrlock_given m m' e in
          let none_reads : r ≡ 0 = p.0 ∙ g.1 in
          (none_reads ∙ sym g.2, omega (arith, p.1, ap bit g.0, ap bit g.3), inr none_reads))
        (λ m p. elim (Bool-cases (sh.writer m)) [
          | inl y ↦
              let g = sh.unlock_writer m y in
              (
                p.0 ∙ sym g.0,
                omega (arith, p.1, ap bit y, ap bit g.1),
                inl (omega (arith, p.1, ap bit y)),
              )
          | inr n ↦ absurd (omega (arith, p.1, ap bit n))
        ])

  -- The same counts, otherwise written.
  recount : (r r' w w' : ℕ) (m : M) → r ≡ r' → w ≡ w' → Counts r w m → Counts r' w' m
  recount r r' w w' m e f p = subst (λ x. Counts x w' m) e (subst (λ x. Counts r x m) f p)

  guarded_at_keeps :
      (i r w : ℕ) (m : M) (gs : List Guarded)
      → Counts (readers_in gs + r) (writers_in gs + w) m
      → let s = guarded_at mutex i m gs in Counts (readers_in s.1 + r) (writers_in s.1 + w) s.0
  unfolding guarded_at guarded_turn readers_in writers_in
  guarded_at_keeps i r w m [] p = p
  guarded_at_keeps zero r w m (reading t ∷ gs) p = recount _ _ _ _ _ (omega arith) refl (
      read_keeps (readers_in gs + r) (writers_in gs + w) m t
        (recount _ _ _ _ m (omega arith) refl p))
  guarded_at_keeps zero r w m (writing t ∷ gs) p = recount _ _ _ _ _ refl (omega arith) (
      write_keeps (readers_in gs + r) (writers_in gs + w) m t
        (recount _ _ _ _ m refl (omega arith) p))
  guarded_at_keeps (suc i) r w m (reading t ∷ gs) p =
      recount _ _ _ _ _ (omega arith) refl
        (guarded_at_keeps i (bit (holds t) + r) w m gs (recount _ _ _ _ m (omega arith) refl p))
  guarded_at_keeps (suc i) r w m (writing t ∷ gs) p =
      recount _ _ _ _ _ refl (omega arith)
        (guarded_at_keeps i r (bit (holds t) + w) m gs (recount _ _ _ _ m refl (omega arith) p))

  guarded_run_keeps :
      (is : List ℕ) (m : M) (gs : List Guarded)
      → Counts (readers_in gs) (writers_in gs) m
      → let s = guarded_run mutex is m gs in Counts (readers_in s.1) (writers_in s.1) s.0
  unfolding guarded_run
  guarded_run_keeps [] m gs p = p
  guarded_run_keeps (i ∷ is) m gs p =
      let s = guarded_at mutex i m gs in
      guarded_run_keeps is s.0 s.1 (
        recount _ _ _ _ s.0 (omega arith) (omega arith)
          (guarded_at_keeps i 0 0 m gs (recount _ _ _ _ m (omega arith) (omega arith) p)))

-- Guards that are not made yet: whether each is a write guard, and its uses.
abbrev pub guarded_starting : List (Bool × List Use) → List Guarded
guarded_starting [] = []
guarded_starting ((true, uses) ∷ rest) = writing (fresh uses) ∷ guarded_starting rest
guarded_starting ((false, uses) ∷ rest) = reading (fresh uses) ∷ guarded_starting rest

none_in :
    (programs : List (Bool × List Use))
    → (readers_in (guarded_starting programs) ≡ 0) × (writers_in (guarded_starting programs) ≡ 0)
unfolding readers_in writers_in holds
none_in [] = (refl, refl)
none_in ((true, uses) ∷ rest) = (omega (arith, (none_in rest).0), omega (arith, (none_in rest).1))
none_in ((false, uses) ∷ rest) = (omega (arith, (none_in rest).0), omega (arith, (none_in rest).1))

-- Where a lock shares and is free at first, then in every interleaving of threads that make read guards
-- and write guards, use them and destroy them, at most one write guard is locked, no read guard is
-- locked beside it, and the lock counts just the locked read guards.
pub guarded_run-readers_in :
    {M : Type 0} (mutex : RwLockable M) (sh : Shares mutex) (is : List ℕ) (m : M)
    (programs : List (Bool × List Use))
    → sh.readers m ≡ 0
    → sh.writer m ≡ false
    → let s = guarded_run mutex is m (guarded_starting programs) in
      (writers_in s.1 ≤ 1)
      × ((writers_in s.1 ≡ 0) ⊎ (readers_in s.1 ≡ 0))
      × (readers_in s.1 ≡ sh.readers s.0)
guarded_run-readers_in mutex sh is m programs free clear =
    let gs = guarded_starting programs in
    let s = guarded_run mutex is m gs in
    let zeros = none_in programs in
    let p =
      guarded_run_keeps mutex sh is m gs
        (zeros.0 ∙ sym free, zeros.1 ∙ sym (ap bit clear), inl zeros.1) in
    (omega (arith, p.1, bit_le (sh.writer s.0)), p.2, p.0)
