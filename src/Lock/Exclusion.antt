-- ===== src/Lock/Exclusion.antt =====
-- At most one of the guards on a mutex (serverframework/env/mutex.h) has `locked_` at any time.
use my_server_framework.Prelude.{
  ℕ, zero, suc, ◌+◌, ◌≤◌, if◌then◌else◌, ◌≡◌, refl, sym, ap, subst, ◌∙◌, Bool, true, false,
  Bool-cases, some, inl, inr, List, [], ◌∷◌, arith,
}
use my_server_framework.Prelude.Sums.{sum_by, some-injective}
use my_server_framework.Lock.Guard.{turn_keeps}
use my_server_framework.Lock.{Lockable, Excludes, Use, Thread, fresh, turn, turn_at, run, holds}

abbrev pub bit : Bool → ℕ
bit true = 1
bit false = 0

pub bit_le : (b : Bool) → bit b ≤ 1
bit_le true = omega arith
bit_le false = omega arith

bit_lem : (b : Bool) → bit b ≡ (if b then 1 else 0)
bit_lem true = refl
bit_lem false = refl

-- How many threads hold the mutex.
unfoldable pub holders : List Thread → ℕ
holders = sum_by (λ t. bit (holds t))

full : (k : ℕ) (b : Bool) → 1 + k ≡ bit b → k ≡ 0
full k true h = omega arith
full k false h = absurd (omega arith)

module _ {M : Type 0} (mutex : Lockable M) (ex : Excludes mutex) where
  -- The threads that hold the mutex, `k` of them elsewhere, are as many as it is held.
  abbrev pub Agrees : ℕ → M → Thread → Type 0
  Agrees k m t = bit (holds t) + k ≡ bit (ex.held m)

  lock-Agrees :
      (k : ℕ) (m m' : M)
      → 0 + k ≡ bit (ex.held m)
      → mutex.lock m ≡ some m'
      → 1 + k ≡ bit (ex.held m')
  lock-Agrees k m m' h e = elim (Bool-cases (ex.held m)) [
    | inl y ↦ absurd (ground (arith, ex.lock_held m y, e))
    | inr n ↦
        let r = ex.lock_free m n in
        let same : r.0 ≡ m' = some-injective r.0 m' (sym r.1 ∙ e) in
        subst (λ x. 1 + k ≡ bit (ex.held x)) same (rw r.2 (omega (arith, h, ap bit n)))
  ]

  pub turn-Agrees :
      (k : ℕ) (m : M) (t : Thread) → Agrees k m t → Agrees k (turn mutex m t).0 (turn mutex m t).1
  turn-Agrees k =
      turn_keeps mutex (λ b m. bit b + k ≡ bit (ex.held m)) (lock-Agrees k)
        (λ m h. rw (ex.unlock_free m) (omega (arith, full k (ex.held m) h)))

  turn_at-Agrees :
      (i k : ℕ) (m : M) (ts : List Thread)
      → holders ts + k ≡ bit (ex.held m)
      → holders (turn_at mutex i m ts).1 + k ≡ bit (ex.held (turn_at mutex i m ts).0)
  unfolding turn_at holders
  turn_at-Agrees i k m [] h = h
  turn_at-Agrees zero k m (t ∷ ts) h = omega (arith, turn-Agrees (holders ts + k) m t (omega arith))
  turn_at-Agrees (suc i) k m (t ∷ ts) h =
      omega (arith, turn_at-Agrees i (bit (holds t) + k) m ts (omega arith))

  run-Agrees :
      (is : List ℕ) (m : M) (ts : List Thread)
      → holders ts ≡ bit (ex.held m)
      → holders (run mutex is m ts).1 ≡ bit (ex.held (run mutex is m ts).0)
  unfolding run
  run-Agrees [] m ts h = h
  run-Agrees (i ∷ is) m ts h =
      let r = turn_at mutex i m ts in
      run-Agrees is r.0 r.1 (omega (arith, turn_at-Agrees i 0 m ts (omega arith)))

-- None of the threads has its guard yet.
abbrev pub starting : List (List Use) → List Thread
starting [] = []
starting (uses ∷ rest) = fresh uses ∷ starting rest

pub holders-starting : (programs : List (List Use)) → holders (starting programs) ≡ 0
unfolding holders holds
holders-starting [] = refl
holders-starting (uses ∷ rest) = omega (arith, holders-starting rest)

-- Where a mutex excludes and is free at first, then in every interleaving of threads, each of which
-- makes a guard, uses it and destroys it, at most one guard is locked at a time, and the mutex is held
-- just while one is.
pub run-holders :
    {M : Type 0} (mutex : Lockable M) (ex : Excludes mutex) (is : List ℕ) (m : M)
    (programs : List (List Use))
    → ex.held m ≡ false
    → let r = run mutex is m (starting programs) in
      (holders r.1 ≤ 1) × (holders r.1 ≡ (if ex.held r.0 then 1 else 0))
run-holders mutex ex is m programs h =
    let r = run mutex is m (starting programs) in
    let e =
      run-Agrees mutex ex is m (starting programs) (holders-starting programs ∙ ap bit (sym h)) in
    (omega (arith, e, bit_le (ex.held r.0)), e ∙ bit_lem (ex.held r.0))
