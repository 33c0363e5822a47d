-- ===== src/Lock/Progress.antt =====
-- Every guard gets the mutex and is destroyed (serverframework/env/mutex.h): no thread waits for ever.
use my_server_framework.Prelude.{
  ℕ, zero, suc, ◌+◌, ◌≤◌, ◌<◌, ◌≡◌, refl, sym, ap, ◌∙◌, subst, Bool, true, false, Bool-cases, inl,
  inr, ◌⊎◌, List, [], ◌∷◌, All, arith,
}
use my_server_framework.Prelude.Sums.{sum_by}
use my_server_framework.Lock.{
  Lockable, Excludes, Use, lock, unlock, Thread, fresh, inside, done, scoped_new, scoped_lock,
  scoped_unlock, turn, round, rounds, holds, calls_left,
}
use my_server_framework.Lock.Exclusion.{bit, holders, starting, turn-Agrees, holders-starting}

bit_zero : (b : Bool) → bit b ≡ 0 → b ≡ false
bit_zero true h = absurd (omega arith)
bit_zero false h = refl

-- The calls that all threads have left.
unfoldable pub total_left : List Thread → ℕ
total_left = sum_by calls_left

module _ {M : Type 0} (mutex : Lockable M) (ex : Excludes mutex) where
  -- What a turn does: the thread makes its next call, or it waits for a mutex that is held, or it was
  -- done.
  abbrev pub Moves : M → Thread → M × Thread → Type 0
  Moves m t r =
      (suc (calls_left r.1) ≡ calls_left t)
      ⊎ ((r ≡ (m, t)) × (holds t ≡ false) × (ex.held m ≡ true))
      ⊎ ((r ≡ (m, t)) × (t ≡ done))

  turn-Moves : (m : M) (t : Thread) → Moves m t (turn mutex m t)
  unfolding turn scoped_new scoped_lock scoped_unlock calls_left holds
  turn-Moves m (fresh uses) = elim (Bool-cases (ex.held m)) [
    | inl e ↦ rw (turn, scoped_new, ex.lock_held m e) (inr (inl (refl, refl, e)))
    | inr e ↦ rw (turn, scoped_new, (ex.lock_free m e).1) (inl refl)
  ]
  turn-Moves m (inside true (lock ∷ uses)) = inl refl
  turn-Moves m (inside false (lock ∷ uses)) = elim (Bool-cases (ex.held m)) [
    | inl e ↦ rw (turn, scoped_lock, ex.lock_held m e) (inr (inl (refl, refl, e)))
    | inr e ↦ rw (turn, scoped_lock, (ex.lock_free m e).1) (inl refl)
  ]
  turn-Moves m (inside true (unlock ∷ uses)) = inl refl
  turn-Moves m (inside false (unlock ∷ uses)) = inl refl
  turn-Moves m (inside locked []) = inl refl
  turn-Moves m done = inr (inr (refl, refl))

  round-Agrees :
      (k : ℕ) (m : M) (ts : List Thread)
      → holders ts + k ≡ bit (ex.held m)
      → holders (round mutex m ts).1 + k ≡ bit (ex.held (round mutex m ts).0)
  unfolding round holders
  round-Agrees k m [] h = h
  round-Agrees k m (t ∷ ts) h =
      let r = turn mutex m t in
      omega (
        arith,
        round-Agrees (bit (holds r.1) + k) r.0 ts
            (omega (arith, turn-Agrees mutex ex (holders ts + k) m t (omega arith))),
      )

  round_le : (m : M) (ts : List Thread) → total_left (round mutex m ts).1 ≤ total_left ts
  unfolding round total_left
  round_le m [] = omega arith
  round_le m (t ∷ ts) = elim (turn-Moves m t) [
    | inl e ↦ omega (arith, e, round_le (turn mutex m t).0 ts)
    | inr (inl w) ↦ omega (arith, ap (λ r. calls_left r.1) w.0, round_le (turn mutex m t).0 ts)
    | inr (inr d) ↦ omega (arith, ap (λ r. calls_left r.1) d.0, round_le (turn mutex m t).0 ts)
  ]

  -- A round makes a call, or the mutex is held by none of these threads, or all are done.
  abbrev Outcome : M → List Thread → List Thread → Type 0
  Outcome m ts ts' =
      (total_left ts' < total_left ts)
      ⊎ ((holders ts ≡ 0) × (ex.held m ≡ true))
      ⊎ (total_left ts ≡ 0)

  none_holds : (ts : List Thread) → total_left ts ≡ 0 → holders ts ≡ 0
  unfolding holders total_left holds calls_left
  none_holds [] h = refl
  none_holds (fresh uses ∷ ts) h = absurd (omega (arith, h))
  none_holds (inside locked uses ∷ ts) h = absurd (omega (arith, h))
  none_holds (done ∷ ts) h = omega (arith, none_holds ts (omega (arith, h)))

  waits-cons :
      (m : M) (t : Thread) (ts ts' : List Thread)
      → holds t ≡ false
      → ex.held m ≡ true
      → Outcome m ts ts'
      → Outcome m (t ∷ ts) (t ∷ ts')
  unfolding holders total_left
  waits-cons m t ts ts' h e (inl less) = inl (omega (arith, less))
  waits-cons m t ts ts' h e (inr (inl w)) = inr (inl (rw h (omega (arith, w.0)), e))
  waits-cons m t ts ts' h e (inr (inr d)) = inr (inl (rw h (omega (arith, none_holds ts d)), e))

  done-cons : (m : M) (ts ts' : List Thread) → Outcome m ts ts' → Outcome m (done ∷ ts) (done ∷ ts')
  unfolding holders total_left holds calls_left
  done-cons m ts ts' (inl less) = inl (omega (arith, less))
  done-cons m ts ts' (inr (inl w)) = inr (inl (omega (arith, w.0), w.1))
  done-cons m ts ts' (inr (inr d)) = inr (inr (omega (arith, d)))

  round-Outcome : (m : M) (ts : List Thread) → Outcome m ts (round mutex m ts).1
  unfolding round total_left
  round-Outcome m [] = inr (inr refl)
  round-Outcome m (t ∷ ts) =
      let goal : M × Thread → Type 0 = λ r. Outcome m (t ∷ ts) (r.1 ∷ (round mutex r.0 ts).1) in
      elim (turn-Moves m t) [
        | inl e ↦ inl (omega (arith, e, round_le (turn mutex m t).0 ts))
        | inr (inl w) ↦
            subst goal (sym w.0)
              (waits-cons m t ts (round mutex m ts).1 w.1 w.2 (round-Outcome m ts))
        | inr (inr d) ↦ subst goal (sym d.0) (
            subst (λ u. Outcome m (u ∷ ts) (u ∷ (round mutex m ts).1)) (sym d.1)
              (done-cons m ts (round mutex m ts).1 (round-Outcome m ts)))
      ]

  -- Where the holders are just as the mutex is held, a round makes a call if one is left.
  round_less :
      (m : M) (ts : List Thread)
      → holders ts ≡ bit (ex.held m)
      → (total_left (round mutex m ts).1 < total_left ts) ⊎ (total_left ts ≡ 0)
  round_less m ts h = elim (round-Outcome m ts) [
    | inl less ↦ inl less
    | inr (inl w) ↦ absurd (omega (arith, h, w.0, ap bit w.1))
    | inr (inr d) ↦ inr d
  ]

  rounds_lem :
      (n : ℕ) (m : M) (ts : List Thread)
      → holders ts ≡ bit (ex.held m)
      → total_left ts ≤ n
      → (total_left (rounds mutex n m ts).1 ≡ 0)
        × (holders (rounds mutex n m ts).1 ≡ bit (ex.held (rounds mutex n m ts).0))
  unfolding rounds
  rounds_lem zero m ts h le = (omega arith, h)
  rounds_lem (suc n) m ts h le =
      let r = round mutex m ts in
      rounds_lem n r.0 r.1 (omega (arith, round-Agrees 0 m ts (omega arith)))
        (elim (round_less m ts h) [
          | inl less ↦ omega arith
          | inr d ↦ omega (arith, d, round_le m ts)
        ])

All-done : (ts : List Thread) → total_left ts ≡ 0 → All (λ t. t ≡ done) ts
unfolding total_left calls_left
All-done [] h = tt
All-done (fresh uses ∷ ts) h = absurd (omega (arith, h))
All-done (inside locked uses ∷ ts) h = absurd (omega (arith, h))
All-done (done ∷ ts) h = (refl, All-done ts (omega (arith, h)))

-- Where a mutex excludes and is free at first, and threads that each make a guard, use it and destroy it
-- take turns in rounds, as many as all of them have calls, every thread is done after the rounds, and
-- the mutex is free.
pub rounds-done :
    {M : Type 0} (mutex : Lockable M) (ex : Excludes mutex) (m : M) (programs : List (List Use))
    → ex.held m ≡ false
    → let ts = starting programs in
      let r = rounds mutex (total_left ts) m ts in All (λ t. t ≡ done) r.1 × (ex.held r.0 ≡ false)
rounds-done mutex ex m programs h =
    let ts = starting programs in
    let r = rounds mutex (total_left ts) m ts in
    let e =
      rounds_lem mutex ex (total_left ts) m ts (holders-starting programs ∙ ap bit (sym h))
        (omega arith) in
    (All-done r.1 e.0, bit_zero (ex.held r.0) (sym e.1 ∙ none_holds mutex ex r.1 e.0))
