-- ===== src/Timer/Expiry.antt =====
-- `ListExpiredCb` (serverframework/util/timer.cc): which timers it takes, and what becomes of them.
use my_server_framework.Prelude.{
  All, ℕ, ◌≤◌, ◌<◌, ◌≡◌, refl, ap, ◌∙◌, arith, Bool, true, false, inl, inr, Bool-cases, List, [],
  ◌∷◌, ◌++◌, ◌==◌, append_assoc,
}
use my_server_framework.Timer.{Heap, less, less_key, span, split_expired}
use my_server_framework.Timer.Sorted.{Before, Sorted}

none_later :
    (h : Heap) (p : ℕ → Bool) (Q : ℕ → Type 0) (x : ℕ) (xs : List ℕ)
    → ((a b : ℕ) → Q a → Q b → less h a b ≡ true → p b ≡ true → p a ≡ true)
    → Q x
    → p x ≡ false
    → Before h x xs
    → All Q xs
    → All (λ t. (p t ≡ false) × Q t) xs
none_later h p Q x [] closed q n b a = tt
none_later h p Q x (y ∷ ys) closed q n b a = (
  (
    elim (Bool-cases (p y)) [
      | inl passes ↦ absurd (ground (arith, closed x y q a.0 b.0 passes, n))
      | inr fails ↦ fails
    ],
    a.0,
  ),
  none_later h p Q x ys closed q n b.1 a.1,
)

-- On a sorted list, a test that no timer passes after one that fails cuts the list in two.
span-cut :
    (h : Heap) (p : ℕ → Bool) (Q : ℕ → Type 0) (xs : List ℕ)
    → ((a b : ℕ) → Q a → Q b → less h a b ≡ true → p b ≡ true → p a ≡ true)
    → Sorted h xs
    → All Q xs
    → ((span p xs).0 ++ (span p xs).1 ≡ xs)
      × All (λ t. (p t ≡ true)) (span p xs).0
      × All (λ t. (p t ≡ false) × Q t) (span p xs).1
      × Sorted h (span p xs).1
unfolding span
span-cut h p Q [] closed s q = (refl, tt, tt, tt)
span-cut h p Q (x ∷ xs) closed s q = elim (Bool-cases (p x)) [
  | inl passes ↦
      let (e, a, n, r) = span-cut h p Q xs closed s.1 q.1 in
      rw passes (ap (λ t. x ∷ t) e, (passes, a), n, r)
  | inr fails ↦
      rw fails (refl, tt, ((fails, q.0), none_later h p Q x xs closed q.0 fails s.0 q.1), s)
]

All-map : (P Q : ℕ → Type 0) (xs : List ℕ) → ((t : ℕ) → P t → Q t) → All P xs → All Q xs
All-map P Q [] f a = tt
All-map P Q (x ∷ xs) f a = (f x a.0, All-map P Q xs f a.1)

All-append : (P : ℕ → Type 0) (xs ys : List ℕ) → All P xs → All P ys → All P (xs ++ ys)
All-append P [] ys a b = b
All-append P (x ∷ xs) ys a b = (a.0, All-append P xs ys a.1 b)

All-All : (xs : List ℕ) → All (λ t. Unit {0}) xs
All-All [] = tt
All-All (x ∷ xs) = (tt, All-All xs)

-- `lower_bound` and the step after it cut the set just after the timers that are due, wherever the
-- timer that it is asked for stands in memory.
pub split_expired-due :
    (h : Heap) (now probe : ℕ) (xs : List ℕ)
    → Sorted h xs
    → ((split_expired h now probe xs).0 ++ (split_expired h now probe xs).1 ≡ xs)
      × All (λ t. (h t).next ≤ now) (split_expired h now probe xs).0
      × All (λ t. now < (h t).next) (split_expired h now probe xs).1
      × Sorted h (split_expired h now probe xs).1
unfolding split_expired
split_expired-due h now probe xs s =
    let p = λ (t : ℕ). less_key (h t).next t now probe in
    let q = λ (t : ℕ). (h t).next == now in
    let (e, a, n, r) =
      span-cut h p (λ t. Unit {0}) xs (λ a b u v l k. ground (arith, l, k)) s (All-All xs) in
    let (e', a', n', r') =
      span-cut h q (λ t. p t ≡ false) (span p xs).1 (λ a b u v l k. ground (arith, u, v, l, k)) r
        (All-map (λ t. (p t ≡ false) × Unit {0}) (λ t. p t ≡ false) (span p xs).1 (λ t z. z.0) n) in
    (
      append_assoc (span p xs).0 (span q (span p xs).1).0 (span q (span p xs).1).1
          ∙ ap (λ ys. (span p xs).0 ++ ys) e'
          ∙ e,
      All-append (λ t. (h t).next ≤ now) (span p xs).0 (span q (span p xs).1).0
          (All-map (λ t. p t ≡ true) (λ t. (h t).next ≤ now) (span p xs).0
            (λ t z. ground (arith, z)) a)
          (All-map (λ t. q t ≡ true) (λ t. (h t).next ≤ now) (span q (span p xs).1).0
            (λ t z. ground (arith, z)) a'),
      All-map (λ t. (q t ≡ false) × (p t ≡ false)) (λ t. now < (h t).next) (span q (span p xs).1).1
          (λ t z. ground (arith, z.0, z.1)) n',
      r',
    )
