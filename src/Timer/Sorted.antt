-- ===== src/Timer/Sorted.antt =====
-- The set of timers: its order is kept by every insertion and erasure, and by every change of a
-- timer outside of it.
use my_server_framework.Prelude.{
  All, ℕ, ◌≡◌, ◌≢◌, ap, subst, arith, true, List, [], ◌∷◌, inl, inr, Bool-cases, ◌||◌,
}
use my_server_framework.Timer.{Heap, Timer, update, less, set_insert, set_erase}
use my_server_framework.Timer.Order.{less_irrefl, less_trans, less_total}

-- `t` comes before every element.
abbrev pub Before : Heap → ℕ → List ℕ → Type 0
Before h t xs = All (λ x. less h t x ≡ true) xs

abbrev pub Sorted : Heap → List ℕ → Type 0
Sorted h [] = Unit {0}
Sorted h (x ∷ xs) = Before h x xs × Sorted h xs

-- `t` is no element.
abbrev pub Apart : ℕ → List ℕ → Type 0
Apart t xs = All (λ x. x ≢ t) xs

Before-trans :
    (h : Heap) (a b : ℕ) (xs : List ℕ) → less h a b ≡ true → Before h b xs → Before h a xs
Before-trans h a b [] p q = tt
Before-trans h a b (x ∷ xs) p q = (less_trans h a b x p q.0, Before-trans h a b xs p q.1)

Before-set_insert :
    (h : Heap) (a t : ℕ) (xs : List ℕ)
    → less h a t ≡ true
    → Before h a xs
    → Before h a (set_insert h t xs)
unfolding set_insert
Before-set_insert h a t [] p q = (p, tt)
Before-set_insert h a t (x ∷ xs) p q = elim (Bool-cases (less h t x)) [
  | inl first ↦ rw first (p, q)
  | inr later ↦ elim (Bool-cases (less h x t)) [
    | inl after ↦ rw (later, after) (q.0, Before-set_insert h a t xs p q.1)
    | inr same ↦ rw (later, same) q
  ]
]

pub set_insert-Sorted :
    (h : Heap) (t : ℕ) (xs : List ℕ) → Sorted h xs → Sorted h (set_insert h t xs)
unfolding set_insert
set_insert-Sorted h t [] s = (tt, tt)
set_insert-Sorted h t (x ∷ xs) s = elim (Bool-cases (less h t x)) [
  | inl first ↦ rw first ((first, Before-trans h t x xs first s.0), s)
  | inr later ↦ elim (Bool-cases (less h x t)) [
    | inl after ↦
        rw (later, after) (Before-set_insert h x t xs after s.0, set_insert-Sorted h t xs s.1)
    | inr same ↦ rw (later, same) s
  ]
]

All-set_insert :
    (P : ℕ → Type 0) (h : Heap) (t : ℕ) (xs : List ℕ) → P t → All P xs → All P (set_insert h t xs)
unfolding set_insert
All-set_insert P h t [] p a = (p, tt)
All-set_insert P h t (x ∷ xs) p a = elim (Bool-cases (less h t x)) [
  | inl first ↦ rw first (p, a)
  | inr later ↦ elim (Bool-cases (less h x t)) [
    | inl after ↦ rw (later, after) (a.0, All-set_insert P h t xs p a.1)
    | inr same ↦ rw (later, same) a
  ]
]

pub Apart-set_insert :
    (h : Heap) (u t : ℕ) (xs : List ℕ) → t ≢ u → Apart u xs → Apart u (set_insert h t xs)
Apart-set_insert h u t xs p a = All-set_insert (λ x. x ≢ u) h t xs p a

All-set_erase :
    (P : ℕ → Type 0) (h : Heap) (t : ℕ) (xs : List ℕ) → All P xs → All P (set_erase h t xs)
unfolding set_erase
All-set_erase P h t [] a = tt
All-set_erase P h t (x ∷ xs) a = elim (Bool-cases (less h x t || less h t x)) [
  | inl other ↦ rw other (a.0, All-set_erase P h t xs a.1)
  | inr found ↦ rw found a.1
]

pub set_erase-Sorted : (h : Heap) (t : ℕ) (xs : List ℕ) → Sorted h xs → Sorted h (set_erase h t xs)
unfolding set_erase
set_erase-Sorted h t [] s = tt
set_erase-Sorted h t (x ∷ xs) s = elim (Bool-cases (less h x t || less h t x)) [
  | inl other ↦ rw other (All-set_erase _ h t xs s.0, set_erase-Sorted h t xs s.1)
  | inr found ↦ rw found s.1
]

pub Before-Apart : (h : Heap) (t : ℕ) (xs : List ℕ) → Before h t xs → Apart t xs
Before-Apart h t [] b = tt
Before-Apart h t (x ∷ xs) b =
    (λ e. cc (less_irrefl h t, b.0, ap (less h t) e), Before-Apart h t xs b.1)

-- An element is erased: no other stands for it.
pub set_erase-Apart : (h : Heap) (t : ℕ) (xs : List ℕ) → Sorted h xs → Apart t (set_erase h t xs)
unfolding set_erase
set_erase-Apart h t [] s = tt
set_erase-Apart h t (x ∷ xs) s = elim (Bool-cases (less h x t || less h t x)) [
  | inl other ↦ rw other (λ e. ground (arith, other), set_erase-Apart h t xs s.1)
  | inr found ↦
      let same : x ≡ t = ground (arith, less_total h x t) in
      rw found (subst (λ u. Apart u xs) same (Before-Apart h x xs s.0))
]

-- A timer outside of the set may change.
Before-update :
    (h : Heap) (t a : ℕ) (v : Timer) (xs : List ℕ)
    → a ≢ t
    → Apart t xs
    → Before h a xs
    → Before (update h t v) a xs
Before-update h t a v [] n p b = tt
Before-update h t a v (x ∷ xs) n p b =
    (ground (arith, p.0, b.0), Before-update h t a v xs n p.1 b.1)

pub Sorted-update :
    (h : Heap) (t : ℕ) (v : Timer) (xs : List ℕ)
    → Apart t xs
    → Sorted h xs
    → Sorted (update h t v) xs
Sorted-update h t v [] p s = tt
Sorted-update h t v (x ∷ xs) p s =
    (Before-update h t x v xs p.0 p.1 s.0, Sorted-update h t v xs p.1 s.1)
