-- ===== src/Prelude/Sums.antt =====
-- Sums over a list by a weight. With the weight a variable, an equation of sums says that two lists
-- have the same elements, each as often.
use my_server_framework.Prelude.{
  ℕ, zero, suc, ◌+◌, ◌≡◌, ap, subst, List, [], ◌∷◌, ◌++◌, Option, none, some, arith, get_elem?, set,
  All,
}

module _ {ℓ} {A : Type ℓ} where
  abbrev pub sum_by : (A → ℕ) → List A → ℕ
  sum_by w [] = 0
  sum_by w (x ∷ xs) = w x + sum_by w xs

  pub sum_by-append : (w : A → ℕ) (xs ys : List A) → sum_by w (xs ++ ys) ≡ sum_by w xs + sum_by w ys
  sum_by-append w [] ys = omega arith
  sum_by-append w (x ∷ xs) ys = omega (arith, sum_by-append w xs ys)

  pub some-injective : (x y : A) → ◌≡◌ {A = Option A} (some x) (some y) → x ≡ y
  some-injective x y e = ap (λ o. elim o [ none ↦ x | some z ↦ z ]) e

  -- One element of the list is replaced.
  pub sum_by-set :
      (w : A → ℕ) (xs : List A) (i : ℕ) (x y : A)
      → get_elem? xs i ≡ some x
      → sum_by w (set xs i y) + w x ≡ sum_by w xs + w y
  sum_by-set w [] i x y e = absurd (ground (arith, e))
  sum_by-set w (z ∷ xs) zero x y e = omega (arith, ap w (some-injective z x e))
  sum_by-set w (z ∷ xs) (suc i) x y e = omega (arith, sum_by-set w xs i x y e)

  pub All-append : (P : A → Type 0) (xs ys : List A) → All P xs → All P ys → All P (xs ++ ys)
  All-append P [] ys a b = b
  All-append P (x ∷ xs) ys a b = (a.0, All-append P xs ys a.1 b)

  pub All-set : (P : A → Type 0) (xs : List A) (i : ℕ) (y : A) → All P xs → P y → All P (set xs i y)
  All-set P [] i y a p = tt
  All-set P (x ∷ xs) zero y a p = (p, a.1)
  All-set P (x ∷ xs) (suc i) y a p = (a.0, All-set P xs i y a.1 p)

  pub All-at :
      (P : A → Type 0) (xs : List A) (i : ℕ) (x : A) → All P xs → get_elem? xs i ≡ some x → P x
  All-at P [] i x a e = absurd (ground (arith, e))
  All-at P (z ∷ xs) zero x a e = subst P (some-injective z x e) a.0
  All-at P (z ∷ xs) (suc i) x a e = All-at P xs i x a.1 e
