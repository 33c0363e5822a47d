-- ===== src/Prelude/Strings.antt =====
-- The comparison of strings, which are lists of bytes.
use my_server_framework.Prelude.{
  ℕ, ◌≡◌, refl, ap₂, arith, Bool, true, false, ◌&&◌, List, [], ◌∷◌, ◌==◌,
}

abbrev pub same_bytes : List ℕ → List ℕ → Bool
same_bytes [] [] = true
same_bytes [] (y ∷ ys) = false
same_bytes (x ∷ xs) [] = false
same_bytes (x ∷ xs) (y ∷ ys) = x == y && same_bytes xs ys

pub same_bytes_refl : (xs : List ℕ) → same_bytes xs xs ≡ true
same_bytes_refl [] = refl
same_bytes_refl (x ∷ xs) = ground (arith, same_bytes_refl xs)

pub same_bytes-true : (xs ys : List ℕ) → same_bytes xs ys ≡ true → xs ≡ ys
same_bytes-true [] [] e = refl
same_bytes-true [] (y ∷ ys) e = absurd (ground (arith, e))
same_bytes-true (x ∷ xs) [] e = absurd (ground (arith, e))
same_bytes-true (x ∷ xs) (y ∷ ys) e =
    let first : x ≡ y = ground (arith, e) in
    ap₂ (λ z zs. z ∷ zs) first (same_bytes-true xs ys (ground (arith, e)))
