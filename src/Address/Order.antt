-- ===== src/Address/Order.antt =====
-- The order of addresses (serverframework/net/address.cc) is that of a dictionary.
use my_server_framework.Prelude.{
  ℕ, zero, suc, ◌≤◌, ◌≡◌, refl, ap, ◌∙◌, arith, Bool, true, false, ◌&&◌, List, [], ◌∷◌,
  if◌then◌else◌, ltb, ◌==◌, length, take, min,
}
use my_server_framework.Prelude.Strings.{same_bytes}
use my_server_framework.Address.{
  negative, positive, compare_bytes, memcmp, less_of, is_less, is_zero, is_same,
}

-- The order of a dictionary.
abbrev pub precedes : List ℕ → List ℕ → Bool
precedes [] [] = false
precedes [] (y ∷ ys) = true
precedes (x ∷ xs) [] = false
precedes (x ∷ xs) (y ∷ ys) =
    let rest = precedes xs ys in if ltb x y then true else if ltb y x then false else rest

-- Bytes beyond the end of the shorter address are not compared.
compare_bytes-take :
    (n : ℕ) (a b : List ℕ)
    → min (length a) (length b) ≤ n
    → compare_bytes (take n a) (take n b) ≡ compare_bytes a b
compare_bytes-take zero [] b h = refl
compare_bytes-take zero (x ∷ xs) [] h = refl
compare_bytes-take zero (x ∷ xs) (y ∷ ys) h = absurd (omega (arith, h))
compare_bytes-take (suc n) [] b h = refl
compare_bytes-take (suc n) (x ∷ xs) [] h = refl
compare_bytes-take (suc n) (x ∷ xs) (y ∷ ys) h =
    ap (λ rest. if ltb x y then negative else if ltb y x then positive else rest)
      (compare_bytes-take n xs ys (omega (arith, h)))

less_of-precedes :
    (a b : List ℕ) → less_of (compare_bytes a b) (ltb (length a) (length b)) ≡ precedes a b
less_of-precedes [] [] = refl
less_of-precedes [] (y ∷ ys) = ground arith
less_of-precedes (x ∷ xs) [] = ground arith
less_of-precedes (x ∷ xs) (y ∷ ys) = ground (arith, less_of-precedes xs ys)

same-zero : (a b : List ℕ) → (length a == length b && is_zero (compare_bytes a b)) ≡ same_bytes a b
same-zero [] [] = refl
same-zero [] (y ∷ ys) = ground arith
same-zero (x ∷ xs) [] = ground arith
same-zero (x ∷ xs) (y ∷ ys) = ground (arith, same-zero xs ys)

-- On the bytes of any two addresses `operator<` is the order of a dictionary, and `operator==` is
-- equality byte by byte.
is_less-precedes : (a b : List ℕ) → (is_less a b ≡ precedes a b) × (is_same a b ≡ same_bytes a b)
unfolding is_less is_same memcmp
is_less-precedes a b =
    let n = min (length a) (length b) in
    (
      ap (λ c. less_of c (ltb (length a) (length b))) (compare_bytes-take n a b (omega arith))
          ∙ less_of-precedes a b,
      ap (λ c. length a == length b && is_zero c) (compare_bytes-take (length a) a b (omega arith))
          ∙ same-zero a b,
    )
