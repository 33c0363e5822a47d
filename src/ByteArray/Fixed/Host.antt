-- ===== src/ByteArray/Fixed/Host.antt =====
-- A byte swap that is as documented: it reverses the bytes.
use mathlib.Core.List.{reverse-append}
use native.Mathlib.Nat.{pow-suc}
use my_server_framework.Prelude.{
  All, ℕ, zero, suc, ◌/◌, ◌^◌, ◌<◌, ◌≡◌, refl, ap, ap₂, ◌∙◌, sym, subst, List, [], ◌∷◌, ◌++◌,
  reverse, length, arith,
}
use my_server_framework.ByteArray.Fixed.{le_bytes, of_le_bytes}
use my_server_framework.ByteArray.Fixed.RoundTrip.{Reverses, length-le_bytes, length-reverse}

abbrev pub swap_bytes : ℕ → ℕ → ℕ
swap_bytes w v = of_le_bytes (reverse (le_bytes w v))

abbrev Bytes : List ℕ → Type 0
Bytes bs = All (λ b. b < 256) bs

le_bytes-Bytes : (w v : ℕ) → Bytes (le_bytes w v)
le_bytes-Bytes zero v = tt
le_bytes-Bytes (suc w) v = (omega arith, le_bytes-Bytes w (v / 256))

Bytes-append : (xs ys : List ℕ) → Bytes xs → Bytes ys → Bytes (xs ++ ys)
Bytes-append [] ys a b = b
Bytes-append (x ∷ xs) ys a b = (a.0, Bytes-append xs ys a.1 b)

Bytes-reverse : (xs : List ℕ) → Bytes xs → Bytes (reverse xs)
Bytes-reverse [] a = tt
Bytes-reverse (x ∷ xs) a =
    subst Bytes (sym (reverse-append (x ∷ []) xs))
      (Bytes-append (reverse xs) (x ∷ []) (Bytes-reverse xs a.1) (a.0, tt))

le_bytes-of_le_bytes : (bs : List ℕ) → Bytes bs → le_bytes (length bs) (of_le_bytes bs) ≡ bs
le_bytes-of_le_bytes [] a = refl
le_bytes-of_le_bytes (b ∷ bs) a =
    ap₂ (λ x xs. x ∷ xs) (omega (arith, a.0))
      (ap (le_bytes (length bs)) (omega (arith, a.0)) ∙ le_bytes-of_le_bytes bs a.1)

of_le_bytes-lt : (bs : List ℕ) → Bytes bs → of_le_bytes bs < 256 ^ length bs
of_le_bytes-lt [] a = omega arith
of_le_bytes-lt (b ∷ bs) a = omega (arith, of_le_bytes-lt bs a.1, a.0, pow-suc 256 (length bs))

length-swapped : (w v : ℕ) → length (reverse (le_bytes w v)) ≡ w
length-swapped w v = length-reverse (le_bytes w v) ∙ length-le_bytes w v

pub swap_bytes-Reverses : Reverses swap_bytes
swap_bytes-Reverses = record {
  swapped = λ w v h.
      ap (λ (n : ℕ). le_bytes n (swap_bytes w v)) (sym (length-swapped w v))
      ∙ le_bytes-of_le_bytes (reverse (le_bytes w v))
          (Bytes-reverse (le_bytes w v) (le_bytes-Bytes w v));
  bounded = λ w v h.
      subst (λ (n : ℕ). swap_bytes w v < 256 ^ n) (length-swapped w v)
        (of_le_bytes-lt (reverse (le_bytes w v))
          (Bytes-reverse (le_bytes w v) (le_bytes-Bytes w v)));
}
