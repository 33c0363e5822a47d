-- ===== src/ByteArray/Varint/Zigzag.antt =====
-- The zigzag map is undone by its inverse, at every width.
use native.Mathlib.Nat.{pow-suc, one-le-pow, mod-eq_of_lt, mul-add-mod_self_right}
use Prim.Native.Nat.{bit_and, bit_xor}
use my_server_framework.Prelude.{
  ℕ, suc, ◌+◌, ◌-◌, ◌*◌, ◌/◌, ◌^◌, ◌≤◌, ◌<◌, ◌≡◌, ap, ◌∙◌, arith, inl, inr, ltb, lt→ltb, false,
  Bool-cases,
}
use my_server_framework.Prelude.Bits.{and_one, xor-zero, xor_ones}
use my_server_framework.ByteArray.Varint.{zigzag, decode_zigzag}

-- The value that a number stands for after the map: even for the non-negative, odd for the others.
encode_nonneg : (k v : ℕ) → v < 2 ^ k → zigzag (suc k) v ≡ 2 * v
unfolding zigzag
encode_nonneg k v h =
    let e : suc k - 1 ≡ k = omega arith in
    rw (e, lt→ltb v (2 ^ k) h) (mod-eq_of_lt (omega (arith, pow-suc 2 k)) ∙ omega arith)

encode_neg : (k v : ℕ) → 2 ^ k ≤ v → v < 2 ^ suc k → zigzag (suc k) v ≡ 2 * (2 ^ suc k - 1 - v) + 1
unfolding zigzag
encode_neg k v h l =
    let e : suc k - 1 ≡ k = omega arith in
    let test : ltb v (2 ^ k) ≡ false = ground arith in
    let sum : (2 ^ suc k - v) * 2 + 2 ^ suc k - 1 ≡ 1 * 2 ^ suc k + (2 * (2 ^ suc k - 1 - v) + 1) =
      omega arith in
    rw (e, test, sum, mul-add-mod_self_right 1 (2 ^ suc k) (2 * (2 ^ suc k - 1 - v) + 1))
      (mod-eq_of_lt (omega (arith, pow-suc 2 k)))

decode_even : (k x : ℕ) → decode_zigzag (suc k) (2 * x) ≡ x
unfolding decode_zigzag
decode_even k x =
    let half : 2 * x / 2 ≡ x = omega arith in
    let last : bit_and (2 * x) 1 ≡ 0 = omega (arith, and_one (2 * x)) in
    let whole : 2 ^ suc k - 0 ≡ 1 * 2 ^ suc k + 0 = omega arith in
    rw (half, last, whole, mul-add-mod_self_right 1 (2 ^ suc k) 0)
      (ap (bit_xor x) (mod-eq_of_lt {n = 0} (one-le-pow (suc k) 2 (omega arith))) ∙ xor-zero x)

decode_odd : (k x : ℕ) → x < 2 ^ suc k → decode_zigzag (suc k) (2 * x + 1) ≡ 2 ^ suc k - 1 - x
unfolding decode_zigzag
decode_odd k x h =
    let half : (2 * x + 1) / 2 ≡ x = omega arith in
    let last : bit_and (2 * x + 1) 1 ≡ 1 = omega (arith, and_one (2 * x + 1)) in
    rw (half, last, mod-eq_of_lt {n = 2 ^ suc k - 1} {m = 2 ^ suc k} (omega arith))
      (xor_ones (suc k) x h)

-- Decoding what was encoded gives the same bit pattern back, at every width of at least one bit.
pub decode_zigzag-zigzag : (k v : ℕ) → v < 2 ^ suc k → decode_zigzag (suc k) (zigzag (suc k) v) ≡ v
decode_zigzag-zigzag k v h = elim (Bool-cases (ltb v (2 ^ k))) [
  | inl nonneg ↦ ap (decode_zigzag (suc k)) (encode_nonneg k v (ground arith)) ∙ decode_even k v
  | inr neg ↦
      ap (decode_zigzag (suc k)) (encode_neg k v (ground arith) h)
      ∙ decode_odd k (2 ^ suc k - 1 - v) (omega arith)
      ∙ omega arith
]
