-- ===== src/Address/Masks.antt =====
-- Networks of IPv4 (serverframework/net/address.cc).
use Prim.Native.Nat.{bit_and, bit_or}
use native.Mathlib.Nat.{pow-suc, one-le-pow, mul_comm, mul-sub}
use my_server_framework.Prelude.{
  ℕ, zero, suc, ◌+◌, ◌-◌, ◌*◌, ◌/◌, ◌^◌, ◌≤◌, ◌<◌, ◌≡◌, refl, sym, ap, ap₂, ◌∙◌, arith, true, false,
  some, if◌then◌else◌, ltb, leb,
}
use my_server_framework.Prelude.Bits.{or_digit, and_digit, and_zero, double}
use my_server_framework.Address.{
  create_mask, null_address, made, made_of, broadcast_address, network_address, subnet_mask,
}

or_nil : (k x : ℕ) → x ≤ k → bit_or x 0 ≡ x
or_nil k zero h = refl
or_nil zero (suc x) h = absurd (omega (arith, h))
or_nil (suc k) (suc x) h =
    omega (arith, or_digit (suc x) 0, or_nil k (suc x / 2) (omega (arith, h)))

-- `|` with ones in the low bits.
pub or_low : (k q r : ℕ) → r < 2 ^ k → bit_or (q * 2 ^ k + r) (2 ^ k - 1) ≡ q * 2 ^ k + (2 ^ k - 1)
or_low zero q r h = ap (λ x. bit_or x 0) (omega (arith, h)) ∙ or_nil q q (omega arith) ∙ omega arith
or_low (suc k) q r h =
    let h1 : (q * 2 ^ suc k + r) / 2 ≡ q * 2 ^ k + r / 2 = omega (arith, double q k) in
    let h2 : (2 ^ suc k - 1) / 2 ≡ 2 ^ k - 1 = omega (arith, pow-suc 2 k) in
    omega (
      arith,
      or_digit (q * 2 ^ suc k + r) (2 ^ suc k - 1),
      ap₂ bit_or h1 h2,
      double q k,
      pow-suc 2 k,
      one-le-pow 2 k,
      or_low k q (r / 2) (omega (arith, h, pow-suc 2 k)),
    )

-- `&` with ones.
and_ones : (j q : ℕ) → q < 2 ^ j → bit_and q (2 ^ j - 1) ≡ q
and_ones zero q h = and_zero q q (omega arith) ∙ omega (arith, h)
and_ones (suc j) q h =
    let h2 : (2 ^ suc j - 1) / 2 ≡ 2 ^ j - 1 = omega (arith, pow-suc 2 j) in
    omega (
      arith,
      and_digit q (2 ^ suc j - 1),
      ap (bit_and (q / 2)) h2,
      pow-suc 2 j,
      one-le-pow 2 j,
      and_ones j (q / 2) (omega (arith, h, pow-suc 2 j)),
    )

-- `&` with ones above zeros.
and_high :
    (k j q r : ℕ)
    → r < 2 ^ k
    → q < 2 ^ j
    → bit_and (q * 2 ^ k + r) ((2 ^ j - 1) * 2 ^ k) ≡ q * 2 ^ k
and_high zero j q r h l =
    ap₂ bit_and (omega (arith, h)) (omega arith) ∙ and_ones j q l ∙ omega arith
and_high (suc k) j q r h l =
    let m = 2 ^ j - 1 in
    let h1 : (q * 2 ^ suc k + r) / 2 ≡ q * 2 ^ k + r / 2 = omega (arith, double q k) in
    let h2 : (m * 2 ^ suc k) / 2 ≡ m * 2 ^ k = omega (arith, double m k) in
    omega (
      arith,
      and_digit (q * 2 ^ suc k + r) (m * 2 ^ suc k),
      ap₂ bit_and h1 h2,
      double q k,
      double m k,
      pow-suc 2 k,
      and_high k j q (r / 2) (omega (arith, h, pow-suc 2 k)) l,
    )

pow_add : (m n : ℕ) → 2 ^ m * 2 ^ n ≡ 2 ^ (m + n)
pow_add zero n =
    let none_added : n ≡ 0 + n = omega arith in omega arith ∙ ap (λ t. 2 ^ t) none_added
pow_add (suc m) n =
    let left : 2 ^ suc m * 2 ^ n ≡ 2 * (2 ^ m * 2 ^ n) =
      omega (arith, ap (λ (t : ℕ). t * 2 ^ n) (pow-suc 2 m)) in
    let right : 2 ^ (suc m + n) ≡ 2 * 2 ^ (m + n) =
      ap (λ t. 2 ^ t) (omega arith) ∙ pow-suc 2 (m + n) ∙ omega arith in
    left ∙ ap (λ t. 2 * t) (pow_add m n) ∙ sym right

inverted_mask : (p k : ℕ) → p + k ≡ 32 → 2 ^ 32 - 1 - (2 ^ k - 1) ≡ (2 ^ p - 1) * 2 ^ k
inverted_mask p k e =
    let whole : 2 ^ p * 2 ^ k ≡ 2 ^ 32 = pow_add p k ∙ ap (λ t. 2 ^ t) e in
    let parts : (2 ^ p - 1) * 2 ^ k ≡ 2 ^ k * 2 ^ p - 2 ^ k * 1 =
      mul_comm (2 ^ p - 1) (2 ^ k) ∙ mul-sub (2 ^ k) (2 ^ p) 1 in
    omega (arith, whole, parts, mul_comm (2 ^ k) (2 ^ p), one-le-pow k 2 (omega arith))

create_mask_lem : (p : ℕ) → 2 ≤ p → p ≤ 32 → create_mask p ≡ some (2 ^ (32 - p) - 1)
unfolding create_mask
create_mask_lem p low high =
    let a : leb 2 p ≡ true = ground (arith, low) in
    let b : leb p 32 ≡ true = ground (arith, high) in rw (a, b) refl

checked :
    (p : ℕ) (f : ℕ → ℕ)
    → 2 ≤ p
    → p ≤ 32
    → (if ltb 32 p then some null_address else made_of f (create_mask p))
      ≡ some (made (f (2 ^ (32 - p) - 1)))
checked p f low high =
    let a : ltb 32 p ≡ false = ground (arith, high) in
    rw a (ap (made_of f) (create_mask_lem p low high))

-- For a prefix of 2 to 32 bits the network address is the first of the network's addresses and the
-- broadcast address the last: with `q` the bits of the prefix and `r` the others of an address, the one
-- has zeros and the other ones for `r`; the mask is the network address of all ones.
pub network-broadcast :
    (p q r : ℕ)
    → 2 ≤ p
    → p ≤ 32
    → q < 2 ^ p
    → r < 2 ^ (32 - p)
    → let size = 2 ^ (32 - p) in
      (network_address (q * size + r) p ≡ some (made (q * size)))
      × (broadcast_address (q * size + r) p ≡ some (made (q * size + (size - 1))))
      × (subnet_mask p ≡ some (made (2 ^ 32 - size)))
unfolding network_address broadcast_address subnet_mask
network-broadcast p q r low high l h =
    let k = 32 - p in
    let x = q * 2 ^ k + r in
    let mask : 2 ^ 32 - 1 - (2 ^ k - 1) ≡ (2 ^ p - 1) * 2 ^ k = inverted_mask p k (omega arith) in
    let all : 2 ^ 32 - 1 - (2 ^ k - 1) ≡ 2 ^ 32 - 2 ^ k =
      omega (arith, one-le-pow k 2 (omega arith)) in
    (
      checked p (λ m. bit_and x (2 ^ 32 - 1 - m)) low high
          ∙ ap (λ m. some (made m)) (ap (bit_and x) mask ∙ and_high k p q r h l),
      checked p (λ m. bit_or x m) low high ∙ ap (λ m. some (made m)) (or_low k q r h),
      ap (made_of (λ m. 2 ^ 32 - 1 - m)) (create_mask_lem p low high) ∙ ap (λ m. some (made m)) all,
    )
