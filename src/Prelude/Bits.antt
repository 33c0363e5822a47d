-- ===== src/Prelude/Bits.antt =====
-- Laws of `&`, `|` and `^` at variables. The native operations stand for a recursion on binary
-- digits with fuel; here each gets an equation for its lowest digit, and from it the laws for
-- masks, for disjoint fields and for the complement.
use Prim.Native.Nat.{
  bit_and, bit_or, bit_xor, digits, bit_and-bitwise, bit_or-bitwise, bit_xor-bitwise, max, differ,
}
use native.Mathlib.Nat.{pow-suc, one-le-pow}
use my_server_framework.Prelude.{
  ℕ, zero, suc, ◌+◌, ◌-◌, ◌*◌, ◌/◌, ◌%◌, ◌^◌, ◌≤◌, ◌<◌, ◌≡◌, refl, ap, arith, min,
}

-- Any fuel from the first number on gives the same digits.
fuel_enough : (z : ℕ → ℕ) (f : ℕ → ℕ → ℕ) (k x y : ℕ) → x ≤ k → digits z f k x y ≡ digits z f x x y
fuel_enough z f k x y h = walk k x x y h (omega arith)
  where
    walk : (j l x y : ℕ) → x ≤ j → x ≤ l → digits z f j x y ≡ digits z f l x y
    walk zero zero x y p q = refl
    walk (suc j) (suc l) (suc x) y p q =
        rw (walk j l (suc x / 2) (y / 2) (omega arith) (omega arith))
    walk (suc j) (suc l) zero y p q = refl
    walk zero (suc l) zero y p q = refl
    walk zero (suc l) (suc x) y p q = absurd (omega arith)
    walk (suc j) zero zero y p q = refl
    walk (suc j) zero (suc x) y p q = absurd (omega arith)

pub and_digit : (x y : ℕ) → bit_and x y ≡ bit_and (x / 2) (y / 2) * 2 + min (x % 2) (y % 2)
and_digit zero y = simp bit_and-bitwise (omega arith)
and_digit (suc x) y =
    simp bit_and-bitwise
      (omega (arith, fuel_enough (λ b. 0) min x (suc x / 2) (y / 2) (omega arith)))

pub or_digit : (x y : ℕ) → bit_or x y ≡ bit_or (x / 2) (y / 2) * 2 + max (x % 2) (y % 2)
or_digit zero y = simp bit_or-bitwise (omega arith)
or_digit (suc x) y =
    simp bit_or-bitwise
      (omega (arith, fuel_enough (λ b. b) max x (suc x / 2) (y / 2) (omega arith)))

xor_digit : (x y : ℕ) → bit_xor x y ≡ bit_xor (x / 2) (y / 2) * 2 + differ (x % 2) (y % 2)
xor_digit zero y = simp bit_xor-bitwise (omega (arith, zero_differ (y % 2) (omega arith)))
  where
    zero_differ : (b : ℕ) → b < 2 → differ 0 b ≡ b
    zero_differ zero h = refl
    zero_differ (suc zero) h = refl
    zero_differ (suc (suc b)) h = absurd (omega arith)
xor_digit (suc x) y =
    simp bit_xor-bitwise
      (omega (arith, fuel_enough (λ b. b) differ x (suc x / 2) (y / 2) (omega arith)))

pub double : (y k : ℕ) → y * 2 ^ suc k ≡ 2 * (y * 2 ^ k)
double y k = omega (arith, ap (λ (t : ℕ). y * t) (pow-suc 2 k))

or_zero : (k y : ℕ) → y ≤ k → bit_or 0 y ≡ y
or_zero k zero h = refl
or_zero zero (suc y) h = absurd (omega arith)
or_zero (suc k) (suc y) h = omega (arith, or_digit 0 (suc y), or_zero k (suc y / 2) (omega arith))

-- `|` of two fields that share no bit is their sum.
pub or_fields : (k x y : ℕ) → x < 2 ^ k → bit_or x (y * 2 ^ k) ≡ x + y * 2 ^ k
or_fields zero zero y h = omega (arith, or_zero (y * 1) (y * 1) (omega arith))
or_fields zero (suc x) y h = absurd (omega arith)
or_fields (suc k) x y h = omega (
  arith,
  or_digit x (y * 2 ^ suc k),
  ap (bit_or (x / 2)) halved,
  double y k,
  pow-suc 2 k,
  or_fields k (x / 2) y (omega (arith, pow-suc 2 k)),
)
  where
    halved : y * 2 ^ suc k / 2 ≡ y * 2 ^ k
    halved = omega (arith, double y k)

pub and_zero : (k x : ℕ) → x ≤ k → bit_and x 0 ≡ 0
and_zero k zero h = refl
and_zero zero (suc x) h = absurd (omega arith)
and_zero (suc k) (suc x) h =
    omega (arith, and_digit (suc x) 0, and_zero k (suc x / 2) (omega arith))

-- `&` with seven ones, and with one, is a remainder.
pub and_one : (x : ℕ) → bit_and x 1 ≡ x % 2
and_one x = omega (arith, and_digit x 1, and_zero (x / 2) (x / 2) (omega arith))

pub and_127 : (x : ℕ) → bit_and x 127 ≡ x % 128
and_127 x = omega (
  arith,
  and_digit x 127,
  and_digit (x / 2) 63,
  and_digit (x / 2 / 2) 31,
  and_digit (x / 2 / 2 / 2) 15,
  and_digit (x / 2 / 2 / 2 / 2) 7,
  and_digit (x / 2 / 2 / 2 / 2 / 2) 3,
  and_one (x / 2 / 2 / 2 / 2 / 2 / 2),
)

xor_zero : (k x : ℕ) → x ≤ k → bit_xor x 0 ≡ x
xor_zero k zero h = refl
xor_zero zero (suc x) h = absurd (omega arith)
xor_zero (suc k) (suc x) h = omega (
  arith,
  xor_digit (suc x) 0,
  xor_zero k (suc x / 2) (omega arith),
  differ_zero (suc x % 2) (omega arith),
)
  where
    differ_zero : (b : ℕ) → b < 2 → differ b 0 ≡ b
    differ_zero zero h = refl
    differ_zero (suc zero) h = refl
    differ_zero (suc (suc b)) h = absurd (omega arith)

pub xor-zero : (x : ℕ) → bit_xor x 0 ≡ x
xor-zero x = xor_zero x x (omega arith)

-- `^` with all ones of a width is the complement in that width.
pub xor_ones : (k x : ℕ) → x < 2 ^ k → bit_xor x (2 ^ k - 1) ≡ 2 ^ k - 1 - x
xor_ones zero zero h = refl
xor_ones zero (suc x) h = absurd (omega arith)
xor_ones (suc k) x h = omega (
  arith,
  xor_digit x (2 ^ suc k - 1),
  ap (bit_xor (x / 2)) halved,
  ap (differ (x % 2)) last,
  pow-suc 2 k,
  one-le-pow k 2,
  xor_ones k (x / 2) (omega (arith, pow-suc 2 k)),
  differ_one (x % 2) (omega arith),
)
  where
    halved : (2 ^ suc k - 1) / 2 ≡ 2 ^ k - 1
    halved = omega (arith, pow-suc 2 k, one-le-pow k 2)

    last : (2 ^ suc k - 1) % 2 ≡ 1
    last = omega (arith, pow-suc 2 k, one-le-pow k 2)

    differ_one : (b : ℕ) → b < 2 → differ b 1 ≡ 1 - b
    differ_one zero h = refl
    differ_one (suc zero) h = refl
    differ_one (suc (suc b)) h = absurd (omega arith)
