-- ===== src/Address.antt =====
-- Addresses (serverframework/net/address.cc): their order, and the masks of an IPv4 network. An address
-- is its bytes in memory, and an IPv4 address the number that `ByteswapOnLittleEndian` makes of
-- `s_addr`: `&`, `|` and `~` work on each byte, so that the swap changes nothing in them. An undefined
-- shift or overflow in `CreateMask` is `none`.
pub mod Order
pub mod Masks
pub mod Ipv6
pub mod Networks
pub mod Written
pub mod Printed
pub mod Path
pub mod Tests
use my_server_framework.Prelude.{
  ℕ, suc, ◌+◌, ◌-◌, ◌*◌, ◌%◌, ◌^◌, Bool, true, false, not, ◌&&◌, ◌||◌, Option, none, some, List, [],
  ◌∷◌, if◌then◌else◌, ltb, leb, ◌==◌, length, take, min,
}
use Prim.Native.Nat.{bit_and, bit_or}

-- The sign of what `memcmp` returns.
pub data Sign : Type 0 where
  negative zero_sign positive : Sign

-- `memcmp`, as it is documented, on as many bytes as the shorter has.
abbrev pub compare_bytes : List ℕ → List ℕ → Sign
compare_bytes [] ys = zero_sign
compare_bytes (x ∷ xs) [] = zero_sign
compare_bytes (x ∷ xs) (y ∷ ys) =
    let rest = compare_bytes xs ys in
    if ltb x y then negative else if ltb y x then positive else rest

unfoldable pub memcmp : List ℕ → List ℕ → ℕ → Sign
memcmp a b n = compare_bytes (take n a) (take n b)

abbrev pub less_of : Sign → Bool → Bool
less_of negative shorter = true
less_of zero_sign shorter = shorter
less_of positive shorter = false

-- `operator<` and `operator==`
unfoldable pub is_less : List ℕ → List ℕ → Bool
is_less a b = less_of (memcmp a b (min (length a) (length b))) (ltb (length a) (length b))

abbrev pub is_zero : Sign → Bool
is_zero negative = false
is_zero zero_sign = true
is_zero positive = false

unfoldable pub is_same : List ℕ → List ℕ → Bool
is_same a b = length a == length b && is_zero (memcmp a b (length a))

-- `CreateMask<uint32_t>`: `1` is an `int`, so that a shift by 32 is undefined, and so is the difference
-- after a shift by 31.
unfoldable pub create_mask : ℕ → Option ℕ
create_mask bits = if leb 2 bits && leb bits 32 then some (2 ^ (32 - bits) - 1) else none

-- What the members give: null, or an address; `none` is undefined.
pub data Made : Type 0 where
  null_address : Made
  made : ℕ → Made

abbrev pub made_of : (ℕ → ℕ) → Option ℕ → Option Made
made_of f none = none
made_of f (some mask) = some (made (f mask))

-- `BroadcastAddress`, `NetworkAddress` and `SubnetMask` of `IPv4Address`.
unfoldable pub broadcast_address : ℕ → ℕ → Option Made
broadcast_address addr prefix_len =
    if ltb 32 prefix_len
    then some null_address
    else made_of (λ mask. bit_or addr mask) (create_mask prefix_len)

unfoldable pub network_address : ℕ → ℕ → Option Made
network_address addr prefix_len =
    if ltb 32 prefix_len
    then some null_address
    else made_of (λ mask. bit_and addr (2 ^ 32 - 1 - mask)) (create_mask prefix_len)

unfoldable pub subnet_mask : ℕ → Option Made
subnet_mask prefix_len = made_of (λ mask. 2 ^ 32 - 1 - mask) (create_mask prefix_len)
