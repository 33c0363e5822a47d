-- ===== src/Address/Ipv6.antt =====
-- The masks of a network of `IPv6Address` (serverframework/net/address.cc), on the 16 bytes of an address.
-- A write past them is `none`.
use my_server_framework.Prelude.{
  ℕ, zero, suc, ◌+◌, ◌-◌, ◌/◌, ◌%◌, ◌^◌, Option, none, some, List, [], ◌∷◌, length, if◌then◌else◌,
  ltb, set, get_or,
}
use Prim.Native.Nat.{bit_and, bit_or}

-- `CreateMask<uint8_t>` for fewer than eight bits.
unfoldable pub create_mask8 : ℕ → ℕ
create_mask8 bits = (2 ^ (8 - bits) - 1) % 2 ^ 8

-- The loop that sets `n` bytes from the place `i`.
unfoldable pub fill : ℕ → ℕ → ℕ → List ℕ → List ℕ
fill zero i v bytes = bytes
fill (suc n) i v bytes = fill n (suc i) v (set bytes i v)

-- A byte is changed, if it is there, and then those after it.
unfoldable pub change : (ℕ → ℕ) → ℕ → List ℕ → Option (List ℕ)
change f i bytes = if ltb i (length bytes) then some (set bytes i (f (get_or bytes i 0))) else none

unfoldable pub broadcast_address6 : List ℕ → ℕ → Option (List ℕ)
broadcast_address6 bytes prefix_len =
    elim (change (λ b. bit_or b (create_mask8 (prefix_len % 8))) (prefix_len / 8) bytes) [
      | none ↦ none
      | some changed ↦ some (fill (16 - (prefix_len / 8 + 1)) (prefix_len / 8 + 1) 0xff changed)
    ]

unfoldable pub network_address6 : List ℕ → ℕ → Option (List ℕ)
network_address6 bytes prefix_len =
    elim (change (λ b. bit_and b (create_mask8 (prefix_len % 8))) (prefix_len / 8) bytes) [
      | none ↦ none
      | some changed ↦ some (fill (16 - (prefix_len / 8 + 1)) (prefix_len / 8 + 1) 0 changed)
    ]

abbrev pub repeat : ℕ → ℕ → List ℕ
repeat zero v = []
repeat (suc n) v = v ∷ repeat n v

unfoldable pub subnet_mask6 : ℕ → Option (List ℕ)
subnet_mask6 prefix_len =
    elim (change (λ b. 0xff - create_mask8 (prefix_len % 8)) (prefix_len / 8) (repeat 16 0)) [
      | none ↦ none
      | some changed ↦ some (fill (prefix_len / 8) 0 0xff changed)
    ]
