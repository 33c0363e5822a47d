-- ===== src/Address/Tests.antt =====
-- Addresses of serverframework/net/address.cc: the network 192.168.1.0/24, an IPv6 network of 20 bits
-- and the text of an IPv6 address.
use my_server_framework.Prelude.{ℕ, ◌+◌, ◌-◌, ◌*◌, ◌^◌, ◌≡◌, refl, arith, some, List, [], ◌∷◌}
use my_server_framework.Address.{made, network_address, broadcast_address, subnet_mask}
use my_server_framework.Address.Ipv6.{broadcast_address6, network_address6, subnet_mask6, repeat}
use my_server_framework.Address.Networks.{network_address6-broadcast_address6}
use my_server_framework.Address.Written.{insert6}
use my_server_framework.Address.Printed.{joined, after_colons, insert6-joined}
use my_server_framework.Address.Masks.{network-broadcast}

network-broadcast_example :
    (network_address (12625921 * 2 ^ 8 + 77) 24 ≡ some (made (12625921 * 2 ^ 8)))
    × (broadcast_address (12625921 * 2 ^ 8 + 77) 24 ≡ some (made (12625921 * 2 ^ 8 + (2 ^ 8 - 1))))
    × (subnet_mask 24 ≡ some (made (2 ^ 32 - 2 ^ 8)))
network-broadcast_example =
    network-broadcast 24 12625921 77 (omega arith) (omega arith) (omega arith) (omega arith)

-- A prefix of 20 bits: the third byte is 0x5a, of which the prefix has the first four bits.
abbrev tail : List ℕ
tail = 1 ∷ 2 ∷ 3 ∷ 4 ∷ 5 ∷ 6 ∷ 7 ∷ 8 ∷ 9 ∷ 10 ∷ 11 ∷ 12 ∷ 13 ∷ []

network_address6-broadcast_address6_example :
    (broadcast_address6 (0x20 ∷ 0x01 ∷ (5 * 2 ^ 4 + 10) ∷ tail) 20
      ≡ some (0x20 ∷ 0x01 ∷ (5 * 2 ^ 4 + (2 ^ 4 - 1)) ∷ repeat 13 0xff))
    × (subnet_mask6 20 ≡ some (0xff ∷ 0xff ∷ (256 - 2 ^ 4) ∷ repeat 13 0))
    × (network_address6 (0x20 ∷ 0x01 ∷ (5 * 2 ^ 4 + 10) ∷ tail) 20
        ≡ some (0x20 ∷ 0x01 ∷ 10 ∷ repeat 13 0))
network_address6-broadcast_address6_example =
    network_address6-broadcast_address6 (0x20 ∷ 0x01 ∷ []) tail 4 5 10 (omega arith) refl
      (omega arith)

-- "[2001:db8::1:0:0:5]:80" with a digit for each group.
insert6-joined_example :
    insert6 (λ g. g ∷ []) (λ g. g ∷ []) (0x2001 ∷ 0xdb8 ∷ 0 ∷ 0 ∷ 1 ∷ 0 ∷ 0 ∷ 5 ∷ []) 80
    ≡ 91 ∷ 0x2001 ∷ 58 ∷ 0xdb8 ∷ 58 ∷ 58 ∷ 1 ∷ 58 ∷ 0 ∷ 58 ∷ 0 ∷ 58 ∷ 5 ∷ 93 ∷ 58 ∷ 80 ∷ []
unfolding joined after_colons
insert6-joined_example =
    insert6-joined (λ g. g ∷ []) (λ g. g ∷ []) (0x2001 ∷ 0xdb8 ∷ []) (1 ∷ 0 ∷ 0 ∷ 5 ∷ []) 1 80
      (refl, (refl, tt)) refl refl
