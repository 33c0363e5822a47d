-- ===== src/ByteArray/Fixed.antt =====
-- The fixed-width accessors of `ByteArray` (serverframework/util/bytearray.cc), and `byteswap`
-- (serverframework/util/endian_conv.h). A signed integer, a `float` and a `double` go through as
-- their bit patterns.
pub mod RoundTrip
pub mod Host
use my_server_framework.Prelude.{
  ℕ, zero, suc, ◌+◌, ◌*◌, ◌/◌, ◌%◌, List, [], ◌∷◌, reverse, Bool, true, false, if◌then◌else◌,
}
use my_server_framework.ByteArray.Chain.{Result, ok, ◌>>=◌}
use my_server_framework.ByteArray.Buffer.{ByteArray, Endian, little, big, read, write}

-- An unsigned integer of `w` bytes, least significant first.
abbrev pub le_bytes : ℕ → ℕ → List ℕ
le_bytes zero v = []
le_bytes (suc w) v = (v % 256) ∷ le_bytes w (v / 256)

abbrev pub of_le_bytes : List ℕ → ℕ
of_le_bytes [] = 0
of_le_bytes (b ∷ bs) = b + 256 * of_le_bytes bs

-- The bytes at `&value`, and the value whose bytes are at `&v`, on a host of the byte order given.
abbrev pub in_memory : Endian → ℕ → ℕ → List ℕ
in_memory little w v = le_bytes w v
in_memory big w v = reverse (le_bytes w v)

abbrev pub from_memory : Endian → List ℕ → ℕ
from_memory little bs = of_le_bytes bs
from_memory big bs = of_le_bytes (reverse bs)

-- `endian_ == SYLAR_BYTE_ORDER`
abbrev pub same_order : Endian → Endian → Bool
same_order little little = true
same_order big big = true
same_order _ _ = false

unfoldable pub write_fuint8 : ByteArray → ℕ → Result ByteArray
write_fuint8 a v = write a (v ∷ [])

unfoldable pub read_fuint8 : ByteArray → Result (ℕ × ByteArray)
read_fuint8 a = read a 1 >>= λ r. ok (of_le_bytes r.0, r.1)

-- `bswap w` is `bswap_16`, `bswap_32` and `bswap_64` of the C library, for 2, 4 and 8 bytes, and
-- `host` is the byte order that the build finds.
module _ (bswap : ℕ → ℕ → ℕ) (host : Endian) where
  unfoldable pub write_fuint : ℕ → ByteArray → ℕ → Result ByteArray
  write_fuint w a value =
      write a (in_memory host w (if same_order a.endian host then value else bswap w value))

  unfoldable pub read_fuint : ℕ → ByteArray → Result (ℕ × ByteArray)
  read_fuint w a = read a w >>= λ r.
      let v = from_memory host r.0 in ok (if same_order a.endian host then v else bswap w v, r.1)
