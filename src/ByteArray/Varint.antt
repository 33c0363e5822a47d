-- ===== src/ByteArray/Varint.antt =====
-- The variable-length accessors of `ByteArray` (serverframework/util/bytearray.cc): seven bits to a
-- byte, the eighth for "more follows", and the zigzag map of the signed ones. A signed integer is
-- its bit pattern.
pub mod Zigzag
pub mod RoundTrip
use Prim.Native.Nat.{bit_and, bit_or, bit_xor}
use my_server_framework.Prelude.{
  ℕ, zero, suc, ◌+◌, ◌-◌, ◌*◌, ◌/◌, ◌%◌, ◌^◌, Option, none, some, List, [], ◌∷◌, Bool, true, false,
  if◌then◌else◌, ltb, leb, ◌&&◌,
}
use mathlib.Core.Option
use my_server_framework.ByteArray.Chain.{Result, ok, overrun, overflow, ◌>>=◌}
use my_server_framework.ByteArray.Buffer.{ByteArray, write}
use my_server_framework.ByteArray.Fixed.{read_fuint8}

-- What the loop of `WriteUint32` and `WriteUint64` puts into `tmp`, an array with `room` places
-- left; `none` is a write past its end.
unfoldable pub put_varint : ℕ → ℕ → Option (List ℕ)
put_varint zero value = none
put_varint (suc room) value =
    let byte = bit_or (bit_and value 0x7f) 0x80 in
    let more = Option.map (λ bs. byte ∷ bs) (put_varint room (value / 2 ^ 7)) in
    if leb 0x80 value then more else some (value ∷ [])

unfoldable pub write_varint : ℕ → ByteArray → ℕ → Result ByteArray
write_varint room a value = elim (put_varint room value) [ none ↦ overrun | some bs ↦ write a bs ]

-- `uint8_t tmp[5]` and `uint8_t tmp[10]`.
unfoldable pub write_uint32 : ByteArray → ℕ → Result ByteArray
write_uint32 a value = write_varint 5 a value

unfoldable pub write_uint64 : ByteArray → ℕ → Result ByteArray
write_uint64 a value = write_varint 10 a value

-- The loop of `ReadUint32` and `ReadUint64` with `rounds` left, at the shift `i`; a shift drops the
-- bits above the width.
unfoldable pub get_varint : ℕ → ℕ → ℕ → ℕ → ByteArray → Result (ℕ × ByteArray)
get_varint bits zero i result a = ok (result, a)
get_varint bits (suc rounds) i result a = read_fuint8 a >>= λ r. elim (ltb r.0 0x80) [
  | true ↦ ok (bit_or result (r.0 * 2 ^ i % 2 ^ bits), r.1)
  | false ↦ get_varint bits rounds (i + 7) (bit_or result (bit_and r.0 0x7f * 2 ^ i % 2 ^ bits)) r.1
]

-- `i` goes through 0, 7, …, 28, and through 0, 7, …, 63.
unfoldable pub read_uint32 : ByteArray → Result (ℕ × ByteArray)
read_uint32 a = get_varint 32 5 0 0 a

unfoldable pub read_uint64 : ByteArray → Result (ℕ × ByteArray)
read_uint64 a = get_varint 64 10 0 0 a

-- Whether `v * 2`, from a quarter of the range on, or `-v`, at the least value, is outside of the signed
-- type, which C++ does not define.
abbrev pub overflows : ℕ → ℕ → Bool
overflows bits v = leb (2 ^ (bits - 2)) v && leb v (2 ^ (bits - 1))

-- The two results, where they are defined; the products of the unsigned type wrap.
unfoldable pub zigzag : ℕ → ℕ → ℕ
zigzag bits v =
    if ltb v (2 ^ (bits - 1))
    then v * 2 % 2 ^ bits
    else ((2 ^ bits - v) * 2 + 2 ^ bits - 1) % 2 ^ bits

-- `EncodeZigzag32` and `EncodeZigzag64`; `none` is a signed overflow.
unfoldable pub encode_zigzag : ℕ → ℕ → Option ℕ
encode_zigzag bits v = if overflows bits v then none else some (zigzag bits v)

unfoldable pub decode_zigzag : ℕ → ℕ → ℕ
decode_zigzag bits v = bit_xor (v / 2) ((2 ^ bits - bit_and v 1) % 2 ^ bits)

unfoldable pub write_int32 : ByteArray → ℕ → Result ByteArray
write_int32 a value = elim (encode_zigzag 32 value) [ none ↦ overflow | some n ↦ write_uint32 a n ]

unfoldable pub write_int64 : ByteArray → ℕ → Result ByteArray
write_int64 a value = elim (encode_zigzag 64 value) [ none ↦ overflow | some n ↦ write_uint64 a n ]

unfoldable pub read_int32 : ByteArray → Result (ℕ × ByteArray)
read_int32 a = read_uint32 a >>= λ r. ok (decode_zigzag 32 r.0, r.1)

unfoldable pub read_int64 : ByteArray → Result (ℕ × ByteArray)
read_int64 a = read_uint64 a >>= λ r. ok (decode_zigzag 64 r.0, r.1)
