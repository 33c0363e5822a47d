-- ===== src/ByteArray/Strings.antt =====
-- The string accessors of `ByteArray` (serverframework/util/bytearray.cc): a length, then the bytes.
-- `WriteStringWithoutLength` is `write`.
pub mod RoundTrip
use my_server_framework.Prelude.{ℕ, ◌%◌, ◌^◌, List, length}
use my_server_framework.ByteArray.Chain.{Result, ok, ◌>>=◌}
use my_server_framework.ByteArray.Buffer.{ByteArray, Endian, read, write}
use my_server_framework.ByteArray.Fixed.{write_fuint, read_fuint}
use my_server_framework.ByteArray.Varint.{write_uint64, read_uint64}

-- `WriteStringF16`, `F32` and `F64` and their readers, for a length of 2, 4 and 8 bytes, to which
-- `value.size()` is cut.
module _ (bswap : ℕ → ℕ → ℕ) (host : Endian) where
  unfoldable pub write_string_f : ℕ → ByteArray → List ℕ → Result ByteArray
  write_string_f w a value =
      write_fuint bswap host w a (length value % 256 ^ w) >>= λ b. write b value

  unfoldable pub read_string_f : ℕ → ByteArray → Result (List ℕ × ByteArray)
  read_string_f w a = read_fuint bswap host w a >>= λ r. read r.1 r.0

unfoldable pub write_string_vint : ByteArray → List ℕ → Result ByteArray
write_string_vint a value = write_uint64 a (length value) >>= λ b. write b value

unfoldable pub read_string_vint : ByteArray → Result (List ℕ × ByteArray)
read_string_vint a = read_uint64 a >>= λ r. read r.1 r.0
