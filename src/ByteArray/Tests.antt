-- ===== src/ByteArray/Tests.antt =====
-- Runs of `ByteArray` (serverframework/util/bytearray.cc) on a small buffer of two nodes, and on one whose node is full.
use my_server_framework.Prelude.{ℕ, ◌+◌, ◌≡◌, refl, arith, List, [], ◌∷◌, take, drop}
use my_server_framework.ByteArray.Chain.{ok}
use my_server_framework.ByteArray.File
use my_server_framework.ByteArray.File.{File}
use my_server_framework.ByteArray.Buffer.{ByteArray, little, big, write, read, set_position}
use my_server_framework.Prelude.{◌++◌}
use my_server_framework.ByteArray.Chain.{Iovec}
use my_server_framework.ByteArray.Buffer.{get_read_buffers}
use my_server_framework.ByteArray.Buffers.{bytes_of, get_read_buffers-bytes_of}
use my_server_framework.ByteArray.Invariant.{IsValid}
use my_server_framework.ByteArray.Refine.{content, view, write_refines}
use my_server_framework.ByteArray.Reading.{read_refines}
use my_server_framework.ByteArray.Fixed.{write_fuint, read_fuint}
use my_server_framework.ByteArray.Fixed.RoundTrip.{write_fuint-read_fuint}
use my_server_framework.ByteArray.Fixed.Host.{swap_bytes, swap_bytes-Reverses}
use my_server_framework.ByteArray.Varint.{write_int32, read_int32}
use my_server_framework.ByteArray.Varint.RoundTrip.{write_int32-read_int32}
use my_server_framework.ByteArray.Strings.{write_string_vint, read_string_vint}
use my_server_framework.ByteArray.Strings.RoundTrip.{write_string_vint-read_string_vint}

abbrev sample : ByteArray
sample = record {
  base_size = 4;
  position = 5;
  capacity = 8;
  size = 7;
  endian = big;
  before = (1 ∷ 2 ∷ 3 ∷ 4 ∷ []) ∷ [];
  after = (5 ∷ 6 ∷ 7 ∷ 8 ∷ []) ∷ [];
  alloc_byte = 0;
}

sample-IsValid : IsValid sample
sample-IsValid = record {
  base_pos = omega arith;
  before_sized = (refl, tt);
  after_sized = (refl, tt);
  has_root = omega arith;
  capacity_eq = refl;
  below = omega arith;
  above = omega arith;
  position_le = omega arith;
  size_le = omega arith;
}

abbrev full : ByteArray
full = record {
  base_size = 2;
  position = 2;
  capacity = 2;
  size = 2;
  endian = little;
  before = (1 ∷ 2 ∷ []) ∷ [];
  after = [];
  alloc_byte = 0;
}

full-IsValid : IsValid full
full-IsValid = record {
  base_pos = omega arith;
  before_sized = (refl, tt);
  after_sized = tt;
  has_root = omega arith;
  capacity_eq = refl;
  below = omega arith;
  above = omega arith;
  position_le = omega arith;
  size_le = omega arith;
}

abbrev text : List ℕ
text = 104 ∷ 105 ∷ 33 ∷ 10 ∷ 0 ∷ []

write_refines_example :
    (b : ByteArray) × (write sample text ≡ ok b)
    × IsValid b
    × (view b ≡ File.write (view sample) text)
write_refines_example = write_refines sample text sample-IsValid

read_refines_example :
    (b : ByteArray) × (read sample 2 ≡ ok (take 2 (drop 5 (content sample)), b))
    × IsValid b
    × (view b ≡ record { bytes = content sample; pos = 5 + 2 })
read_refines_example = read_refines sample 2 sample-IsValid (omega arith) (omega arith)

write_fuint-read_fuint_example :
    (b c d : ByteArray) × (write_fuint swap_bytes little 4 sample 0x01020304 ≡ ok b)
    × (set_position b 5 ≡ ok c)
    × (read_fuint swap_bytes little 4 c ≡ ok (0x01020304, d))
write_fuint-read_fuint_example =
    write_fuint-read_fuint swap_bytes swap_bytes-Reverses little 4 sample 0x01020304 sample-IsValid
      (omega arith) (omega arith)

write_int32-read_int32_example :
    (b c d : ByteArray) × (write_int32 sample 4294967295 ≡ ok b)
    × (set_position b 5 ≡ ok c)
    × (read_int32 c ≡ ok (4294967295, d))
write_int32-read_int32_example =
    write_int32-read_int32 sample 4294967295 sample-IsValid (omega arith) refl

write_string_vint-read_string_vint_example :
    (b c d : ByteArray) × (write_string_vint sample text ≡ ok b)
    × (set_position b 5 ≡ ok c)
    × (read_string_vint c ≡ ok (text, d))
write_string_vint-read_string_vint_example =
    write_string_vint-read_string_vint sample text sample-IsValid (omega arith) (omega arith)

-- Two of the nodes of four bytes: six bytes are asked for, of which five are there from the position on.
abbrev two_nodes : ByteArray
two_nodes = record sample {
  position = 2;
  before = [];
  after = (1 ∷ 2 ∷ 3 ∷ 4 ∷ []) ∷ (5 ∷ 6 ∷ 7 ∷ 8 ∷ []) ∷ [];
}

two_nodes-IsValid : IsValid two_nodes
two_nodes-IsValid = record {
  base_pos = omega arith;
  before_sized = tt;
  after_sized = (refl, (refl, tt));
  has_root = omega arith;
  capacity_eq = refl;
  below = omega arith;
  above = omega arith;
  position_le = omega arith;
  size_le = omega arith;
}

get_read_buffers-bytes_of_example :
    (vs : List Iovec) × (get_read_buffers two_nodes 6 ≡ ok (5, vs))
    × (bytes_of (two_nodes.before ++ two_nodes.after) vs ≡ 3 ∷ 4 ∷ 5 ∷ 6 ∷ 7 ∷ [])
get_read_buffers-bytes_of_example = get_read_buffers-bytes_of two_nodes 6 two_nodes-IsValid
