-- ===== src/ByteArray/File.antt =====
-- What a `ByteArray` promises (the comments of serverframework/util/bytearray.h): a sequence of
-- bytes with a position at which one reads and writes.
use my_server_framework.Prelude.{ℕ, ◌+◌, ◌-◌, List, if◌then◌else◌, ltb, length, take, drop}
use my_server_framework.Prelude.Splice.{splice}
use my_server_framework.ByteArray.Chain.{Result, ok, out_of_range}

pub record File : Type 0 where
  pub bytes : List ℕ
  pub pos : ℕ

-- Writing replaces the bytes from the position on, and adds what goes past the end.
unfoldable pub write : File → List ℕ → File
write f bs = record { bytes = splice f.pos bs f.bytes; pos = f.pos + length bs }

-- Reading past the end is refused.
unfoldable pub read : File → ℕ → Result (List ℕ × File)
read f n =
    if ltb (length f.bytes - f.pos) n
    then out_of_range
    else ok (take n (drop f.pos f.bytes), record f { pos = f.pos + n })
