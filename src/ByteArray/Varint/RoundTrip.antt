-- ===== src/ByteArray/Varint/RoundTrip.antt =====
-- The variable-length accessors: what is written fits the local array, and is read back.
use Prim.Native.Nat.{bit_and, bit_or}
use native.Mathlib.Nat.{pow-suc, mod-eq_of_lt, one-le-pow}
use native.Mathlib.Numerals.{towards_suc}
use mathlib.Core.Option
use my_server_framework.Prelude.{
  lt→ltb, ℕ, zero, suc, ◌+◌, ◌*◌, ◌/◌, ◌%◌, ◌^◌, ◌≤◌, ◌<◌, ◌≡◌, refl, ap, ◌∙◌, sym, List, [], ◌∷◌,
  ◌++◌, some, arith, inl, inr, leb, ltb, Bool-cases, length, true, false,
}
use my_server_framework.Prelude.Bits.{and_127, or_fields}
use my_server_framework.ByteArray.Chain.{Result, ok, ◌>>=◌}
use my_server_framework.ByteArray.Buffer.{ByteArray, write, set_position}
use my_server_framework.ByteArray.Invariant.{IsValid}
use my_server_framework.ByteArray.Refine.{write_refines}
use my_server_framework.ByteArray.Pending.{pending, behind, read-pending, seek_back}
use my_server_framework.ByteArray.Fixed.{read_fuint8}
use my_server_framework.ByteArray.Varint.{
  encode_zigzag, overflows, put_varint, write_varint, get_varint, write_uint32, read_uint32,
  write_uint64, read_uint64, write_int32, read_int32, write_int64, read_int64, zigzag,
}
use my_server_framework.ByteArray.Varint.Zigzag.{decode_zigzag-zigzag}

-- The byte of a value that goes on: its low seven bits and the mark.
more_byte : (v : ℕ) → bit_or (bit_and v 0x7f) 0x80 ≡ v % 128 + 128
more_byte v = rw and_127 (or_fields 7 (v % 128) 1 (omega arith))

shifted : (i : ℕ) → 2 ^ (i + 7) ≡ 128 * 2 ^ i
shifted i = simp towards_suc (omega arith)

-- The bytes of a value: what `put_varint` returns with enough room.
abbrev pub varint : ℕ → ℕ → List ℕ
varint zero v = v ∷ []
varint (suc room) v = elim (leb 0x80 v) [
  | true ↦ (v % 128 + 128) ∷ varint room (v / 128)
  | false ↦ v ∷ []
]

varint_more :
    (room v : ℕ) → leb 0x80 v ≡ true → varint (suc room) v ≡ (v % 128 + 128) ∷ varint room (v / 128)
varint_more room v h = ground arith

-- A value of seven bits for each place of the array never writes past its end.
put_varint-varint :
    (room v : ℕ)
    → v < 128 ^ suc room
    → (put_varint (suc room) v ≡ some (varint room v)) × (length (varint room v) ≤ suc room)
unfolding put_varint
put_varint-varint zero v h = ground arith
put_varint-varint (suc room) v h = elim (Bool-cases (leb 0x80 v)) [
  | inl more ↦
      let (put, len) = put_varint-varint room (v / 128) (omega (arith, pow-suc 128 (suc room))) in
      (
        rw more (
            ap (Option.map (λ bs. bit_or (bit_and v 0x7f) 0x80 ∷ bs)) put
            ∙ ap (λ t. some (t ∷ varint room (v / 128))) (more_byte v)
            ∙ ap (λ t. some t) (sym (varint_more room v more))),
        omega (arith, len, ap length (varint_more room v more)),
      )
  | inr last ↦ ground arith
]

length-varint : (room v : ℕ) → 0 < length (varint room v)
length-varint zero v = omega arith
length-varint (suc room) v = ground arith

read_byte :
    (a : ByteArray) (x : ℕ) (rest : List ℕ)
    → IsValid a
    → pending a ≡ x ∷ rest
    → (b : ByteArray) × (read_fuint8 a ≡ ok (x, b)) × IsValid b × (pending b ≡ rest)
unfolding read_fuint8
read_byte a x rest v e =
    let (b, got, vb, pb, _) = read-pending a (x ∷ []) rest v (omega arith) e in
    (b, rw got (ap (λ t. ok (t, b)) (omega arith)), vb, pb)

-- The accumulator of the read loop.
or_shifted :
    (bits i result x : ℕ)
    → result < 2 ^ i
    → x * 2 ^ i < 2 ^ bits
    → bit_or result (x * 2 ^ i % 2 ^ bits) ≡ result + x * 2 ^ i
or_shifted bits i result x h k = rw (mod-eq_of_lt k) (or_fields i result x h)

varint_last : (room v : ℕ) → v < 128 → varint room v ≡ v ∷ []
varint_last zero v h = refl
varint_last (suc room) v h = ground arith

low_bits_le : (v p : ℕ) → v % 128 * p ≤ 127 * p
low_bits_le v p = grind arith

split_bits : (v p : ℕ) → v * p ≡ v % 128 * p + v / 128 * (128 * p)
split_bits v p =
    ap (λ (t : ℕ). t * p) {x = v} {y = v % 128 + v / 128 * 128} (omega arith) ∙ omega arith

-- What the read loop does for a value whose bytes come next.
abbrev Got : ℕ → ℕ → ℕ → ℕ → List ℕ → Result (ℕ × ByteArray) → Type 0
Got bits i result v rest r =
    (b : ByteArray) × (r ≡ ok (result + v * 2 ^ i, b)) × IsValid b × (pending b ≡ rest)

module _ (bits room i result v : ℕ) (a : ByteArray) (rest : List ℕ) (va : IsValid a)
    (h : result < 2 ^ i) (k : v * 2 ^ i < 2 ^ bits) where
  get_last :
      v < 128
      → pending a ≡ varint room v ++ rest
      → Got bits i result v rest (get_varint bits (suc room) i result a)
  unfolding get_varint
  get_last l e =
      let (b, got, vb, pb) =
        read_byte a v rest va (e ∙ ap (λ t. t ++ rest) (varint_last room v l)) in
      (
        b,
        rw (got, ◌>>=◌, lt→ltb v 128 l) (ap (λ t. ok (t, b)) (or_shifted bits i result v h k)),
        vb,
        pb,
      )

get_more :
    (bits rounds i result x : ℕ) (a b : ByteArray)
    → read_fuint8 a ≡ ok (x, b)
    → ltb x 128 ≡ false
    → get_varint bits (suc rounds) i result a
      ≡ get_varint bits rounds (i + 7) (bit_or result (bit_and x 127 * 2 ^ i % 2 ^ bits)) b
unfolding get_varint
get_more bits rounds i result x a b got test = rw (got, ◌>>=◌, test)

-- The loop reads the bytes of a value, and adds the value at its shift.
get_varint-varint :
    (bits room i result v : ℕ) (a : ByteArray) (rest : List ℕ)
    → IsValid a
    → result < 2 ^ i
    → v * 2 ^ i < 2 ^ bits
    → v < 128 ^ suc room
    → pending a ≡ varint room v ++ rest
    → Got bits i result v rest (get_varint bits (suc room) i result a)
get_varint-varint bits zero i result v a rest va h k l e =
    get_last bits zero i result v a rest va h k (omega arith) e
get_varint-varint bits (suc room) i result v a rest va h k l e = elim (Bool-cases (leb 0x80 v)) [
  | inr last ↦ get_last bits (suc room) i result v a rest va h k (ground arith) e
  | inl more ↦
      let p = 2 ^ i in
      let head : pending a ≡ (v % 128 + 128) ∷ (varint room (v / 128) ++ rest) =
        e ∙ ap (λ t. t ++ rest) (varint_more room v more) in
      let (b, got, vb, pb) = read_byte a (v % 128 + 128) _ va head in
      let test : ltb (v % 128 + 128) 128 ≡ false = ground arith in
      let low : bit_and (v % 128 + 128) 127 ≡ v % 128 = omega (arith, and_127 (v % 128 + 128)) in
      let sum : bit_or result (v % 128 * p % 2 ^ bits) ≡ result + v % 128 * p =
        or_shifted bits i result (v % 128) h (omega (arith, split_bits v p)) in
      let (c, rest_got, vc, pc) =
        get_varint-varint bits room (i + 7) (result + v % 128 * p) (v / 128) b rest vb
          (omega (arith, low_bits_le v p, shifted i))
          (omega (arith, split_bits v p, ap (λ (t : ℕ). v / 128 * t) (shifted i)))
          (omega (arith, pow-suc 128 (suc room))) pb in
      (
        c,
        get_more bits (suc room) i result (v % 128 + 128) a b got test
            ∙ ap (λ t. get_varint bits (suc room) (i + 7) t b) (rw low sum)
            ∙ (rest_got
                ∙ ap (λ t. ok (t, c))
                    (omega (arith, split_bits v p, ap (λ (t : ℕ). v / 128 * t) (shifted i)))),
        vc,
        pc,
      )
]

write_varint-write :
    (room : ℕ) (a : ByteArray) (v : ℕ)
    → v < 128 ^ suc room
    → write_varint (suc room) a v ≡ write a (varint room v)
unfolding write_varint
write_varint-write room a v h = rw ((put_varint-varint room v h).0, write_varint)

write_varint-get_varint :
    (bits room v : ℕ) (a : ByteArray)
    → IsValid a
    → v < 2 ^ bits
    → v < 128 ^ suc room
    → (b c d : ByteArray) × (write_varint (suc room) a v ≡ ok b)
      × (set_position b a.position ≡ ok c)
      × (get_varint bits (suc room) 0 0 c ≡ ok (v, d))
write_varint-get_varint bits room v a va h l =
    let (b, wrote, vb, eb) = write_refines a (varint room v) va in
    let (c, sought, vc, pc, _) = seek_back a b (varint room v) va vb eb in
    let (d, got, _, _) =
      get_varint-varint bits room 0 0 v c (behind a (length (varint room v))) vc (omega arith)
        (omega arith) l pc in
    (
      b,
      c,
      d,
      write_varint-write room a v l ∙ wrote,
      sought,
      got ∙ ap (λ t. ok (t, d)) (omega arith),
    )

pub write_uint64-varint :
    (a : ByteArray) (v : ℕ) → v < 2 ^ 64 → write_uint64 a v ≡ write a (varint 9 v)
unfolding write_uint64
write_uint64-varint a v h = write_varint-write 9 a v (omega arith)

-- A value whose bytes come next is read, and the rest stays pending.
pub read_uint64-pending :
    (a : ByteArray) (v : ℕ) (rest : List ℕ)
    → IsValid a
    → v < 2 ^ 64
    → pending a ≡ varint 9 v ++ rest
    → (b : ByteArray) × (read_uint64 a ≡ ok (v, b)) × IsValid b × (pending b ≡ rest)
unfolding read_uint64
read_uint64-pending a v rest va h e =
    let (b, got, vb, pb) =
      get_varint-varint 64 9 0 0 v a rest va (omega arith) (omega arith) (omega arith) e in
    (b, got ∙ ap (λ t. ok (t, b)) (omega arith), vb, pb)

-- A 32-bit value written by `WriteUint32` at the position of a valid buffer is read back by
-- `ReadUint32`, and no write goes past the local array.
write_uint32-read_uint32 :
    (a : ByteArray) (v : ℕ)
    → IsValid a
    → v < 2 ^ 32
    → (b c d : ByteArray) × (write_uint32 a v ≡ ok b)
      × (set_position b a.position ≡ ok c)
      × (read_uint32 c ≡ ok (v, d))
unfolding write_uint32 read_uint32
write_uint32-read_uint32 a v va h = write_varint-get_varint 32 4 v a va h (omega arith)

-- A 64-bit value written by `WriteUint64` at the position of a valid buffer is read back from there
-- by `ReadUint64` as it was.
write_uint64-read_uint64 :
    (a : ByteArray) (v : ℕ)
    → IsValid a
    → v < 2 ^ 64
    → (b c d : ByteArray) × (write_uint64 a v ≡ ok b)
      × (set_position b a.position ≡ ok c)
      × (read_uint64 c ≡ ok (v, d))
unfolding write_uint64 read_uint64
write_uint64-read_uint64 a v va h = write_varint-get_varint 64 9 v a va h (omega arith)

zigzag-lt : (k v : ℕ) → zigzag (suc k) v < 2 ^ suc k
unfolding zigzag
zigzag-lt k v = ground (arith, one-le-pow (suc k) 2 (omega arith))

-- A signed 32-bit value, as its bit pattern, that `EncodeZigzag32` maps without a signed overflow,
-- written by `WriteInt32` at the position of a valid buffer, is read back from there by `ReadInt32`.
pub write_int32-read_int32 :
    (a : ByteArray) (v : ℕ)
    → IsValid a
    → v < 2 ^ 32
    → overflows 32 v ≡ false
    → (b c d : ByteArray) × (write_int32 a v ≡ ok b)
      × (set_position b a.position ≡ ok c)
      × (read_int32 c ≡ ok (v, d))
unfolding write_int32 read_int32 encode_zigzag
write_int32-read_int32 a v va h small =
    let (b, c, d, wrote, sought, got) =
      write_uint32-read_uint32 a (zigzag 32 v) va (zigzag-lt 31 v) in
    (
      b,
      c,
      d,
      rw (write_int32, encode_zigzag, small) wrote,
      sought,
      rw got (ap (λ t. ok (t, d)) (decode_zigzag-zigzag 31 v h)),
    )

-- A signed 64-bit value, as its bit pattern, that `EncodeZigzag64` maps without a signed overflow,
-- written by `WriteInt64` at the position of a valid buffer, is read back from there by `ReadInt64`.
write_int64-read_int64 :
    (a : ByteArray) (v : ℕ)
    → IsValid a
    → v < 2 ^ 64
    → overflows 64 v ≡ false
    → (b c d : ByteArray) × (write_int64 a v ≡ ok b)
      × (set_position b a.position ≡ ok c)
      × (read_int64 c ≡ ok (v, d))
unfolding write_int64 read_int64 encode_zigzag
write_int64-read_int64 a v va h small =
    let (b, c, d, wrote, sought, got) =
      write_uint64-read_uint64 a (zigzag 64 v) va (zigzag-lt 63 v) in
    (
      b,
      c,
      d,
      rw (write_int64, encode_zigzag, small) wrote,
      sought,
      rw got (ap (λ t. ok (t, d)) (decode_zigzag-zigzag 63 v h)),
    )
