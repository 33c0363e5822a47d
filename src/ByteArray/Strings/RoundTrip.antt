-- ===== src/ByteArray/Strings/RoundTrip.antt =====
-- The string accessors: a string written is read back.
use native.Mathlib.Nat.{mod-eq_of_lt}
use my_server_framework.Prelude.{
  ℕ, ◌%◌, ◌^◌, ◌<◌, ◌≡◌, ap, ◌∙◌, sym, List, ◌++◌, length, append_assoc,
}
use my_server_framework.ByteArray.Chain.{ok, ◌>>=◌}
use my_server_framework.ByteArray.Buffer.{ByteArray, Endian, set_position}
use my_server_framework.ByteArray.Invariant.{IsValid}
use my_server_framework.ByteArray.Refine.{write_refines}
use my_server_framework.ByteArray.Order.{endian-write}
use my_server_framework.ByteArray.Pending.{pending, behind, read-pending, seek_back, write_two}
use my_server_framework.ByteArray.Fixed.{write_fuint}
use my_server_framework.ByteArray.Fixed.RoundTrip.{
  Reverses, wire, write_fuint-wire, read_fuint-pending,
}
use my_server_framework.ByteArray.Strings.{
  write_string_f, read_string_f, write_string_vint, read_string_vint,
}
use my_server_framework.ByteArray.Varint.{write_uint64}
use my_server_framework.ByteArray.Varint.RoundTrip.{
  varint, write_uint64-varint, read_uint64-pending,
}

-- A string of at least one byte, whose length fits the prefix of `w` bytes, written at the position
-- of a valid buffer is read back from there as it was.
write_string_f-read_string_f :
    (bswap : ℕ → ℕ → ℕ)
    → Reverses bswap
    → (host : Endian) (w : ℕ) (a : ByteArray) (s : List ℕ) → IsValid a
    → 0 < w
    → 0 < length s
    → length s < 256 ^ w
    → (b c d : ByteArray) × (write_string_f bswap host w a s ≡ ok b)
      × (set_position b a.position ≡ ok c)
      × (read_string_f bswap host w c ≡ ok (s, d))
unfolding write_string_f read_string_f
write_string_f-read_string_f bswap law host w a s va n ns h =
    let prefix = wire a.endian w (length s) in
    let (b, wrote, vb, eb) = write_refines a prefix va in
    let (c, wrote', vc, ec) = write_two a b prefix s va vb eb in
    let (d, sought, vd, pd, od) = seek_back a c (prefix ++ s) va vc ec in
    let order : d.endian ≡ a.endian = od ∙ endian-write b s wrote' ∙ endian-write a prefix wrote in
    let tail = behind a (length (prefix ++ s)) in
    let next : pending d ≡ wire d.endian w (length s) ++ (s ++ tail) =
      pd ∙ append_assoc prefix s tail ∙ ap (λ t. wire t w (length s) ++ (s ++ tail)) (sym order) in
    let (e, got, ve, pe, _) =
      read_fuint-pending bswap law host w d (length s) (s ++ tail) vd n h next in
    let (f, got', _, _, _) = read-pending e s tail ve ns pe in
    let put : write_fuint bswap host w a (length s % 256 ^ w) ≡ ok b =
      ap (write_fuint bswap host w a) (mod-eq_of_lt h)
      ∙ write_fuint-wire bswap law host w a (length s) h
      ∙ wrote in
    (c, d, f, rw (put, ◌>>=◌) wrote', sought, rw (got, ◌>>=◌) got')

-- A string of at least one byte and of a length that a `uint64_t` holds, written by
-- `WriteStringVint` at the position of a valid buffer, is read back from there by `ReadStringVint`
-- as it was.
pub write_string_vint-read_string_vint :
    (a : ByteArray) (s : List ℕ)
    → IsValid a
    → 0 < length s
    → length s < 2 ^ 64
    → (b c d : ByteArray) × (write_string_vint a s ≡ ok b)
      × (set_position b a.position ≡ ok c)
      × (read_string_vint c ≡ ok (s, d))
unfolding write_string_vint read_string_vint
write_string_vint-read_string_vint a s va ns h =
    let prefix = varint 9 (length s) in
    let (b, wrote, vb, eb) = write_refines a prefix va in
    let (c, wrote', vc, ec) = write_two a b prefix s va vb eb in
    let (d, sought, vd, pd, _) = seek_back a c (prefix ++ s) va vc ec in
    let tail = behind a (length (prefix ++ s)) in
    let (e, got, ve, pe) =
      read_uint64-pending d (length s) (s ++ tail) vd h (pd ∙ append_assoc prefix s tail) in
    let (f, got', _, _, _) = read-pending e s tail ve ns pe in
    let put : write_uint64 a (length s) ≡ ok b = write_uint64-varint a (length s) h ∙ wrote in
    (c, d, f, rw (put, ◌>>=◌) wrote', sought, rw (got, ◌>>=◌) got')
