-- ===== src/ByteArray/Fixed/RoundTrip.antt =====
-- The fixed-width accessors: the bytes written depend on the byte order of the buffer alone, and a
-- value written is read back.
use native.Mathlib.Nat.{pow-suc}
use mathlib.Core.List.{reverse-append, reverse-reverse}
use my_server_framework.Prelude.{
  ℕ, zero, suc, ◌/◌, ◌^◌, ◌<◌, ◌≡◌, refl, ap, ◌∙◌, sym, List, [], ◌∷◌, ◌++◌, reverse, length,
  length-append, arith, if◌then◌else◌,
}
use my_server_framework.ByteArray.Chain.{ok}
use my_server_framework.ByteArray.Buffer.{ByteArray, Endian, little, big, read, write, set_position}
use my_server_framework.ByteArray.Invariant.{IsValid}
use my_server_framework.ByteArray.Refine.{write_refines}
use my_server_framework.ByteArray.Order.{endian-write}
use my_server_framework.ByteArray.Pending.{pending, behind, read-pending, seek_back}
use my_server_framework.ByteArray.Fixed.{
  le_bytes, of_le_bytes, in_memory, from_memory, same_order, write_fuint, read_fuint,
}

pub length-le_bytes : (w v : ℕ) → length (le_bytes w v) ≡ w
length-le_bytes zero v = refl
length-le_bytes (suc w) v = ap suc (length-le_bytes w (v / 256))

of_le_bytes-le_bytes : (w v : ℕ) → v < 256 ^ w → of_le_bytes (le_bytes w v) ≡ v
of_le_bytes-le_bytes zero v h = omega arith
of_le_bytes-le_bytes (suc w) v h =
    omega (arith, of_le_bytes-le_bytes w (v / 256) (omega (arith, pow-suc 256 w)))

pub length-reverse : (xs : List ℕ) → length (reverse xs) ≡ length xs
length-reverse [] = refl
length-reverse (x ∷ xs) =
    ap length (reverse-append (x ∷ []) xs)
    ∙ omega (arith, length-append (reverse xs) (x ∷ []), length-reverse xs)

-- What the C library documents of `bswap`: the bytes of the result are those of its argument in the
-- other order.
pub record Reverses (bswap : ℕ → ℕ → ℕ) : Type 0 where
  pub swapped : (w v : ℕ) → v < 256 ^ w → le_bytes w (bswap w v) ≡ reverse (le_bytes w v)
  pub bounded : (w v : ℕ) → v < 256 ^ w → bswap w v < 256 ^ w

-- The bytes of a value in the byte order of the buffer.
abbrev pub wire : Endian → ℕ → ℕ → List ℕ
wire little w v = le_bytes w v
wire big w v = reverse (le_bytes w v)

length-wire : (e : Endian) (w v : ℕ) → length (wire e w v) ≡ w
length-wire little w v = length-le_bytes w v
length-wire big w v = length-reverse (le_bytes w v) ∙ length-le_bytes w v

module _ (bswap : ℕ → ℕ → ℕ) (law : Reverses bswap) where
  stored-wire :
      (host e : Endian) (w v : ℕ)
      → v < 256 ^ w
      → in_memory host w (if same_order e host then v else bswap w v) ≡ wire e w v
  stored-wire little little w v h = refl
  stored-wire little big w v h = law.swapped w v h
  stored-wire big big w v h = refl
  stored-wire big little w v h = ap reverse (law.swapped w v h) ∙ reverse-reverse (le_bytes w v)

  reversed : (w v : ℕ) → v < 256 ^ w → of_le_bytes (reverse (le_bytes w v)) ≡ bswap w v
  reversed w v h =
      ap of_le_bytes (sym (law.swapped w v h)) ∙ of_le_bytes-le_bytes w _ (law.bounded w v h)

  involutive : (w v : ℕ) → v < 256 ^ w → bswap w (bswap w v) ≡ v
  involutive w v h =
      sym (reversed w (bswap w v) (law.bounded w v h))
      ∙ ap (λ t. of_le_bytes (reverse t)) (law.swapped w v h)
      ∙ ap of_le_bytes (reverse-reverse (le_bytes w v))
      ∙ of_le_bytes-le_bytes w v h

  loaded-wire :
      (host e : Endian) (w v : ℕ)
      → v < 256 ^ w
      → (let u = from_memory host (wire e w v) in if same_order e host then u else bswap w u) ≡ v
  loaded-wire little little w v h = of_le_bytes-le_bytes w v h
  loaded-wire little big w v h = ap (bswap w) (reversed w v h) ∙ involutive w v h
  loaded-wire big big w v h =
      ap of_le_bytes (reverse-reverse (le_bytes w v)) ∙ of_le_bytes-le_bytes w v h
  loaded-wire big little w v h = ap (bswap w) (reversed w v h) ∙ involutive w v h

  -- `WriteFint16` to `WriteFuint64` write the value in the byte order of the buffer, whatever the
  -- byte order of the host.
  pub write_fuint-wire :
      (host : Endian) (w : ℕ) (a : ByteArray) (v : ℕ)
      → v < 256 ^ w
      → write_fuint bswap host w a v ≡ write a (wire a.endian w v)
  unfolding write_fuint
  write_fuint-wire host w a v h = rw (stored-wire host a.endian w v h)

  -- A value whose bytes come next is read, and the rest stays pending.
  pub read_fuint-pending :
      (host : Endian) (w : ℕ) (a : ByteArray) (v : ℕ) (rest : List ℕ)
      → IsValid a
      → 0 < w
      → v < 256 ^ w
      → pending a ≡ wire a.endian w v ++ rest
      → (b : ByteArray) × (read_fuint bswap host w a ≡ ok (v, b))
        × IsValid b
        × (pending b ≡ rest)
        × (b.endian ≡ a.endian)
  unfolding read_fuint
  read_fuint-pending host w a v rest va n h e =
      let (b, got, vb, pb, eb) =
        read-pending a (wire a.endian w v) rest va (omega (arith, length-wire a.endian w v)) e in
      (
        b,
        rw (ap (read a) (sym (length-wire a.endian w v)) ∙ got)
            (ap (λ t. ok (t, b)) (loaded-wire host a.endian w v h)),
        vb,
        pb,
        eb,
      )

  -- An integer of `w` bytes written at the position of a valid buffer, on a host of either byte
  -- order, is read back from there as it was.
  pub write_fuint-read_fuint :
      (host : Endian) (w : ℕ) (a : ByteArray) (v : ℕ)
      → IsValid a
      → 0 < w
      → v < 256 ^ w
      → (b c d : ByteArray) × (write_fuint bswap host w a v ≡ ok b)
        × (set_position b a.position ≡ ok c)
        × (read_fuint bswap host w c ≡ ok (v, d))
  write_fuint-read_fuint host w a v va n h =
      let (b, wrote, vb, eb) = write_refines a (wire a.endian w v) va in
      let (c, sought, vc, pc, oc) = seek_back a b (wire a.endian w v) va vb eb in
      let order : c.endian ≡ a.endian = oc ∙ endian-write a (wire a.endian w v) wrote in
      let (d, got, _, _, _) =
        read_fuint-pending host w c v _ vc n h
          (pc ∙ ap (λ t. wire t w v ++ behind a (length (wire a.endian w v))) (sym order)) in
      (b, c, d, write_fuint-wire host w a v h ∙ wrote, sought, got)
