-- ===== src/ByteArray/Pending.antt =====
-- The bytes that are still to be read, and what the reads and writes of a run of bytes do to them.
use my_server_framework.Prelude.{
  ℕ, ◌≤◌, ◌+◌, ◌-◌, ◌<◌, ◌≡◌, ap, ap₂, ◌∙◌, sym, List, ◌++◌, arith, length, take, drop,
  length-append, length-drop, length-take,
}
use my_server_framework.Prelude.Splice.{
  splice-splice, splice, take-append_le, take_all, drop-append_ge, drop-drop,
}
use my_server_framework.ByteArray.File
use my_server_framework.ByteArray.File.{File}
use my_server_framework.ByteArray.Chain.{ok}
use my_server_framework.ByteArray.Buffer.{ByteArray, write, read, set_position}
use my_server_framework.ByteArray.Invariant.{IsValid}
use my_server_framework.ByteArray.Refine.{content, view, length-content, write_refines}
use my_server_framework.ByteArray.Order.{endian-read, endian-set_position}
use my_server_framework.ByteArray.Reading.{read_refines, set_position_refines}

abbrev pub pending : ByteArray → List ℕ
pending a = drop a.position (content a)

pub length-pending : (a : ByteArray) → IsValid a → length (pending a) ≡ a.size - a.position
length-pending a v = omega (arith, length-drop a.position (content a), length-content a v)

-- A read of the bytes that come next returns them, and leaves the others pending.
pub read-pending :
    (a : ByteArray) (xs ys : List ℕ)
    → IsValid a
    → 0 < length xs
    → pending a ≡ xs ++ ys
    → (b : ByteArray) × (read a (length xs) ≡ ok (xs, b))
      × IsValid b
      × (pending b ≡ ys)
      × (b.endian ≡ a.endian)
read-pending a xs ys v n e =
    let len : length xs + length ys ≡ a.size - a.position =
      sym (length-append xs ys) ∙ sym (ap length e) ∙ length-pending a v in
    let (b, got, vb, eb) = read_refines a (length xs) v (omega (arith, v)) (omega (arith, v)) in
    (
      b,
      got
          ∙ ap (λ t. ok (t, b))
              (ap (take (length xs)) e
                ∙ take-append_le (length xs) xs ys (omega arith)
                ∙ take_all (length xs) xs (omega arith)),
      vb,
      ap (λ (f : File). drop f.pos f.bytes) eb
          ∙ sym (drop-drop (length xs) a.position (content a))
          ∙ ap (drop (length xs)) e
          ∙ drop-append_ge (length xs) xs ys (omega arith)
          ∙ ap (λ k. drop k ys) {x = length xs - length xs} {y = 0} (omega arith),
      endian-read a (length xs) got,
    )

-- The bytes of a buffer behind a run of `n` at its position.
abbrev pub behind : ByteArray → ℕ → List ℕ
behind a n = drop (a.position + n) (content a)

-- After bytes were written and the position was moved back, they are what is pending.
pub seek_back :
    (a b : ByteArray) (bs : List ℕ)
    → IsValid a
    → IsValid b
    → view b ≡ File.write (view a) bs
    → (c : ByteArray) × (set_position b a.position ≡ ok c)
      × IsValid c
      × (pending c ≡ bs ++ behind a (length bs))
      × (c.endian ≡ b.endian)
unfolding File.write splice
seek_back a b bs v vb e =
    let end : b.position ≡ a.position + length bs = ap (λ (f : File). f.pos) e in
    let bytes : content b ≡ splice a.position bs (content a) = ap (λ (f : File). f.bytes) e in
    let (c, sought, vc, pc, sc, mc) =
      set_position_refines b a.position vb (omega (arith, vb, end)) in
    let size : c.size ≡ b.size = sc ∙ ground (arith, vb.position_le, end) in
    let len : length (take a.position (content a)) ≡ a.position =
      omega (arith, length-take a.position (content a), length-content a v, v.position_le) in
    (
      c,
      sought,
      vc,
      ap₂ drop pc (ap₂ take size mc ∙ bytes)
          ∙ drop-append_ge a.position (take a.position (content a)) _ (omega (arith, len))
          ∙ ap (λ k. drop k (bs ++ drop (a.position + length bs) (content a)))
              {x = a.position - length (take a.position (content a))} {y = 0} (omega (arith, len)),
      endian-set_position b a.position sought,
    )

-- Bytes written at the position of a valid buffer are read back: the write, the move back to where
-- it began and the read all succeed, and the read returns exactly the bytes written.
write-seek-read :
    (a : ByteArray) (bs : List ℕ)
    → IsValid a
    → 0 < length bs
    → (b c d : ByteArray) × (write a bs ≡ ok b)
      × (set_position b a.position ≡ ok c)
      × (read c (length bs) ≡ ok (bs, d))
write-seek-read a bs v n =
    let (b, wrote, vb, eb) = write_refines a bs v in
    let (c, sought, vc, pc, _) = seek_back a b bs v vb eb in
    let (d, got, _, _, _) = read-pending c bs _ vc n pc in (b, c, d, wrote, sought, got)

write-write :
    (f : File) (xs ys : List ℕ)
    → f.pos ≤ length f.bytes
    → File.write (File.write f xs) ys ≡ File.write f (xs ++ ys)
unfolding File.write
write-write f xs ys h = λ i. record { bytes = splice-splice f.pos xs ys f.bytes h i; pos = same i }
  where
    same : f.pos + length xs + length ys ≡ f.pos + length (xs ++ ys)
    same = omega (arith, length-append xs ys)

-- Two writes, one behind the other, are the write of both runs.
pub write_two :
    (a b : ByteArray) (xs ys : List ℕ)
    → IsValid a
    → IsValid b
    → view b ≡ File.write (view a) xs
    → (c : ByteArray) × (write b ys ≡ ok c) × IsValid c × (view c ≡ File.write (view a) (xs ++ ys))
write_two a b xs ys v vb e =
    let (c, wrote, vc, ec) = write_refines b ys vb in
    (
      c,
      wrote,
      vc,
      ec
          ∙ ap (λ f. File.write f ys) e
          ∙ write-write (view a) xs ys (omega (arith, length-content a v, v.position_le)),
    )
