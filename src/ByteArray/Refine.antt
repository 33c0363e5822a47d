-- ===== src/ByteArray/Refine.antt =====
-- A valid `ByteArray` behaves as a file of its bytes: nodes, capacity and `cur_` are not to be seen.
use my_server_framework.Prelude.{
  ℕ, ◌+◌, ◌-◌, ◌*◌, ◌%◌, ◌≤◌, ◌<◌, ◌≡◌, ap, ◌∙◌, sym, List, [], ◌∷◌, ◌++◌, arith, length, take,
  drop, inl, inr, ltb, ◌==◌, Bool-cases, length-take, append_assoc, take-append-drop, replicate,
  if◌then◌else◌,
}
use my_server_framework.Prelude.Splice.{splice, splice-append_ge, take-splice_ge, take-append_le}
use my_server_framework.ByteArray.File
use my_server_framework.ByteArray.File.{File}
use my_server_framework.ByteArray.Chain.{Result, ok, copy_in, Moved}
use my_server_framework.ByteArray.Chain.Laws.{
  flat, flat-append, length-flat, CopiedIn, copy_in-CopiedIn,
}
use my_server_framework.ByteArray.Buffer.{ByteArray, write, written}
use my_server_framework.ByteArray.Invariant.{
  memory, IsValid, offset_eq, length-memory, extended, extended-IsValid, add_capacity-extended,
  moved-IsValid,
}

-- The bytes below the size.
abbrev pub content : ByteArray → List ℕ
content a = take a.size (memory a)

abbrev pub view : ByteArray → File
view a = record { bytes = content a; pos = a.position }

pub length-content : (a : ByteArray) → IsValid a → length (content a) ≡ a.size
length-content a v = omega (arith, length-take a.size (memory a), length-memory a v, v.size_le)

-- More nodes do not show.
content-extended : (a : ByteArray) (k : ℕ) → IsValid a → content (extended a k) ≡ content a
content-extended a k v =
    let fresh = replicate k (replicate a.base_size a.alloc_byte) in
    rw (flat-append a.after fresh, ← append_assoc (flat a.before) (flat a.after) (flat fresh))
      (take-append_le a.size (memory a) (flat fresh) (omega (arith, length-memory a v, v.size_le)))

-- The end of `write`, for a loop that stopped at `m`.
abbrev after_write : ByteArray → ℕ → Moved → ByteArray
after_write a n m = record a {
  position = a.position + n;
  size = if ltb a.size (a.position + n) then a.position + n else a.size;
  before = a.before ++ m.0;
  after = m.1;
}

module _ (a : ByteArray) (bs : List ℕ) (r : Result Moved) (v : IsValid a)
    (room : a.position + length bs ≤ a.capacity)
    (c : CopiedIn a.base_size (a.position - length a.before * a.base_size) bs a.after r) where
  after_write-IsValid : IsValid (after_write a (length bs) c.moved)
  after_write-IsValid =
      moved-IsValid a c.moved (a.position + length bs) _ v
        (let e : a.position + length bs - length a.before * a.base_size
              ≡ a.position - length a.before * a.base_size + length bs =
            omega (arith, v.below) in
          rw e c.at)
        (omega (arith, v.below)) c.blocks (ground (arith, v)) (ground (arith, v))

  after_write-memory : memory (after_write a (length bs) c.moved) ≡ splice a.position bs (memory a)
  after_write-memory =
      let e : length (flat a.before) + (a.position - length a.before * a.base_size) ≡ a.position =
        omega (arith, length-flat a.base_size a.before v.before_sized, v.below) in
      ap (λ t. t ++ flat c.moved.1) (flat-append a.before c.moved.0)
      ∙ append_assoc (flat a.before) (flat c.moved.0) (flat c.moved.1)
      ∙ ap (λ t. flat a.before ++ t) c.bytes
      ∙ sym (
          splice-append_ge (a.position - length a.before * a.base_size) bs (flat a.before)
            (flat a.after))
      ∙ ap (λ t. splice t bs (memory a)) e

  after_write-view : view (after_write a (length bs) c.moved) ≡ File.write (view a) bs
  unfolding File.write
  after_write-view = λ i. record { bytes = same i; pos = a.position + length bs }
    where
      same : content (after_write a (length bs) c.moved) ≡ splice a.position bs (content a)
      same =
          ap (take (after_write a (length bs) c.moved).size) after_write-memory
          ∙ take-splice_ge a.position a.size _ bs (memory a) v.position_le (ground (arith, v))
              (ground (arith, v)) (omega (arith, length-memory a v, v))

File-write-nil : (f : File) (bs : List ℕ) → length bs ≡ 0 → f ≡ File.write f bs
unfolding File.write splice
File-write-nil f [] e = λ i. record { bytes = sym same i; pos = pos_same i }
  where
    zero_more : f.pos + 0 ≡ f.pos
    zero_more = omega arith

    same : take f.pos f.bytes ++ drop (f.pos + 0) f.bytes ≡ f.bytes
    same = rw zero_more (take-append-drop f.pos f.bytes)

    pos_same : f.pos ≡ f.pos + 0
    pos_same = omega arith
File-write-nil f (x ∷ xs) e = absurd (omega arith)

module _ (a : ByteArray) (bs : List ℕ) (v : IsValid a) (some_bytes : 0 < length bs)
    (room : a.position + length bs ≤ a.capacity) where
  copied :
      CopiedIn a.base_size
        (a.position - length a.before * a.base_size)
        bs
        a.after
        (copy_in (a.position - length a.before * a.base_size) bs a.after)
  copied =
      copy_in-CopiedIn a.base_size (a.position - length a.before * a.base_size) bs a.after
        v.after_sized (omega (arith, v.below, v.above)) (omega (arith, v)) some_bytes

  written-after_write :
      written a (length bs) (copy_in (a.position % a.base_size) bs a.after)
      ≡ ok (after_write a (length bs) copied.moved)
  written-after_write = rw (offset_eq a v, copied.returns)

-- Writing into a valid buffer always succeeds, grows it as needed, keeps it valid, and is the
-- write of the byte file.
pub write_refines :
    (a : ByteArray) (bs : List ℕ)
    → IsValid a
    → (b : ByteArray) × (write a bs ≡ ok b) × IsValid b × (view b ≡ File.write (view a) bs)
unfolding write
write_refines a bs v = elim (Bool-cases (length bs == 0)) [
  | inl nothing ↦ (a, rw nothing, v, File-write-nil (view a) bs (ground arith))
  | inr some_bytes ↦
      let (k, grown, fit) = add_capacity-extended a (length bs) v in
      let u : IsValid (extended a k) = extended-IsValid a k v in
      let n : 0 < length bs = ground arith in
      let c = copied (extended a k) bs u n fit in
      (
        after_write (extended a k) (length bs) c.moved,
        rw (some_bytes, grown) (written-after_write (extended a k) bs u n fit),
        after_write-IsValid (extended a k) bs _ u fit c,
        after_write-view (extended a k) bs _ u fit c
            ∙ ap (λ t. File.write (record { bytes = t; pos = a.position }) bs)
                (content-extended a k v),
      )
]
