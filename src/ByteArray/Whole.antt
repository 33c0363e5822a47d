-- ===== src/ByteArray/Whole.antt =====
-- A new buffer, `Clear`, `ToString`, and `read` at a position (serverframework/util/bytearray.cc).
use my_server_framework.Prelude.{
  ℕ, ◌+◌, ◌-◌, ◌%◌, ◌≤◌, ◌<◌, ◌≡◌, refl, ap, ◌∙◌, sym, List, [], ◌∷◌, ◌++◌, arith, length, take,
  drop, inl, inr, ltb, ◌==◌, Bool-cases, length-append, length-replicate, false,
}
use my_server_framework.Prelude.Splice.{take_all}
use my_server_framework.ByteArray.Chain.{Block, ok}
use my_server_framework.ByteArray.Chain.Laws.{Sized}
use my_server_framework.ByteArray.Buffer.{
  ByteArray, get_read_size, new, new_node, clear, read, read_at, to_string, sub_size,
}
use my_server_framework.ByteArray.Invariant.{IsValid, get_read_size_lem}
use my_server_framework.ByteArray.Refine.{content}
use my_server_framework.ByteArray.Reading.{read_refines}
use my_server_framework.ByteArray.Pending.{pending, length-pending}

-- A new buffer of a base size above 0 is valid, and holds no byte.
new-IsValid : (base byte : ℕ) → 0 < base → IsValid (new base byte) × (content (new base byte) ≡ [])
unfolding new new_node
new-IsValid base byte h = (
  record {
    base_pos = h;
    before_sized = tt;
    after_sized = (length-replicate base byte, tt);
    has_root = omega arith;
    capacity_eq = omega arith;
    below = omega arith;
    above = omega arith;
    position_le = omega arith;
    size_le = omega arith;
  },
  refl,
)

first-Sized :
    (n : ℕ) (xs ys : List Block) (root : Block) (rest : List Block)
    → Sized n xs
    → Sized n ys
    → xs ++ ys ≡ root ∷ rest
    → length root ≡ n
first-Sized n [] [] root rest h k e = cc
first-Sized n [] (y ∷ ys) root rest h k e = ground (arith, k.0)
first-Sized n (x ∷ xs) ys root rest h k e = ground (arith, h.0)

-- `Clear` of a valid buffer succeeds: what is left is valid, empty and of one node.
clear-IsValid :
    (a : ByteArray)
    → IsValid a
    → (b : ByteArray) × (clear a ≡ ok b)
      × IsValid b
      × (b.position ≡ 0)
      × (b.size ≡ 0)
      × (b.capacity ≡ a.base_size)
unfolding clear
clear-IsValid a v = go (a.before ++ a.after) refl
  where
    go :
        (chain : List Block)
        → a.before ++ a.after ≡ chain
        → (b : ByteArray) × (clear a ≡ ok b)
          × IsValid b
          × (b.position ≡ 0)
          × (b.size ≡ 0)
          × (b.capacity ≡ a.base_size)
    go [] e = absurd (omega (arith, v.has_root, length-append a.before a.after, ap length e))
    go (root ∷ rest) e = (
      record a { position = 0; size = 0; capacity = a.base_size; before = []; after = root ∷ [] },
      rw (e, clear),
      record {
        base_pos = v.base_pos;
        before_sized = tt;
        after_sized =
            (first-Sized a.base_size a.before a.after root rest v.before_sized v.after_sized e, tt);
        has_root = omega arith;
        capacity_eq = omega arith;
        below = omega arith;
        above = omega (arith, v.base_pos);
        position_le = omega arith;
        size_le = omega arith;
      },
      refl,
      refl,
      refl,
    )

-- `read` at a position takes the node of the current position, not of the one asked for. So where
-- the two have one offset in their nodes, it returns the bytes at the current position.
read_at-current :
    (a : ByteArray) (n p : ℕ)
    → IsValid a
    → a.position < a.capacity
    → a.position + n ≤ a.size
    → p + n ≤ a.size
    → p % a.base_size ≡ a.position % a.base_size
    → read_at a n p ≡ ok (take n (drop a.position (content a)))
unfolding read_at read
read_at-current a n p v room h k same =
    let (b, got, _, _) = read_refines a n v room h in
    let fits : ltb (sub_size a.size p) n ≡ false = ground arith in
    let fits' : ltb (get_read_size a) n ≡ false = ground (arith, get_read_size_lem a v) in
    rw (fits, same) (ground (arith, got, fits'))

nil_of_length : (xs : List ℕ) → length xs ≡ 0 → xs ≡ []
nil_of_length [] e = refl
nil_of_length (x ∷ xs) e = absurd (omega arith)

-- `ToString` of a valid buffer returns the bytes from the position on, and never throws.
to_string_lem : (a : ByteArray) → IsValid a → to_string a ≡ ok (pending a)
unfolding to_string
to_string_lem a v = elim (Bool-cases (get_read_size a == 0)) [
  | inl empty ↦
      let none_left : length (pending a) ≡ 0 =
        ground (arith, length-pending a v, get_read_size_lem a v) in
      rw empty (ap (λ t. ok t) (sym (nil_of_length (pending a) none_left)))
  | inr more ↦
      let n = get_read_size a in
      let size : n ≡ a.size - a.position = get_read_size_lem a v in
      let some_left : 0 < n = ground arith in
      rw more (
        read_at-current a n a.position v (omega (arith, v)) (omega (arith, v)) (omega (arith, v))
          refl
        ∙ ap (λ t. ok t) (take_all n (pending a) (omega (arith, length-pending a v))))
]
