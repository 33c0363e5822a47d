-- ===== src/ByteArray/Reading.antt =====
-- `read` and `SetPosition` on a valid `ByteArray`.
use my_server_framework.Prelude.{
  ℕ, zero, suc, append_assoc, ◌+◌, ◌-◌, ◌*◌, ◌≤◌, ◌<◌, ◌≡◌, refl, ap, ◌∙◌, sym, List, [], ◌∷◌, ◌++◌,
  arith, length, take, drop, ltb, length-append, if◌then◌else◌, true, false,
}
use my_server_framework.Prelude.Splice.{drop-take, drop-append_ge, take-take}
use my_server_framework.ByteArray.Chain.{ok, out_of_range, null_deref, copy_out, Moved, Block}
use my_server_framework.ByteArray.Chain.Laws.{
  flat, flat-append, Sized-append, length-flat, copy_out-Fetches, seek-Walked,
}
use my_server_framework.ByteArray.Buffer.{ByteArray, get_read_size, read, set_position}
use my_server_framework.ByteArray.Invariant.{
  memory, IsValid, offset_eq, moved-IsValid, get_read_size_lem, get_capacity_lem, after-room,
}
use my_server_framework.ByteArray.Refine.{content, view}

-- A buffer whose `cur_` has moved, with nothing written.
abbrev after_read : ByteArray → ℕ → Moved → ByteArray
after_read a n m = record a { position = a.position + n; before = a.before ++ m.0; after = m.1 }

same_memory :
    (a : ByteArray) (m : Moved)
    → m.0 ++ m.1 ≡ a.after
    → flat (a.before ++ m.0) ++ flat m.1 ≡ memory a
same_memory a m e =
    ap (λ t. t ++ flat m.1) (flat-append a.before m.0)
    ∙ append_assoc (flat a.before) (flat m.0) (flat m.1)
    ∙ ap (λ t. flat a.before ++ t) (sym (flat-append m.0 m.1) ∙ ap flat e)

-- The bytes that the loop finds from `cur_` on are those of the file from the position on.
pub fetched_bytes :
    (a : ByteArray) (n : ℕ)
    → IsValid a
    → a.position + n ≤ a.size
    → take n (drop (a.position - length a.before * a.base_size) (flat a.after))
      ≡ take n (drop a.position (content a))
fetched_bytes a n v h =
    let e : a.position - length (flat a.before) ≡ a.position - length a.before * a.base_size =
      omega (arith, length-flat a.base_size a.before v.before_sized) in
    sym (
      rw (
        drop-take a.position a.size (memory a),
        take-take n (a.size - a.position) (drop a.position (memory a)) (omega arith),
        drop-append_ge a.position (flat a.before) (flat a.after)
            (omega (arith, length-flat a.base_size a.before v.before_sized, v.below)),
        e,
      ))

some_left : (m k b p : ℕ) → k * b ≤ p → p < (k + m) * b → 0 < m
some_left zero k b p h l = absurd (omega arith)
some_left (suc m) k b p h l = omega arith

pub after-nonempty : (a : ByteArray) → IsValid a → a.position < a.capacity → 0 < length a.after
after-nonempty a v h =
    some_left (length a.after) (length a.before) a.base_size a.position v.below (omega (arith, v))

same_blocks :
    (m : Moved) (chain : List Block) → m.0 ++ m.1 ≡ chain → length m.0 + length m.1 ≡ length chain
same_blocks m chain e = sym (length-append m.0 m.1) ∙ ap length e

-- Reading `n` bytes that are there from a valid buffer whose position is not at its capacity: it
-- returns the bytes of the file at the position, moves the position past them, and leaves the
-- bytes and the invariant.
pub read_refines :
    (a : ByteArray) (n : ℕ)
    → IsValid a
    → a.position < a.capacity
    → a.position + n ≤ a.size
    → (b : ByteArray) × (read a n ≡ ok (take n (drop a.position (content a)), b))
      × IsValid b
      × (view b ≡ record { bytes = content a; pos = a.position + n })
unfolding read
read_refines a n v room h =
    let fits : ltb (get_read_size a) n ≡ false = ground (arith, get_read_size_lem a v, h) in
    let f =
      copy_out-Fetches a.base_size (a.position - length a.before * a.base_size) n a.after
        v.after_sized (omega (arith, v.below, v.above)) (after-nonempty a v room)
        (omega (arith, v, h)) in
    (
      after_read a n f.moved,
      rw (fits, offset_eq a v, f.returns)
          (ap (λ t. ok (t, after_read a n f.moved)) (fetched_bytes a n v h)),
      moved-IsValid a f.moved (a.position + n) a.size v
          (let e : a.position + n - length a.before * a.base_size
                ≡ a.position - length a.before * a.base_size + n =
              omega (arith, v.below) in
            rw e f.walked.at)
          (omega (arith, v.below)) (same_blocks f.moved a.after f.walked.same) h v.size_le,
      λ i. record {
        bytes = take a.size (same_memory a f.moved f.walked.same i);
        pos = a.position + n;
      },
    )

-- A read of more than the bytes left throws.
read-out_of_range :
    (a : ByteArray) (n : ℕ) → IsValid a → a.size < a.position + n → read a n ≡ out_of_range
unfolding read
read-out_of_range a n v h =
    let e : ltb (get_read_size a) n ≡ true =
      ground (arith, get_read_size_lem a v, h, v.position_le) in
    rw e

nil_of_length : (xs : List Block) → length xs ≡ 0 → xs ≡ []
nil_of_length [] e = refl
nil_of_length (x ∷ xs) e = absurd (omega arith)

-- Reading no byte at a position at the capacity, where `cur_` is null, reads through it.
read-null_deref : (a : ByteArray) → IsValid a → a.position ≡ a.capacity → read a 0 ≡ null_deref
unfolding read copy_out
read-null_deref a v full =
    let fits : ltb (get_read_size a) 0 ≡ false = ground (arith, get_read_size_lem a v) in
    let null : a.after ≡ [] =
      nil_of_length a.after (after-room a v (omega (arith, get_capacity_lem a v, full))) in
    rw (fits, null)

-- `SetPosition` of a valid buffer up to its capacity succeeds: the position is the one asked for,
-- the size covers it, no byte of the nodes changes, and the buffer stays valid.
pub set_position_refines :
    (a : ByteArray) (p : ℕ)
    → IsValid a
    → p ≤ a.capacity
    → (b : ByteArray) × (set_position a p ≡ ok b)
      × IsValid b
      × (b.position ≡ p)
      × (b.size ≡ (if ltb a.size p then p else a.size))
      × (memory b ≡ memory a)
unfolding set_position
set_position_refines a p v h =
    let fits : ltb a.capacity p ≡ false = ground arith in
    let chain = a.before ++ a.after in
    let blocks : length chain ≡ length a.before + length a.after = length-append a.before a.after in
    let (m, e, w) =
      seek-Walked a.base_size p chain
        (Sized-append a.base_size a.before a.after v.before_sized v.after_sized) v.base_pos
        (omega (arith, v.has_root)) (rw blocks (omega (arith, v.capacity_eq))) in
    (
      record a {
        position = p;
        size = if ltb a.size p then p else a.size;
        before = m.0;
        after = m.1;
      },
      rw (fits, e),
      record {
        base_pos = v.base_pos;
        before_sized = w.at.done_sized;
        after_sized = w.at.rest_sized;
        has_root = omega (arith, same_blocks m chain w.same, v.has_root);
        capacity_eq =
            v.capacity_eq
            ∙ ap (λ (t : ℕ). t * a.base_size) (sym (same_blocks m chain w.same ∙ blocks));
        below = w.at.below;
        above = w.at.above;
        position_le = ground arith;
        size_le = ground (arith, v.size_le);
      },
      refl,
      refl,
      sym (flat-append m.0 m.1) ∙ ap flat w.same ∙ flat-append a.before a.after,
    )

-- A position past the capacity is refused.
set_position-out_of_range :
    (a : ByteArray) (p : ℕ) → a.capacity < p → set_position a p ≡ out_of_range
unfolding set_position
set_position-out_of_range a p h = let e : ltb a.capacity p ≡ true = ground arith in rw e
