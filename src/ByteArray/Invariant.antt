-- ===== src/ByteArray/Invariant.antt =====
-- The invariant of a `ByteArray` (serverframework/util/bytearray.cc), and how it grows.
use native.Mathlib.Nat.{mod-eq_of_lt, mul-add-mod_self_right}
use my_server_framework.Prelude.{
  ℕ, zero, suc, ◌+◌, ◌-◌, ◌*◌, ◌%◌, ◌≤◌, ◌<◌, ◌≡◌, refl, ap, ◌∙◌, sym, List, [], ◌∷◌, ◌++◌, arith,
  length, inl, inr, leb, ◌==◌, Bool-cases, length-append, length-replicate, append-nil, replicate,
}
use my_server_framework.ByteArray.Chain.{Block, Moved}
use my_server_framework.ByteArray.Chain.Laws.{flat, Sized, Sized-append, length-flat, At}
use my_server_framework.ByteArray.Buffer.{
  ByteArray, get_capacity, get_read_size, node_count, add_capacity, link_nodes,
}

-- The bytes of all the nodes, in order.
abbrev pub memory : ByteArray → List ℕ
memory a = flat a.before ++ flat a.after

-- Every node has the base size, the capacity counts them, `cur_` is the node of the position (null
-- exactly at the full capacity), and position ≤ size ≤ capacity.
pub record IsValid (a : ByteArray) : Type 0 where
  pub base_pos : 0 < a.base_size
  pub before_sized : Sized a.base_size a.before
  pub after_sized : Sized a.base_size a.after
  pub has_root : 0 < length a.before + length a.after
  pub capacity_eq : a.capacity ≡ (length a.before + length a.after) * a.base_size
  pub below : length a.before * a.base_size ≤ a.position
  pub above : a.position < length a.before * a.base_size + a.base_size
  pub position_le : a.position ≤ a.size
  pub size_le : a.size ≤ a.capacity

-- The remainder of a number by `b`, from the block that it lies in.
mod_block : (k b p : ℕ) → k * b ≤ p → p < k * b + b → p % b ≡ p - k * b
mod_block k b p h l =
    ap (λ (t : ℕ). t % b) {x = p} {y = k * b + (p - k * b)} (omega arith)
    ∙ mul-add-mod_self_right k b (p - k * b)
    ∙ mod-eq_of_lt (omega arith)

pub offset_eq :
    (a : ByteArray)
    → IsValid a
    → a.position % a.base_size ≡ a.position - length a.before * a.base_size
offset_eq a v = mod_block (length a.before) a.base_size a.position v.below v.above

pub length-memory : (a : ByteArray) → IsValid a → length (memory a) ≡ a.capacity
length-memory a v = omega (
  arith,
  length-append (flat a.before) (flat a.after),
  length-flat a.base_size a.before v.before_sized,
  length-flat a.base_size a.after v.after_sized,
  v.capacity_eq,
)

node_count_enough : (s b : ℕ) → 0 < b → s ≤ node_count s b * b
node_count_enough s b h = omega arith

Sized-replicate : (k n byte : ℕ) → Sized n (replicate k (replicate n byte))
Sized-replicate zero n byte = tt
Sized-replicate (suc k) n byte = (length-replicate n byte, Sized-replicate k n byte)

-- A buffer with `k` more nodes at the end.
abbrev pub extended : ByteArray → ℕ → ByteArray
extended a k = record a {
  capacity = a.capacity + k * a.base_size;
  after = a.after ++ replicate k (replicate a.base_size a.alloc_byte);
}

pub extended-IsValid : (a : ByteArray) (k : ℕ) → IsValid a → IsValid (extended a k)
extended-IsValid a k v = record {
  base_pos = v.base_pos;
  before_sized = v.before_sized;
  after_sized =
      Sized-append a.base_size a.after (replicate k (replicate a.base_size a.alloc_byte))
        v.after_sized (Sized-replicate k a.base_size a.alloc_byte);
  has_root = omega (arith, v, more);
  capacity_eq = omega (arith, v, ap (λ (t : ℕ). (length a.before + t) * a.base_size) more);
  below = v.below;
  above = v.above;
  position_le = v.position_le;
  size_le = omega (arith, v.size_le);
}
  where
    more : length (a.after ++ replicate k (replicate a.base_size a.alloc_byte)) ≡ length a.after + k
    more = omega (
      arith,
      length-append a.after (replicate k (replicate a.base_size a.alloc_byte)),
      length-replicate k (replicate a.base_size a.alloc_byte),
    )

extended-zero : (a : ByteArray) → a ≡ extended a 0
extended-zero a = λ i. record a { capacity = same i; after = sym (append-nil a.after) i }
  where
    same : a.capacity ≡ a.capacity + 0 * a.base_size
    same = omega arith

-- With `cur_` null exactly when there is no room, the new nodes come last and `cur_` stands before
-- them.
link_nodes-append :
    (a : ByteArray) (fresh : List Block) (old_cap : ℕ) (xs : List Block)
    → a.after ≡ xs
    → (length xs ≡ 0 → old_cap ≡ 0)
    → (old_cap ≡ 0 → length xs ≡ 0)
    → link_nodes a fresh old_cap ≡ record a { after = a.after ++ fresh }
unfolding link_nodes
link_nodes-append a fresh old_cap [] e h k = rw (e, h refl, append-nil a.before)
link_nodes-append a fresh old_cap (x ∷ xs) e h k = elim (Bool-cases (old_cap == 0)) [
  | inl full ↦ absurd (ground (arith, k (ground arith)))
  | inr room ↦ rw (room, e)
]

pub get_capacity_lem : (a : ByteArray) → IsValid a → get_capacity a ≡ a.capacity - a.position
get_capacity_lem a v = ground (arith, v)

pub get_read_size_lem : (a : ByteArray) → IsValid a → get_read_size a ≡ a.size - a.position
get_read_size_lem a v = ground (arith, v)

room-after : (a : ByteArray) → IsValid a → length a.after ≡ 0 → get_capacity a ≡ 0
room-after a v e =
    omega (arith, get_capacity_lem a v, ap (λ (t : ℕ). (length a.before + t) * a.base_size) e, v)

below_one : (m n : ℕ) → m * n < n → m ≡ 0
below_one zero n h = refl
below_one (suc m) n h = absurd (omega arith)

pub after-room : (a : ByteArray) → IsValid a → get_capacity a ≡ 0 → length a.after ≡ 0
after-room a v e = below_one (length a.after) a.base_size (omega (arith, get_capacity_lem a v, v))

-- `AddCapacity` links as many nodes as make room for `n` bytes from the position on.
pub add_capacity-extended :
    (a : ByteArray) (n : ℕ)
    → IsValid a
    → (k : ℕ) × (add_capacity n a ≡ extended a k) × (a.position + n ≤ a.capacity + k * a.base_size)
unfolding add_capacity
add_capacity-extended a n v = elim (Bool-cases (n == 0)) [
  | inl nothing ↦ (0, rw nothing (extended-zero a), ground (arith, v))
  | inr some_bytes ↦ elim (Bool-cases (leb n (get_capacity a))) [
    | inl room ↦ (0, rw (some_bytes, room) (extended-zero a), ground (arith, v))
    | inr tight ↦ (
      node_count (n - get_capacity a) a.base_size,
      rw (some_bytes, tight)
          (link_nodes-append
            (record a {
              capacity = a.capacity + node_count (n - get_capacity a) a.base_size * a.base_size;
            })
            (replicate (node_count (n - get_capacity a) a.base_size)
              (replicate a.base_size a.alloc_byte))
            (get_capacity a) a.after refl (room-after a v) (after-room a v)),
      omega (
        arith,
        get_capacity_lem a v,
        node_count_enough (n - get_capacity a) a.base_size v.base_pos,
        v,
      ),
    )
  ]
]

-- A buffer whose `cur_` has moved over `m.0` to the block of the new position.
pub moved-IsValid :
    (a : ByteArray) (m : Moved) (p s : ℕ)
    → IsValid a
    → At a.base_size (p - length a.before * a.base_size) m
    → length a.before * a.base_size ≤ p
    → length m.0 + length m.1 ≡ length a.after
    → p ≤ s
    → s ≤ a.capacity
    → IsValid (record a { position = p; size = s; before = a.before ++ m.0; after = m.1 })
moved-IsValid a m p s v at low blocks ps sc =
    let e : length (a.before ++ m.0) ≡ length a.before + length m.0 = length-append a.before m.0 in
    record {
      base_pos = v.base_pos;
      before_sized = Sized-append a.base_size a.before m.0 v.before_sized at.done_sized;
      after_sized = at.rest_sized;
      has_root = omega (arith, v.has_root);
      capacity_eq = v.capacity_eq ∙ ap (λ (t : ℕ). t * a.base_size) (omega arith);
      below = rw e (omega (arith, at.below));
      above = rw e (omega (arith, at.above));
      position_le = ps;
      size_le = sc;
    }
