-- ===== src/ByteArray/Buffer.antt =====
-- `ByteArray`: its state and the operations on its position, capacity and bytes
-- (serverframework/util/bytearray.h, bytearray.cc). `read` and `write` are kept apart from the
-- typed accessors, which are built of them.
use my_server_framework.Prelude.{
  ℕ, ◌+◌, ◌-◌, ◌*◌, ◌/◌, ◌%◌, ◌^◌, Bool, true, false, List, [], ◌∷◌, ◌++◌, if◌then◌else◌, leb, ltb,
  ◌==◌, length, replicate,
}
use my_server_framework.ByteArray.Chain.{
  Block, Result, ok, out_of_range, null_deref, ◌>>=◌, copy_in, copy_out, seek, gather, Iovec,
}

-- `endian_`, and the byte order of the host, `SYLAR_BYTE_ORDER`.
pub data Endian : Type 0 where
  little big : Endian

-- `before ++ after` are the nodes from `root_` on; `cur_` points to the first of `after`.
-- `alloc_byte` is what `new char[s]` leaves in a byte of a new node: any value.
pub record ByteArray : Type 0 where
  pub base_size : ℕ
  pub position : ℕ
  pub capacity : ℕ
  pub size : ℕ
  pub endian : Endian
  pub before : List Block
  pub after : List Block
  pub alloc_byte : ℕ

-- A `size_t` difference, which wraps below zero.
abbrev pub sub_size : ℕ → ℕ → ℕ
sub_size a b = if leb b a then a - b else a + 2 ^ 64 - b

unfoldable pub new_node : ℕ → ℕ → Block
new_node s byte = replicate s byte

unfoldable pub new : ℕ → ℕ → ByteArray
new base byte = record {
  base_size = base;
  position = 0;
  capacity = base;
  size = 0;
  endian = big;
  before = [];
  after = new_node base byte ∷ [];
  alloc_byte = byte;
}

unfoldable pub is_little_endian : ByteArray → Bool
is_little_endian a = elim a.endian [ little ↦ true | big ↦ false ]

unfoldable pub set_is_little_endian : ByteArray → Bool → ByteArray
set_is_little_endian a val = record a { endian = if val then little else big }

abbrev pub get_read_size : ByteArray → ℕ
get_read_size a = sub_size a.size a.position

abbrev pub get_capacity : ByteArray → ℕ
get_capacity a = sub_size a.capacity a.position

-- Only the root is kept.
unfoldable pub clear : ByteArray → Result ByteArray
clear a = elim (a.before ++ a.after) [
  | [] ↦ null_deref
  | root ∷ rest ↦
      ok (record a {
        position = 0;
        size = 0;
        capacity = a.base_size;
        before = [];
        after = root ∷ [];
      })
]

-- `ceil(1.0 * size / base_size_)`, which is exact for sizes below 2 ^ 53.
abbrev pub node_count : ℕ → ℕ → ℕ
node_count size base = (size + base - 1) / base

-- New nodes are linked behind the last one; only a full buffer moves `cur_`, to the first of them.
unfoldable pub link_nodes : ByteArray → List Block → ℕ → ByteArray
link_nodes a fresh old_cap =
    let moved = record a { before = a.before ++ a.after; after = fresh } in
    let kept : ByteArray = elim a.after [
      | [] ↦ record a { before = a.before ++ fresh }
      | b ∷ rest ↦ record a { after = b ∷ (rest ++ fresh) }
    ] in
    if old_cap == 0 then moved else kept

unfoldable pub add_capacity : ℕ → ByteArray → ByteArray
unfolding link_nodes new_node
add_capacity size a =
    let old_cap = get_capacity a in
    let count = node_count (size - old_cap) a.base_size in
    let grown =
      link_nodes (record a { capacity = a.capacity + count * a.base_size })
        (replicate count (new_node a.base_size a.alloc_byte)) old_cap in
    if size == 0 then a else if leb size old_cap then a else grown

-- The end of `write`: `cur_` and the position move on, and the size covers the position.
abbrev pub written : ByteArray → ℕ → Result (List Block × List Block) → Result ByteArray
written a n r = r >>= λ m. ok (record a {
  position = a.position + n;
  size = if ltb a.size (a.position + n) then a.position + n else a.size;
  before = a.before ++ m.0;
  after = m.1;
})

unfoldable pub write : ByteArray → List ℕ → Result ByteArray
write a bs =
    let b = add_capacity (length bs) a in
    let stored = written b (length bs) (copy_in (b.position % b.base_size) bs b.after) in
    if length bs == 0 then ok a else stored

-- The bytes read go through `buf`.
unfoldable pub read : ByteArray → ℕ → Result (List ℕ × ByteArray)
read a n =
    let fetched = copy_out (a.position % a.base_size) n a.after >>= λ f.
    ok (f.0, record a { position = a.position + n; before = a.before ++ f.1; after = f.2 }) in
    if ltb (get_read_size a) n then out_of_range else fetched

-- The overload with a position, which is `const`: it starts in the block of `cur_`.
unfoldable pub read_at : ByteArray → ℕ → ℕ → Result (List ℕ)
read_at a n position =
    let fetched = copy_out (position % a.base_size) n a.after >>= λ f. ok f.0 in
    if ltb (sub_size a.size position) n then out_of_range else fetched

unfoldable pub set_position : ByteArray → ℕ → Result ByteArray
set_position a v =
    let moved = seek v (a.before ++ a.after) >>= λ m. ok (record a {
      position = v;
      size = if ltb a.size v then v else a.size;
      before = m.0;
      after = m.1;
    }) in
    if ltb a.capacity v then out_of_range else moved

unfoldable pub to_string : ByteArray → Result (List ℕ)
to_string a = if get_read_size a == 0 then ok [] else read_at a (get_read_size a) a.position

-- The length returned and the buffers pushed. Blocks are counted from the root.
unfoldable pub get_read_buffers : ByteArray → ℕ → Result (ℕ × List Iovec)
get_read_buffers a wanted =
    let len = if ltb (get_read_size a) wanted then get_read_size a else wanted in
    let found =
      gather (length a.before) (a.position % a.base_size) len a.after >>= λ vs. ok (len, vs) in
    if len == 0 then ok (0, []) else found

-- `while (count > 0) cur = cur->next`: the nodes from the one counted on.
unfoldable pub nth_node : ℕ → List Block → Result (List Block)
nth_node ℕ.zero chain = ok chain
nth_node (ℕ.suc count) [] = null_deref
nth_node (ℕ.suc count) (b ∷ rest) = nth_node count rest

unfoldable pub get_read_buffers_at : ByteArray → ℕ → ℕ → Result (ℕ × List Iovec)
get_read_buffers_at a wanted position =
    let len = if ltb (get_read_size a) wanted then get_read_size a else wanted in
    let count = position / a.base_size in
    let found = nth_node count (a.before ++ a.after) >>= λ chain.
    gather count (position % a.base_size) len chain >>= λ vs. ok (len, vs) in
    if len == 0 then ok (0, []) else found

unfoldable pub get_write_buffers : ByteArray → ℕ → Result ((ℕ × List Iovec) × ByteArray)
get_write_buffers a len =
    let b = add_capacity len a in
    let found =
      gather (length b.before) (b.position % b.base_size) len b.after >>= λ vs. ok ((len, vs), b) in
    if len == 0 then ok ((0, []), a) else found
