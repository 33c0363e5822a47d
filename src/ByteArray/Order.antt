-- ===== src/ByteArray/Order.antt =====
-- No operation but `SetIsLittleEndian` changes the byte order of a `ByteArray`.
use my_server_framework.Prelude.{ℕ, ◌≡◌, List, arith, length}
use my_server_framework.ByteArray.Chain.{ok, Block}
use my_server_framework.ByteArray.Buffer.{
  ByteArray, read, write, set_position, add_capacity, link_nodes,
}

pub endian-read :
    (a : ByteArray) (n : ℕ) {xs : List ℕ} {b : ByteArray}
    → read a n ≡ ok (xs, b)
    → b.endian ≡ a.endian
unfolding read
endian-read a n h = ground arith

link_nodes-endian :
    (a : ByteArray) (fresh : List Block) (old_cap : ℕ)
    → (link_nodes a fresh old_cap).endian ≡ a.endian
unfolding link_nodes
link_nodes-endian a fresh old_cap = ground arith

add_capacity-endian : (a : ByteArray) (n : ℕ) → (add_capacity n a).endian ≡ a.endian
unfolding add_capacity
add_capacity-endian a n = ground arith

pub endian-write :
    (a : ByteArray) (bs : List ℕ) {b : ByteArray} → write a bs ≡ ok b → b.endian ≡ a.endian
unfolding write
endian-write a bs h = ground (arith, add_capacity-endian a (length bs))

pub endian-set_position :
    (a : ByteArray) (p : ℕ) {b : ByteArray} → set_position a p ≡ ok b → b.endian ≡ a.endian
unfolding set_position
endian-set_position a p h = ground arith
