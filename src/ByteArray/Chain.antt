-- ===== src/ByteArray/Chain.antt =====
-- The linked blocks of a `ByteArray` and the loops that walk them
-- (serverframework/util/bytearray.cc). The pointer `cur_` is a place between two blocks: the
-- blocks before it, and the blocks from it on; no block from it on is the null pointer.
pub mod Laws
use my_server_framework.Prelude.{
  ℕ, ◌+◌, ◌-◌, Option, none, some, List, [], ◌∷◌, ◌++◌, Bool, if◌then◌else◌, leb, ltb, ◌==◌, length,
  take, drop,
}
use my_server_framework.Prelude.Splice.{splice}

-- The `size` bytes at `ptr` of a `ByteArray::Node`; `next` is the rest of the list.
abbrev pub Block : Type 0
Block = List ℕ

-- What a member function does: a result, the exception `std::out_of_range`, a read through the null
-- pointer, a write past the end of a local array, or a signed overflow.
pub data Result {ℓ} (A : Type ℓ) : Type ℓ where
  ok : A → Result A
  out_of_range : Result A
  null_deref : Result A
  overrun : Result A
  overflow : Result A

infixl 5 ◌>>=◌
abbrev pub ◌>>=◌ {ℓ κ} : {A : Type ℓ} {B : Type κ} → Result A → (A → Result B) → Result B
ok a >>= f = f a
out_of_range >>= f = out_of_range
null_deref >>= f = null_deref
overrun >>= f = overrun
overflow >>= f = overflow

-- The blocks that `cur_` has moved past, and those from `cur_` on.
abbrev pub Moved : Type 0
Moved = List Block × List Block

-- `cur_ = cur_->next`, for the block given.
abbrev pub past : Block → Result Moved → Result Moved
past b (ok (done, rest)) = ok (b ∷ done, rest)
past b out_of_range = out_of_range
past b null_deref = null_deref
past b overrun = overrun
past b overflow = overflow

-- The loop of `write`: `bs` are the bytes of `buf` from `bpos` on.
unfoldable pub copy_in : ℕ → List ℕ → List Block → Result Moved
copy_in npos [] chain = ok ([], chain)
copy_in npos (x ∷ xs) [] = null_deref
copy_in npos (x ∷ xs) (b ∷ rest) =
    let size = length (x ∷ xs) in
    let ncap = length b - npos in
    let whole = splice npos (x ∷ xs) b in
    let part = splice npos (take ncap (x ∷ xs)) b in
    let next = past part (copy_in 0 (drop ncap (x ∷ xs)) rest) in
    if leb size ncap
    then (if length b == npos + size then ok (whole ∷ [], rest) else ok ([], whole ∷ rest))
    else next

abbrev pub Fetched : Type 0
Fetched = List ℕ × List Block × List Block

abbrev pub fetched_past : List ℕ → Block → Result Fetched → Result Fetched
fetched_past xs b (ok (ys, done, rest)) = ok (xs ++ ys, b ∷ done, rest)
fetched_past xs b out_of_range = out_of_range
fetched_past xs b null_deref = null_deref
fetched_past xs b overrun = overrun
fetched_past xs b overflow = overflow

-- The loop of `read`: the bytes copied to `buf`, and where `cur_` ends. `cur_->size` is read before
-- the loop and on every way into its next round, so a null `cur_` faults even for no byte at all.
unfoldable pub copy_out : ℕ → ℕ → List Block → Result Fetched
copy_out npos size [] = null_deref
copy_out npos size (b ∷ rest) =
    let ncap = length b - npos in
    let bytes = take size (drop npos b) in
    let part = take ncap (drop npos b) in
    let next = fetched_past part b (copy_out 0 (size - ncap) rest) in
    if size == 0
    then ok ([], [], b ∷ rest)
    else if leb size ncap
    then (if length b == npos + size then ok (bytes, b ∷ [], rest) else ok (bytes, [], b ∷ rest))
    else next

-- The loop of `SetPosition` from the root, and the step past a block that is full.
unfoldable pub seek : ℕ → List Block → Result Moved
seek v [] = null_deref
seek v (b ∷ rest) =
    let next = past b (seek (v - length b) rest) in
    if ltb (length b) v
    then next
    else if v == length b
    then ok (b ∷ [], rest)
    else ok ([], b ∷ rest)

-- An `iovec`: the place of its block among the blocks walked, the offset in it, and the length.
pub record Iovec : Type 0 where
  pub block : ℕ
  pub offset : ℕ
  pub len : ℕ

abbrev pub add_iovec : Iovec → Result (List Iovec) → Result (List Iovec)
add_iovec v (ok vs) = ok (v ∷ vs)
add_iovec v out_of_range = out_of_range
add_iovec v null_deref = null_deref
add_iovec v overrun = overrun
add_iovec v overflow = overflow

-- The loop of `GetReadBuffers` and `GetWriteBuffers`; `k` is the place of the first block.
unfoldable pub gather : ℕ → ℕ → ℕ → List Block → Result (List Iovec)
gather k npos len [] = null_deref
gather k npos len (b ∷ rest) =
    let ncap = length b - npos in
    let next =
      add_iovec (record { block = k; offset = npos; len = ncap })
        (gather (k + 1) 0 (len - ncap) rest) in
    if len == 0
    then ok []
    else if leb len ncap
    then ok (record { block = k; offset = npos; len = len } ∷ [])
    else next
