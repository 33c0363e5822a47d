-- ===== src/ByteArray/Buffers.antt =====
-- The buffers that `GetReadBuffers` gives (serverframework/util/bytearray.cc): pieces of the nodes.
use my_server_framework.Prelude.{
  ℕ, zero, suc, ◌+◌, ◌-◌, ◌*◌, ◌%◌, ◌≤◌, ◌<◌, ◌≡◌, refl, sym, ap, ap₂, ◌∙◌, List, [], ◌∷◌, ◌++◌,
  arith, length, take, drop, get_or, true, false, leb, ltb, ◌==◌, Bool-cases, if◌then◌else◌, inl,
  inr, append-nil,
}
use my_server_framework.Prelude.Splice.{take-drop-append_le, take-drop_across}
use my_server_framework.ByteArray.Chain.{Block, ok, Iovec, gather}
use my_server_framework.ByteArray.Chain.Laws.{flat, Sized, more_blocks}
use my_server_framework.ByteArray.Buffer.{ByteArray, get_read_size, get_read_buffers}
use my_server_framework.ByteArray.Invariant.{IsValid, offset_eq, get_read_size_lem}
use my_server_framework.ByteArray.Refine.{content}
use my_server_framework.ByteArray.Reading.{fetched_bytes, after-nonempty}

-- The bytes in memory that buffers are of.
unfoldable pub bytes_of : List Block → List Iovec → List ℕ
bytes_of all [] = []
bytes_of all (v ∷ vs) = take v.len (drop v.offset (get_or all v.block [])) ++ bytes_of all vs

-- A chain stands in the blocks from the place `k` on.
abbrev pub Stands : List Block → ℕ → List Block → Type 0
Stands all k chain = (i : ℕ) → get_or all (k + i) [] ≡ get_or chain i []

Stands-next :
    (all : List Block) (k : ℕ) (b : Block) (rest : List Block)
    → Stands all k (b ∷ rest)
    → Stands all (k + 1) rest
Stands-next all k b rest s i =
    let place : k + 1 + i ≡ k + suc i = omega arith in ap (λ j. get_or all j []) place ∙ s (suc i)

Stands-here :
    (all : List Block) (k : ℕ) (b : Block) (rest : List Block)
    → Stands all k (b ∷ rest)
    → get_or all k [] ≡ b
Stands-here all k b rest s =
    let place : k ≡ k + 0 = omega arith in ap (λ j. get_or all j []) place ∙ s 0

-- The buffers of `size` bytes from `npos` on.
abbrev pub Gathers : List Block → ℕ → ℕ → ℕ → List Block → Type 0
Gathers all k npos size chain =
    (vs : List Iovec) × (gather k npos size chain ≡ ok vs)
    × (bytes_of all vs ≡ take size (drop npos (flat chain)))

gather-Gathers :
    (n k npos size : ℕ) (all chain : List Block)
    → Sized n chain
    → Stands all k chain
    → npos < n
    → 0 < length chain
    → npos + size ≤ length chain * n
    → Gathers all k npos size chain
unfolding gather bytes_of
gather-Gathers n k npos size all [] s st h p le = absurd (omega arith)
gather-Gathers n k npos size all (b ∷ rest) s st h p le = elim (Bool-cases (size == 0)) [
  | inl none_left ↦ (
    [],
    rw none_left refl,
    sym (ap (λ m. take m (drop npos (flat (b ∷ rest)))) (size_zero none_left)),
  )
  | inr some_left ↦ elim (Bool-cases (leb size (length b - npos))) [
    | inl fits ↦ (
      record { block = k; offset = npos; len = size } ∷ [],
      rw (some_left, fits) refl,
      ap (λ x. take size (drop npos x) ++ []) (Stands-here all k b rest st)
          ∙ append-nil (take size (drop npos b))
          ∙ sym (take-drop-append_le npos size b (flat rest) (inside fits)),
    )
    | inr over ↦
        let ncap = length b - npos in
        let later =
          gather-Gathers n (k + 1) 0 (size - ncap) all rest s.1 (Stands-next all k b rest st)
            (omega arith) (more_blocks (length rest) n (npos + size) (ground (arith, s.0)) le)
            (ground (arith, s.0)) in
        (
          record { block = k; offset = npos; len = ncap } ∷ later.0,
          rw (some_left, over, later.1) refl,
          ap₂ (λ x ys. take ncap (drop npos x) ++ ys) (Stands-here all k b rest st) later.2
              ∙ sym (
                  take-drop_across npos size b (flat rest) (omega (arith, s.0))
                    (ground (arith, s.0))),
        )
  ]
]
  where
    size_zero : size == 0 ≡ true → size ≡ 0
    size_zero e = ground arith

    inside : leb size (length b - npos) ≡ true → npos + size ≤ length b
    inside e = ground (arith, s.0)

Stands-after : (before after : List Block) → Stands (before ++ after) (length before) after
Stands-after [] after i = let e : 0 + i ≡ i = omega arith in ap (λ j. get_or after j []) e
Stands-after (b ∷ before) after i =
    let e : suc (length before) + i ≡ suc (length before + i) = omega arith in
    ap (λ j. get_or (b ∷ (before ++ after)) j []) e ∙ Stands-after before after i

some_buffers :
    (a : ByteArray) (n : ℕ)
    → IsValid a
    → 0 < n
    → a.position + n ≤ a.size
    → (vs : List Iovec) × (gather (length a.before) (a.position % a.base_size) n a.after ≡ ok vs)
      × (bytes_of (a.before ++ a.after) vs ≡ take n (drop a.position (content a)))
some_buffers a n v some_wanted fits =
    let offset = a.position - length a.before * a.base_size in
    let g =
      gather-Gathers a.base_size (length a.before) offset n (a.before ++ a.after) a.after
        v.after_sized (Stands-after a.before a.after) (omega (arith, v.below, v.above))
        (after-nonempty a v (omega (arith, v.size_le))) (omega (arith, v)) in
    (
      g.0,
      ap (λ o. gather (length a.before) o n a.after) (offset_eq a v) ∙ g.1,
      g.2 ∙ fetched_bytes a n v fits,
    )

abbrev pub answered : ByteArray → ℕ → ℕ
answered a wanted = if ltb (get_read_size a) wanted then get_read_size a else wanted

some_answer :
    (a : ByteArray) (wanted n : ℕ) (vs : List Iovec)
    → answered a wanted ≡ n
    → (n == 0) ≡ false
    → gather (length a.before) (a.position % a.base_size) n a.after ≡ ok vs
    → get_read_buffers a wanted ≡ ok (n, vs)
unfolding get_read_buffers
some_answer a wanted n vs e some_wanted g = rw (e, some_wanted, g) refl

no_answer :
    (a : ByteArray) (wanted : ℕ) → answered a wanted ≡ 0 → get_read_buffers a wanted ≡ ok (0, [])
unfolding get_read_buffers
no_answer a wanted e = rw e refl

buffers_lem :
    (a : ByteArray) (wanted n : ℕ)
    → IsValid a
    → answered a wanted ≡ n
    → a.position + n ≤ a.size
    → (vs : List Iovec) × (get_read_buffers a wanted ≡ ok (n, vs))
      × (bytes_of (a.before ++ a.after) vs ≡ take n (drop a.position (content a)))
unfolding bytes_of
buffers_lem a wanted zero v e fits = ([], no_answer a wanted e, refl)
buffers_lem a wanted (suc n) v e fits =
    let g = some_buffers a (suc n) v (omega arith) fits in
    (g.0, some_answer a wanted (suc n) g.0 e (ground arith) g.1, g.2)

-- What `GetReadBuffers` of a valid buffer gives: the number of bytes that are asked for, or of those to be
-- read if they are fewer, and pieces of the nodes whose bytes in memory, in order, are as many of the bytes
-- to be read, none of them copied.
pub get_read_buffers-bytes_of :
    (a : ByteArray) (wanted : ℕ)
    → IsValid a
    → let n = if ltb (a.size - a.position) wanted then a.size - a.position else wanted in
      (vs : List Iovec) × (get_read_buffers a wanted ≡ ok (n, vs))
      × (bytes_of (a.before ++ a.after) vs ≡ take n (drop a.position (content a)))
get_read_buffers-bytes_of a wanted v =
    let left : get_read_size a ≡ a.size - a.position = get_read_size_lem a v in
    let n = if ltb (a.size - a.position) wanted then a.size - a.position else wanted in
    let bound : n ≤ a.size - a.position = ground arith in
    buffers_lem a wanted n v (ap (λ (m : ℕ). if ltb m wanted then m else wanted) left)
      (omega (arith, bound, v.position_le))
