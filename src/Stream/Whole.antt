-- ===== src/Stream/Whole.antt =====
-- That `ReadFixSize` and `WriteFixSize` (serverframework/util/stream.cc) end, and move all bytes.
use my_server_framework.Prelude.{
  ℕ, zero, suc, ◌+◌, ◌-◌, ◌^◌, ◌≤◌, ◌<◌, ◌≡◌, ◌⊎◌, inl, inr, refl, sym, ap, ◌∙◌, arith, some, List,
  [], ◌∷◌, ◌++◌, length, take, drop, append-nil, append_assoc, length-append, length-drop,
  take-append-drop,
}
use my_server_framework.Prelude.Splice.{take-append_ge, drop-append_ge}
use my_server_framework.Stream.{
  Len, moved, failed, Returned, returned, negative, as_int, read_loop, read_fix_size, write_loop,
  write_fix_size,
}

as_int_lem : (n : ℕ) → n < 2 ^ 31 → as_int n ≡ returned n
as_int_lem n h = ground (arith, h)

-- What `read` documents: it gives the next bytes, one at least and no more than were asked for, or
-- none at the end.
abbrev pub Reads : {S : Type 0} → (S → ℕ → Len (List ℕ) × S) → (S → List ℕ) → Type 0
Reads {S} read content =
    (s : S) (n : ℕ)
    → ((y : ℕ) × (ys : List ℕ) × (s' : S) × (read s (suc n) ≡ (moved (y ∷ ys), s'))
        × (content s ≡ y ∷ ys ++ content s')
        × (length ys ≤ n))
      ⊎ ((content s ≡ []) × (read s (suc n) ≡ (moved [], s)))

Len-cases : {A : Type 0} (r : Len A) → ((a : A) × (r ≡ moved a)) ⊎ ((e : ℕ) × (r ≡ failed e))
Len-cases (moved a) = inl (a, refl)
Len-cases (failed e) = inr (e, refl)

module _ {S : Type 0} (read : S → ℕ → Len (List ℕ) × S) where
  -- Whatever `read` returns, `ReadFixSize` ends within a round for each byte that is asked for.
  pub read_loop-ends :
      (fuel whole : ℕ) (s : S) (left : ℕ) (buffer : List ℕ)
      → left ≤ fuel
      → (r : Returned × List ℕ × S) × (read_loop read fuel whole s left buffer ≡ some r)
  unfolding read_loop
  read_loop-ends fuel whole s zero buffer h = ((as_int whole, buffer, s), refl)
  read_loop-ends zero whole s (suc left) buffer h = absurd (omega (arith, h))
  read_loop-ends (suc fuel) whole s (suc left) buffer h = elim (Len-cases (read s (suc left)).0) [
    | inr (e, q) ↦ ((negative e, buffer, (read s (suc left)).1), rw (read_loop, q) refl)
    | inl ([], q) ↦ ((returned 0, buffer, (read s (suc left)).1), rw (read_loop, q) refl)
    | inl (y ∷ ys, q) ↦
        rw (read_loop, q)
          (read_loop-ends fuel whole (read s (suc left)).1 (left - length ys) (buffer ++ (y ∷ ys))
            (omega (arith, h)))
  ]

  -- The loop, with a `read` that gives the content in order.
  read_loop-content :
      (content : S → List ℕ)
      → Reads read content
      → (fuel whole : ℕ) (s : S) (left : ℕ) (buffer : List ℕ) → left ≤ fuel
      → left ≤ length (content s)
      → (s' : S) × (read_loop read fuel whole s left buffer
          ≡ some (as_int whole, buffer ++ take left (content s), s'))
        × (content s' ≡ drop left (content s))
  unfolding read_loop
  read_loop-content content law fuel whole s zero buffer h k =
      (s, ap (λ b. some (as_int whole, b, s)) (sym (append-nil buffer)), refl)
  read_loop-content content law zero whole s (suc left) buffer h k = absurd (omega (arith, h))
  read_loop-content content law (suc fuel) whole s (suc left) buffer h k = elim (law s left) [
    | inr (none_left, q) ↦
        let empty : length (content s) ≡ 0 = ap length none_left in absurd (omega (arith, k, empty))
    | inl (y, ys, s', q, c, n) ↦
        let l : length (content s) ≡ suc (length ys + length (content s')) =
          ap length c ∙ ap suc (length-append ys (content s')) in
        let (s'', e, d) =
          read_loop-content content law fuel whole s' (left - length ys) (buffer ++ (y ∷ ys))
            (omega (arith, h)) (omega (arith, k, l)) in
        let all : (buffer ++ (y ∷ ys)) ++ take (left - length ys) (content s')
            ≡ buffer ++ take (suc left) (content s) =
          append_assoc buffer (y ∷ ys) (take (left - length ys) (content s'))
          ∙ ap (λ xs. buffer ++ (y ∷ xs)) (sym (take-append_ge left ys (content s') n))
          ∙ ap (λ xs. buffer ++ take (suc left) xs) (sym c) in
        (
          s'',
          rw (read_loop, q, q) e ∙ ap (λ b. some (as_int whole, b, s'')) all,
          d ∙ sym (drop-append_ge left ys (content s') n) ∙ ap (drop (suc left)) (sym c),
        )
  ]

  -- Where `read` gives the content in order, some bytes at a time, and the content has as many bytes as
  -- are asked for, fewer than 2 ^ 31, `ReadFixSize` ends, returns their number and has just them in the
  -- buffer; the content left is the rest.
  pub read_fix_size-content :
      (content : S → List ℕ)
      → Reads read content
      → (s : S) (n : ℕ) → n ≤ length (content s)
      → n < 2 ^ 31
      → (s' : S) × (read_fix_size read s n ≡ some (returned n, take n (content s), s'))
        × (content s' ≡ drop n (content s))
  read_fix_size-content content law s n h k =
      let (s', e, d) = read_loop-content content law n n s n [] (omega arith) h in
      (s', e ∙ ap (λ r. some (r, take n (content s), s')) (as_int_lem n k), d)

-- What `write` documents: it takes the first bytes, one at least, and puts them at the end.
abbrev pub Writes : {S : Type 0} → (S → List ℕ → Len ℕ × S) → (S → List ℕ) → Type 0
Writes {S} write sunk =
    (s : S) (b : ℕ) (bs : List ℕ)
    → (m : ℕ) × (s' : S) × (write s (b ∷ bs) ≡ (moved (suc m), s'))
      × (sunk s' ≡ sunk s ++ (b ∷ take m bs))

module _ {S : Type 0} (write : S → List ℕ → Len ℕ × S) where
  write_loop-all :
      (sunk : S → List ℕ)
      → Writes write sunk
      → (fuel whole : ℕ) (s : S) (bytes : List ℕ) → length bytes ≤ fuel
      → (s' : S) × (write_loop write fuel whole s bytes ≡ some (as_int whole, s'))
        × (sunk s' ≡ sunk s ++ bytes)
  unfolding write_loop
  write_loop-all sunk law fuel whole s [] h = (s, refl, sym (append-nil (sunk s)))
  write_loop-all sunk law zero whole s (b ∷ bs) h = absurd (omega (arith, h))
  write_loop-all sunk law (suc fuel) whole s (b ∷ bs) h =
      let (m, s', q, more) = law s b bs in
      let (s'', e, d) =
        write_loop-all sunk law fuel whole s' (drop m bs) (omega (arith, h, length-drop m bs)) in
      (
        s'',
        rw (write_loop, q, q) e,
        d
            ∙ ap (λ xs. xs ++ drop m bs) more
            ∙ append_assoc (sunk s) (b ∷ take m bs) (drop m bs)
            ∙ ap (λ xs. sunk s ++ (b ∷ xs)) (take-append-drop m bs),
      )

  -- Where `write` takes some of the bytes given each time, `WriteFixSize` of fewer than 2 ^ 31 bytes
  -- ends, returns their number, and has put all of them in order.
  pub write_fix_size-all :
      (sunk : S → List ℕ)
      → Writes write sunk
      → (s : S) (bytes : List ℕ) → length bytes < 2 ^ 31
      → (s' : S) × (write_fix_size write s bytes ≡ some (returned (length bytes), s'))
        × (sunk s' ≡ sunk s ++ bytes)
  write_fix_size-all sunk law s bytes k =
      let (s', e, d) =
        write_loop-all sunk law (length bytes) (length bytes) s bytes (omega arith) in
      (s', e ∙ ap (λ r. some (r, s')) (as_int_lem (length bytes) k), d)
