-- ===== src/ByteArray/Chain/Laws.antt =====
-- What the block loops do to the bytes of a chain, read as one flat list.
use my_server_framework.Prelude.{
  ℕ, zero, suc, ◌+◌, ◌-◌, ◌*◌, ◌≤◌, ◌<◌, ◌≡◌, refl, ap, ◌∙◌, sym, List, [], ◌∷◌, ◌++◌, arith,
  length, take, drop, inl, inr, true, leb, ltb, ◌==◌, Bool-cases, length-append, length-take,
  length-drop, append_assoc, append-nil,
}
use my_server_framework.Prelude.Splice.{
  splice, splice-append_le, splice_across, length-splice, take-drop-append_le, take-drop_across,
}
use my_server_framework.ByteArray.Chain.{
  Block, Result, ok, Moved, past, copy_in, Fetched, fetched_past, copy_out, seek,
}

-- The bytes of a chain in order.
abbrev pub flat : List Block → List ℕ
flat [] = []
flat (b ∷ bs) = b ++ flat bs

-- Every block has the size `n`.
abbrev pub Sized : ℕ → List Block → Type 0
Sized n [] = Unit {0}
Sized n (b ∷ bs) = (length b ≡ n) × Sized n bs

pub length-flat : (n : ℕ) (bs : List Block) → Sized n bs → length (flat bs) ≡ length bs * n
length-flat n [] h = omega arith
length-flat n (b ∷ bs) h = omega (arith, length-append b (flat bs), length-flat n bs h.1, h.0)

pub flat-append : (xs ys : List Block) → flat (xs ++ ys) ≡ flat xs ++ flat ys
flat-append [] ys = refl
flat-append (x ∷ xs) ys = simp (flat-append xs ys, append_assoc)

pub Sized-append : (n : ℕ) (xs ys : List Block) → Sized n xs → Sized n ys → Sized n (xs ++ ys)
Sized-append n [] ys h k = k
Sized-append n (x ∷ xs) ys h k = (h.0, Sized-append n xs ys h.1 k)

-- Where a walk over a chain of blocks of size `n`, begun at its start, stands after `v` bytes.
pub record At (n v : ℕ) (m : Moved) : Type 0 where
  pub done_sized : Sized n m.0
  pub rest_sized : Sized n m.1
  pub below : length m.0 * n ≤ v
  pub above : v < length m.0 * n + n

-- `copy_in` writes the bytes over the flat chain, and stops in the block of the next byte.
pub record CopiedIn (n npos : ℕ) (bs : List ℕ) (chain : List Block) (r : Result Moved)
    : Type 0 where
  pub moved : Moved
  pub returns : r ≡ ok moved
  pub at : At n (npos + length bs) moved
  pub blocks : length moved.0 + length moved.1 ≡ length chain
  pub bytes : flat moved.0 ++ flat moved.1 ≡ splice npos bs (flat chain)

past-CopiedIn :
    (n npos : ℕ) (bs : List ℕ) (b : Block) (rest : List Block) (r : Result Moved)
    → length b ≡ n
    → npos < n
    → n < npos + length bs
    → CopiedIn n 0 (drop (length b - npos) bs) rest r
    → let part = splice npos (take (length b - npos) bs) b in
      CopiedIn n npos bs (b ∷ rest) (past part r)
past-CopiedIn n npos bs b rest r s h k c = record {
  moved = (splice npos (take (length b - npos) bs) b ∷ c.moved.0, c.moved.1);
  returns = rw c.returns;
  at = record {
    done_sized = (size_kept, c.at.done_sized);
    rest_sized = c.at.rest_sized;
    below = omega (arith, c.at.below, length-drop (length b - npos) bs);
    above = omega (arith, c.at.above, length-drop (length b - npos) bs);
  };
  blocks = omega (arith, c.blocks);
  bytes =
      append_assoc (splice npos (take (length b - npos) bs) b) (flat c.moved.0) (flat c.moved.1)
      ∙ rw c.bytes (sym (splice_across npos bs b (flat rest) (omega arith) (omega arith)));
}
  where
    size_kept : length (splice npos (take (length b - npos) bs) b) ≡ n
    size_kept =
        length-splice npos (take (length b - npos) bs) b
          (omega (arith, length-take (length b - npos) bs))
        ∙ s

pub copy_in-CopiedIn :
    (n npos : ℕ) (bs : List ℕ) (chain : List Block)
    → Sized n chain
    → npos < n
    → npos + length bs ≤ length chain * n
    → 0 < length bs
    → CopiedIn n npos bs chain (copy_in npos bs chain)
unfolding copy_in
copy_in-CopiedIn n npos [] chain s h k p = absurd (omega arith)
copy_in-CopiedIn n npos (x ∷ xs) [] s h k p = absurd (omega arith)
copy_in-CopiedIn n npos (x ∷ xs) (b ∷ rest) s h k p =
    elim (Bool-cases (leb (length bs) (length b - npos))) [
      | inl fits ↦ elim (Bool-cases (length b == npos + length bs)) [
        | inl full ↦
            rw (fits, full)
              (record {
                moved = (splice npos bs b ∷ [], rest);
                returns = refl;
                at = record {
                  done_sized = (size_kept fits, tt);
                  rest_sized = s.1;
                  below = ground (arith, s.0);
                  above = ground (arith, s.0);
                };
                blocks = omega arith;
                bytes = rw append-nil (sym (splice-append_le npos bs b (flat rest) (inside fits)));
              })
        | inr short ↦
            rw (fits, short)
              (record {
                moved = ([], splice npos bs b ∷ rest);
                returns = refl;
                at = record {
                  done_sized = tt;
                  rest_sized = (size_kept fits, s.1);
                  below = ground (arith, s.0);
                  above = ground (arith, s.0);
                };
                blocks = omega arith;
                bytes = sym (splice-append_le npos bs b (flat rest) (inside fits));
              })
      ]
      | inr over ↦ rw over (
          past-CopiedIn n npos bs b rest _ s.0 h (ground (arith, s.0)) (
            copy_in-CopiedIn n 0 (drop (length b - npos) bs) rest s.1 (omega arith)
              (omega (arith, s.0, length-drop (length b - npos) bs))
              (ground (arith, s.0, length-drop (length b - npos) bs))))
    ]
  where
    bs : List ℕ
    bs = x ∷ xs

    inside : leb (length bs) (length b - npos) ≡ true → npos + length bs ≤ length b
    inside e = ground (arith, s.0)

    size_kept : leb (length bs) (length b - npos) ≡ true → length (splice npos bs b) ≡ n
    size_kept e = length-splice npos bs b (inside e) ∙ s.0

-- A walk that moves `cur_` and changes no block.
pub record Walked (n v : ℕ) (chain : List Block) (m : Moved) : Type 0 where
  pub at : At n v m
  pub same : m.0 ++ m.1 ≡ chain

-- `seek` stops in the block of the byte at `v`, or past the last block.
pub seek-Walked :
    (n v : ℕ) (chain : List Block)
    → Sized n chain
    → 0 < n
    → 0 < length chain
    → v ≤ length chain * n
    → (m : Moved) × (seek v chain ≡ ok m) × Walked n v chain m
unfolding seek
seek-Walked n v [] s h k p = absurd (omega arith)
seek-Walked n v (b ∷ rest) s h k p = elim (Bool-cases (ltb (length b) v)) [
  | inl more ↦
      let (m, e, w) =
        seek-Walked n (v - length b) rest s.1 h (ground (arith, s.0)) (omega (arith, s.0)) in
      (
        (b ∷ m.0, m.1),
        rw (more, e),
        record {
          at = record {
            done_sized = (s.0, w.at.done_sized);
            rest_sized = w.at.rest_sized;
            below = ground (arith, s.0, w.at.below);
            above = omega (arith, s.0, w.at.above);
          };
          same = ap (λ t. b ∷ t) w.same;
        },
      )
  | inr last ↦ elim (Bool-cases (v == length b)) [
    | inl full ↦ (
      (b ∷ [], rest),
      rw (last, full),
      record {
        at = record {
          done_sized = (s.0, tt);
          rest_sized = s.1;
          below = ground (arith, s.0);
          above = ground (arith, s.0);
        };
        same = refl;
      },
    )
    | inr short ↦ (
      ([], b ∷ rest),
      rw (last, short),
      record {
        at = record {
          done_sized = tt;
          rest_sized = s;
          below = omega arith;
          above = ground (arith, s.0);
        };
        same = refl;
      },
    )
  ]
]

pub record Fetches (n npos size : ℕ) (chain : List Block) (r : Result Fetched) : Type 0 where
  pub moved : Moved
  pub returns : r ≡ ok (take size (drop npos (flat chain)), moved.0, moved.1)
  pub walked : Walked n (npos + size) chain moved

past-Fetches :
    (n npos size : ℕ) (b : Block) (rest : List Block) (r : Result Fetched)
    → length b ≡ n
    → npos < n
    → n < npos + size
    → Fetches n 0 (size - (length b - npos)) rest r
    → Fetches n npos size (b ∷ rest) (fetched_past (take (length b - npos) (drop npos b)) b r)
past-Fetches n npos size b rest r s h k f = record {
  moved = (b ∷ f.moved.0, f.moved.1);
  returns = rw (f.returns, take-drop_across npos size b (flat rest) (omega arith) (omega arith));
  walked = record {
    at = record {
      done_sized = (s, f.walked.at.done_sized);
      rest_sized = f.walked.at.rest_sized;
      below = omega (arith, f.walked.at.below);
      above = omega (arith, f.walked.at.above);
    };
    same = ap (λ t. b ∷ t) f.walked.same;
  };
}

pub more_blocks : (m n v : ℕ) → n < v → v ≤ suc m * n → 0 < m
more_blocks zero n v h k = absurd (omega arith)
more_blocks (suc m) n v h k = omega arith

-- `copy_out` returns the bytes of the flat chain from `npos` on, and moves `cur_` past them.
pub copy_out-Fetches :
    (n npos size : ℕ) (chain : List Block)
    → Sized n chain
    → npos < n
    → 0 < length chain
    → npos + size ≤ length chain * n
    → Fetches n npos size chain (copy_out npos size chain)
unfolding copy_out
copy_out-Fetches n npos size [] s h p k = absurd (omega arith)
copy_out-Fetches n npos size (b ∷ rest) s h p k = elim (Bool-cases (size == 0)) [
  | inl none_left ↦ rw none_left (record {
    moved = ([], b ∷ rest);
    returns = rw (size_zero none_left);
    walked = record {
      at = record {
        done_sized = tt;
        rest_sized = s;
        below = omega arith;
        above = ground (arith, none_left);
      };
      same = refl;
    };
  })
  | inr some_left ↦ elim (Bool-cases (leb size (length b - npos))) [
    | inl fits ↦ elim (Bool-cases (length b == npos + size)) [
      | inl full ↦
          rw (some_left, fits, full)
            (record {
              moved = (b ∷ [], rest);
              returns = rw (take-drop-append_le npos size b (flat rest) (inside fits));
              walked = record {
                at = record {
                  done_sized = (s.0, tt);
                  rest_sized = s.1;
                  below = ground (arith, s.0);
                  above = ground (arith, s.0);
                };
                same = refl;
              };
            })
      | inr short ↦
          rw (some_left, fits, short)
            (record {
              moved = ([], b ∷ rest);
              returns = rw (take-drop-append_le npos size b (flat rest) (inside fits));
              walked = record {
                at = record {
                  done_sized = tt;
                  rest_sized = s;
                  below = omega arith;
                  above = ground (arith, s.0);
                };
                same = refl;
              };
            })
    ]
    | inr over ↦
        rw (some_left, over)
          (past-Fetches n npos size b rest _ s.0 h (ground (arith, s.0)) (
            copy_out-Fetches n 0 (size - (length b - npos)) rest s.1 (omega arith)
              (more_blocks (length rest) n (npos + size) (ground (arith, s.0)) k)
              (ground (arith, s.0))))
  ]
]
  where
    size_zero : size == 0 ≡ true → size ≡ 0
    size_zero e = ground arith

    inside : leb size (length b - npos) ≡ true → npos + size ≤ length b
    inside e = ground (arith, s.0)
