-- ===== src/Stream.antt =====
-- `Stream` (serverframework/util/stream.cc): `ReadFixSize` and `WriteFixSize`, over a `read` and a
-- `write` of a class that derives from it, which are parameters on a state of theirs. `none` is a
-- loop that is out of rounds.
pub mod Whole
pub mod Tests
use my_server_framework.Prelude.{
  ℕ, zero, suc, ◌-◌, ◌/◌, ◌%◌, ◌^◌, Option, none, some, List, [], ◌∷◌, ◌++◌, if◌then◌else◌, ◌==◌,
  length, drop,
}

-- What `read` and `write` return: a number of bytes, for `read` the bytes themselves, or a number
-- below zero, of which the absolute value is given.
pub data Len (A : Type 0) : Type 0 where
  moved : A → Len A
  failed : ℕ → Len A

-- An `int`.
pub data Returned : Type 0 where
  returned : ℕ → Returned
  negative : ℕ → Returned

-- `return length;` from a `size_t` to an `int`.
abbrev pub as_int : ℕ → Returned
as_int n = let m = n % 2 ^ 32 in if m / 2 ^ 31 == 0 then returned m else negative (2 ^ 32 - m)

module _ {S : Type 0} (read : S → ℕ → Len (List ℕ) × S) where
  -- The loop, with `left` bytes to go and what the buffer has; what `read` returns beyond `left` ends
  -- it too.
  unfoldable pub read_loop : ℕ → ℕ → S → ℕ → List ℕ → Option (Returned × List ℕ × S)
  read_loop fuel whole s zero buffer = some (as_int whole, buffer, s)
  read_loop zero whole s (suc left) buffer = none
  read_loop (suc fuel) whole s (suc left) buffer =
      let r = read s (suc left) in
      elim r.0 [
        | failed e ↦ some (negative e, buffer, r.1)
        | moved xs ↦ elim xs [
          | [] ↦ some (returned 0, buffer, r.1)
          | y ∷ ys ↦ read_loop fuel whole r.1 (left - length ys) (buffer ++ (y ∷ ys))
        ]
      ]

  -- `ReadFixSize`
  abbrev pub read_fix_size : S → ℕ → Option (Returned × List ℕ × S)
  read_fix_size s n = read_loop n n s n []

module _ {S : Type 0} (write : S → List ℕ → Len ℕ × S) where
  -- The loop, with the bytes to go.
  unfoldable pub write_loop : ℕ → ℕ → S → List ℕ → Option (Returned × S)
  write_loop fuel whole s [] = some (as_int whole, s)
  write_loop zero whole s (b ∷ bs) = none
  write_loop (suc fuel) whole s (b ∷ bs) =
      let r = write s (b ∷ bs) in
      elim r.0 [
        | failed e ↦ some (negative e, r.1)
        | moved n ↦ elim n [
          | zero ↦ some (returned 0, r.1)
          | suc m ↦ write_loop fuel whole r.1 (drop m bs)
        ]
      ]

  -- `WriteFixSize`
  abbrev pub write_fix_size : S → List ℕ → Option (Returned × S)
  write_fix_size s buffer = write_loop (length buffer) (length buffer) s buffer

-- `ReadFixSize` and `WriteFixSize` with a `ByteArray`, which is part of the state.
module _ {S : Type 0} (move : S → ℕ → Len ℕ × S) where
  unfoldable pub move_loop : ℕ → ℕ → S → ℕ → Option (Returned × S)
  move_loop fuel whole s zero = some (as_int whole, s)
  move_loop zero whole s (suc left) = none
  move_loop (suc fuel) whole s (suc left) =
      let r = move s (suc left) in
      elim r.0 [
        | failed e ↦ some (negative e, r.1)
        | moved n ↦ elim n [
          | zero ↦ some (returned 0, r.1)
          | suc m ↦ move_loop fuel whole r.1 (left - m)
        ]
      ]

  abbrev pub move_fix_size : S → ℕ → Option (Returned × S)
  move_fix_size s n = move_loop n n s n
