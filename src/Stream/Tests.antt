-- ===== src/Stream/Tests.antt =====
-- Streams (serverframework/util/stream.cc) that move one byte at a time.
use my_server_framework.Prelude.{ℕ, ◌≡◌, refl, arith, inl, inr, some, List, [], ◌∷◌, ◌++◌}
use my_server_framework.Stream.{
  Len, moved, failed, Returned, returned, read_loop, read_fix_size, write_fix_size,
}
use my_server_framework.Stream.Whole.{
  Reads, Writes, read_loop-ends, read_fix_size-content, write_fix_size-all,
}

abbrev read_one : List ℕ → ℕ → Len (List ℕ) × List ℕ
read_one [] n = (moved [], [])
read_one (y ∷ ys) n = (moved (y ∷ []), ys)

read_one-Reads : Reads read_one (λ s. s)
read_one-Reads [] n = inr (refl, refl)
read_one-Reads (y ∷ ys) n = inl (y, [], ys, refl, refl, omega arith)

abbrev write_one : List ℕ → List ℕ → Len ℕ × List ℕ
write_one s [] = (moved 0, s)
write_one s (b ∷ bs) = (moved 1, s ++ (b ∷ []))

write_one-Writes : Writes write_one (λ s. s)
write_one-Writes s b bs = (0, s ++ (b ∷ []), refl, refl)

abbrev reset : List ℕ → ℕ → Len (List ℕ) × List ℕ
reset s n = (failed 1, s)

abbrev five : List ℕ
five = 5 ∷ 6 ∷ 7 ∷ 8 ∷ 9 ∷ []

read_loop-ends_example : (r : Returned × List ℕ × List ℕ) × (read_loop reset 3 3 five 3 [] ≡ some r)
read_loop-ends_example = read_loop-ends reset 3 3 five 3 [] (omega arith)

read_fix_size-content_example :
    (s' : List ℕ) × (read_fix_size read_one five 3 ≡ some (returned 3, 5 ∷ 6 ∷ 7 ∷ [], s'))
    × (s' ≡ 8 ∷ 9 ∷ [])
read_fix_size-content_example =
    read_fix_size-content read_one (λ s. s) read_one-Reads five 3 (omega arith) (omega arith)

write_fix_size-all_example :
    (s' : List ℕ) × (write_fix_size write_one (4 ∷ []) five ≡ some (returned 5, s'))
    × (s' ≡ (4 ∷ []) ++ five)
write_fix_size-all_example =
    write_fix_size-all write_one (λ s. s) write_one-Writes (4 ∷ []) five (omega arith)
