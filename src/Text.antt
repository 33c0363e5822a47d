-- ===== src/Text.antt =====
-- `StringUtil::Trim`, `TrimLeft` and `TrimRight`, and `FSUtil::Dirname` and `Basename`
-- (serverframework/util/util.cc), on the bytes of a string.
pub mod Search
pub mod Parts
pub mod Tests
use my_server_framework.Prelude.{
  ℕ, suc, ◌+◌, ◌-◌, Bool, true, false, ◌||◌, not, Option, none, some, List, [], ◌∷◌, if◌then◌else◌,
  ◌==◌, take, drop,
}

-- `find_first_of` a test, and the last; `none` is `npos`.
unfoldable pub find_first : (ℕ → Bool) → List ℕ → Option ℕ
find_first p [] = none
find_first p (x ∷ xs) =
    let later : Option ℕ = elim (find_first p xs) [ none ↦ none | some i ↦ some (suc i) ] in
    if p x then some 0 else later

unfoldable pub find_last : (ℕ → Bool) → List ℕ → Option ℕ
find_last p [] = none
find_last p (x ∷ xs) = elim (find_last p xs) [
  | none ↦ if p x then some 0 else none
  | some i ↦ some (suc i)
]

abbrev pub mem : ℕ → List ℕ → Bool
mem x [] = false
mem x (d ∷ ds) = x == d || mem x ds

abbrev pub not_of : List ℕ → ℕ → Bool
not_of delimit x = not (mem x delimit)

-- `Trim`; with `npos` for the end, `substr` takes the rest.
unfoldable pub trim : List ℕ → List ℕ → List ℕ
trim str delimit = elim (find_first (not_of delimit) str) [
  | none ↦ []
  | some begin ↦ elim (find_last (not_of delimit) str) [
    | none ↦ drop begin str
    | some end ↦ take (end - begin + 1) (drop begin str)
  ]
]

unfoldable pub trim_left : List ℕ → List ℕ → List ℕ
trim_left str delimit = elim (find_first (not_of delimit) str) [
  | none ↦ []
  | some begin ↦ drop begin str
]

unfoldable pub trim_right : List ℕ → List ℕ → List ℕ
trim_right str delimit = elim (find_last (not_of delimit) str) [
  | none ↦ []
  | some end ↦ take end str
]

-- `rfind('/')`
abbrev pub last_slash : List ℕ → Option ℕ
last_slash filename = find_last (λ c. c == 47) filename

unfoldable pub dirname : List ℕ → List ℕ
dirname [] = 46 ∷ []
dirname (c ∷ cs) = elim (last_slash (c ∷ cs)) [
  | none ↦ 46 ∷ []
  | some pos ↦ if pos == 0 then 47 ∷ [] else take pos (c ∷ cs)
]

unfoldable pub basename : List ℕ → List ℕ
basename [] = []
basename (c ∷ cs) = elim (last_slash (c ∷ cs)) [
  | none ↦ c ∷ cs
  | some pos ↦ drop (suc pos) (c ∷ cs)
]
