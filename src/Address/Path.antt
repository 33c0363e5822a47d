-- ===== src/Address/Path.antt =====
-- The path of a `UnixAddress` (serverframework/net/address.cc).
use my_server_framework.Prelude.{
  ℕ, suc, ◌+◌, ◌-◌, ◌≤◌, ◌<◌, ◌≡◌, refl, sym, ap, ap₂, ◌∙◌, true, false, Bool-cases, inl, inr,
  Option, none, some, List, [], ◌∷◌, ◌++◌, append-nil, append_assoc, length, length-append, ltb,
  ◌==◌, take, All, arith,
}
use my_server_framework.Address.Ipv6.{repeat}
use my_server_framework.Address.Written.{UnixAddress, new_unix_address, c_str, get_path}

-- The path of an address that was made.
abbrev pub shown : Option UnixAddress → Option (List ℕ)
shown none = none
shown (some a) = some (get_path a)

take_left : (xs ys : List ℕ) → take (length xs) (xs ++ ys) ≡ xs
take_left [] ys = refl
take_left (x ∷ xs) ys = ap (λ r. x ∷ r) (take_left xs ys)

take_whole : (xs : List ℕ) → take (length xs + 1) (xs ++ (0 ∷ [])) ≡ xs ++ (0 ∷ [])
take_whole xs =
    ap₂ (λ n zs. take n zs) (sym (length-append xs (0 ∷ []))) (sym (append-nil (xs ++ (0 ∷ []))))
    ∙ take_left (xs ++ (0 ∷ [])) []

c_str-append : (xs ys : List ℕ) → All (λ c. (c == 0) ≡ false) xs → c_str (xs ++ (0 ∷ ys)) ≡ xs
c_str-append [] ys h = refl
c_str-append (x ∷ xs) ys h = rw h.0 (ap (λ r. x ∷ r) (c_str-append xs ys h.1))

get_path-named :
    (c len : ℕ) (rest : List ℕ)
    → (c == 0) ≡ false
    → get_path (record { sun_path = c ∷ rest; len = len }) ≡ c_str (c ∷ rest)
unfolding get_path
get_path-named c len rest h = elim (Bool-cases (ltb 2 len)) [
  | inl y ↦ rw (get_path, y, h) refl
  | inr n ↦ rw (get_path, n) refl
]

get_path-abstract :
    (len : ℕ) (rest : List ℕ)
    → get_path (record { sun_path = 0 ∷ rest; len = suc len + 2 }) ≡ 92 ∷ 48 ∷ take len rest
unfolding get_path
get_path-abstract len rest =
    let long : ltb 2 (suc len + 2) ≡ true = ground arith in
    let left : suc len + 2 - 2 - 1 ≡ len = omega arith in rw (get_path, long, left) refl

named_path :
    (c : ℕ) (cs : List ℕ)
    → All (λ x. (x == 0) ≡ false) (c ∷ cs)
    → length (c ∷ cs) + 1 ≤ 108
    → shown (new_unix_address (c ∷ cs)) ≡ some (c ∷ cs)
unfolding new_unix_address
named_path c cs h small =
    let n : ℕ = length (c ∷ cs) + 1 in
    let zeros : List ℕ = repeat (108 - n) 0 in
    let fits : ltb 108 n ≡ false = ground (arith, small) in
    let address : UnixAddress = record {
      sun_path = ((c ∷ cs) ++ (0 ∷ [])) ++ zeros;
      len = n + 2;
    } in
    let made : new_unix_address (c ∷ cs) ≡ some address =
      rw (new_unix_address, h.0, fits, take_whole (c ∷ cs)) refl in
    ap shown made
    ∙ ap some (
        get_path-named c (n + 2) ((cs ++ (0 ∷ [])) ++ zeros) h.0
        ∙ ap c_str (append_assoc (c ∷ cs) (0 ∷ []) zeros)
        ∙ c_str-append (c ∷ cs) zeros h)

abstract_path :
    (cs : List ℕ) → length (0 ∷ cs) ≤ 108 → shown (new_unix_address (0 ∷ cs)) ≡ some (92 ∷ 48 ∷ cs)
unfolding new_unix_address
abstract_path cs small =
    let n : ℕ = length (0 ∷ cs) in
    let zeros : List ℕ = repeat (108 - n) 0 in
    let fits : ltb 108 n ≡ false = ground (arith, small) in
    let address : UnixAddress = record { sun_path = 0 ∷ (cs ++ zeros); len = n + 2 } in
    let made : new_unix_address (0 ∷ cs) ≡ some address =
      rw (new_unix_address, fits, take_left cs (0 ∷ [])) refl in
    ap shown made
    ∙ ap some
        (get_path-abstract (length cs) (cs ++ zeros) ∙ ap (λ r. 92 ∷ 48 ∷ r) (take_left cs zeros))

long_path : (path : List ℕ) → 108 < length path → new_unix_address path ≡ none
unfolding new_unix_address
long_path [] h = absurd (omega (arith, h))
long_path (c ∷ cs) h = elim (Bool-cases (c == 0)) [
  | inl y ↦
      let long : ltb 108 (length (c ∷ cs)) ≡ true = ground (arith, h) in
      rw (new_unix_address, y, long) refl
  | inr n ↦
      let long : ltb 108 (length (c ∷ cs) + 1) ≡ true = ground (arith, h) in
      rw (new_unix_address, n, long) refl
]

-- Where a path is not empty, has no NUL and is shorter than 108 bytes, its address has that path, and with
-- a NUL for its first byte, the address shows `\0` and then the rest; a path of more than 108 bytes is
-- refused.
get_path-new_unix_address :
    (c : ℕ) (cs long : List ℕ)
    → All (λ x. (x == 0) ≡ false) (c ∷ cs)
    → length (c ∷ cs) + 1 ≤ 108
    → 108 < length long
    → (shown (new_unix_address (c ∷ cs)) ≡ some (c ∷ cs))
      × (shown (new_unix_address (0 ∷ cs)) ≡ some (92 ∷ 48 ∷ cs))
      × (new_unix_address long ≡ none)
get_path-new_unix_address c cs long h small over =
    (named_path c cs h small, abstract_path cs (omega (arith, small)), long_path long over)
