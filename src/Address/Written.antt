-- ===== src/Address/Written.antt =====
-- What addresses write (serverframework/net/address.cc): `Insert` of `IPv4Address` and `IPv6Address`, and
-- the path of `UnixAddress`. The digits that a stream writes are parameters. A group of an IPv6 address is
-- the number that `ByteswapOnLittleEndian` makes of it, which is zero where the group is.
use my_server_framework.Prelude.{
  ℕ, ◌+◌, ◌-◌, ◌/◌, ◌%◌, ◌^◌, Bool, true, false, not, ◌&&◌, ◌||◌, Option, none, some, List, [], ◌∷◌,
  ◌++◌, length, if◌then◌else◌, ltb, ◌==◌, get_or, take, drop,
}
use my_server_framework.Address.Ipv6.{repeat}

-- `Insert` of `IPv4Address`
unfoldable pub insert4 : (ℕ → List ℕ) → ℕ → ℕ → List ℕ
insert4 decimal addr port =
    decimal (addr / 2 ^ 24 % 256)
    ++ (46 ∷ decimal (addr / 2 ^ 16 % 256))
    ++ (46 ∷ decimal (addr / 2 ^ 8 % 256))
    ++ (46 ∷ decimal (addr % 256))
    ++ (58 ∷ decimal port)

abbrev pub is_zero_group : Option ℕ → Bool
is_zero_group none = false
is_zero_group (some g) = g == 0

abbrev pub is_some : Option ℕ → Bool
is_some none = false
is_some (some g) = true

-- The loop of `Insert` of `IPv6Address`, after the group before, if there is one, and `used_zeros`: what
-- is written, and `used_zeros` after it.
unfoldable pub insert_groups : (ℕ → List ℕ) → Option ℕ → Bool → List ℕ → List ℕ × Bool
insert_groups hex prev used [] = ([], used)
insert_groups hex prev used (g ∷ gs) =
    let skipped = insert_groups hex (some g) used gs in
    let gap = is_zero_group prev && not used in
    let rest = insert_groups hex (some g) (used || gap) gs in
    if g == 0 && not used then skipped else (
      (if gap then 58 ∷ [] else [])
          ++ ((if is_some prev then 58 ∷ [] else []) ++ (hex g ++ rest.0)),
      rest.1,
    )

unfoldable pub insert6 : (ℕ → List ℕ) → (ℕ → List ℕ) → List ℕ → ℕ → List ℕ
insert6 hex decimal groups port =
    let r = insert_groups hex none false groups in
    (91 ∷ r.0)
    ++ ((if not r.1 && get_or groups 7 0 == 0 then 58 ∷ 58 ∷ [] else [])
        ++ (93 ∷ 58 ∷ decimal port))

-- A `UnixAddress`: the 108 bytes of `sun_path`, and `length_`, of which two bytes are before them.
pub record UnixAddress : Type 0 where
  pub sun_path : List ℕ
  pub len : ℕ

abbrev pub starts_with_nul : List ℕ → Bool
starts_with_nul [] = false
starts_with_nul (c ∷ cs) = c == 0

-- The constructor from a path; `none` is the exception.
unfoldable pub new_unix_address : List ℕ → Option UnixAddress
new_unix_address path =
    let len = if starts_with_nul path then length path else length path + 1 in
    if ltb 108 len
    then none
    else some
        (record { sun_path = take len (path ++ (0 ∷ [])) ++ repeat (108 - len) 0; len = len + 2 })

-- The bytes of a C string.
abbrev pub c_str : List ℕ → List ℕ
c_str [] = []
c_str (c ∷ cs) = let rest = c_str cs in if c == 0 then [] else c ∷ rest

unfoldable pub get_path : UnixAddress → List ℕ
get_path a =
    if ltb 2 a.len && get_or a.sun_path 0 0 == 0
    then 92 ∷ 48 ∷ take (a.len - 2 - 1) (drop 1 a.sun_path)
    else c_str a.sun_path
