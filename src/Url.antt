-- ===== src/Url.antt =====
-- The URL codec of `StringUtil` (serverframework/util/util.cc). A string is the list of its bytes,
-- each as `unsigned char`. The string `ss`, which the code makes at the first byte that changes, is
-- an `Option`; `seen` is the part of the input before the pointer `c`.
pub mod Reference
pub mod RoundTrip
pub mod Tests
use Prim.Native.Nat.{bit_and, bit_or}
use my_server_framework.Prelude.{
  ℕ, ◌+◌, ◌-◌, ◌*◌, ◌/◌, ◌^◌, ◌%◌, Bool, true, false, ◌&&◌, ◌||◌, not, Option, none, some, List, [],
  ◌∷◌, ◌++◌, if◌then◌else◌, leb, ◌==◌, get_or, replicate,
}

-- `uri_chars`: its first half, and the second, which is zero.
abbrev pub ascii_chars : List ℕ
ascii_chars =
    0 ∷ 0 ∷ 0 ∷ 0 ∷ 0 ∷ 0 ∷ 0 ∷ 0 ∷ 0 ∷ 0 ∷ 0 ∷ 0 ∷ 0 ∷ 0 ∷ 0 ∷ 0 ∷ 0 ∷ 0 ∷ 0 ∷ 0 ∷ 0 ∷ 0 ∷ 0 ∷ 0
    ∷ 0 ∷ 0 ∷ 0 ∷ 0 ∷ 0 ∷ 0 ∷ 0 ∷ 0 ∷ 0 ∷ 0 ∷ 0 ∷ 0 ∷ 0 ∷ 0 ∷ 0 ∷ 0 ∷ 0 ∷ 0 ∷ 0 ∷ 0 ∷ 0 ∷ 1 ∷ 1 ∷ 0
    ∷ 1 ∷ 1 ∷ 1 ∷ 1 ∷ 1 ∷ 1 ∷ 1 ∷ 1 ∷ 1 ∷ 1 ∷ 0 ∷ 0 ∷ 0 ∷ 1 ∷ 0 ∷ 0 ∷ 0 ∷ 1 ∷ 1 ∷ 1 ∷ 1 ∷ 1 ∷ 1 ∷ 1
    ∷ 1 ∷ 1 ∷ 1 ∷ 1 ∷ 1 ∷ 1 ∷ 1 ∷ 1 ∷ 1 ∷ 1 ∷ 1 ∷ 1 ∷ 1 ∷ 1 ∷ 1 ∷ 1 ∷ 1 ∷ 1 ∷ 1 ∷ 0 ∷ 0 ∷ 0 ∷ 0 ∷ 1
    ∷ 0 ∷ 1 ∷ 1 ∷ 1 ∷ 1 ∷ 1 ∷ 1 ∷ 1 ∷ 1 ∷ 1 ∷ 1 ∷ 1 ∷ 1 ∷ 1 ∷ 1 ∷ 1 ∷ 1 ∷ 1 ∷ 1 ∷ 1 ∷ 1 ∷ 1 ∷ 1 ∷ 1
    ∷ 1 ∷ 1 ∷ 1 ∷ 0 ∷ 0 ∷ 0 ∷ 1 ∷ 0 ∷ []

abbrev pub high_chars : List ℕ
high_chars = replicate 128 0

abbrev pub uri_chars : ℕ → ℕ
uri_chars c = if leb c 127 then get_or ascii_chars c 0 else get_or high_chars (c - 128) 0

-- `CHAR_IS_UNRESERVED`
unfoldable pub is_unreserved : ℕ → Bool
is_unreserved c = not (uri_chars c == 0)

-- The entries of `xdigit_chars` up to `f`; those after it are zero.
abbrev pub xdigit_table : List ℕ
xdigit_table =
    0 ∷ 0 ∷ 0 ∷ 0 ∷ 0 ∷ 0 ∷ 0 ∷ 0 ∷ 0 ∷ 0 ∷ 0 ∷ 0 ∷ 0 ∷ 0 ∷ 0 ∷ 0 ∷ 0 ∷ 0 ∷ 0 ∷ 0 ∷ 0 ∷ 0 ∷ 0 ∷ 0
    ∷ 0 ∷ 0 ∷ 0 ∷ 0 ∷ 0 ∷ 0 ∷ 0 ∷ 0 ∷ 0 ∷ 0 ∷ 0 ∷ 0 ∷ 0 ∷ 0 ∷ 0 ∷ 0 ∷ 0 ∷ 0 ∷ 0 ∷ 0 ∷ 0 ∷ 0 ∷ 0 ∷ 0
    ∷ 0 ∷ 1 ∷ 2 ∷ 3 ∷ 4 ∷ 5 ∷ 6 ∷ 7 ∷ 8 ∷ 9 ∷ 0 ∷ 0 ∷ 0 ∷ 0 ∷ 0 ∷ 0 ∷ 0 ∷ 10 ∷ 11 ∷ 12 ∷ 13 ∷ 14
    ∷ 15 ∷ 0 ∷ 0 ∷ 0 ∷ 0 ∷ 0 ∷ 0 ∷ 0 ∷ 0 ∷ 0 ∷ 0 ∷ 0 ∷ 0 ∷ 0 ∷ 0 ∷ 0 ∷ 0 ∷ 0 ∷ 0 ∷ 0 ∷ 0 ∷ 0 ∷ 0 ∷ 0
    ∷ 0 ∷ 0 ∷ 0 ∷ 10 ∷ 11 ∷ 12 ∷ 13 ∷ 14 ∷ 15 ∷ 0 ∷ 0 ∷ 0 ∷ 0 ∷ 0 ∷ 0 ∷ 0 ∷ 0 ∷ 0 ∷ 0 ∷ 0 ∷ 0 ∷ 0
    ∷ 0 ∷ 0 ∷ 0 ∷ 0 ∷ 0 ∷ 0 ∷ 0 ∷ 0 ∷ 0 ∷ 0 ∷ 0 ∷ 0 ∷ []

unfoldable pub xdigit_chars : ℕ → ℕ
xdigit_chars c = get_or xdigit_table c 0

-- `isxdigit`, in the C locale.
unfoldable pub isxdigit : ℕ → Bool
isxdigit c = (leb 48 c && leb c 57) || (leb 65 c && leb c 70) || (leb 97 c && leb c 102)

-- `hexdigits`, the string "0123456789ABCDEF".
unfoldable pub hexdigits : ℕ → ℕ
hexdigits d =
    get_or (48 ∷ 49 ∷ 50 ∷ 51 ∷ 52 ∷ 53 ∷ 54 ∷ 55 ∷ 56 ∷ 57 ∷ 65 ∷ 66 ∷ 67 ∷ 68 ∷ 69 ∷ 70 ∷ []) d 0

-- `if (!ss) { ss = new std::string; ss->append(str.c_str(), c - str.c_str()); }`
abbrev pub opened : List ℕ → Option (List ℕ) → List ℕ
opened seen none = seen
opened seen (some out) = out

-- The bytes for one byte outside of the unreserved ones.
unfoldable pub escape : Bool → ℕ → List ℕ
escape space_as_plus c =
    if c == 32 && space_as_plus
    then 43 ∷ []
    else 37 ∷ hexdigits (c / 2 ^ 4) ∷ hexdigits (c % 2 ^ 4) ∷ []

-- `ss` after one byte that is copied only where `ss` is there.
abbrev pub kept : Option (List ℕ) → ℕ → Option (List ℕ)
kept none c = none
kept (some out) c = some (out ++ (c ∷ []))

-- The loop of `UrlEncode`, and its return.
unfoldable pub encode_loop : Bool → List ℕ → Option (List ℕ) → List ℕ → List ℕ
encode_loop p seen ss [] = opened seen ss
encode_loop p seen ss (c ∷ rest) =
    let ss' = if not (is_unreserved c) then some (opened seen ss ++ escape p c) else kept ss c in
    encode_loop p (seen ++ (c ∷ [])) ss' rest

unfoldable pub url_encode : List ℕ → Bool → List ℕ
url_encode str space_as_plus = encode_loop space_as_plus [] none str

-- One byte that no escape begins at: a plus sign, or any other.
unfoldable pub plain : Bool → List ℕ → Option (List ℕ) → ℕ → Option (List ℕ)
plain p seen ss c = if c == 43 && p then some (opened seen ss ++ (32 ∷ [])) else kept ss c

-- Whether a byte and the two after it are an escape that the loop decodes.
unfoldable pub is_escape : Bool → ℕ → ℕ → ℕ → Bool
is_escape p c a b = not (c == 43 && p) && c == 37 && isxdigit a && isxdigit b

-- `xdigit_chars[a] << 4 | xdigit_chars[b]`, as a char.
unfoldable pub unescape : ℕ → ℕ → ℕ
unescape a b = (xdigit_chars a * 2 ^ 4 + xdigit_chars b) % 2 ^ 8

-- The loop of `UrlDecode`, and its return. An escape is decoded only if it ends within the string.
unfoldable pub decode_loop : Bool → List ℕ → Option (List ℕ) → List ℕ → List ℕ
decode_loop p seen ss [] = opened seen ss
decode_loop p seen ss (c ∷ []) = opened (seen ++ (c ∷ [])) (plain p seen ss c)
decode_loop p seen ss (c ∷ a ∷ []) =
    opened (seen ++ (c ∷ a ∷ [])) (plain p (seen ++ (c ∷ [])) (plain p seen ss c) a)
decode_loop p seen ss (c ∷ a ∷ b ∷ rest) = elim (is_escape p c a b) [
  | true ↦
      decode_loop p (seen ++ (c ∷ a ∷ b ∷ [])) (some (opened seen ss ++ (unescape a b ∷ []))) rest
  | false ↦ decode_loop p (seen ++ (c ∷ [])) (plain p seen ss c) (a ∷ b ∷ rest)
]

unfoldable pub url_decode : List ℕ → Bool → List ℕ
url_decode str space_as_plus = decode_loop space_as_plus [] none str
