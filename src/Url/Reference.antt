-- ===== src/Url/Reference.antt =====
-- What `UrlEncode` and `UrlDecode` (serverframework/util/util.cc) compute, written without the
-- string that is made at the first change.
use my_server_framework.Prelude.{
  ℕ, ◌≡◌, refl, sym, ap, ◌∙◌, Bool, true, false, inl, inr, Bool-cases, ◌&&◌, Option, none, some,
  List, [], ◌∷◌, ◌++◌, if◌then◌else◌, append-nil, append_assoc, ◌==◌,
}
use my_server_framework.Url.{
  is_unreserved, escape, opened, kept, encode_loop, url_encode, plain, is_escape, unescape,
  decode_loop, url_decode,
}

-- Each byte in its encoded form.
abbrev pub encoded : Bool → List ℕ → List ℕ
encoded p [] = []
encoded p (c ∷ rest) = (if is_unreserved c then c ∷ [] else escape p c) ++ encoded p rest

abbrev pub plus : Bool → ℕ → ℕ
plus p c = if c == 43 && p then 32 else c

-- Each escape decoded, from the left, and each plus sign.
unfoldable pub decoded : Bool → List ℕ → List ℕ
decoded p [] = []
decoded p (c ∷ []) = plus p c ∷ []
decoded p (c ∷ a ∷ []) = plus p c ∷ plus p a ∷ []
decoded p (c ∷ a ∷ b ∷ rest) = elim (is_escape p c a b) [
  | true ↦ unescape a b ∷ decoded p rest
  | false ↦ plus p c ∷ decoded p (a ∷ b ∷ rest)
]

opened-kept :
    (seen : List ℕ) (ss : Option (List ℕ)) (c : ℕ)
    → opened (seen ++ (c ∷ [])) (kept ss c) ≡ opened seen ss ++ (c ∷ [])
opened-kept seen none c = refl
opened-kept seen (some out) c = refl

encode_loop-encoded :
    (p : Bool) (seen : List ℕ) (ss : Option (List ℕ)) (str : List ℕ)
    → encode_loop p seen ss str ≡ opened seen ss ++ encoded p str
unfolding encode_loop
encode_loop-encoded p seen ss [] = sym (append-nil (opened seen ss))
encode_loop-encoded p seen ss (c ∷ rest) = elim (Bool-cases (is_unreserved c)) [
  | inl is ↦
      rw (is, encode_loop-encoded p (seen ++ (c ∷ [])) (kept ss c) rest, opened-kept seen ss c)
        (append_assoc (opened seen ss) (c ∷ []) (encoded p rest))
  | inr not_ ↦
      rw (not_, encode_loop-encoded p (seen ++ (c ∷ [])) (some (opened seen ss ++ escape p c)) rest)
        (append_assoc (opened seen ss) (escape p c) (encoded p rest))
]

-- `UrlEncode`, which copies the string only from the first byte that changes, gives for every
-- string the encoded forms of its bytes one after the other.
pub url_encode-encoded : (str : List ℕ) (p : Bool) → url_encode str p ≡ encoded p str
unfolding url_encode
url_encode-encoded str p = encode_loop-encoded p [] none str

opened-plain :
    (p : Bool) (seen : List ℕ) (ss : Option (List ℕ)) (c : ℕ)
    → opened (seen ++ (c ∷ [])) (plain p seen ss c) ≡ opened seen ss ++ (plus p c ∷ [])
unfolding plain
opened-plain p seen ss c = elim (Bool-cases (c == 43 && p)) [
  | inl is ↦ rw is refl
  | inr not_ ↦ rw not_ (opened-kept seen ss c)
]

decode_loop-decoded :
    (p : Bool) (seen : List ℕ) (ss : Option (List ℕ)) (str : List ℕ)
    → decode_loop p seen ss str ≡ opened seen ss ++ decoded p str
unfolding decode_loop decoded
decode_loop-decoded p seen ss [] = sym (append-nil (opened seen ss))
decode_loop-decoded p seen ss (c ∷ []) = opened-plain p seen ss c
decode_loop-decoded p seen ss (c ∷ a ∷ []) = rw (sym (append_assoc seen (c ∷ []) (a ∷ []))) (
    opened-plain p (seen ++ (c ∷ [])) (plain p seen ss c) a
    ∙ ap (λ xs. xs ++ (plus p a ∷ [])) (opened-plain p seen ss c)
    ∙ append_assoc (opened seen ss) (plus p c ∷ []) (plus p a ∷ []))
decode_loop-decoded p seen ss (c ∷ a ∷ b ∷ rest) = elim (Bool-cases (is_escape p c a b)) [
  | inl is ↦
      rw
        (
          decode_loop,
          decoded,
          is,
          decode_loop-decoded p (seen ++ (c ∷ a ∷ b ∷ []))
              (some (opened seen ss ++ (unescape a b ∷ []))) rest,
        )
        (append_assoc (opened seen ss) (unescape a b ∷ []) (decoded p rest))
  | inr not_ ↦
      rw
        (
          decode_loop,
          decoded,
          not_,
          decode_loop-decoded p (seen ++ (c ∷ [])) (plain p seen ss c) (a ∷ b ∷ rest),
          opened-plain p seen ss c,
        )
        (append_assoc (opened seen ss) (plus p c ∷ []) (decoded p (a ∷ b ∷ rest)))
]

-- `UrlDecode`, which copies the string only from the first byte that changes, gives for every
-- string its bytes with each escape that is whole, and each plus sign where asked, decoded.
pub url_decode-decoded : (str : List ℕ) (p : Bool) → url_decode str p ≡ decoded p str
unfolding url_decode
url_decode-decoded str p = decode_loop-decoded p [] none str
