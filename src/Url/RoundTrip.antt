-- ===== src/Url/RoundTrip.antt =====
-- What `UrlEncode` (serverframework/util/util.cc) writes is read back by `UrlDecode`.
use my_server_framework.Prelude.{
  All, ℕ, zero, suc, ◌/◌, ◌%◌, ◌^◌, ◌<◌, ◌≡◌, ◌≢◌, refl, ap, subst, ◌∙◌, arith, Bool, true, false,
  inl, inr, Bool-cases, ◌&&◌, ◌||◌, not, List, [], ◌∷◌, ◌++◌, ◌==◌,
}
use my_server_framework.Url.{
  is_unreserved, escape, url_encode, isxdigit, hexdigits, xdigit_chars, is_escape, unescape,
  url_decode,
}
use my_server_framework.Url.Reference.{
  encoded, plus, decoded, url_encode-encoded, url_decode-decoded,
}

-- A test that holds of every number below a bound, by trying them all.
abbrev holds_below : ℕ → (ℕ → Bool) → Bool
holds_below zero p = true
holds_below (suc n) p = p n && holds_below n p

holds_below_at : (n : ℕ) (p : ℕ → Bool) (c : ℕ) → holds_below n p ≡ true → c < n → p c ≡ true
holds_below_at zero p c h l = absurd (omega arith)
holds_below_at (suc n) p c h l = elim (Bool-cases (c == n)) [
  | inl last ↦ subst (λ (d : ℕ). p d ≡ true) {x = n} {y = c} (ground arith) (ground arith)
  | inr below ↦ holds_below_at n p c (ground arith) (ground arith)
]

digits : holds_below 16 (λ d. isxdigit (hexdigits d) && xdigit_chars (hexdigits d) == d) ≡ true
unfolding isxdigit hexdigits xdigit_chars
digits = refl

reserved : holds_below 256 (λ c. not (is_unreserved c && (c == 37 || c == 43))) ≡ true
unfolding is_unreserved
reserved = refl

isxdigit-hexdigits : (d : ℕ) → d < 16 → isxdigit (hexdigits d) ≡ true
isxdigit-hexdigits d l = ground (
  arith,
  holds_below_at 16 (λ d. isxdigit (hexdigits d) && xdigit_chars (hexdigits d) == d) d digits l,
)

xdigit_chars-hexdigits : (d : ℕ) → d < 16 → xdigit_chars (hexdigits d) ≡ d
xdigit_chars-hexdigits d l = ground (
  arith,
  holds_below_at 16 (λ d. isxdigit (hexdigits d) && xdigit_chars (hexdigits d) == d) d digits l,
)

unescape-hexdigits :
    (c : ℕ) → c < 256 → unescape (hexdigits (c / 2 ^ 4)) (hexdigits (c % 2 ^ 4)) ≡ c
unfolding unescape
unescape-hexdigits c l =
    rw
      (
        xdigit_chars-hexdigits (c / 2 ^ 4) (omega arith),
        xdigit_chars-hexdigits (c % 2 ^ 4) (omega arith),
      )
      (omega arith)

is_escape-other : (p : Bool) (c a b : ℕ) → c ≢ 37 → is_escape p c a b ≡ false
unfolding is_escape
is_escape-other p c a b n = ground arith

is_escape-hexdigits :
    (p : Bool) (d e : ℕ) → d < 16 → e < 16 → is_escape p 37 (hexdigits d) (hexdigits e) ≡ true
unfolding is_escape
is_escape-hexdigits p d e k l = ground (arith, isxdigit-hexdigits d k, isxdigit-hexdigits e l)

-- A byte that begins no escape is decoded by itself.
decoded-cons :
    (p : Bool) (c : ℕ) (rest : List ℕ) → c ≢ 37 → decoded p (c ∷ rest) ≡ plus p c ∷ decoded p rest
unfolding decoded
decoded-cons p c [] n = refl
decoded-cons p c (a ∷ []) n = refl
decoded-cons p c (a ∷ b ∷ rest) n =
    let no_escape : is_escape p c a b ≡ false = is_escape-other p c a b n in
    rw (decoded, no_escape) refl

decoded-escape :
    (p : Bool) (c : ℕ) (rest : List ℕ)
    → c < 256
    → decoded p (escape p c ++ rest) ≡ c ∷ decoded p rest
unfolding escape decoded
decoded-escape p c rest l = elim (Bool-cases (c == 32 && p)) [
  | inl space ↦
      rw space (
        decoded-cons p 43 rest (omega arith) ∙ ap (λ t. t ∷ decoded p rest) (ground (arith, space)))
  | inr other ↦
      let test : is_escape p 37 (hexdigits (c / 2 ^ 4)) (hexdigits (c % 2 ^ 4)) ≡ true =
        is_escape-hexdigits p (c / 2 ^ 4) (c % 2 ^ 4) (omega arith) (omega arith) in
      rw (other, decoded, test) (ap (λ t. t ∷ decoded p rest) (unescape-hexdigits c l))
]

unreserved : (c : ℕ) → c < 256 → is_unreserved c ≡ true → (c ≢ 37) × (c ≢ 43)
unreserved c l is =
    let test =
      holds_below_at 256 (λ c. not (is_unreserved c && (c == 37 || c == 43))) c reserved l in
    (ground (arith, test, is), ground (arith, test, is))

decoded-encoded : (p : Bool) (s : List ℕ) → All (λ c. c < 256) s → decoded p (encoded p s) ≡ s
unfolding decoded
decoded-encoded p [] b = refl
decoded-encoded p (c ∷ s) b = elim (Bool-cases (is_unreserved c)) [
  | inl is ↦ rw is (
      decoded-cons p c (encoded p s) (unreserved c b.0 is).0
      ∙ (let kept_c : plus p c ≡ c = ground (arith, (unreserved c b.0 is).1) in
          rw (decoded-encoded p s b.1) (ap (λ t. t ∷ s) kept_c)))
  | inr not_ ↦
      rw not_ (decoded-escape p c (encoded p s) b.0 ∙ ap (λ t. c ∷ t) (decoded-encoded p s b.1))
]

-- Decoding what was encoded gives the string back, for every string of bytes, whether spaces are
-- written as plus signs or not.
pub url_decode-url_encode :
    (str : List ℕ) (p : Bool) → All (λ c. c < 256) str → url_decode (url_encode str p) p ≡ str
url_decode-url_encode str p b =
    url_decode-decoded (url_encode str p) p
    ∙ ap (decoded p) (url_encode-encoded str p)
    ∙ decoded-encoded p str b
