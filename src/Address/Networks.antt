-- ===== src/Address/Networks.antt =====
-- Networks of IPv6 (serverframework/net/address.cc).
use Prim.Native.Nat.{bit_and, bit_or}
use native.Mathlib.Nat.{pow-suc, one-le-pow}
use my_server_framework.Prelude.{
  ℕ, zero, suc, ◌+◌, ◌-◌, ◌*◌, ◌/◌, ◌%◌, ◌^◌, ◌<◌, ◌≡◌, refl, sym, ap, ap₂, ◌∙◌, true, some, List,
  [], ◌∷◌, ◌++◌, append_assoc, append-nil, length, length-append, set, get_or, ltb, arith,
}
use my_server_framework.Prelude.Bits.{and_digit, and_zero, double}
use my_server_framework.Address.Masks.{or_low}
use my_server_framework.Address.Ipv6.{
  create_mask8, fill, change, broadcast_address6, network_address6, subnet_mask6, repeat,
}

-- `&` with ones in the low bits.
and_low : (k q r : ℕ) → r < 2 ^ k → bit_and (q * 2 ^ k + r) (2 ^ k - 1) ≡ r
and_low zero q r h = and_zero (q * 1 + r) (q * 1 + r) (omega arith) ∙ omega (arith, h)
and_low (suc k) q r h =
    let h1 : (q * 2 ^ suc k + r) / 2 ≡ q * 2 ^ k + r / 2 = omega (arith, double q k) in
    let h2 : (2 ^ suc k - 1) / 2 ≡ 2 ^ k - 1 = omega (arith, pow-suc 2 k) in
    omega (
      arith,
      and_digit (q * 2 ^ suc k + r) (2 ^ suc k - 1),
      ap₂ bit_and h1 h2,
      double q k,
      pow-suc 2 k,
      one-le-pow 2 k,
      and_low k q (r / 2) (omega (arith, h, pow-suc 2 k)),
    )

set-append :
    (pre post : List ℕ) (b v : ℕ) → set (pre ++ (b ∷ post)) (length pre) v ≡ pre ++ (v ∷ post)
set-append [] post b v = refl
set-append (x ∷ pre) post b v = ap (λ r. x ∷ r) (set-append pre post b v)

get_or-append : (pre post : List ℕ) (b d : ℕ) → get_or (pre ++ (b ∷ post)) (length pre) d ≡ b
get_or-append [] post b d = refl
get_or-append (x ∷ pre) post b d = get_or-append pre post b d

-- The loop sets the bytes that follow those before its first place.
fill-repeat :
    (v : ℕ) (before mid rest : List ℕ)
    → fill (length mid) (length before) v (before ++ (mid ++ rest))
      ≡ before ++ (repeat (length mid) v ++ rest)
unfolding fill
fill-repeat v before [] rest = refl
fill-repeat v before (c ∷ mid) rest =
    let place : suc (length before) ≡ length (before ++ (v ∷ [])) =
      omega (arith, length-append before (v ∷ [])) in
    let bytes : set (before ++ (c ∷ (mid ++ rest))) (length before) v
        ≡ (before ++ (v ∷ [])) ++ (mid ++ rest) =
      set-append before (mid ++ rest) c v ∙ sym (append_assoc before (v ∷ []) (mid ++ rest)) in
    ap₂ (λ i bs. fill (length mid) i v bs) place bytes
    ∙ fill-repeat v (before ++ (v ∷ [])) mid rest
    ∙ append_assoc before (v ∷ []) (repeat (length mid) v ++ rest)

change-append :
    (f : ℕ → ℕ) (pre post : List ℕ) (b : ℕ)
    → change f (length pre) (pre ++ (b ∷ post)) ≡ some (pre ++ (f b ∷ post))
unfolding change
change-append f pre post b =
    let there : ltb (length pre) (length (pre ++ (b ∷ post))) ≡ true =
      ground (arith, length-append pre (b ∷ post)) in
    rw (there, get_or-append pre post b 0) (ap some (set-append pre post b (f b)))

mask8_lem : (bits : ℕ) → bits < 8 → create_mask8 bits ≡ 2 ^ (8 - bits) - 1
unfolding create_mask8
mask8_lem zero h = refl
mask8_lem (suc zero) h = refl
mask8_lem (suc (suc zero)) h = refl
mask8_lem (suc (suc (suc zero))) h = refl
mask8_lem (suc (suc (suc (suc zero)))) h = refl
mask8_lem (suc (suc (suc (suc (suc zero))))) h = refl
mask8_lem (suc (suc (suc (suc (suc (suc zero)))))) h = refl
mask8_lem (suc (suc (suc (suc (suc (suc (suc zero))))))) h = refl
mask8_lem (suc (suc (suc (suc (suc (suc (suc (suc n)))))))) h = absurd (omega arith)

-- A byte is changed and those after it are set.
rest_set :
    (f : ℕ → ℕ) (v b n i : ℕ) (pre post : List ℕ)
    → n ≡ length post
    → i ≡ length pre
    → (bytes : List ℕ) → bytes ≡ pre ++ (f b ∷ post)
    → fill n (i + 1) v bytes ≡ pre ++ (f b ∷ repeat (length post) v)
rest_set f v b n i pre post count place bytes e =
    let start : i + 1 ≡ length (pre ++ (f b ∷ [])) =
      omega (arith, place, length-append pre (f b ∷ [])) in
    let whole : bytes ≡ (pre ++ (f b ∷ [])) ++ (post ++ []) =
      e
      ∙ sym (append_assoc pre (f b ∷ []) post)
      ∙ ap (λ r. (pre ++ (f b ∷ [])) ++ r) (sym (append-nil post)) in
    ap (λ m. fill m (i + 1) v bytes) count
    ∙ ap₂ (λ j bs. fill (length post) j v bs) start whole
    ∙ fill-repeat v (pre ++ (f b ∷ [])) post []
    ∙ append_assoc pre (f b ∷ []) (repeat (length post) v ++ [])
    ∙ ap (λ r. pre ++ (f b ∷ r)) (append-nil (repeat (length post) v))

repeat_split : (i n v : ℕ) → repeat (i + suc n) v ≡ repeat i v ++ (v ∷ repeat n v)
repeat_split zero n v = let e : zero + suc n ≡ suc n = omega arith in ap (λ k. repeat k v) e
repeat_split (suc i) n v =
    let e : suc i + suc n ≡ suc (i + suc n) = omega arith in
    ap (λ k. repeat k v) e ∙ ap (λ r. v ∷ r) (repeat_split i n v)

length-repeat : (n v : ℕ) → length (repeat n v) ≡ n
length-repeat zero v = refl
length-repeat (suc n) v = ap suc (length-repeat n v)

module _ (pre post : List ℕ) (bits : ℕ) (small : bits < 8)
    (whole : length pre + length post ≡ 15) where
  place : (8 * length pre + bits) / 8 ≡ length pre
  place = omega (arith, small)

  part : (8 * length pre + bits) % 8 ≡ bits
  part = omega (arith, small)

  count : 16 - (length pre + 1) ≡ length post
  count = omega (arith, whole)

  broadcast6_lem :
      (q r : ℕ)
      → r < 2 ^ (8 - bits)
      → let size = 2 ^ (8 - bits) in
        broadcast_address6 (pre ++ ((q * size + r) ∷ post)) (8 * length pre + bits)
        ≡ some (pre ++ ((q * size + (size - 1)) ∷ repeat (length post) 0xff))
  unfolding broadcast_address6
  broadcast6_lem q r h =
      let size = 2 ^ (8 - bits) in
      let f : ℕ → ℕ = λ b. bit_or b (create_mask8 bits) in
      rw (broadcast_address6, place, part, change-append f pre post (q * size + r), place)
        (ap some (
          rest_set f 0xff (q * size + r) (16 - (length pre + 1)) (length pre) pre post count refl
            (pre ++ (f (q * size + r) ∷ post)) refl
          ∙ ap (λ b. pre ++ (b ∷ repeat (length post) 0xff))
              (ap (λ m. bit_or (q * size + r) m) (mask8_lem bits small) ∙ or_low (8 - bits) q r h)))

  network6_lem :
      (q r : ℕ)
      → r < 2 ^ (8 - bits)
      → let size = 2 ^ (8 - bits) in
        network_address6 (pre ++ ((q * size + r) ∷ post)) (8 * length pre + bits)
        ≡ some (pre ++ (r ∷ repeat (length post) 0))
  unfolding network_address6
  network6_lem q r h =
      let size = 2 ^ (8 - bits) in
      let f : ℕ → ℕ = λ b. bit_and b (create_mask8 bits) in
      rw (network_address6, place, part, change-append f pre post (q * size + r), place)
        (ap some (
          rest_set f 0 (q * size + r) (16 - (length pre + 1)) (length pre) pre post count refl
            (pre ++ (f (q * size + r) ∷ post)) refl
          ∙ ap (λ b. pre ++ (b ∷ repeat (length post) 0))
              (ap (λ m. bit_and (q * size + r) m) (mask8_lem bits small)
                ∙ and_low (8 - bits) q r h)))

  subnet6_lem :
      subnet_mask6 (8 * length pre + bits)
      ≡ some (repeat (length pre) 0xff ++ ((256 - 2 ^ (8 - bits)) ∷ repeat (length post) 0))
  unfolding subnet_mask6
  subnet6_lem =
      let f : ℕ → ℕ = λ b. 0xff - create_mask8 bits in
      let zeros : List ℕ = repeat (length pre) 0 in
      let start : repeat 16 0 ≡ zeros ++ (0 ∷ repeat (length post) 0) =
        ap (λ k. repeat k 0) sixteen ∙ repeat_split (length pre) (length post) 0 in
      let changed : change f (length pre) (repeat 16 0)
          ≡ some (zeros ++ (f 0 ∷ repeat (length post) 0)) =
        ap₂ (λ i bs. change f i bs) (sym (length-repeat (length pre) 0)) start
        ∙ change-append f zeros (repeat (length post) 0) 0 in
      rw (subnet_mask6, place, part, changed, place)
        (ap some (
          ap (λ i. fill i 0 0xff (zeros ++ (f 0 ∷ repeat (length post) 0)))
            (sym (length-repeat (length pre) 0))
          ∙ fill-repeat 0xff [] zeros (f 0 ∷ repeat (length post) 0)
          ∙ ap₂ (λ i b. repeat i 0xff ++ (b ∷ repeat (length post) 0))
              (length-repeat (length pre) 0) last))
    where
      sixteen : 16 ≡ length pre + suc (length post)
      sixteen = omega (arith, whole)

      last : 0xff - create_mask8 bits ≡ 256 - 2 ^ (8 - bits)
      last = omega (arith, mask8_lem bits small, one-le-pow (8 - bits) 2 (omega arith))

-- For a prefix shorter than 128 bits, which ends `bits` bits into the byte after `pre`, with `q` the bits
-- of the prefix in that byte and `r` the others: the broadcast address has ones for `r` and for all that
-- follows, and the mask has ones for the prefix and zeros for the rest; but `NetworkAddress` keeps `r` and
-- clears `q`, and clears all that follows.
pub network_address6-broadcast_address6 :
    (pre post : List ℕ) (bits q r : ℕ)
    → bits < 8
    → length pre + length post ≡ 15
    → r < 2 ^ (8 - bits)
    → let size = 2 ^ (8 - bits) in
      let p = 8 * length pre + bits in
      (broadcast_address6 (pre ++ ((q * size + r) ∷ post)) p
        ≡ some (pre ++ ((q * size + (size - 1)) ∷ repeat (length post) 0xff)))
      × (subnet_mask6 p
          ≡ some (repeat (length pre) 0xff ++ ((256 - size) ∷ repeat (length post) 0)))
      × (network_address6 (pre ++ ((q * size + r) ∷ post)) p
          ≡ some (pre ++ (r ∷ repeat (length post) 0)))
network_address6-broadcast_address6 pre post bits q r small whole h = (
  broadcast6_lem pre post bits small whole q r h,
  subnet6_lem pre post bits small whole,
  network6_lem pre post bits small whole q r h,
)
