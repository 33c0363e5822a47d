-- ===== src/Address/Printed.antt =====
-- The form of an IPv6 address that is written, and the path of a `UnixAddress`
-- (serverframework/net/address.cc).
use my_server_framework.Prelude.{
  ℕ, zero, suc, ◌+◌, ◌≤◌, ◌≡◌, refl, sym, ap, ◌∙◌, Bool, true, false, ◌&&◌, Option, none, some,
  List, [], ◌∷◌, ◌++◌, append-nil, append_assoc, length, ◌==◌, get_or, All, arith,
}
use my_server_framework.Address.Ipv6.{repeat}
use my_server_framework.Address.Written.{insert_groups, insert6}

abbrev pub AreNonzero : List ℕ → Type 0
AreNonzero = All (λ g. (g == 0) ≡ false)

-- Each group after a colon, and the groups with a colon between two.
unfoldable pub after_colons : (ℕ → List ℕ) → List ℕ → List ℕ
after_colons hex [] = []
after_colons hex (g ∷ gs) = 58 ∷ (hex g ++ after_colons hex gs)

unfoldable pub joined : (ℕ → List ℕ) → List ℕ → List ℕ
joined hex [] = []
joined hex (g ∷ gs) = hex g ++ after_colons hex gs

and_false : (b : Bool) → (b && false) ≡ false
and_false true = refl
and_false false = refl

-- A list of groups is written alike after any group that is not zero.
abbrev pub WritesAs : (ℕ → List ℕ) → List ℕ → List ℕ × Bool → Type 0
WritesAs hex rest r = (q : ℕ) → (q == 0) ≡ false → insert_groups hex (some q) false rest ≡ r

module _ (hex : ℕ → List ℕ) where
  -- Once zeros are left out, all groups are written.
  used_groups :
      (p : ℕ) (gs : List ℕ) → insert_groups hex (some p) true gs ≡ (after_colons hex gs, true)
  unfolding insert_groups after_colons
  used_groups p [] = refl
  used_groups p (g ∷ gs) = rw (and_false (g == 0), and_false (p == 0), used_groups g gs) refl

  nonzero_groups :
      (a rest : List ℕ) (r : List ℕ × Bool)
      → AreNonzero a
      → WritesAs hex rest r
      → WritesAs hex (a ++ rest) (after_colons hex a ++ r.0, r.1)
  unfolding insert_groups after_colons
  nonzero_groups [] rest r n same p h = same p h
  nonzero_groups (g ∷ a) rest r n same p h =
      rw (insert_groups, n.0, h, nonzero_groups a rest r n.1 same g n.0)
        (ap (λ x. (58 ∷ x, r.1)) (sym (append_assoc (hex g) (after_colons hex a) r.0)))

  zero_groups :
      (prev : Option ℕ) (k : ℕ) (b : List ℕ)
      → insert_groups hex prev false (0 ∷ (repeat k 0 ++ b)) ≡ insert_groups hex (some 0) false b
  unfolding insert_groups
  zero_groups prev zero b = refl
  zero_groups prev (suc k) b = zero_groups (some 0) k b

  after_zeros :
      (g : ℕ) (gs : List ℕ)
      → (g == 0) ≡ false
      → insert_groups hex (some 0) false (g ∷ gs) ≡ (58 ∷ after_colons hex (g ∷ gs), true)
  unfolding insert_groups after_colons
  after_zeros g gs h = rw (h, used_groups g gs) refl

  -- The first group of all.
  first_group :
      (g : ℕ) (a rest : List ℕ) (r : List ℕ × Bool)
      → AreNonzero (g ∷ a)
      → WritesAs hex rest r
      → insert_groups hex none false ((g ∷ a) ++ rest) ≡ (joined hex (g ∷ a) ++ r.0, r.1)
  unfolding insert_groups joined
  first_group g a rest r n same =
      rw (insert_groups, n.0, nonzero_groups a rest r n.1 same g n.0)
        (ap (λ x. (x, r.1)) (sym (append_assoc (hex g) (after_colons hex a) r.0)))

  nonzero_then :
      (a rest : List ℕ) (r : List ℕ × Bool)
      → AreNonzero a
      → WritesAs hex rest r
      → insert_groups hex none false rest ≡ r
      → insert_groups hex none false (a ++ rest) ≡ (joined hex a ++ r.0, r.1)
  unfolding joined
  nonzero_then [] rest r n same start = start
  nonzero_then (g ∷ a) rest r n same start = first_group g a rest r n same

zero_at : (n i : ℕ) → get_or (repeat n 0) i 0 ≡ 0
zero_at zero i = refl
zero_at (suc n) zero = refl
zero_at (suc n) (suc i) = zero_at n i

zero_after : (a : List ℕ) (n i : ℕ) → length a ≤ i → get_or (a ++ repeat n 0) i 0 ≡ 0
zero_after [] n i h = zero_at n i
zero_after (x ∷ a) n zero h = absurd (omega arith)
zero_after (x ∷ a) n (suc i) h = zero_after a n i (omega arith)

-- A list that is empty or starts with a group that is not zero.
abbrev pub StartsNonzero : List ℕ → Type 0
StartsNonzero [] = Unit {0}
StartsNonzero (g ∷ gs) = (g == 0) ≡ false

-- Of eight groups of which those of `a` are not zero, `suc k` that follow are zero, and those of `b` are
-- none or start with one that is not zero, the text in brackets has the groups of `a`, two colons for the
-- zeros, and the groups of `b`, later zeros written out, with a colon between two groups; then the port.
pub insert6-joined :
    (hex decimal : ℕ → List ℕ) (a b : List ℕ) (k port : ℕ)
    → AreNonzero a
    → StartsNonzero b
    → length a + suc k + length b ≡ 8
    → insert6 hex decimal (a ++ (repeat (suc k) 0 ++ b)) port
      ≡ 91 ∷ (joined hex a ++ (58 ∷ 58 ∷ (joined hex b ++ (93 ∷ 58 ∷ decimal port))))
unfolding insert6 joined insert_groups after_colons
insert6-joined hex decimal a [] k port n s whole =
    let zeros : List ℕ = repeat (suc k) 0 in
    let written : insert_groups hex none false (a ++ (zeros ++ [])) ≡ (joined hex a ++ [], false) =
      nonzero_then hex a (zeros ++ []) ([], false) n (λ q h. zero_groups hex (some q) k [])
        (zero_groups hex none k []) in
    let last : get_or (a ++ (zeros ++ [])) 7 0 ≡ 0 =
      ap (λ z. get_or (a ++ z) 7 0) (append-nil zeros)
      ∙ zero_after a (suc k) 7 (omega (arith, whole)) in
    rw (written, last, append-nil (joined hex a)) refl
insert6-joined hex decimal a (g ∷ gs) k port n s whole =
    let b : List ℕ = g ∷ gs in
    let r : List ℕ × Bool = (58 ∷ (58 ∷ joined hex b), true) in
    let zeros : List ℕ = repeat (suc k) 0 in
    let tail : (prev : Option ℕ) → insert_groups hex prev false (zeros ++ b) ≡ r =
      λ prev. zero_groups hex prev k b ∙ after_zeros hex g gs s in
    let written : insert_groups hex none false (a ++ (zeros ++ b)) ≡ (joined hex a ++ r.0, true) =
      nonzero_then hex a (zeros ++ b) r n (λ q h. tail (some q)) (tail none) in
    rw written (
      ap (λ x. 91 ∷ x)
        (append_assoc (joined hex a) (58 ∷ 58 ∷ joined hex b) (93 ∷ 58 ∷ decimal port)))
