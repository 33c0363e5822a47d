-- ===== src/Text/Search.antt =====
-- What the searches in a string (serverframework/util/util.cc) find.
use my_server_framework.Prelude.{
  All, ℕ, suc, ◌≡◌, refl, ap, subst, arith, Bool, true, false, none, some, inl, inr, Bool-cases,
  Option-cases, List, [], ◌∷◌, ◌++◌, take, drop,
}
use my_server_framework.Text.{find_first, find_last}

-- The string falls apart at an index, into what is before it, a byte of which the test holds, and
-- what is after it.
abbrev pub Cut : (ℕ → Bool) → List ℕ → ℕ → Type 0
Cut p s i =
    (x : ℕ) × (p x ≡ true)
    × (s ≡ take i s ++ (x ∷ drop (suc i) s))
    × (drop i s ≡ x ∷ drop (suc i) s)

pub find_first-Cut :
    (p : ℕ → Bool) (s : List ℕ) (i : ℕ)
    → find_first p s ≡ some i
    → Cut p s i × All (λ x. p x ≡ false) (take i s)
unfolding find_first
find_first-Cut p [] i e = absurd (ground (arith, e))
find_first-Cut p (x ∷ s) i e = elim (Bool-cases (p x)) [
  | inl here ↦
      let at : 0 ≡ i = ground (arith, e, here) in
      subst (λ j. Cut p (x ∷ s) j × All (λ x. p x ≡ false) (take j (x ∷ s))) at
        ((x, here, refl, refl), tt)
  | inr later ↦ elim (Option-cases (find_first p s)) [
    | inl out ↦ absurd (ground (arith, e, later, out))
    | inr (j, f) ↦
        let at : suc j ≡ i = ground (arith, e, later, f) in
        let ((y, q, c, d), a) = find_first-Cut p s j f in
        subst (λ k. Cut p (x ∷ s) k × All (λ x. p x ≡ false) (take k (x ∷ s))) at
          ((y, q, ap (λ t. x ∷ t) c, d), (later, a))
  ]
]

find_last-none : (p : ℕ → Bool) (s : List ℕ) → find_last p s ≡ none → All (λ x. p x ≡ false) s
unfolding find_last
find_last-none p [] e = tt
find_last-none p (x ∷ s) e = elim (Option-cases (find_last p s)) [
  | inl out ↦ (ground (arith, e, out), find_last-none p s out)
  | inr (j, f) ↦ absurd (ground (arith, e, f))
]

pub find_last-Cut :
    (p : ℕ → Bool) (s : List ℕ) (i : ℕ)
    → find_last p s ≡ some i
    → Cut p s i × All (λ x. p x ≡ false) (drop (suc i) s)
unfolding find_last
find_last-Cut p [] i e = absurd (ground (arith, e))
find_last-Cut p (x ∷ s) i e = elim (Option-cases (find_last p s)) [
  | inl out ↦
      let here : p x ≡ true = ground (arith, e, out) in
      let at : 0 ≡ i = ground (arith, e, out, here) in
      subst (λ j. Cut p (x ∷ s) j × All (λ x. p x ≡ false) (drop (suc j) (x ∷ s))) at
        ((x, here, refl, refl), find_last-none p s out)
  | inr (j, f) ↦
      let at : suc j ≡ i = ground (arith, e, f) in
      let ((y, q, c, d), a) = find_last-Cut p s j f in
      subst (λ k. Cut p (x ∷ s) k × All (λ x. p x ≡ false) (drop (suc k) (x ∷ s))) at
        ((y, q, ap (λ t. x ∷ t) c, d), a)
]
