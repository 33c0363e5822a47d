-- ===== src/Prelude/Splice.antt =====
-- Overwriting a stretch of a list: what `memcpy` into a block does, and its laws over `++`.
use my_server_framework.Prelude.{
  ℕ, zero, suc, ◌+◌, ◌-◌, ◌≤◌, ◌≡◌, refl, ap, ap₂, ◌∙◌, sym, List, [], ◌∷◌, ◌++◌, append_assoc,
  append-nil, take-append-drop, arith, length, take, drop, length-append, length-take, length-drop,
}

module _ {ℓ} {A : Type ℓ} where
  -- `ys` written over `xs` from index `n` on.
  unfoldable pub splice : ℕ → List A → List A → List A
  splice n ys xs = take n xs ++ (ys ++ drop (n + length ys) xs)

  pub take-append_le : (n : ℕ) (xs ys : List A) → n ≤ length xs → take n (xs ++ ys) ≡ take n xs
  take-append_le zero xs ys h = refl
  take-append_le (suc n) [] ys h = absurd (omega arith)
  take-append_le (suc n) (x ∷ xs) ys h = ap (λ t. x ∷ t) (take-append_le n xs ys (omega arith))

  pub take-append_ge :
      (n : ℕ) (xs ys : List A) → length xs ≤ n → take n (xs ++ ys) ≡ xs ++ take (n - length xs) ys
  take-append_ge n [] ys h = ap (λ k. take k ys) (omega arith)
  take-append_ge zero (x ∷ xs) ys h = absurd (omega arith)
  take-append_ge (suc n) (x ∷ xs) ys h =
      ap (λ t. x ∷ t)
        (take-append_ge n xs ys (omega arith) ∙ ap (λ k. xs ++ take k ys) (omega arith))

  drop-append_le : (n : ℕ) (xs ys : List A) → n ≤ length xs → drop n (xs ++ ys) ≡ drop n xs ++ ys
  drop-append_le zero xs ys h = refl
  drop-append_le (suc n) [] ys h = absurd (omega arith)
  drop-append_le (suc n) (x ∷ xs) ys h = drop-append_le n xs ys (omega arith)

  pub drop-append_ge :
      (n : ℕ) (xs ys : List A) → length xs ≤ n → drop n (xs ++ ys) ≡ drop (n - length xs) ys
  drop-append_ge n [] ys h = ap (λ k. drop k ys) (omega arith)
  drop-append_ge zero (x ∷ xs) ys h = absurd (omega arith)
  drop-append_ge (suc n) (x ∷ xs) ys h =
      drop-append_ge n xs ys (omega arith) ∙ ap (λ k. drop k ys) (omega arith)

  pub take_all : (n : ℕ) (xs : List A) → length xs ≤ n → take n xs ≡ xs
  take_all zero [] h = refl
  take_all zero (x ∷ xs) h = absurd (omega arith)
  take_all (suc n) [] h = refl
  take_all (suc n) (x ∷ xs) h = ap (λ t. x ∷ t) (take_all n xs (omega arith))

  pub drop_all : (n : ℕ) (xs : List A) → length xs ≤ n → drop n xs ≡ []
  drop_all zero [] h = refl
  drop_all zero (x ∷ xs) h = absurd (omega arith)
  drop_all (suc n) [] h = refl
  drop_all (suc n) (x ∷ xs) h = drop_all n xs (omega arith)

  pub drop-drop : (m n : ℕ) (xs : List A) → drop m (drop n xs) ≡ drop (n + m) xs
  drop-drop m zero xs = ap (λ k. drop k xs) (omega arith)
  drop-drop zero (suc n) [] = sym (drop_all (suc n + 0) [] (omega arith))
  drop-drop (suc m) (suc n) [] = sym (drop_all (suc n + suc m) [] (omega arith))
  drop-drop m (suc n) (x ∷ xs) =
      let e : suc n + m ≡ suc (n + m) = omega arith in rw e (drop-drop m n xs)

  pub take-take : (m n : ℕ) (xs : List A) → m ≤ n → take m (take n xs) ≡ take m xs
  take-take zero n xs h = refl
  take-take (suc m) zero xs h = absurd (omega arith)
  take-take (suc m) (suc n) [] h = refl
  take-take (suc m) (suc n) (x ∷ xs) h = ap (λ t. x ∷ t) (take-take m n xs (omega arith))

  pub length-splice :
      (n : ℕ) (ys xs : List A) → n + length ys ≤ length xs → length (splice n ys xs) ≡ length xs
  unfolding splice
  length-splice n ys xs h = omega (
    arith,
    length-append (take n xs) (ys ++ drop (n + length ys) xs),
    length-append ys (drop (n + length ys) xs),
    length-take n xs,
    length-drop (n + length ys) xs,
  )

  -- A stretch inside the first part.
  pub splice-append_le :
      (n : ℕ) (ys xs zs : List A)
      → n + length ys ≤ length xs
      → splice n ys (xs ++ zs) ≡ splice n ys xs ++ zs
  unfolding splice
  splice-append_le n ys xs zs h =
      rw (take-append_le n xs zs (omega arith), drop-append_le (n + length ys) xs zs h)
        (simp append_assoc)

  -- A stretch inside the second part.
  pub splice-append_ge :
      (n : ℕ) (ys xs zs : List A) → splice (length xs + n) ys (xs ++ zs) ≡ xs ++ splice n ys zs
  unfolding splice
  splice-append_ge n ys xs zs =
      rw
        (
          take-append_ge (length xs + n) xs zs (omega arith),
          drop-append_ge (length xs + n + length ys) xs zs (omega arith),
        )
        (ap₂ (λ a b. (xs ++ take a zs) ++ (ys ++ drop b zs)) (omega arith) (omega arith)
          ∙ append_assoc xs (take n zs) (ys ++ drop (n + length ys) zs))

  -- What was written is read back.
  take-drop-splice :
      (n : ℕ) (ys xs : List A) → n ≤ length xs → take (length ys) (drop n (splice n ys xs)) ≡ ys
  unfolding splice
  take-drop-splice n ys xs h =
      let fits : length (take n xs) ≡ n = omega (arith, length-take n xs) in
      rw (drop-append_ge n (take n xs) (ys ++ drop (n + length ys) xs) (omega arith)) (
        ap (λ k. take (length ys) (drop k (ys ++ drop (n + length ys) xs)))
          {x = n - length (take n xs)} {y = 0} (omega arith)
        ∙ take-append_le (length ys) ys (drop (n + length ys) xs) (omega arith)
        ∙ take_all (length ys) ys (omega arith))

  -- Below the stretch nothing changes.
  take-splice :
      (n m : ℕ) (ys xs : List A) → m ≤ n → n ≤ length xs → take m (splice n ys xs) ≡ take m xs
  unfolding splice
  take-splice n m ys xs h k =
      take-append_le m (take n xs) (ys ++ drop (n + length ys) xs) (omega (arith, length-take n xs))
      ∙ take-take m n xs h

  -- A stretch that begins in the first part and ends in the second.
  pub splice_across :
      (n : ℕ) (ys xs zs : List A)
      → n ≤ length xs
      → length xs ≤ n + length ys
      → splice n ys (xs ++ zs)
        ≡ splice n (take (length xs - n) ys) xs ++ splice 0 (drop (length xs - n) ys) zs
  unfolding splice
  splice_across n ys xs zs h k =
      let c = length xs - n in
      let e₁ : drop (n + length (take c ys)) xs ≡ [] =
        drop_all (n + length (take c ys)) xs (omega (arith, length-take c ys)) in
      let e₂ : n + length ys - length xs ≡ 0 + length (drop c ys) =
        omega (arith, length-drop c ys) in
      rw
        (
          e₁,
          take-append_le n xs zs h,
          drop-append_ge (n + length ys) xs zs k,
          e₂,
          append-nil (take c ys),
        )
        (ap (λ t. take n xs ++ (t ++ drop (0 + length (drop c ys)) zs))
            (sym (take-append-drop c ys))
          ∙ simp append_assoc)

  -- Reading a stretch inside the first part, and one that goes on in the second.
  pub take-drop-append_le :
      (n m : ℕ) (xs zs : List A)
      → n + m ≤ length xs
      → take m (drop n (xs ++ zs)) ≡ take m (drop n xs)
  take-drop-append_le n m xs zs h =
      rw (drop-append_le n xs zs (omega arith))
        (take-append_le m (drop n xs) zs (omega (arith, length-drop n xs)))

  pub take-drop_across :
      (n m : ℕ) (xs zs : List A)
      → n ≤ length xs
      → length xs ≤ n + m
      → take m (drop n (xs ++ zs))
        ≡ take (length xs - n) (drop n xs) ++ take (m - (length xs - n)) zs
  take-drop_across n m xs zs h k =
      let e : length (drop n xs) ≡ length xs - n = length-drop n xs in
      rw (
        drop-append_le n xs zs h,
        take-append_ge m (drop n xs) zs (omega arith),
        take_all (length xs - n) (drop n xs) (omega arith),
        e,
      )

  pub drop-take : (k n : ℕ) (xs : List A) → drop k (take n xs) ≡ take (n - k) (drop k xs)
  drop-take zero n xs = ap (λ t. take t xs) (omega arith)
  drop-take (suc k) zero xs = let e : 0 - suc k ≡ 0 = omega arith in rw e
  drop-take (suc k) (suc n) [] = sym (take_all (suc n - suc k) [] (omega arith))
  drop-take (suc k) (suc n) (x ∷ xs) =
      let e : suc n - suc k ≡ n - k = omega arith in rw e (drop-take k n xs)

  -- Writing commutes with cutting the list behind the stretch and the cut.
  pub take-splice_ge :
      (p s t : ℕ) (ys xs : List A)
      → p ≤ s
      → p + length ys ≤ t
      → t - (p + length ys) ≡ s - (p + length ys)
      → p ≤ length xs
      → take t (splice p ys xs) ≡ splice p ys (take s xs)
  unfolding splice
  take-splice_ge p s t ys xs h k e l =
      let n = p + length ys in
      let cut : length (take p xs) ≡ p = omega (arith, length-take p xs) in
      let rest : t - p - length ys ≡ s - n = omega arith in
      rw (
        take-append_ge t (take p xs) (ys ++ drop n xs) (omega arith),
        cut,
        take-append_ge (t - p) ys (drop n xs) (omega arith),
        rest,
        take-take p s xs h,
        drop-take n s xs,
      )

  -- Two stretches, one behind the other.
  pub splice-splice :
      (n : ℕ) (xs ys zs : List A)
      → n ≤ length zs
      → splice (n + length xs) ys (splice n xs zs) ≡ splice n (xs ++ ys) zs
  unfolding splice
  splice-splice n xs ys zs h =
      let k = n + length xs in
      let cut : length (take n zs ++ xs) ≡ k =
        omega (arith, length-append (take n zs) xs, length-take n zs) in
      let behind : k + length ys ≡ n + length (xs ++ ys) = omega (arith, length-append xs ys) in
      let rest : k + (k + length ys - k) ≡ n + length (xs ++ ys) = omega (arith, behind) in
      rw
        (
          ← append_assoc (take n zs) xs (drop k zs),
          take-append_le k (take n zs ++ xs) (drop k zs) (omega (arith, cut)),
          take_all k (take n zs ++ xs) (omega (arith, cut)),
          drop-append_ge (k + length ys) (take n zs ++ xs) (drop k zs) (omega (arith, cut)),
          cut,
          drop-drop (k + length ys - k) k zs,
          rest,
        )
        (simp append_assoc)
