-- ===== src/Text/Parts.antt =====
-- What the trimmed strings and the parts of a path are (serverframework/util/util.cc).
use my_server_framework.Prelude.{
  All, ℕ, suc, ◌≡◌, sym, ap, ap₂, subst, ◌∙◌, arith, true, false, none, some, List, [], ◌∷◌, ◌++◌,
  take, drop, if◌then◌else◌, ◌==◌,
}
use my_server_framework.Text.{
  find_first, find_last, not_of, trim_left, trim_right, dirname, basename, last_slash,
}
use my_server_framework.Text.Search.{find_first-Cut, find_last-Cut}

-- Where the string has a byte that is no delimiter, `TrimLeft` takes off delimiters only, and what is
-- left begins with that byte.
trim_left-parts :
    (str delimit : List ℕ) (i : ℕ)
    → find_first (not_of delimit) str ≡ some i
    → (before : List ℕ) × (x : ℕ) × (rest : List ℕ) × (str ≡ before ++ trim_left str delimit)
      × All (λ c. not_of delimit c ≡ false) before
      × (trim_left str delimit ≡ x ∷ rest)
      × (not_of delimit x ≡ true)
unfolding trim_left
trim_left-parts str delimit i e =
    let ((x, q, c, d), a) = find_first-Cut (not_of delimit) str i e in
    (
      take i str,
      x,
      drop (suc i) str,
      rw (trim_left, e) (c ∙ ap (λ t. take i str ++ t) (sym d)),
      a,
      rw (trim_left, e) d,
      q,
    )

-- Where the string has a byte that is no delimiter, `TrimRight` takes off the last such byte too,
-- besides the delimiters after it.
trim_right-short :
    (str delimit : List ℕ) (i : ℕ)
    → find_last (not_of delimit) str ≡ some i
    → (x : ℕ) × (rest : List ℕ) × (str ≡ trim_right str delimit ++ (x ∷ rest))
      × (not_of delimit x ≡ true)
      × All (λ c. not_of delimit c ≡ false) rest
unfolding trim_right
trim_right-short str delimit i e =
    let ((x, q, c, d), a) = find_last-Cut (not_of delimit) str i e in
    (x, drop (suc i) str, rw (trim_right, e) c, q, a)

-- A path whose last slash is not at its start is its directory, a slash and its base name, and the
-- base name has no slash.
dirname-basename :
    (c : ℕ) (cs : List ℕ) (i : ℕ)
    → last_slash (c ∷ cs) ≡ some (suc i)
    → (dirname (c ∷ cs) ++ (47 ∷ basename (c ∷ cs)) ≡ c ∷ cs)
      × All (λ x. (x == 47) ≡ false) (basename (c ∷ cs))
unfolding dirname basename
dirname-basename c cs i e =
    let ((x, q, cut, d), a) = find_last-Cut (λ x. x == 47) (c ∷ cs) (suc i) e in
    let slash : x ≡ 47 = ground (arith, q) in
    let inside : (suc i == 0) ≡ false = ground arith in
    let directory : dirname (c ∷ cs) ≡ take (suc i) (c ∷ cs) =
      ap
        (λ o. elim o [
          | none ↦ 46 ∷ []
          | some pos ↦ if pos == 0 then 47 ∷ [] else take pos (c ∷ cs)
        ])
        e
      ∙ ap (λ b. if b then 47 ∷ [] else take (suc i) (c ∷ cs)) inside in
    let base : basename (c ∷ cs) ≡ drop (suc (suc i)) (c ∷ cs) =
      ap (λ o. elim o [ none ↦ c ∷ cs | some pos ↦ drop (suc pos) (c ∷ cs) ]) e in
    (
      ap₂ (λ a b. a ++ (47 ∷ b)) directory base
          ∙ ap (λ y. take (suc i) (c ∷ cs) ++ (y ∷ drop (suc (suc i)) (c ∷ cs))) (sym slash)
          ∙ sym cut,
      subst (All (λ x. (x == 47) ≡ false)) (sym base) a,
    )
