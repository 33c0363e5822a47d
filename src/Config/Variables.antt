-- ===== src/Config/Variables.antt =====
-- `Lookup` and `SetValue` of the configuration (serverframework/config/config.h).
use my_server_framework.Prelude.{
  All, ℕ, ◌≡◌, ◌≢◌, refl, sym, ap, ◌∙◌, arith, Bool, true, false, Bool-cases, inl, inr, none, some,
  List, [], ◌∷◌, ◌++◌, map, if◌then◌else◌,
}
use my_server_framework.Prelude.Strings.{same_bytes, same_bytes_refl, same_bytes-true}
use my_server_framework.Config.{
  ConfigVar, Notice, is_one_of, name_chars, is_valid_name, lookup_base, found, wrong_type,
  invalid_argument, cast_to, lookup, set_value,
}

lookup-there :
    {T : Type 0} (datas : List (ConfigVar T)) (name : List ℕ) (u : ℕ) (y : T) (v : ConfigVar T)
    → lookup_base datas name ≡ some v
    → lookup datas name u y ≡ (cast_to u v, datas)
unfolding lookup
lookup-there datas name u y v e = rw (lookup, e) refl

cast_to-same : {T : Type 0} (t : ℕ) (v : ConfigVar T) → v.type_number ≡ t → cast_to t v ≡ found v
cast_to-same t v e = ground (arith, e)

cast_to-other :
    {T : Type 0} (t : ℕ) (v : ConfigVar T) → v.type_number ≢ t → cast_to t v ≡ wrong_type
cast_to-other t v n = ground (arith, n)

other_name : (xs ys : List ℕ) → xs ≢ ys → same_bytes xs ys ≡ false
other_name xs ys n = elim (Bool-cases (same_bytes xs ys)) [
  | inl same ↦ absurd (n (same_bytes-true xs ys same))
  | inr other ↦ other
]

-- A variable that `Lookup` has made is the one that every `Lookup` of its name gives from then on,
-- with its default value, whatever default that one names; with another type it gives null. No other
-- name is changed.
lookup-lookup :
    {T : Type 0} (datas : List (ConfigVar T)) (name : List ℕ) (t : ℕ) (x : T)
    → is_valid_name name ≡ true
    → lookup_base datas name ≡ none
    → (v : ConfigVar T) × (datas' : List (ConfigVar T)) × (lookup datas name t x
        ≡ (found v, datas'))
      × (v.val ≡ x)
      × ((y : T) → lookup datas' name t y ≡ (found v, datas'))
      × ((u : ℕ) (y : T) → u ≢ t → lookup datas' name u y ≡ (wrong_type, datas'))
      × ((other : List ℕ) → name ≢ other → lookup_base datas' other ≡ lookup_base datas other)
unfolding lookup
lookup-lookup {T} datas name t x valid new =
    let v : ConfigVar T = record { name = name; type_number = t; val = x; cbs = [] } in
    let here : lookup_base (v ∷ datas) name ≡ some v =
      ap (λ b. if b then some v else lookup_base datas name) (same_bytes_refl name) in
    (
      v,
      v ∷ datas,
      rw (lookup, new, valid) refl,
      refl,
      λ y.
          lookup-there (v ∷ datas) name t y v here
          ∙ ap (λ r. (r, v ∷ datas)) (cast_to-same t v refl),
      λ u y n.
          lookup-there (v ∷ datas) name u y v here
          ∙ ap (λ r. (r, v ∷ datas)) (cast_to-other u v (λ e. n (sym e))),
      λ other n. ap (λ b. if b then some v else lookup_base datas other) (other_name name other n),
    )

invalid_inside :
    (before after : List ℕ) (c : ℕ)
    → is_one_of name_chars c ≡ false
    → is_valid_name (before ++ (c ∷ after)) ≡ false
unfolding is_valid_name
invalid_inside [] after c bad = rw bad refl
invalid_inside (b ∷ before) after c bad = elim (Bool-cases (is_one_of name_chars b)) [
  | inl ok ↦ rw ok (invalid_inside before after c bad)
  | inr bad_first ↦ rw bad_first refl
]

-- A name with a character that is not in the list, such as the digit 9, is refused.
lookup-invalid :
    {T : Type 0} (datas : List (ConfigVar T)) (before after : List ℕ) (c t : ℕ) (x : T)
    → is_one_of name_chars c ≡ false
    → lookup_base datas (before ++ (c ∷ after)) ≡ none
    → lookup datas (before ++ (c ∷ after)) t x ≡ (invalid_argument, datas)
unfolding lookup
lookup-invalid datas before after c t x bad new =
    let no : is_valid_name (before ++ (c ∷ after)) ≡ false = invalid_inside before after c bad in
    rw (lookup, new, no) refl

called :
    {T : Type 0} (cbs : List (ℕ × ℕ)) (old new_value : T)
    → (map (λ (n : Notice T). n.0) (map (λ (p : ℕ × ℕ). (p.1, old, new_value)) cbs)
        ≡ map (λ (p : ℕ × ℕ). p.1) cbs)
      × All
          (λ (n : Notice T). (n.1 ≡ old) × (n.2 ≡ new_value))
          (map (λ (p : ℕ × ℕ). (p.1, old, new_value)) cbs)
called [] old new_value = (refl, tt)
called (p ∷ cbs) old new_value =
    let (callees, values) = called cbs old new_value in
    (ap (λ cs. p.1 ∷ cs) callees, ((refl, refl), values))

module _ {T : Type 0} (same : T → T → Bool) where
  -- `SetValue` with another value calls each listener just once, in the order of their keys, with the
  -- old and the new value, and then the variable has the new one, with the same listeners; with the
  -- value that it has it does nothing.
  set_value-notices :
      (v : ConfigVar T) (x : T)
      → (same x v.val ≡ true → set_value same v x ≡ (v, []))
        × (same x v.val ≡ false
            → ((set_value same v x).0 ≡ record v { val = x })
              × (map (λ (n : Notice T). n.0) (set_value same v x).1
                  ≡ map (λ (p : ℕ × ℕ). p.1) v.cbs)
              × All (λ (n : Notice T). (n.1 ≡ v.val) × (n.2 ≡ x)) (set_value same v x).1)
  unfolding set_value
  set_value-notices v x =
      (λ e. rw e refl, λ e. rw e (refl, (called v.cbs v.val x).0, (called v.cbs v.val x).1))
