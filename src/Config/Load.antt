-- ===== src/Config/Load.antt =====
-- What `LoadFromYaml` (serverframework/config/config.cc) reads and what it keeps.
use my_server_framework.Prelude.{
  All, ℕ, ◌≡◌, ◌≢◌, refl, ap, ◌∙◌, arith, Bool, true, false, Bool-cases, inl, inr, Option, some,
  Option-cases, List, [], ◌∷◌, ◌++◌, map, append-nil, if◌then◌else◌,
}
use my_server_framework.Prelude.Strings.{same_bytes}
use my_server_framework.Prelude.Sums.{All-append, some-injective}
use my_server_framework.Config.{
  ConfigVar, Notice, is_valid_name, Yaml, scalar, yaml_map, sequence, Entries, no_entries, entry,
  member_name, list_all_member, list_members, set_value, from_string, text_of, lookup_base,
  load_text, load_members, load_from_yaml,
}

-- Every member of the list that `ListAllMember` makes has a valid name.
abbrev pub ValidMembers : List (List ℕ × Yaml) → Type 0
ValidMembers ms = All (λ (m : List ℕ × Yaml). is_valid_name m.0 ≡ true) ms

-- The names and types of the variables.
abbrev pub identity : {T : Type 0} → ConfigVar T → List ℕ × ℕ
identity v = (v.name, v.type_number)

mutual
  unfolding list_all_member

  list_all_member-Valid :
      (prefix : List ℕ) (node : Yaml) → ValidMembers (list_all_member prefix node)
  list_all_member-Valid prefix (scalar s) = elim (Bool-cases (is_valid_name prefix)) [
    | inl valid ↦ rw (list_all_member, valid) (valid, tt)
    | inr invalid ↦ rw (list_all_member, invalid) tt
  ]
  list_all_member-Valid prefix sequence = elim (Bool-cases (is_valid_name prefix)) [
    | inl valid ↦ rw (list_all_member, valid) (valid, tt)
    | inr invalid ↦ rw (list_all_member, invalid) tt
  ]
  list_all_member-Valid prefix (yaml_map es) = elim (Bool-cases (is_valid_name prefix)) [
    | inl valid ↦ rw (list_all_member, valid) (valid, list_members-Valid prefix es)
    | inr invalid ↦ rw (list_all_member, invalid) tt
  ]

  list_members-Valid : (prefix : List ℕ) (es : Entries) → ValidMembers (list_members prefix es)
  list_members-Valid prefix no_entries = tt
  list_members-Valid prefix (entry key node es) =
      All-append (λ (m : List ℕ × Yaml). is_valid_name m.0 ≡ true)
        (list_all_member (member_name prefix key) node) (list_members prefix es)
        (list_all_member-Valid (member_name prefix key) node) (list_members-Valid prefix es)

module _ {T : Type 0} (same : T → T → Bool) (parse : ℕ → List ℕ → Option T) where
  from_string-identity :
      (v : ConfigVar T) (str : List ℕ) → identity (from_string same parse v str).1 ≡ identity v
  unfolding from_string set_value
  from_string-identity v str = elim (Option-cases (parse v.type_number str)) [
    | inl thrown ↦ rw (from_string, thrown) refl
    | inr (x, got) ↦ elim (Bool-cases (same x v.val)) [
      | inl still ↦ rw (from_string, got, still) refl
      | inr changed ↦ rw (from_string, got, changed) refl
    ]
  ]

  load_text-identity :
      (vs : List (ConfigVar T)) (key text : List ℕ)
      → map identity (load_text same parse vs key text).0 ≡ map identity vs
  unfolding load_text
  load_text-identity [] key text = refl
  load_text-identity (v ∷ vs) key text = elim (Bool-cases (same_bytes v.name key)) [
    | inl here ↦ rw here (ap (λ i. i ∷ map identity vs) (from_string-identity v text))
    | inr other ↦ rw other (ap (λ is. identity v ∷ is) (load_text-identity vs key text))
  ]

  load_text-at :
      (vs : List (ConfigVar T)) (key text : List ℕ) (v : ConfigVar T)
      → lookup_base vs key ≡ some v
      → (lookup_base (load_text same parse vs key text).0 key
          ≡ some (from_string same parse v text).1)
        × ((load_text same parse vs key text).1 ≡ (from_string same parse v text).2)
  unfolding load_text
  load_text-at [] key text v e = absurd (ground (arith, e))
  load_text-at (w ∷ ws) key text v e = elim (Bool-cases (same_bytes w.name key)) [
    | inl here ↦
        let read = λ (u : ConfigVar T). from_string same parse u text in
        let named : same_bytes (read w).1.name key ≡ true =
          ap (λ (i : List ℕ × ℕ). same_bytes i.0 key) (from_string-identity w text) ∙ here in
        let same_var : w ≡ v = some-injective w v (rw here at e) in
        rw here (
          ap (λ b. if b then some (read w).1 else lookup_base ws key) named
              ∙ ap (λ u. some (read u).1) same_var,
          ap (λ u. (read u).2) same_var,
        )
    | inr other ↦
        let (found_var, notices) = load_text-at ws key text v (rw other at e) in
        rw other (
          ap (λ b. if b then some w else lookup_base (load_text same parse ws key text).0 key) other
              ∙ found_var,
          notices,
        )
  ]

  from_string-changes :
      (v : ConfigVar T) (text : List ℕ) (x : T)
      → parse v.type_number text ≡ some x
      → same x v.val ≡ false
      → from_string same parse v text
        ≡ (false, record v { val = x }, map (λ (p : ℕ × ℕ). (p.1, v.val, x)) v.cbs)
  unfolding from_string set_value
  from_string-changes v text x got changed = rw (from_string, got, changed) refl

valid-nil : is_valid_name [] ≡ true
unfolding is_valid_name
valid-nil = refl

one_member :
    (key text : List ℕ)
    → is_valid_name key ≡ true
    → list_all_member [] (yaml_map (entry key (scalar text) no_entries))
      ≡ ([], yaml_map (entry key (scalar text) no_entries)) ∷ (key, scalar text) ∷ []
unfolding list_all_member
one_member key text valid = rw (valid-nil, valid) refl

module _ {T : Type 0} (same : T → T → Bool) (parse : ℕ → List ℕ → Option T) (tolower : ℕ → ℕ)
    (print : Yaml → List ℕ) where
  load_members-identity :
      (ms : List (List ℕ × Yaml)) (vs : List (ConfigVar T))
      → map identity (load_members same parse tolower print vs ms).0 ≡ map identity vs
  unfolding load_members
  load_members-identity [] vs = refl
  load_members-identity (([], node) ∷ ms) vs = load_members-identity ms vs
  load_members-identity ((c ∷ cs, node) ∷ ms) vs =
      load_members-identity ms
        (load_text same parse vs (map tolower (c ∷ cs)) (text_of print node)).0
      ∙ load_text-identity same parse vs (map tolower (c ∷ cs)) (text_of print node)

  -- `LoadFromYaml` makes and removes no variable, and keeps the name and the type of each, whatever
  -- tree it reads; and every member that it looks at has a valid name.
  load_from_yaml-identity :
      (vs : List (ConfigVar T)) (root : Yaml)
      → (map identity (load_from_yaml same parse tolower print vs root).0 ≡ map identity vs)
        × ValidMembers (list_all_member [] root)
  load_from_yaml-identity vs root =
      (load_members-identity (list_all_member [] root) vs, list_all_member-Valid [] root)

  -- A map of one valid name in lower case with a scalar that the type of its variable reads as another
  -- value sets the variable to that value and notifies its listeners, once each.
  pub load_from_yaml-sets :
      (vs : List (ConfigVar T)) (key text : List ℕ) (v : ConfigVar T) (x : T)
      → is_valid_name key ≡ true
      → key ≢ []
      → map tolower key ≡ key
      → lookup_base vs key ≡ some v
      → parse v.type_number text ≡ some x
      → same x v.val ≡ false
      → (lookup_base
            (load_from_yaml same parse tolower print vs
              (yaml_map (entry key (scalar text) no_entries))).0
            key
          ≡ some (record v { val = x }))
        × ((load_from_yaml same parse tolower print vs
              (yaml_map (entry key (scalar text) no_entries))).1
            ≡ map (λ (p : ℕ × ℕ). (p.1, v.val, x)) v.cbs)
  unfolding load_members
  load_from_yaml-sets vs [] text v x valid full lower there got changed = absurd (full refl)
  load_from_yaml-sets vs (c ∷ cs) text v x valid full lower there got changed =
      let key = c ∷ cs in
      let loaded = load_text same parse vs (map tolower key) text in
      let whole : load_from_yaml same parse tolower print vs
            (yaml_map (entry key (scalar text) no_entries))
          ≡ (loaded.0, loaded.1 ++ []) =
        ap (load_members same parse tolower print vs) (one_member key text valid) in
      let lowered : loaded ≡ load_text same parse vs key text =
        ap (λ k. load_text same parse vs k text) lower in
      let (found_var, notices) = load_text-at same parse vs key text v there in
      let read = from_string-changes same parse v text x got changed in
      (
        ap (λ (r : List (ConfigVar T) × List (Notice T)). lookup_base r.0 key) (whole)
            ∙ ap (λ (r : List (ConfigVar T) × List (Notice T)). lookup_base r.0 key) lowered
            ∙ found_var
            ∙ ap (λ (r : Bool × ConfigVar T × List (Notice T)). some r.1) read,
        ap (λ (r : List (ConfigVar T) × List (Notice T)). r.1) whole
            ∙ append-nil loaded.1
            ∙ ap (λ (r : List (ConfigVar T) × List (Notice T)). r.1) lowered
            ∙ notices
            ∙ ap (λ (r : Bool × ConfigVar T × List (Notice T)). r.2) read,
      )
