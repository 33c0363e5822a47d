-- ===== src/Config/RoundTrip.antt =====
-- A container that is cast to text and back (serverframework/config/config.h). What is asked of the casts
-- of the elements holds of those of the container, so that containers may be in containers.
use my_server_framework.Prelude.{
  ◌≡◌, ◌≢◌, refl, sym, subst, arith, ap, ◌∙◌, Bool, true, false, Option, some, List, [], ◌∷◌, ◌++◌,
  append-nil, append_assoc, All,
}
use my_server_framework.Prelude.Sums.{All-append}
use my_server_framework.Config.Casts.{
  YamlLibrary, cast_items, vector_from, node_items, vector_to, insert, insert_items, set_from,
  set_to, insert_pair, insert_pairs, map_from, node_pairs, map_to,
}

-- The keys of a map, each once.
abbrev pub AreDistinct : {S N : Type 0} → List (S × N) → Type 0
AreDistinct [] = Unit {0}
AreDistinct (p ∷ ps) = All (λ q. p.0 ≢ q.0) ps × AreDistinct ps

-- What the library promises: the text of a node is that of the same node, a sequence has the nodes it was
-- made of, and so has a map that was made of distinct keys.
pub record Faithful {S N : Type 0} (yaml : YamlLibrary S N) : Type 0 where
  pub reads : (n : N) → yaml.load (yaml.emit n) ≡ n
  pub has_items : (ns : List N) → yaml.items (yaml.sequence ns) ≡ ns
  pub has_pairs : (ps : List (S × N)) → AreDistinct ps → yaml.pairs (yaml.mapping ps) ≡ ps

-- The values that keep their meaning where their text goes through the library.
abbrev pub Returns : {S N T : Type 0} → YamlLibrary S N → (S → Option T) → (T → S) → T → Type 0
Returns yaml from to x = from (yaml.emit (yaml.load (to x))) ≡ some x

-- In an order, each element before all that follow it.
abbrev pub IsAscending : {A : Type 0} → (A → A → Bool) → List A → Type 0
IsAscending less [] = Unit {0}
IsAscending less (x ∷ xs) = All (λ y. less x y ≡ true) xs × IsAscending less xs

-- The elements of one list are before all of another.
abbrev pub AreBefore : {A : Type 0} → (A → A → Bool) → List A → List A → Type 0
AreBefore less xs ys = All (λ y. All (λ x. less x y ≡ true) xs) ys

module _ {A : Type 0} (less : A → A → Bool) where
  before_one :
      (xs ys : List A) (y : A)
      → AreBefore less xs ys
      → All (λ z. less y z ≡ true) ys
      → AreBefore less (xs ++ (y ∷ [])) ys
  before_one xs [] y h a = tt
  before_one xs (z ∷ ys) y h a =
      (All-append (λ x. less x z ≡ true) xs (y ∷ []) h.0 (a.0, tt), before_one xs ys y h.1 a.1)

  module _ (asym : (x y : A) → less x y ≡ true → less y x ≡ false) where
    insert_last :
        (x : A) (xs : List A) → All (λ y. less y x ≡ true) xs → insert less x xs ≡ xs ++ (x ∷ [])
    unfolding insert
    insert_last x [] h = refl
    insert_last x (y ∷ ys) h = rw (asym y x h.0, h.0) (ap (λ r. y ∷ r) (insert_last x ys h.1))

    insert_pair_last :
        {T : Type 0} (k : A) (x : T) (ps : List (A × T))
        → All (λ p. less p.0 k ≡ true) ps
        → insert_pair less k x ps ≡ ps ++ ((k, x) ∷ [])
    unfolding insert_pair
    insert_pair_last k x [] h = refl
    insert_pair_last k x (p ∷ ps) h =
        rw (asym p.0 k h.0, h.0) (ap (λ r. p ∷ r) (insert_pair_last k x ps h.1))

module _ {S N T : Type 0} (yaml : YamlLibrary S N) (from : S → Option T) (to : T → S) where
  cast_items-node_items :
      (vec xs : List T)
      → All (Returns yaml from to) xs
      → cast_items yaml from vec (node_items yaml to xs) ≡ some (vec ++ xs)
  unfolding cast_items node_items
  cast_items-node_items vec [] h = ap some (sym (append-nil vec))
  cast_items-node_items vec (x ∷ xs) h =
      rw (cast_items, h.0)
        (cast_items-node_items (vec ++ (x ∷ [])) xs h.1 ∙ ap some (append_assoc vec (x ∷ []) xs))

  insert_items-node_items :
      (less : T → T → Bool) (vec xs : List T)
      → ((x y : T) → less x y ≡ true → less y x ≡ false)
      → All (Returns yaml from to) xs
      → IsAscending less xs
      → AreBefore less vec xs
      → insert_items yaml from less vec (node_items yaml to xs) ≡ some (vec ++ xs)
  unfolding insert_items node_items
  insert_items-node_items less vec [] asym h asc b = ap some (sym (append-nil vec))
  insert_items-node_items less vec (x ∷ xs) asym h asc b =
      rw (insert_items, h.0, insert_last less asym x vec b.0)
        (insert_items-node_items less (vec ++ (x ∷ [])) xs asym h.1 asc.1
            (before_one less vec xs x b.1 asc.0)
          ∙ ap some (append_assoc vec (x ∷ []) xs))

  insert_pairs-node_pairs :
      (less : S → S → Bool) (vec ps : List (S × T))
      → ((x y : S) → less x y ≡ true → less y x ≡ false)
      → All (λ p. Returns yaml from to p.1) ps
      → IsAscending (λ p q. less p.0 q.0) ps
      → AreBefore (λ p q. less p.0 q.0) vec ps
      → insert_pairs yaml from less vec (node_pairs yaml to ps) ≡ some (vec ++ ps)
  unfolding insert_pairs node_pairs
  insert_pairs-node_pairs less vec [] asym h asc b = ap some (sym (append-nil vec))
  insert_pairs-node_pairs less vec (p ∷ ps) asym h asc b =
      rw (insert_pairs, h.0, insert_pair_last less asym p.0 p.1 vec b.0)
        (insert_pairs-node_pairs less (vec ++ (p ∷ [])) ps asym h.1 asc.1
            (before_one (λ p q. less p.0 q.0) vec ps p b.1 asc.0)
          ∙ ap some (append_assoc vec (p ∷ []) ps))

-- Keys in order are distinct.
module _ {S N T : Type 0} (yaml : YamlLibrary S N) (to : T → S) (less : S → S → Bool)
    (asym : (x y : S) → less x y ≡ true → less y x ≡ false) where
  less-differs : (x y : S) → less x y ≡ true → x ≢ y
  less-differs x y h e =
      let same : less x x ≡ true = subst (λ z. less x z ≡ true) (sym e) h in
      absurd (ground (arith, same, asym x x same))

  node_keys :
      (k : S) (ps : List (S × T))
      → All (λ p. less k p.0 ≡ true) ps
      → All (λ q. k ≢ q.0) (node_pairs yaml to ps)
  unfolding node_pairs
  node_keys k [] h = tt
  node_keys k (p ∷ ps) h = (less-differs k p.0 h.0, node_keys k ps h.1)

  node_pairs-AreDistinct :
      (ps : List (S × T))
      → IsAscending (λ p q. less p.0 q.0) ps
      → AreDistinct (node_pairs yaml to ps)
  unfolding node_pairs
  node_pairs-AreDistinct [] h = tt
  node_pairs-AreDistinct (p ∷ ps) h = (node_keys p.0 ps h.0, node_pairs-AreDistinct ps h.1)

module _ {S N T : Type 0} (yaml : YamlLibrary S N) (faithful : Faithful yaml) (from : S → Option T)
    (to : T → S) where
  -- Where the library reads the nodes that it wrote, and each element of a vector is cast back from what
  -- the library makes of its text, the vector is cast back from what the library makes of its text.
  pub vector_from-vector_to :
      (xs : List T)
      → All (Returns yaml from to) xs
      → Returns yaml (vector_from yaml from) (vector_to yaml to) xs
  unfolding vector_from vector_to
  vector_from-vector_to xs h =
      let seq : N = yaml.sequence (node_items yaml to xs) in
      ap (λ n. cast_items yaml from [] (yaml.items (yaml.load (yaml.emit n)))) (faithful.reads seq)
      ∙ ap (λ n. cast_items yaml from [] (yaml.items n)) (faithful.reads seq)
      ∙ ap (cast_items yaml from []) (faithful.has_items (node_items yaml to xs))
      ∙ cast_items-node_items yaml from to [] xs h

  none_before : {A : Type 0} (less : A → A → Bool) (ys : List A) → AreBefore less [] ys
  none_before less [] = tt
  none_before less (y ∷ ys) = (tt, none_before less ys)

  -- Where, besides, the order of the elements goes one way only and the elements of a set are in it, the
  -- set is cast back from what the library makes of its text.
  set_from-set_to :
      (less : T → T → Bool) (xs : List T)
      → ((x y : T) → less x y ≡ true → less y x ≡ false)
      → IsAscending less xs
      → All (Returns yaml from to) xs
      → Returns yaml (set_from yaml from less) (set_to yaml to) xs
  unfolding set_from set_to
  set_from-set_to less xs asym asc h =
      let seq : N = yaml.sequence (node_items yaml to xs) in
      ap (λ n. insert_items yaml from less [] (yaml.items (yaml.load (yaml.emit n))))
        (faithful.reads seq)
      ∙ ap (λ n. insert_items yaml from less [] (yaml.items n)) (faithful.reads seq)
      ∙ ap (insert_items yaml from less []) (faithful.has_items (node_items yaml to xs))
      ∙ insert_items-node_items yaml from to less [] xs asym h asc (none_before less xs)

  -- Where the library reads the nodes that it wrote and keeps maps of distinct keys, the order of the keys goes one way only, the keys of a
  -- map are in it, and each value is cast back from what the library makes of its text, the map is cast
  -- back from what the library makes of its text, each key with its value.
  pub map_from-map_to :
      (less : S → S → Bool) (ps : List (S × T))
      → ((x y : S) → less x y ≡ true → less y x ≡ false)
      → IsAscending (λ p q. less p.0 q.0) ps
      → All (λ p. Returns yaml from to p.1) ps
      → Returns yaml (map_from yaml from less) (map_to yaml to) ps
  unfolding map_from map_to
  map_from-map_to less ps asym asc h =
      let node : N = yaml.mapping (node_pairs yaml to ps) in
      ap (λ n. insert_pairs yaml from less [] (yaml.pairs (yaml.load (yaml.emit n))))
        (faithful.reads node)
      ∙ ap (λ n. insert_pairs yaml from less [] (yaml.pairs n)) (faithful.reads node)
      ∙ ap (insert_pairs yaml from less []) (
          faithful.has_pairs (node_pairs yaml to ps)
            (node_pairs-AreDistinct yaml to less asym ps asc))
      ∙ insert_pairs-node_pairs yaml from to less [] ps asym h asc
          (none_before (λ p q. less p.0 q.0) ps)
