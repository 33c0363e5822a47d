-- ===== src/Config/Casts.antt =====
-- `LexicalCast` between text and containers (serverframework/config/config.h): vectors, of which lists
-- have the same code, sets and maps from strings. The YAML library is a parameter, with its texts and its
-- nodes; so are the casts of an element, `none` where the cast throws.
use my_server_framework.Prelude.{Bool, Option, none, some, List, [], ◌∷◌, ◌++◌, if◌then◌else◌}

-- What the casts use of the library: `Load`, the output of a node, the nodes of a sequence and a sequence
-- of nodes, the keys and nodes of a map and a map of these.
pub record YamlLibrary (S N : Type 0) : Type 0 where
  pub load : S → N
  pub emit : N → S
  pub items : N → List N
  pub sequence : List N → N
  pub pairs : N → List (S × N)
  pub mapping : List (S × N) → N

-- `insert` of a set, which is in order.
unfoldable pub insert : {T : Type 0} → (T → T → Bool) → T → List T → List T
insert less x [] = x ∷ []
insert less x (y ∷ ys) =
    let rest = insert less x ys in
    if less x y then x ∷ y ∷ ys else if less y x then y ∷ rest else y ∷ ys

-- `insert` of a map, in the order of the keys: a key that is there keeps its value.
unfoldable pub insert_pair : {K T : Type 0} → (K → K → Bool) → K → T → List (K × T) → List (K × T)
insert_pair less k x [] = (k, x) ∷ []
insert_pair less k x (p ∷ ps) =
    let rest = insert_pair less k x ps in
    if less k p.0 then (k, x) ∷ p ∷ ps else if less p.0 k then p ∷ rest else p ∷ ps

module _ {S N T : Type 0} (yaml : YamlLibrary S N) (from : S → Option T) where
  -- The text of each node of a sequence, cast in order.
  unfoldable pub cast_items : List T → List N → Option (List T)
  cast_items vec [] = some vec
  cast_items vec (n ∷ ns) = elim (from (yaml.emit n)) [
    | none ↦ none
    | some x ↦ cast_items (vec ++ (x ∷ [])) ns
  ]

  unfoldable pub vector_from : S → Option (List T)
  vector_from v = cast_items [] (yaml.items (yaml.load v))

module _ {S N T : Type 0} (yaml : YamlLibrary S N) (from : S → Option T) (less : T → T → Bool) where
  unfoldable pub insert_items : List T → List N → Option (List T)
  insert_items vec [] = some vec
  insert_items vec (n ∷ ns) = elim (from (yaml.emit n)) [
    | none ↦ none
    | some x ↦ insert_items (insert less x vec) ns
  ]

  unfoldable pub set_from : S → Option (List T)
  set_from v = insert_items [] (yaml.items (yaml.load v))

module _ {S N T : Type 0} (yaml : YamlLibrary S N) (from : S → Option T) (less : S → S → Bool) where
  unfoldable pub insert_pairs : List (S × T) → List (S × N) → Option (List (S × T))
  insert_pairs vec [] = some vec
  insert_pairs vec (p ∷ ps) = elim (from (yaml.emit p.1)) [
    | none ↦ none
    | some x ↦ insert_pairs (insert_pair less p.0 x vec) ps
  ]

  unfoldable pub map_from : S → Option (List (S × T))
  map_from v = insert_pairs [] (yaml.pairs (yaml.load v))

module _ {S N T : Type 0} (yaml : YamlLibrary S N) (to : T → S) where
  -- The nodes of the texts of the elements.
  unfoldable pub node_items : List T → List N
  node_items [] = []
  node_items (x ∷ xs) = yaml.load (to x) ∷ node_items xs

  unfoldable pub vector_to : List T → S
  vector_to v = yaml.emit (yaml.sequence (node_items v))

  unfoldable pub set_to : List T → S
  set_to v = yaml.emit (yaml.sequence (node_items v))

  unfoldable pub node_pairs : List (S × T) → List (S × N)
  node_pairs [] = []
  node_pairs (p ∷ ps) = (p.0, yaml.load (to p.1)) ∷ node_pairs ps

  unfoldable pub map_to : List (S × T) → S
  map_to v = yaml.emit (yaml.mapping (node_pairs v))
