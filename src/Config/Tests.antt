-- ===== src/Config/Tests.antt =====
-- Variables of the configuration (serverframework/config/config.h, config.cc) whose values are numbers,
-- which a string of one byte gives; a library of documents, with a map of vectors that comes back.
use my_server_framework.Prelude.{
  ℕ, ◌≡◌, ◌≢◌, refl, arith, Bool, true, false, Option, none, some, List, [], ◌∷◌, ◌==◌,
}
use my_server_framework.Config.{
  ConfigVar, Yaml, scalar, yaml_map, no_entries, entry, is_valid_name, lookup_base, load_from_yaml,
}
use my_server_framework.Prelude.{ap, ltb, if◌then◌else◌, inl, inr, Bool-cases, All, subst, sym, ◌∙◌}
use my_server_framework.Config.Casts.{YamlLibrary, vector_from, vector_to, map_from, map_to}
use my_server_framework.Config.RoundTrip.{
  AreDistinct, Faithful, Returns, vector_from-vector_to, map_from-map_to,
}
use my_server_framework.Config.Load.{load_from_yaml-sets}

abbrev parse : ℕ → List ℕ → Option ℕ
parse t [] = none
parse t (c ∷ cs) = some c

abbrev same : ℕ → ℕ → Bool
same x y = x == y

abbrev port : List ℕ
port = 112 ∷ 111 ∷ []

abbrev eight : ℕ
eight = 8

abbrev variable : ConfigVar ℕ
variable = record { name = port; type_number = 1; val = 5; cbs = (1, 30) ∷ (2, 40) ∷ [] }

port-valid : is_valid_name port ≡ true
unfolding is_valid_name
port-valid = refl

abbrev tree : Yaml
tree = yaml_map (entry port (scalar (eight ∷ [])) no_entries)

not-empty : port ≢ []
not-empty e = ground (arith, e)

load_from_yaml-sets_example :
    (lookup_base (load_from_yaml same parse (λ c. c) (λ y. []) (variable ∷ []) tree).0 port
      ≡ some (record variable { val = 8 }))
    × ((load_from_yaml same parse (λ c. c) (λ y. []) (variable ∷ []) tree).1
        ≡ (30, 5, 8) ∷ (40, 5, 8) ∷ [])
load_from_yaml-sets_example =
    load_from_yaml-sets same parse (λ c. c) (λ y. []) (variable ∷ []) port (eight ∷ []) variable 8
      port-valid not-empty refl refl refl refl

-- A library whose texts are its nodes: words, sequences and maps.
mutual
  data Doc : Type 0 where
    word : ℕ → Doc
    seq : Docs → Doc
    dict : Fields → Doc

  data Docs : Type 0 where
    nil : Docs
    cons : Doc → Docs → Docs

  data Fields : Type 0 where
    end : Fields
    field : Doc → Doc → Fields → Fields

abbrev docs_of : Docs → List Doc
docs_of nil = []
docs_of (cons d ds) = d ∷ docs_of ds

abbrev of_docs : List Doc → Docs
of_docs [] = nil
of_docs (d ∷ ds) = cons d (of_docs ds)

abbrev fields_of : Fields → List (Doc × Doc)
fields_of end = []
fields_of (field k d fs) = (k, d) ∷ fields_of fs

abbrev same_word : Doc → Doc → Bool
same_word (word a) (word b) = a == b
same_word (word a) _ = false
same_word _ _ = false

-- The fields of another key, and the value of a key, or one that is given.
abbrev without_key : Doc → Fields → Fields
without_key k end = end
without_key k (field l d fs) =
    let rest = without_key k fs in if same_word k l then rest else field l d rest

abbrev value_or : Doc → Doc → Fields → Doc
value_or k x end = x
value_or k x (field l d fs) = let rest = value_or k x fs in if same_word k l then d else rest

-- A key that comes again changes the value of the field that it has.
abbrev of_fields : List (Doc × Doc) → Fields
of_fields [] = end
of_fields (p ∷ ps) =
    let rest = of_fields ps in field p.0 (value_or p.0 p.1 rest) (without_key p.0 rest)

abbrev doc_items : Doc → List Doc
doc_items (word n) = []
doc_items (seq ds) = docs_of ds
doc_items (dict fs) = []

abbrev doc_pairs : Doc → List (Doc × Doc)
doc_pairs (word n) = []
doc_pairs (seq ds) = []
doc_pairs (dict fs) = fields_of fs

abbrev doc_library : YamlLibrary Doc Doc
doc_library = record {
  load = λ d. d;
  emit = λ d. d;
  items = doc_items;
  sequence = λ ds. seq (of_docs ds);
  pairs = doc_pairs;
  mapping = λ ps. dict (of_fields ps);
}

docs_return : (ds : List Doc) → docs_of (of_docs ds) ≡ ds
docs_return [] = refl
docs_return (d ∷ ds) = ap (λ r. d ∷ r) (docs_return ds)

same_word-true : (k l : Doc) → same_word k l ≡ true → k ≡ l
same_word-true (word a) (word b) e = ap word (ground (arith, e))
same_word-true (word a) (seq ds) e = absurd (ground (arith, e))
same_word-true (word a) (dict fs) e = absurd (ground (arith, e))
same_word-true (seq ds) l e = absurd (ground (arith, e))
same_word-true (dict fs) l e = absurd (ground (arith, e))

same_word-false : (k l : Doc) → k ≢ l → same_word k l ≡ false
same_word-false k l h = elim (Bool-cases (same_word k l)) [
  | inl y ↦ absurd (h (same_word-true k l y))
  | inr n ↦ n
]

without_new_key :
    (k : Doc) (fs : Fields) → All (λ q. k ≢ q.0) (fields_of fs) → without_key k fs ≡ fs
without_new_key k end h = refl
without_new_key k (field l d fs) h =
    ap (λ (b : Bool). if b then without_key k fs else field l d (without_key k fs))
      (same_word-false k l h.0)
    ∙ ap (field l d) (without_new_key k fs h.1)

value_or_new_key :
    (k x : Doc) (fs : Fields) → All (λ q. k ≢ q.0) (fields_of fs) → value_or k x fs ≡ x
value_or_new_key k x end h = refl
value_or_new_key k x (field l d fs) h =
    ap (λ (b : Bool). if b then d else value_or k x fs) (same_word-false k l h.0)
    ∙ value_or_new_key k x fs h.1

fields_return : (ps : List (Doc × Doc)) → AreDistinct ps → fields_of (of_fields ps) ≡ ps
fields_return [] h = refl
fields_return (p ∷ ps) h =
    let rest : fields_of (of_fields ps) ≡ ps = fields_return ps h.1 in
    let new : All (λ q. p.0 ≢ q.0) (fields_of (of_fields ps)) =
      subst (All (λ q. p.0 ≢ q.0)) (sym rest) h.0 in
    ap (λ (d : Doc). (p.0, d) ∷ fields_of (without_key p.0 (of_fields ps)))
      (value_or_new_key p.0 p.1 (of_fields ps) new)
    ∙ ap (λ (fs : Fields). p ∷ fields_of fs) (without_new_key p.0 (of_fields ps) new)
    ∙ ap (λ r. p ∷ r) rest

doc-Faithful : Faithful doc_library
doc-Faithful = record { reads = λ d. refl; has_items = docs_return; has_pairs = fields_return }

abbrev word_from : Doc → Option ℕ
word_from (word n) = some n
word_from (seq ds) = none
word_from (dict fs) = none

abbrev word_less : Doc → Doc → Bool
word_less (word a) (word b) = ltb a b
word_less (word a) _ = false
word_less _ _ = false

word_less_asym : (x y : Doc) → word_less x y ≡ true → word_less y x ≡ false
word_less_asym (word a) (word b) e = ground (arith, e)
word_less_asym (word a) (seq ds) e = absurd (ground (arith, e))
word_less_asym (word a) (dict fs) e = absurd (ground (arith, e))
word_less_asym (seq ds) y e = absurd (ground (arith, e))
word_less_asym (dict fs) y e = absurd (ground (arith, e))

-- A map of vectors, by two words.
map_from-map_to_example :
    Returns doc_library
      (map_from doc_library (vector_from doc_library word_from) word_less)
      (map_to doc_library (vector_to doc_library word))
      ((word 1, 5 ∷ 3 ∷ []) ∷ (word 2, []) ∷ [])
map_from-map_to_example =
    map_from-map_to doc_library doc-Faithful (vector_from doc_library word_from)
      (vector_to doc_library word) word_less ((word 1, 5 ∷ 3 ∷ []) ∷ (word 2, []) ∷ [])
      word_less_asym ((refl, tt), (tt, tt))
      (
        vector_from-vector_to doc_library doc-Faithful word_from word (5 ∷ 3 ∷ [])
            (refl, (refl, tt)),
        (vector_from-vector_to doc_library doc-Faithful word_from word [] tt, tt),
      )
