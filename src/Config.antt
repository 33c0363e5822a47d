-- ===== src/Config.antt =====
-- `ConfigVar` and `Config` (serverframework/config/config.h, config.cc): the variables by name, their
-- listeners, and what is loaded from a tree of YAML. Values of all types are one type, and a variable
-- has the number of its type, on which the cast of `Lookup` depends. Their equality, their conversion
-- from a string, `none` where it throws, and `tolower` are parameters; so is the tree, which the
-- YAML library gives. Listeners are numbers.
pub mod Variables
pub mod Load
pub mod Files
pub mod Casts
pub mod RoundTrip
pub mod Tests
use my_server_framework.Prelude.{
  ℕ, suc, ◌+◌, ◌%◌, ◌^◌, Bool, true, false, not, ◌&&◌, ◌||◌, Option, none, some, List, [], ◌∷◌,
  ◌++◌, map, if◌then◌else◌, ltb, ◌==◌,
}
use my_server_framework.Prelude.Strings.{same_bytes}

pub record ConfigVar (T : Type 0) : Type 0 where
  pub name : List ℕ
  pub type_number : ℕ
  pub val : T
  pub cbs : List (ℕ × ℕ)

-- A call of a listener, with the old and the new value.
abbrev pub Notice : Type 0 → Type 0
Notice T = ℕ × T × T

-- `cbs_[key] = cb`, in the order of the keys.
abbrev pub put_listener : ℕ → ℕ → List (ℕ × ℕ) → List (ℕ × ℕ)
put_listener key cb [] = (key, cb) ∷ []
put_listener key cb (p ∷ ps) =
    let rest = put_listener key cb ps in
    if ltb key p.0 then (key, cb) ∷ p ∷ ps else if key == p.0 then (key, cb) ∷ ps else p ∷ rest

abbrev pub erase_listener : ℕ → List (ℕ × ℕ) → List (ℕ × ℕ)
erase_listener key [] = []
erase_listener key (p ∷ ps) =
    let rest = erase_listener key ps in if p.0 == key then ps else p ∷ rest

abbrev pub find_listener : ℕ → List (ℕ × ℕ) → Option ℕ
find_listener key [] = none
find_listener key (p ∷ ps) =
    let rest = find_listener key ps in if p.0 == key then some p.1 else rest

-- The characters of `find_first_not_of`.
abbrev pub name_chars : List ℕ
name_chars =
    97 ∷ 98 ∷ 99 ∷ 100 ∷ 101 ∷ 102 ∷ 103 ∷ 104 ∷ 105 ∷ 107 ∷ 106 ∷ 108 ∷ 109 ∷ 110 ∷ 111 ∷ 112 ∷ 113
    ∷ 114 ∷ 115 ∷ 116 ∷ 117 ∷ 118 ∷ 119 ∷ 120 ∷ 121 ∷ 122 ∷ 46 ∷ 95 ∷ 48 ∷ 49 ∷ 50 ∷ 51 ∷ 52 ∷ 53
    ∷ 54 ∷ 55 ∷ 56 ∷ []

abbrev pub is_one_of : List ℕ → ℕ → Bool
is_one_of [] c = false
is_one_of (d ∷ ds) c = c == d || is_one_of ds c

unfoldable pub is_valid_name : List ℕ → Bool
is_valid_name [] = true
is_valid_name (c ∷ cs) = is_one_of name_chars c && is_valid_name cs

module _ {T : Type 0} where
  -- `AddListener`, with `s_fun_id`: the key is its next value.
  unfoldable pub add_listener : ℕ → ConfigVar T → ℕ → ℕ × ConfigVar T
  add_listener fun_id v cb =
      let key = (fun_id + 1) % 2 ^ 64 in (key, record v { cbs = put_listener key cb v.cbs })

  -- `DelListener`, `GetListener` and `ClearListener`
  unfoldable pub del_listener : ConfigVar T → ℕ → ConfigVar T
  del_listener v key = record v { cbs = erase_listener key v.cbs }

  unfoldable pub get_listener : ConfigVar T → ℕ → Option ℕ
  get_listener v key = find_listener key v.cbs

  abbrev pub clear_listener : ConfigVar T → ConfigVar T
  clear_listener v = record v { cbs = [] }

  -- `GetDatas().find(name)` and `GetDatas()[name] = v`
  abbrev pub lookup_base : List (ConfigVar T) → List ℕ → Option (ConfigVar T)
  lookup_base [] name = none
  lookup_base (v ∷ vs) name =
      let rest = lookup_base vs name in if same_bytes v.name name then some v else rest

-- What `Lookup` ends with: a variable, null, or an exception.
pub data Looked (T : Type 0) : Type 0 where
  found : ConfigVar T → Looked T
  wrong_type : Looked T
  invalid_argument : Looked T

abbrev pub cast_to : {T : Type 0} → ℕ → ConfigVar T → Looked T
cast_to type_number v = if v.type_number == type_number then found v else wrong_type

-- `Lookup` with a default value. The name of a variable is its key.
unfoldable pub lookup :
    {T : Type 0} → List (ConfigVar T) → List ℕ → ℕ → T → Looked T × List (ConfigVar T)
lookup {T} datas name type_number default_value =
    let v : ConfigVar T = record {
      name = name;
      type_number = type_number;
      val = default_value;
      cbs = [];
    } in
    elim (lookup_base datas name) [
      | some w ↦ (cast_to type_number w, datas)
      | none ↦ if is_valid_name name then (found v, v ∷ datas) else (invalid_argument, datas)
    ]

-- A node of YAML: a scalar, a map in the order of its iterator, or another node, as it is printed.
mutual
  pub data Yaml : Type 0 where
    scalar : List ℕ → Yaml
    yaml_map : Entries → Yaml
    sequence : Yaml

  pub data Entries : Type 0 where
    no_entries : Entries
    entry : List ℕ → Yaml → Entries → Entries

-- The name of a member.
abbrev pub member_name : List ℕ → List ℕ → List ℕ
member_name [] key = key
member_name (c ∷ prefix) key = (c ∷ prefix) ++ (46 ∷ key)

-- `ListAllMember`: what it adds to the output.
unfoldable mutual
  pub list_all_member : List ℕ → Yaml → List (List ℕ × Yaml)
  list_all_member prefix (scalar s) = if is_valid_name prefix then (prefix, scalar s) ∷ [] else []
  list_all_member prefix sequence = if is_valid_name prefix then (prefix, sequence) ∷ [] else []
  list_all_member prefix (yaml_map es) =
      let members = list_members prefix es in
      if is_valid_name prefix then (prefix, yaml_map es) ∷ members else []

  pub list_members : List ℕ → Entries → List (List ℕ × Yaml)
  list_members prefix no_entries = []
  list_members prefix (entry key node es) =
      list_all_member (member_name prefix key) node ++ list_members prefix es

-- The text of a node.
abbrev pub text_of : (Yaml → List ℕ) → Yaml → List ℕ
text_of print (scalar s) = s
text_of print sequence = print sequence
text_of print (yaml_map es) = print (yaml_map es)

-- `SetValue`: the variable, and the calls of the listeners.
unfoldable pub set_value :
    {T : Type 0} → (T → T → Bool) → ConfigVar T → T → ConfigVar T × List (Notice T)
set_value same v new_value =
    if same new_value v.val
    then (v, [])
    else (record v { val = new_value }, map (λ (p : ℕ × ℕ). (p.1, v.val, new_value)) v.cbs)

module _ {T : Type 0} (same : T → T → Bool) (parse : ℕ → List ℕ → Option T) where
  -- `FromString`, which returns false in any case.
  unfoldable pub from_string : ConfigVar T → List ℕ → Bool × ConfigVar T × List (Notice T)
  from_string v str = elim (parse v.type_number str) [
    | none ↦ (false, v, [])
    | some x ↦ (false, (set_value same v x).0, (set_value same v x).1)
  ]

  -- The variable of a name takes the text, if there is one.
  unfoldable pub load_text :
      List (ConfigVar T) → List ℕ → List ℕ → List (ConfigVar T) × List (Notice T)
  load_text [] key text = ([], [])
  load_text (v ∷ vs) key text =
      let r = from_string v text in
      let rest = load_text vs key text in
      if same_bytes v.name key then (r.1 ∷ vs, r.2) else (v ∷ rest.0, rest.1)

module _ {T : Type 0} (same : T → T → Bool) (parse : ℕ → List ℕ → Option T) (tolower : ℕ → ℕ)
    (print : Yaml → List ℕ) where
  -- One member in the loop of `LoadFromYaml`.
  abbrev pub load_member : List (ConfigVar T) → List ℕ × Yaml → List (ConfigVar T) × List (Notice T)
  load_member datas ([], node) = (datas, [])
  load_member datas (c ∷ cs, node) =
      load_text same parse datas (map tolower (c ∷ cs)) (text_of print node)

  unfoldable pub load_members :
      List (ConfigVar T) → List (List ℕ × Yaml) → List (ConfigVar T) × List (Notice T)
  load_members datas [] = (datas, [])
  load_members datas (m ∷ ms) =
      let r = load_member datas m in let rest = load_members r.0 ms in (rest.0, r.1 ++ rest.1)

  -- `LoadFromYaml`
  abbrev pub load_from_yaml : List (ConfigVar T) → Yaml → List (ConfigVar T) × List (Notice T)
  load_from_yaml datas root = load_members datas (list_all_member [] root)
