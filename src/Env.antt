-- ===== src/Env.antt =====
-- `Env` (serverframework/env/env.cc): the arguments of the command line and the texts of help.
-- Strings are lists of bytes; `args_` is a list of pairs with a key once.
pub mod Arguments
pub mod Tests
use my_server_framework.Prelude.{
  ℕ, Bool, true, false, not, Option, none, some, List, [], ◌∷◌, ◌++◌, if◌then◌else◌, ◌==◌,
}
use my_server_framework.Prelude.Strings.{same_bytes}

abbrev pub Pair : Type 0
Pair = List ℕ × List ℕ

pub record Env : Type 0 where
  pub args : List Pair
  pub helps : List Pair
  pub program : List ℕ

-- `args_[key] = val`
abbrev pub put : List ℕ → List ℕ → List Pair → List Pair
put key val [] = (key, val) ∷ []
put key val (p ∷ ps) =
    let rest = put key val ps in if same_bytes p.0 key then (key, val) ∷ ps else p ∷ rest

abbrev pub find : List ℕ → List Pair → Option (List ℕ)
find key [] = none
find key (p ∷ ps) = let rest = find key ps in if same_bytes p.0 key then some p.1 else rest

-- All pairs of a key are removed.
abbrev pub without_key : List ℕ → List Pair → List Pair
without_key key [] = []
without_key key (p ∷ ps) =
    let rest = without_key key ps in if same_bytes p.0 key then rest else p ∷ rest

-- `Add`, `Has`, `Del` and `Get`
unfoldable pub add : Env → List ℕ → List ℕ → Env
add e key val = record e { args = put key val e.args }

unfoldable pub has : Env → List ℕ → Bool
has e key = elim (find key e.args) [ none ↦ false | some val ↦ true ]

unfoldable pub del : Env → List ℕ → Env
del e key = record e { args = without_key key e.args }

unfoldable pub get : Env → List ℕ → List ℕ → List ℕ
get e key default_value = elim (find key e.args) [ none ↦ default_value | some val ↦ val ]

-- `RemoveHelp` and `AddHelp`
unfoldable pub remove_help : Env → List ℕ → Env
remove_help e key = record e { helps = without_key key e.helps }

unfoldable pub add_help : Env → List ℕ → List ℕ → Env
add_help e key desc =
    let e' = remove_help e key in record e' { helps = e'.helps ++ ((key, desc) ∷ []) }

-- `if (now_key) Add(now_key, "")`
abbrev pub add_pending : Env → Option (List ℕ) → Env
add_pending e none = e
add_pending e (some key) = add e key []

-- One argument: false with the environment where it is invalid. The first case is "-" alone, the
-- second a key, and the others are values.
abbrev pub take_value : Env → Option (List ℕ) → List ℕ → Bool × Env × Option (List ℕ)
take_value e none val = (false, e, none)
take_value e (some key) val = (true, add e key val, none)

abbrev pub take_key : Env → Option (List ℕ) → List ℕ → Bool × Env × Option (List ℕ)
take_key e now_key [] = (false, e, now_key)
take_key e now_key (c ∷ key) = (true, add_pending e now_key, some (c ∷ key))

abbrev pub take_argument : Env → Option (List ℕ) → List ℕ → Bool × Env × Option (List ℕ)
take_argument e now_key [] = take_value e now_key []
take_argument e now_key (c ∷ cs) =
    if c == 45 then take_key e now_key cs else take_value e now_key (c ∷ cs)

-- The loop over the arguments after the program's name.
unfoldable pub take_arguments : Env → Option (List ℕ) → List (List ℕ) → Bool × Env
take_arguments e now_key [] = (true, add_pending e now_key)
take_arguments e now_key (a ∷ rest) =
    let r = take_argument e now_key a in
    elim r.0 [ false ↦ (false, r.1) | true ↦ take_arguments r.1 r.2 rest ]

-- `Init`, from the program's name on.
unfoldable pub init : Env → List ℕ → List (List ℕ) → Bool × Env
init e program argv = take_arguments (record e { program = program }) none argv
