-- ===== src/Env/Arguments.antt =====
-- What `Env::Init` (serverframework/env/env.cc) makes of a command line, and what is got from it.
use my_server_framework.Prelude.{
  All, ℕ, ◌≡◌, inl, inr, refl, sym, ap, ◌∙◌, Bool, true, false, Bool-cases, Option, none, some,
  List, [], ◌∷◌, if◌then◌else◌, ◌==◌,
}
use my_server_framework.Prelude.Strings.{same_bytes, same_bytes-true}
use my_server_framework.Env.{Pair, Env, put, find, add, get, add_pending, take_arguments, init}

-- An option: a key, with or without a value.
abbrev pub Setting : Type 0
Setting = List ℕ × Option (List ℕ)

-- The option on the command line.
abbrev pub written_value : Option (List ℕ) → List (List ℕ) → List (List ℕ)
written_value none rest = rest
written_value (some val) rest = val ∷ rest

abbrev pub written : List Setting → List (List ℕ) → List (List ℕ)
written [] rest = rest
written ((key, val) ∷ ss) rest = (45 ∷ key) ∷ written_value val (written ss rest)

abbrev pub value_of : Option (List ℕ) → List ℕ
value_of none = []
value_of (some val) = val

-- What the options mean, one after the other.
abbrev pub settled : Env → List Setting → Env
settled e [] = e
settled e ((key, val) ∷ ss) = settled (add e key (value_of val)) ss

abbrev pub IsValue : Option (List ℕ) → Type 0
IsValue none = Unit {0}
IsValue (some []) = Unit {0}
IsValue (some (c ∷ cs)) = (c == 45) ≡ false

abbrev pub IsKey : List ℕ → Type 0
IsKey [] = ⊥
IsKey (c ∷ cs) = Unit {0}

-- Keys are not empty, and no value begins with a dash.
abbrev pub AllSettings : List Setting → Type 0
AllSettings ss = All (λ (s : Setting). IsKey s.0 × IsValue s.1) ss

-- The state of the loop after the options.
abbrev after : Env → Option (List ℕ) → List Setting → Env × Option (List ℕ)
after e now_key [] = (e, now_key)
after e now_key ((key, none) ∷ ss) = after (add_pending e now_key) (some key) ss
after e now_key ((key, some val) ∷ ss) = after (add (add_pending e now_key) key val) none ss

take_value-after :
    (e : Env) (key val : List ℕ) (rest : List (List ℕ))
    → IsValue (some val)
    → take_arguments e (some key) (val ∷ rest) ≡ take_arguments (add e key val) none rest
unfolding take_arguments
take_value-after e key [] rest v = refl
take_value-after e key (c ∷ cs) rest v = rw (take_arguments, v, v) refl

take-written :
    (ss : List Setting) (e : Env) (now_key : Option (List ℕ)) (rest : List (List ℕ))
    → AllSettings ss
    → take_arguments e now_key (written ss rest)
      ≡ take_arguments (after e now_key ss).0 (after e now_key ss).1 rest
unfolding take_arguments
take-written [] e now_key rest a = refl
take-written (([], val) ∷ ss) e now_key rest a = absurd a.0.0
take-written ((c ∷ key, none) ∷ ss) e now_key rest a =
    take-written ss (add_pending e now_key) (some (c ∷ key)) rest a.1
take-written ((c ∷ key, some val) ∷ ss) e now_key rest a =
    take_value-after (add_pending e now_key) (c ∷ key) val (written ss rest) a.0.1
    ∙ take-written ss (add (add_pending e now_key) (c ∷ key) val) none rest a.1

settled-after :
    (ss : List Setting) (e : Env) (now_key : Option (List ℕ))
    → add_pending (after e now_key ss).0 (after e now_key ss).1 ≡ settled (add_pending e now_key) ss
settled-after [] e now_key = refl
settled-after ((key, none) ∷ ss) e now_key = settled-after ss (add_pending e now_key) (some key)
settled-after ((key, some val) ∷ ss) e now_key =
    settled-after ss (add (add_pending e now_key) key val) none

-- A command line of options, each a key that is not empty with or without a value that begins with
-- no dash, is taken as a whole: each option is added in order, without a value as the empty string.
pub init-settled :
    (e : Env) (program : List ℕ) (ss : List Setting)
    → AllSettings ss
    → init e program (written ss []) ≡ (true, settled (record e { program = program }) ss)
unfolding init take_arguments
init-settled e program ss a =
    let e' : Env = record e { program = program } in
    take-written ss e' none [] a ∙ ap (λ x. (true, x)) (settled-after ss e' none)

-- After such options a dash alone makes `Init` fail, whatever follows.
init-dash :
    (e : Env) (program : List ℕ) (ss : List Setting) (rest : List (List ℕ))
    → AllSettings ss
    → (init e program (written ss ((45 ∷ []) ∷ rest))).0 ≡ false
unfolding init take_arguments
init-dash e program ss rest a =
    let e' : Env = record e { program = program } in
    ap (λ r. r.0) (take-written ss e' none ((45 ∷ []) ∷ rest) a)

-- The value that was given last.
abbrev pub last_value : List ℕ → List Setting → Option (List ℕ) → Option (List ℕ)
last_value key [] before = before
last_value key ((k, val) ∷ ss) before =
    last_value key ss (if same_bytes k key then some (value_of val) else before)

find-put :
    (key k val : List ℕ) (ps : List Pair)
    → find key (put k val ps) ≡ (if same_bytes k key then some val else find key ps)
find-put key k val [] = refl
find-put key k val (p ∷ ps) = elim (Bool-cases (same_bytes p.0 k)) [
  | inl here ↦ elim (Bool-cases (same_bytes k key)) [
    | inl same ↦ rw (here, same) refl
    | inr other ↦
        let not_here : same_bytes p.0 key ≡ false =
          ap (λ x. same_bytes x key) (same_bytes-true p.0 k here) ∙ other in
        rw (here, other, not_here) refl
  ]
  | inr not_here ↦ elim (Bool-cases (same_bytes k key)) [
    | inl same ↦
        let passed : same_bytes p.0 key ≡ false =
          ap (same_bytes p.0) (sym (same_bytes-true k key same)) ∙ not_here in
        rw (not_here, passed, same) (rw same at (find-put key k val ps))
    | inr other ↦
        let rest = rw other at (find-put key k val ps) in
        rw (not_here, other) (ap (λ f. if same_bytes p.0 key then some p.1 else f) rest)
  ]
]

find-settled :
    (key : List ℕ) (ss : List Setting) (e : Env)
    → find key (settled e ss).args ≡ last_value key ss (find key e.args)
unfolding add
find-settled key [] e = refl
find-settled key ((k, val) ∷ ss) e =
    find-settled key ss (add e k (value_of val))
    ∙ ap (last_value key ss) (find-put key k (value_of val) e.args)

-- After `Init` on such options, `Get` gives the value that was given last for the key, and where none
-- was given what it gave before.
get-init :
    (e : Env) (program : List ℕ) (ss : List Setting) (key default_value : List ℕ)
    → AllSettings ss
    → get (init e program (written ss [])).1 key default_value
      ≡ elim (last_value key ss (find key e.args)) [ none ↦ default_value | some val ↦ val ]
unfolding get
get-init e program ss key default_value a =
    ap (λ (r : Bool × Env). get r.1 key default_value) (init-settled e program ss a)
    ∙ ap (λ f. elim f [ none ↦ default_value | some val ↦ val ])
        (find-settled key ss (record e { program = program }))
