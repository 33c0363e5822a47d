-- ===== src/Log/Changes.antt =====
-- What a change of the configuration makes of every logger (serverframework/log/log.cc).
use my_server_framework.Prelude.{
  ℕ, ◌≡◌, refl, sym, ap, ◌∙◌, subst, Bool, true, false, Bool-cases, Option-cases, inl, inr, ◌⊎◌,
  Option, none, some, List, [], ◌∷◌, All, arith, if◌then◌else◌, ◌==◌,
}
use my_server_framework.Prelude.Strings.{same_bytes, same_bytes_refl, same_bytes-true}
use my_server_framework.Prelude.Sums.{some-injective}
use my_server_framework.Log.{level_value}
use my_server_framework.Log.Define.{
  LogAppenderDefine, LogDefine, same_define, same_appender, same_appenders,
}
use my_server_framework.Log.Listener.{
  Appender, file_appender, stdout_appender, State, Loggers, logger_at, put_logger, find_define,
  pattern_of, make_appenders, changed, take_new, take_all_new,
}

-- Two names are not the same where one is that of a third and the other is not.
other_name :
    (m name n : List ℕ)
    → same_bytes m name ≡ false
    → same_bytes m n ≡ true
    → same_bytes name n ≡ false
other_name m name n e f = elim (Bool-cases (same_bytes name n)) [
  | inl g ↦
      let same : m ≡ name = same_bytes-true m n f ∙ sym (same_bytes-true name n g) in
      let yes_ : same_bytes m name ≡ true =
        subst (λ x. same_bytes m x ≡ true) same (same_bytes_refl m) in
      absurd (ground (arith, e, yes_))
  | inr g ↦ g
]

pub logger_at-put_logger :
    (ls : Loggers) (name n : List ℕ) (s : State)
    → logger_at (put_logger ls name s) n ≡ (if same_bytes name n then s else logger_at ls n)
unfolding logger_at put_logger
logger_at-put_logger [] name n s = refl
logger_at-put_logger ((m, old) ∷ ls) name n s = elim (Bool-cases (same_bytes m name)) [
  | inl e ↦
      let same : same_bytes name n ≡ same_bytes m n =
        ap (λ x. same_bytes x n) (sym (same_bytes-true m name e)) in
      rw (e, same) (elim (Bool-cases (same_bytes m n)) [ inl f ↦ rw f refl | inr f ↦ rw f refl ])
  | inr e ↦
      rw (put_logger, e)
        (elim (Bool-cases (same_bytes m n)) [
          | inl f ↦ rw (f, other_name m name n e f) refl
          | inr f ↦ rw f (logger_at-put_logger ls name n s)
        ])
]

-- The appenders that a definition makes, where all are of a type that is known.
unfoldable pub made_of : Bool → List LogAppenderDefine → List Appender
made_of daemon [] = []
made_of daemon (a ∷ as_) =
    let rest = made_of daemon as_ in
    if a.type_number == 1
    then file_appender a.file (pattern_of a.pattern) ∷ rest
    else if daemon
    then rest
    else stdout_appender (pattern_of a.pattern) ∷ rest

abbrev pub IsMade : LogAppenderDefine → Type 0
IsMade a = (a.type_number ≡ 1) ⊎ (a.type_number ≡ 2)

make_appenders-made_of :
    (daemon : Bool) (as_ : List LogAppenderDefine)
    → All IsMade as_
    → make_appenders daemon as_ ≡ some (made_of daemon as_)
unfolding make_appenders made_of
make_appenders-made_of daemon [] h = refl
make_appenders-made_of daemon (a ∷ as_) (inl e, h) =
    rw (make_appenders, made_of, e, make_appenders-made_of daemon as_ h) refl
make_appenders-made_of true (a ∷ as_) (inr e, h) =
    rw (make_appenders, made_of, e, make_appenders-made_of true as_ h) refl
make_appenders-made_of false (a ∷ as_) (inr e, h) =
    rw (make_appenders, made_of, e, make_appenders-made_of false as_ h) refl

abbrev pub made_state : Bool → LogDefine → State
made_state daemon d = record { level = d.level; appenders = made_of daemon d.appenders }

-- The logger of a name that is defined: made by its definition if it is new, or else as it was.
unfoldable pub given : Bool → List LogDefine → LogDefine → Loggers → List ℕ → State
given daemon old d ls n = elim (find_define old n) [
  | none ↦ made_state daemon d
  | some before ↦ logger_at ls n
]

unfoldable pub after_new : Bool → List LogDefine → List LogDefine → Loggers → List ℕ → State
after_new daemon old ds ls n = elim (find_define ds n) [
  | none ↦ logger_at ls n
  | some d ↦ given daemon old d ls n
]

-- A definition is new with appenders of known types, or it was there with the same level.
abbrev pub IsReady : List LogDefine → LogDefine → Type 0
IsReady old d =
    ((find_define old d.name ≡ none) × All IsMade d.appenders)
    ⊎ ((before : LogDefine) × (find_define old d.name ≡ some before)
        × (level_value d.level ≡ level_value before.level))

abbrev pub AreDistinct : List LogDefine → Type 0
AreDistinct [] = Unit {0}
AreDistinct (d ∷ ds) = (find_define ds d.name ≡ none) × AreDistinct ds

same_appenders_refl : (as_ : List LogAppenderDefine) → same_appenders as_ as_ ≡ true
unfolding same_appenders same_appender
same_appenders_refl [] = refl
same_appenders_refl (a ∷ as_) =
    ground (arith, same_bytes_refl a.pattern, same_bytes_refl a.file, same_appenders_refl as_)

pub found_name :
    (ds : List LogDefine) (name : List ℕ) (d : LogDefine)
    → find_define ds name ≡ some d
    → d.name ≡ name
unfolding find_define
found_name [] name d h = absurd (ground (arith, h))
found_name (e ∷ ds) name d h = elim (Bool-cases (same_bytes e.name name)) [
  | inl y ↦
      let same : e ≡ d = some-injective e d (rw y at h) in
      ap (λ x. x.name) (sym same) ∙ same_bytes-true e.name name y
  | inr n ↦ found_name ds name d (rw n at h)
]

pub same_define-level :
    (d before : LogDefine)
    → d.name ≡ before.name
    → same_define d before ≡ (level_value d.level == level_value before.level)
unfolding same_define
same_define-level d before h =
    let names : same_bytes d.name before.name ≡ true =
      subst (λ x. same_bytes d.name x ≡ true) h (same_bytes_refl d.name) in
    ground (arith, names, same_appenders_refl d.appenders)

-- What a definition does to each logger.
abbrev pub TakesNew : Bool → List LogDefine → LogDefine → Loggers → Loggers → Type 0
TakesNew daemon old d ls ls' =
    (n : List ℕ)
    → logger_at ls' n ≡ (if same_bytes d.name n then given daemon old d ls n else logger_at ls n)

new_given :
    (daemon : Bool) (old : List LogDefine) (d : LogDefine) (ls : Loggers) (n : List ℕ)
    → find_define old d.name ≡ none
    → (if same_bytes d.name n then made_state daemon d else logger_at ls n)
      ≡ (if same_bytes d.name n then given daemon old d ls n else logger_at ls n)
unfolding given
new_given daemon old d ls n e = elim (Bool-cases (same_bytes d.name n)) [
  | inl y ↦
      let there : find_define old n ≡ none =
        subst (λ x. find_define old x ≡ none) (same_bytes-true d.name n y) e in
      rw (y, given, there) refl
  | inr no_ ↦ rw no_ refl
]

old_given :
    (daemon : Bool) (old : List LogDefine) (d before : LogDefine) (ls : Loggers) (n : List ℕ)
    → find_define old d.name ≡ some before
    → logger_at ls n ≡ (if same_bytes d.name n then given daemon old d ls n else logger_at ls n)
unfolding given
old_given daemon old d before ls n e = elim (Bool-cases (same_bytes d.name n)) [
  | inl y ↦
      let there : find_define old n ≡ some before =
        subst (λ x. find_define old x ≡ some before) (same_bytes-true d.name n y) e in
      rw (y, given, there) refl
  | inr no_ ↦ rw no_ refl
]

take_new_lem :
    (daemon : Bool) (old : List LogDefine) (d : LogDefine) (ls : Loggers)
    → IsReady old d
    → (ls' : Loggers) × (take_new daemon old d ls ≡ changed ls') × TakesNew daemon old d ls ls'
unfolding take_new
take_new_lem daemon old d ls (inl (e, h)) = (
  put_logger ls d.name (made_state daemon d),
  rw (take_new, e, make_appenders-made_of daemon d.appenders h) refl,
  λ n. logger_at-put_logger ls d.name n (made_state daemon d) ∙ new_given daemon old d ls n e,
)
take_new_lem daemon old d ls (inr (before, e, h)) =
    let unchanged : same_define d before ≡ true =
      same_define-level d before (sym (found_name old d.name before e)) ∙ ground (arith, h) in
    (ls, rw (take_new, e, unchanged) refl, λ n. old_given daemon old d before ls n e)

-- The loggers may be exchanged for others that have the same logger of the name.
after_same :
    (daemon : Bool) (old ds : List LogDefine) (ls ls' : Loggers) (n : List ℕ)
    → logger_at ls' n ≡ logger_at ls n
    → after_new daemon old ds ls' n ≡ after_new daemon old ds ls n
unfolding after_new given
after_same daemon old ds ls ls' n e = elim (Option-cases (find_define ds n)) [
  | inl f ↦ rw (after_new, f) e
  | inr r ↦
      rw (after_new, r.1)
        (elim (Option-cases (find_define old n)) [
          | inl g ↦ rw (given, g) refl
          | inr q ↦ rw (given, q.1) e
        ])
]

after_cons :
    (daemon : Bool) (old : List LogDefine) (d : LogDefine) (ds : List LogDefine) (ls ls' : Loggers)
    (n : List ℕ)
    → find_define ds d.name ≡ none
    → logger_at ls' n ≡ (if same_bytes d.name n then given daemon old d ls n else logger_at ls n)
    → after_new daemon old ds ls' n ≡ after_new daemon old (d ∷ ds) ls n
unfolding after_new find_define
after_cons daemon old d ds ls ls' n u e = elim (Bool-cases (same_bytes d.name n)) [
  | inl y ↦
      let gone : find_define ds n ≡ none =
        subst (λ x. find_define ds x ≡ none) (same_bytes-true d.name n y) u in
      rw (after_new, gone, y) (rw y at e)
  | inr no_ ↦
      let found : find_define ds n ≡ find_define (d ∷ ds) n = rw (find_define, no_) refl in
      let kept : logger_at ls' n ≡ logger_at ls n = rw no_ at e in
      after_same daemon old ds ls ls' n kept
      ∙ ap
          (λ (o : Option LogDefine). elim o [
            | none ↦ logger_at ls n
            | some c ↦ given daemon old c ls n
          ])
          found
]

pub take_all_new_lem :
    (daemon : Bool) (old ds : List LogDefine) (ls : Loggers)
    → All (IsReady old) ds
    → AreDistinct ds
    → (ls' : Loggers) × (take_all_new daemon old ds ls ≡ changed ls')
      × ((n : List ℕ) → logger_at ls' n ≡ after_new daemon old ds ls n)
unfolding take_all_new after_new find_define
take_all_new_lem daemon old [] ls h u = (ls, refl, λ n. refl)
take_all_new_lem daemon old (d ∷ ds) ls h u =
    let first = take_new_lem daemon old d ls h.0 in
    let rest = take_all_new_lem daemon old ds first.0 h.1 u.1 in
    (
      rest.0,
      rw (take_all_new, first.1) rest.1,
      λ n. rest.2 n ∙ after_cons daemon old d ds ls first.0 n u.0 (first.2 n),
    )
