-- ===== src/Log/Listener.antt =====
-- The listener that `LogIniter` gives the variable of the logs (serverframework/log/log.cc): what a change
-- of the configuration does to the loggers. `daemon` is whether the program has the argument "d".
use my_server_framework.Prelude.{
  ℕ, Bool, not, Option, none, some, List, [], ◌∷◌, if◌then◌else◌, ◌==◌,
}
use my_server_framework.Prelude.Strings.{same_bytes}
use my_server_framework.Log.{Level, info, notset}
use my_server_framework.Log.Define.{LogAppenderDefine, LogDefine, same_define}

-- An appender that is made, with its pattern where it is not the default one.
pub data Appender : Type 0 where
  file_appender : List ℕ → Option (List ℕ) → Appender
  stdout_appender : Option (List ℕ) → Appender

pub record State : Type 0 where
  pub level : Level
  pub appenders : List Appender

-- The loggers by name. A logger that is not there is made with the level `info` and no appenders.
abbrev pub Loggers : Type 0
Loggers = List (List ℕ × State)

unfoldable pub logger_at : Loggers → List ℕ → State
logger_at [] name = record { level = info; appenders = [] }
logger_at ((n, s) ∷ ls) name = if same_bytes n name then s else logger_at ls name

unfoldable pub put_logger : Loggers → List ℕ → State → Loggers
put_logger [] name s = (name, s) ∷ []
put_logger ((n, old) ∷ ls) name s =
    let rest = put_logger ls name s in if same_bytes n name then (n, s) ∷ ls else (n, old) ∷ rest

-- `find` of a set, whose order is that of the names.
unfoldable pub find_define : List LogDefine → List ℕ → Option LogDefine
find_define [] name = none
find_define (d ∷ ds) name =
    let rest = find_define ds name in if same_bytes d.name name then some d else rest

abbrev pub pattern_of : List ℕ → Option (List ℕ)
pattern_of [] = none
pattern_of (c ∷ cs) = some (c ∷ cs)

-- The loop over the appenders of a definition; `none` is the use of an appender that was not made.
unfoldable pub make_appenders : Bool → List LogAppenderDefine → Option (List Appender)
make_appenders daemon [] = some []
make_appenders daemon (a ∷ as_) =
    let rest = make_appenders daemon as_ in
    if a.type_number == 1
    then elim rest [
      | none ↦ none
      | some made ↦ some (file_appender a.file (pattern_of a.pattern) ∷ made)
    ]
    else if a.type_number == 2
    then if daemon then rest else elim rest [
      | none ↦ none
      | some made ↦ some (stdout_appender (pattern_of a.pattern) ∷ made)
    ]
    else none

-- What a change does: the loggers after it, or the use of a null pointer, that of a logger or that of an
-- appender.
pub data Change : Type 0 where
  changed : Loggers → Change
  null_logger : Change
  null_appender : Change

-- A new definition. `logger` stays null where the definition was there and differs.
unfoldable pub take_new : Bool → List LogDefine → LogDefine → Loggers → Change
take_new daemon old d loggers = elim (find_define old d.name) [
  | none ↦ elim (make_appenders daemon d.appenders) [
    | none ↦ null_appender
    | some made ↦ changed (put_logger loggers d.name (record { level = d.level; appenders = made }))
  ]
  | some before ↦ if not (same_define d before) then null_logger else changed loggers
]

-- What comes after a change, if there is something after it.
abbrev pub and_then : Change → (Loggers → Change) → Change
and_then (changed loggers) rest = rest loggers
and_then null_logger rest = null_logger
and_then null_appender rest = null_appender

unfoldable pub take_all_new : Bool → List LogDefine → List LogDefine → Loggers → Change
take_all_new daemon old [] loggers = changed loggers
take_all_new daemon old (d ∷ ds) loggers =
    and_then (take_new daemon old d loggers) (take_all_new daemon old ds)

-- A definition that was there: the logger is silenced if it is there no more.
unfoldable pub take_old : List LogDefine → LogDefine → Loggers → Loggers
take_old new d loggers = elim (find_define new d.name) [
  | some _ ↦ loggers
  | none ↦ put_logger loggers d.name (record { level = notset; appenders = [] })
]

unfoldable pub take_all_old : List LogDefine → List LogDefine → Loggers → Loggers
take_all_old new [] loggers = loggers
take_all_old new (d ∷ ds) loggers = take_all_old new ds (take_old new d loggers)

unfoldable pub on_change : Bool → List LogDefine → List LogDefine → Loggers → Change
on_change daemon old new loggers =
    and_then (take_all_new daemon old new loggers)
      (λ loggers'. changed (take_all_old new old loggers'))
