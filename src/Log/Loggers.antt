-- ===== src/Log/Loggers.antt =====
-- `Logger`, `FileLogAppender` and `LoggerManager` (serverframework/log/log.cc). An appender is a number,
-- and so is a logger; whether a file opens is an argument.
use my_server_framework.Prelude.{
  ℕ, ◌+◌, Bool, not, Option, none, some, List, [], ◌∷◌, ◌++◌, if◌then◌else◌, leb, ◌==◌,
}
use my_server_framework.Prelude.Strings.{same_bytes}
use my_server_framework.Log.{Level, info, level_value, LogEvent}

pub record Logger : Type 0 where
  pub name : List ℕ
  pub level : Level
  pub appenders : List ℕ

abbrev pub new_logger : List ℕ → Logger
new_logger name = record { name = name; level = info; appenders = [] }

unfoldable pub add_appender : Logger → ℕ → Logger
add_appender l a = record l { appenders = l.appenders ++ (a ∷ []) }

-- The first of the appender's places is removed.
abbrev pub erase : ℕ → List ℕ → List ℕ
erase a [] = []
erase a (b ∷ bs) = let rest = erase a bs in if b == a then bs else b ∷ rest

unfoldable pub del_appender : Logger → ℕ → Logger
del_appender l a = record l { appenders = erase a l.appenders }

-- `Logger::Log`: the appenders whose `Log` is called, in order.
unfoldable pub log : Logger → LogEvent → List ℕ
log l e = if leb (level_value e.level) (level_value l.level) then l.appenders else []

pub record FileLogAppender : Type 0 where
  pub last_time : ℕ
  pub reopen_error : Bool
  pub written : List LogEvent

-- `FileLogAppender::Log`; `opens` is whether the file opens if it is opened again.
unfoldable pub file_log : FileLogAppender → Bool → LogEvent → FileLogAppender
file_log f opens e =
    let f' : FileLogAppender =
      if leb (f.last_time + 3) e.time
      then record f { last_time = e.time; reopen_error = not opens }
      else f in
    if f'.reopen_error then f' else record f' { written = f'.written ++ (e ∷ []) }

-- `loggers_`, by name, with the logger's number.
abbrev pub find_logger : List (List ℕ × ℕ) → List ℕ → Option ℕ
find_logger [] name = none
find_logger ((n, l) ∷ rest) name =
    let later = find_logger rest name in if same_bytes n name then some l else later

-- `LoggerManager::GetLogger`, of which `fresh` is the number of a new logger.
unfoldable pub get_logger : List (List ℕ × ℕ) → List ℕ → ℕ → ℕ × List (List ℕ × ℕ)
get_logger loggers name fresh = elim (find_logger loggers name) [
  | some l ↦ (l, loggers)
  | none ↦ (fresh, (name, fresh) ∷ loggers)
]
