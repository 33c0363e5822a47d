-- ===== src/Log.antt =====
-- The log (serverframework/log/log.h, log.cc): levels, events, what the items of a format write, and
-- loggers with their appenders. Pattern has the parser of a format. Strings are lists of bytes.
-- `strftime`, with `localtime_r`, and the decimal digits that a stream writes are parameters.
pub mod Pattern
pub mod Parsing
pub mod Items
pub mod Loggers
pub mod Define
pub mod Casts
pub mod Listener
pub mod Changes
pub mod Silenced
pub mod Crashes
pub mod Tests
use my_server_framework.Prelude.{
  ℕ, ◌==◌, Bool, true, false, ◌&&◌, List, [], ◌∷◌, ◌++◌, if◌then◌else◌,
}
use my_server_framework.Prelude.Strings.{same_bytes}

pub data Level : Type 0 where
  fatal alert crit error warn notice info debug notset : Level

-- The values of the enumeration.
abbrev pub level_value : Level → ℕ
level_value fatal = 0
level_value alert = 100
level_value crit = 200
level_value error = 300
level_value warn = 400
level_value notice = 500
level_value info = 600
level_value debug = 700
level_value notset = 800

-- `LogLevel::ToString`
unfoldable pub to_string : Level → List ℕ
to_string fatal = 70 ∷ 65 ∷ 84 ∷ 65 ∷ 76 ∷ []
to_string alert = 65 ∷ 76 ∷ 69 ∷ 82 ∷ 84 ∷ []
to_string crit = 67 ∷ 82 ∷ 73 ∷ 84 ∷ []
to_string error = 69 ∷ 82 ∷ 82 ∷ 79 ∷ 82 ∷ []
to_string warn = 87 ∷ 65 ∷ 82 ∷ 78 ∷ []
to_string notice = 78 ∷ 79 ∷ 84 ∷ 73 ∷ 67 ∷ 69 ∷ []
to_string info = 73 ∷ 78 ∷ 70 ∷ 79 ∷ []
to_string debug = 68 ∷ 69 ∷ 66 ∷ 85 ∷ 71 ∷ []
to_string notset = 78 ∷ 79 ∷ 84 ∷ 83 ∷ 69 ∷ 84 ∷ []

-- The tests of `LogLevel::FromString`, in order.
abbrev pub level_names : List (List ℕ × Level)
level_names =
    ((102 ∷ 97 ∷ 116 ∷ 97 ∷ 108 ∷ []), fatal)
    ∷ ((97 ∷ 108 ∷ 101 ∷ 114 ∷ 116 ∷ []), alert)
    ∷ ((99 ∷ 114 ∷ 105 ∷ 116 ∷ []), crit)
    ∷ ((101 ∷ 114 ∷ 114 ∷ 111 ∷ 114 ∷ []), error)
    ∷ ((119 ∷ 97 ∷ 114 ∷ 110 ∷ []), warn)
    ∷ ((110 ∷ 111 ∷ 116 ∷ 105 ∷ 99 ∷ 101 ∷ []), notice)
    ∷ ((105 ∷ 110 ∷ 102 ∷ 111 ∷ []), info)
    ∷ ((100 ∷ 101 ∷ 98 ∷ 117 ∷ 103 ∷ []), debug)
    ∷ ((70 ∷ 65 ∷ 84 ∷ 65 ∷ 76 ∷ []), fatal)
    ∷ ((65 ∷ 76 ∷ 69 ∷ 82 ∷ 84 ∷ []), alert)
    ∷ ((67 ∷ 82 ∷ 73 ∷ 84 ∷ []), crit)
    ∷ ((69 ∷ 82 ∷ 82 ∷ 79 ∷ 82 ∷ []), error)
    ∷ ((87 ∷ 65 ∷ 82 ∷ 78 ∷ []), warn)
    ∷ ((78 ∷ 79 ∷ 84 ∷ 73 ∷ 67 ∷ 69 ∷ []), notice)
    ∷ ((73 ∷ 78 ∷ 70 ∷ 79 ∷ []), info)
    ∷ ((68 ∷ 69 ∷ 66 ∷ 85 ∷ 71 ∷ []), debug)
    ∷ []

abbrev pub find_level : List (List ℕ × Level) → List ℕ → Level
find_level [] str = notset
find_level ((name, level) ∷ rest) str =
    let later = find_level rest str in if same_bytes str name then level else later

-- `LogLevel::FromString`
unfoldable pub from_string : List ℕ → Level
from_string str = find_level level_names str

pub record LogEvent : Type 0 where
  pub logger_name : List ℕ
  pub level : Level
  pub content : List ℕ
  pub file : List ℕ
  pub line : ℕ
  pub elapse : ℕ
  pub thread_id : ℕ
  pub fiber_id : ℕ
  pub time : ℕ
  pub thread_name : List ℕ

-- `FormatItem` and its classes.
pub data FormatItem : Type 0 where
  message_item level_item elapse_item logger_name_item thread_id_item fiber_id_item : FormatItem
  thread_name_item file_name_item line_item new_line_item tab_item percent_sign_item : FormatItem
  date_time_item : List ℕ → FormatItem
  string_item : List ℕ → FormatItem

-- The constructor of `DateTimeFormatItem`: an empty format is "%Y-%m-%d %H:%M:%S".
abbrev pub new_date_time_item : List ℕ → FormatItem
new_date_time_item [] =
    date_time_item
      (37 ∷ 89 ∷ 45 ∷ 37 ∷ 109 ∷ 45 ∷ 37 ∷ 100 ∷ 32 ∷ 37 ∷ 72 ∷ 58 ∷ 37 ∷ 77 ∷ 58 ∷ 37 ∷ 83 ∷ [])
new_date_time_item (c ∷ cs) = date_time_item (c ∷ cs)

module _ (strftime : List ℕ → ℕ → List ℕ) (decimal : ℕ → List ℕ) where
  -- `Format` of each item.
  unfoldable pub format_item : LogEvent → FormatItem → List ℕ
  format_item e message_item = e.content
  format_item e level_item = to_string e.level
  format_item e elapse_item = decimal e.elapse
  format_item e logger_name_item = e.logger_name
  format_item e thread_id_item = decimal e.thread_id
  format_item e fiber_id_item = decimal e.fiber_id
  format_item e thread_name_item = e.thread_name
  format_item e file_name_item = e.file
  format_item e line_item = decimal e.line
  format_item e new_line_item = 10 ∷ []
  format_item e tab_item = 9 ∷ []
  format_item e percent_sign_item = 37 ∷ []
  format_item e (date_time_item fmt) = strftime fmt e.time
  format_item e (string_item str) = str

  -- `LogFormatter::Format`
  unfoldable pub format : List FormatItem → LogEvent → List ℕ
  format [] e = []
  format (i ∷ is) e = format_item e i ++ format is e
