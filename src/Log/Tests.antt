-- ===== src/Log/Tests.antt =====
-- Patterns of the log's formats (serverframework/log/log.cc): "[%p]%d{%H}.", "[%p]%q.%d{%H}" and
-- "[%p]%d".
use my_server_framework.Prelude.{ℕ, ◌≡◌, refl, some, none, List, [], ◌∷◌, ◌++◌}
use my_server_framework.Prelude.{All, inl, inr, false, ◌&&◌, not, if◌then◌else◌}
use my_server_framework.Log.Define.{LogAppenderDefine, LogDefine, define_of_text, text_of_define}
use my_server_framework.Log.Casts.{define_of_text-text_of_define}
use my_server_framework.Log.Listener.{Loggers, logger_at, find_define, changed, on_change}
use my_server_framework.Log.Changes.{IsReady, after_new}
use my_server_framework.Log.Silenced.{silenced, is_defined, on_change-logger_at}
use my_server_framework.Log.Crashes.{on_change-IsReady}
use my_server_framework.Log.{info, warn, debug, level_item, string_item, date_time_item}
use my_server_framework.Log.Pattern.{find_item, init}
use my_server_framework.Log.Parsing.{char, date, Segment, written, WellWritten}
use my_server_framework.Log.Items.{AllKnown, init-written}

abbrev bracketed : List Segment
bracketed = (91 ∷ [], char 112) ∷ (93 ∷ [], date (37 ∷ 72 ∷ [])) ∷ []

abbrev dot : List ℕ
dot = 46 ∷ []

bracketed-WellWritten : WellWritten bracketed
bracketed-WellWritten = (((refl, tt), refl), (((refl, tt), (refl, (refl, tt))), tt))

bracketed-AllKnown : AllKnown bracketed
unfolding find_item
bracketed-AllKnown = (refl, (tt, tt))

init-written_example :
    init (written bracketed dot)
    ≡ some (record {
      items =
          string_item (91 ∷ [])
          ∷ level_item
          ∷ string_item (93 ∷ [])
          ∷ date_time_item (37 ∷ 72 ∷ [])
          ∷ string_item dot
          ∷ [];
      error = false;
    })
unfolding find_item
init-written_example =
    init-written bracketed dot bracketed-WellWritten bracketed-AllKnown (refl, tt)

unknown_q : find_item 113 ≡ none
unfolding find_item
unknown_q = refl

abbrev with_q : List Segment
with_q = bracketed ++ (dot, char 113) ∷ []

-- "a" has a file, then the terminal too; "b" is dropped; "c" is new, with a file and the terminal.
abbrev file_f : LogAppenderDefine
file_f = record { type_number = 1; pattern = 37 ∷ 109 ∷ []; file = 102 ∷ [] }

abbrev terminal : LogAppenderDefine
terminal = record { type_number = 2; pattern = []; file = [] }

abbrev old_a : LogDefine
old_a = record { name = 97 ∷ []; level = info; appenders = file_f ∷ [] }

abbrev new_a : LogDefine
new_a = record { name = 97 ∷ []; level = info; appenders = file_f ∷ terminal ∷ [] }

abbrev old_b : LogDefine
old_b = record { name = 98 ∷ []; level = warn; appenders = terminal ∷ [] }

abbrev new_b : LogDefine
new_b = record { name = 98 ∷ []; level = debug; appenders = terminal ∷ [] }

abbrev new_c : LogDefine
new_c = record { name = 99 ∷ []; level = debug; appenders = file_f ∷ terminal ∷ [] }

-- A library whose texts are the nodes.
define_of_text-text_of_define_example :
    define_of_text (λ n. n) (λ n. n) (text_of_define (λ n. n) (λ n. n) new_c) ≡ some new_c
define_of_text-text_of_define_example =
    define_of_text-text_of_define (λ n. n) (λ n. n) new_c (λ n. refl)
      (inl refl, (inr (refl, refl), tt))

on_change-logger_at_example :
    (ls' : Loggers) × (on_change false (old_a ∷ old_b ∷ []) (new_a ∷ new_c ∷ []) [] ≡ changed ls')
    × ((n : List ℕ)
        → logger_at ls' n ≡ (
            if is_defined (old_a ∷ old_b ∷ []) n && not (is_defined (new_a ∷ new_c ∷ []) n)
            then silenced
            else after_new false (old_a ∷ old_b ∷ []) (new_a ∷ new_c ∷ []) [] n))
unfolding find_define
on_change-logger_at_example =
    on_change-logger_at false (old_a ∷ old_b ∷ []) (new_a ∷ new_c ∷ []) []
      (inr (old_a, refl, refl), (inl (refl, (inl refl, (inr refl, tt))), tt)) (refl, (refl, tt))

on_change_runs :
    (ls' : Loggers) × (on_change false (old_a ∷ old_b ∷ []) (new_a ∷ new_c ∷ []) [] ≡ changed ls')
unfolding find_define
on_change_runs =
    let r =
      on_change-logger_at false (old_a ∷ old_b ∷ []) (new_a ∷ new_c ∷ []) []
        (inr (old_a, refl, refl), (inl (refl, (inl refl, (inr refl, tt))), tt))
        (refl, (refl, tt)) in
    (r.0, r.1)

on_change-IsReady_example : All (IsReady (old_a ∷ old_b ∷ [])) (new_a ∷ new_c ∷ [])
on_change-IsReady_example =
    on_change-IsReady false (old_a ∷ old_b ∷ []) (new_a ∷ new_c ∷ []) [] on_change_runs.0
      on_change_runs.1
