-- ===== src/Log/Pattern.antt =====
-- `LogFormatter::Init` (serverframework/log/log.cc): the parser of a format's pattern, one step for a
-- character, and the items made of what it found.
use my_server_framework.Prelude.{
  ℕ, Bool, true, false, Option, none, some, List, [], ◌∷◌, ◌++◌, if◌then◌else◌, ◌==◌,
}
use my_server_framework.Log.{
  FormatItem, message_item, level_item, elapse_item, logger_name_item, thread_id_item,
  fiber_id_item, thread_name_item, file_name_item, line_item, new_line_item, tab_item,
  percent_sign_item, string_item, new_date_time_item,
}

-- `patterns`: a string, or a character after %.
pub data Piece : Type 0 where
  plain : List ℕ → Piece
  escaped : ℕ → Piece

-- Where the parser is: `parsing_string` or not, just after `%d`, or between its braces.
pub data Mode : Type 0 where
  parsing_string parsing_pattern after_d in_braces : Mode

pub record Parser : Type 0 where
  pub mode : Mode
  pub patterns : List Piece
  pub tmp : List ℕ
  pub dateformat : List ℕ

-- What is left of `tmp`, as a piece.
abbrev pub flushed : List ℕ → List Piece
flushed [] = []
flushed (c ∷ cs) = plain (c ∷ cs) ∷ []

-- While a string is parsed.
abbrev pub string_step : Parser → ℕ → Parser
string_step p c =
    if c == 37
    then record p { mode = parsing_pattern; patterns = p.patterns ++ flushed p.tmp; tmp = [] }
    else record p { mode = parsing_string; tmp = p.tmp ++ (c ∷ []) }

abbrev pub pattern_step : Parser → ℕ → Parser
pattern_step p c = record p {
  mode = if c == 100 then after_d else parsing_string;
  patterns = p.patterns ++ (escaped c ∷ []);
}

abbrev pub braces_step : Parser → ℕ → Parser
braces_step p c =
    if c == 125
    then record p { mode = parsing_string }
    else record p { mode = in_braces; dateformat = p.dateformat ++ (c ∷ []) }

abbrev pub step_in : Mode → Parser → ℕ → Parser
step_in parsing_string p c = string_step p c
step_in parsing_pattern p c = pattern_step p c
step_in after_d p c = if c == 123 then record p { mode = in_braces } else string_step p c
step_in in_braces p c = braces_step p c

-- The loop over the pattern.
unfoldable pub parse : Parser → List ℕ → Parser
parse p [] = p
parse p (c ∷ cs) = parse (step_in p.mode p c) cs

-- The parser at the start.
abbrev pub new_parser : Parser
new_parser = record { mode = parsing_string; patterns = []; tmp = []; dateformat = [] }

-- How the loop ends: with the pieces and the date format, with a brace that is not closed, or, for a
-- pattern that ends in `%d`, with a read of a character past the end.
pub data Parsed : Type 0 where
  parsed : List Piece → List ℕ → Parsed
  not_closed : Parsed
  past_end : Parsed

abbrev pub end_in : Mode → Parser → Parsed
end_in parsing_string p = parsed (p.patterns ++ flushed p.tmp) p.dateformat
end_in parsing_pattern p = parsed (p.patterns ++ flushed p.tmp) p.dateformat
end_in after_d p = past_end
end_in in_braces p = not_closed

abbrev pub end_parse : Parser → Parsed
end_parse p = end_in p.mode p

-- `s_format_items`
unfoldable pub find_item : ℕ → Option FormatItem
find_item c =
    if c == 109
    then some message_item
    else if c == 112
    then some level_item
    else if c == 99
    then some logger_name_item
    else if c == 114
    then some elapse_item
    else if c == 102
    then some file_name_item
    else if c == 108
    then some line_item
    else if c == 116
    then some thread_id_item
    else if c == 70
    then some fiber_id_item
    else if c == 78
    then some thread_name_item
    else if c == 37
    then some percent_sign_item
    else if c == 84
    then some tab_item
    else if c == 110
    then some new_line_item
    else none

-- The item of a piece, `none` for an unknown one.
abbrev pub item_of : List ℕ → Piece → Option FormatItem
item_of dateformat (plain str) = some (string_item str)
item_of dateformat (escaped c) =
    if c == 100 then some (new_date_time_item dateformat) else find_item c

-- `items_` and `error_`
pub record LogFormatter : Type 0 where
  pub items : List FormatItem
  pub error : Bool

abbrev pub more : FormatItem → LogFormatter → LogFormatter
more i f = record f { items = i ∷ f.items }

-- The loop over the pieces stops at an unknown one.
unfoldable pub make_items : List ℕ → List Piece → LogFormatter
make_items dateformat [] = record { items = []; error = false }
make_items dateformat (p ∷ ps) =
    let rest = make_items dateformat ps in
    elim (item_of dateformat p) [
      | none ↦ record { items = []; error = true }
      | some i ↦ more i rest
    ]

abbrev pub formatter_of : Parsed → Option LogFormatter
formatter_of (parsed patterns dateformat) = some (make_items dateformat patterns)
formatter_of not_closed = some (record { items = []; error = true })
formatter_of past_end = none

-- `LogFormatter::Init`; `none` is the read past the end.
unfoldable pub init : List ℕ → Option LogFormatter
init pattern = formatter_of (end_parse (parse new_parser pattern))
