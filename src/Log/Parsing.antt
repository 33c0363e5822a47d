-- ===== src/Log/Parsing.antt =====
-- That the parser of patterns (serverframework/log/log.cc) finds what a pattern was written from.
use my_server_framework.Prelude.{
  All, ℕ, ◌≡◌, sym, ap, ap₂, ◌∙◌, false, List, [], ◌∷◌, ◌++◌, if◌then◌else◌, ◌==◌, append-nil,
  append_assoc,
}
use my_server_framework.Log.Pattern.{
  Piece, escaped, Mode, parsing_string, parsing_pattern, after_d, in_braces, Parser, flushed, parse,
}

-- What a pattern has after a percent sign: one character, or `d` and a date format in braces.
pub data Directive : Type 0 where
  char : ℕ → Directive
  date : List ℕ → Directive

-- A pattern is strings, each before a directive, and a string at the end.
abbrev pub Segment : Type 0
Segment = List ℕ × Directive

abbrev pub written_directive : Directive → List ℕ → List ℕ
written_directive (char c) rest = 37 ∷ c ∷ rest
written_directive (date fmt) rest = 37 ∷ 100 ∷ 123 ∷ fmt ++ 125 ∷ rest

abbrev pub written : List Segment → List ℕ → List ℕ
written [] tail = tail
written ((str, d) ∷ segs) tail = str ++ written_directive d (written segs tail)

abbrev pub NonePercent : List ℕ → Type 0
NonePercent str = All (λ c. (c == 37) ≡ false) str

abbrev pub WellDirected : Directive → Type 0
WellDirected (char c) = (c == 100) ≡ false
WellDirected (date fmt) = All (λ c. (c == 125) ≡ false) fmt

-- No percent sign in a string, no `d` alone, no closing brace in a date format.
abbrev pub WellWritten : List Segment → Type 0
WellWritten segs = All (λ (s : Segment). NonePercent s.0 × WellDirected s.1) segs

abbrev pub date_of : Directive → List ℕ
date_of (char c) = []
date_of (date fmt) = fmt

-- All the date formats, one after the other.
abbrev pub dates : List Segment → List ℕ
dates [] = []
dates ((str, d) ∷ segs) = date_of d ++ dates segs

abbrev pub escape_of : Directive → ℕ
escape_of (char c) = c
escape_of (date fmt) = 100

abbrev pub pieces : List Segment → List Piece
pieces [] = []
pieces ((str, d) ∷ segs) = flushed str ++ (escaped (escape_of d) ∷ pieces segs)

abbrev pub in_mode : Mode → List Piece → List ℕ → List ℕ → Parser
in_mode m ps tmp df = record { mode = m; patterns = ps; tmp = tmp; dateformat = df }

pub parse-string :
    (str : List ℕ) (ps : List Piece) (tmp df rest : List ℕ)
    → NonePercent str
    → parse (in_mode parsing_string ps tmp df) (str ++ rest)
      ≡ parse (in_mode parsing_string ps (tmp ++ str) df) rest
unfolding parse
parse-string [] ps tmp df rest h =
    ap (λ t. parse (in_mode parsing_string ps t df) rest) (sym (append-nil tmp))
parse-string (c ∷ str) ps tmp df rest h =
    ap
      (λ b.
        parse
          (if b
            then in_mode parsing_pattern (ps ++ flushed tmp) [] df
            else in_mode parsing_string ps (tmp ++ (c ∷ [])) df)
          (str ++ rest))
      h.0
    ∙ parse-string str ps (tmp ++ (c ∷ [])) df rest h.1
    ∙ ap (λ t. parse (in_mode parsing_string ps t df) rest) (append_assoc tmp (c ∷ []) str)

parse-date :
    (fmt : List ℕ) (ps : List Piece) (tmp df rest : List ℕ)
    → All (λ c. (c == 125) ≡ false) fmt
    → parse (in_mode in_braces ps tmp df) (fmt ++ 125 ∷ rest)
      ≡ parse (in_mode parsing_string ps tmp (df ++ fmt)) rest
unfolding parse
parse-date [] ps tmp df rest h =
    ap (λ t. parse (in_mode parsing_string ps tmp t) rest) (sym (append-nil df))
parse-date (c ∷ fmt) ps tmp df rest h =
    ap
      (λ b.
        parse
          (if b
            then in_mode parsing_string ps tmp df
            else in_mode in_braces ps tmp (df ++ (c ∷ [])))
          (fmt ++ 125 ∷ rest))
      h.0
    ∙ parse-date fmt ps tmp (df ++ (c ∷ [])) rest h.1
    ∙ ap (λ t. parse (in_mode parsing_string ps tmp t) rest) (append_assoc df (c ∷ []) fmt)

parse-directive :
    (d : Directive) (ps : List Piece) (tmp df rest : List ℕ)
    → WellDirected d
    → parse (in_mode parsing_string ps tmp df) (written_directive d rest)
      ≡ parse
          (in_mode parsing_string
            ((ps ++ flushed tmp) ++ (escaped (escape_of d) ∷ []))
            []
            (df ++ date_of d))
          rest
unfolding parse
parse-directive (char c) ps tmp df rest h =
    ap
      (λ b.
        parse
          (in_mode (if b then after_d else parsing_string) ((ps ++ flushed tmp) ++ (escaped c ∷ []))
            [] df)
          rest)
      h
    ∙ ap (λ t. parse (in_mode parsing_string ((ps ++ flushed tmp) ++ (escaped c ∷ [])) [] t) rest)
        (sym (append-nil df))
parse-directive (date fmt) ps tmp df rest h =
    parse-date fmt ((ps ++ flushed tmp) ++ (escaped 100 ∷ [])) [] df rest h

-- The parser after the segments of a pattern, with the end still to come.
pub parse-written :
    (segs : List Segment) (ps : List Piece) (df tail : List ℕ)
    → WellWritten segs
    → parse (in_mode parsing_string ps [] df) (written segs tail)
      ≡ parse (in_mode parsing_string (ps ++ pieces segs) [] (df ++ dates segs)) tail
parse-written [] ps df tail w =
    ap₂ (λ qs t. parse (in_mode parsing_string qs [] t) tail) (sym (append-nil ps))
      (sym (append-nil df))
parse-written ((str, d) ∷ segs) ps df tail w =
    let rest = written segs tail in
    let ps' = (ps ++ flushed str) ++ (escaped (escape_of d) ∷ []) in
    parse-string str ps [] df (written_directive d rest) w.0.0
    ∙ parse-directive d ps str df rest w.0.1
    ∙ parse-written segs ps' (df ++ date_of d) tail w.1
    ∙ ap₂ (λ qs t. parse (in_mode parsing_string qs [] t) tail)
        (append_assoc (ps ++ flushed str) (escaped (escape_of d) ∷ []) (pieces segs)
          ∙ append_assoc ps (flushed str) (escaped (escape_of d) ∷ pieces segs))
        (append_assoc df (date_of d) (dates segs))
