-- ===== src/Log/Items.antt =====
-- The items that `LogFormatter::Init` (serverframework/log/log.cc) makes of a pattern.
use my_server_framework.Prelude.{
  All, ℕ, ◌≡◌, refl, sym, ap, ◌∙◌, true, false, none, some, List, [], ◌∷◌, ◌++◌, ◌==◌, append-nil,
  append_assoc,
}
use my_server_framework.Prelude.Sums.{All-append}
use my_server_framework.Log.{FormatItem, string_item, new_date_time_item}
use my_server_framework.Log.Pattern.{
  Piece, escaped, parsing_string, flushed, parse, end_parse, find_item, LogFormatter, more,
  make_items, formatter_of, init,
}
use my_server_framework.Log.Parsing.{
  Directive, char, date, Segment, written, NonePercent, WellDirected, WellWritten, dates, escape_of,
  pieces, in_mode, parse-string, parse-written,
}

-- The items of the format that was meant: all dates have the same format.
abbrev pub char_item : ℕ → FormatItem
char_item c = elim (find_item c) [ none ↦ string_item [] | some i ↦ i ]

abbrev pub directive_item : List ℕ → Directive → FormatItem
directive_item df (char c) = char_item c
directive_item df (date fmt) = new_date_time_item df

abbrev pub string_items : List ℕ → List FormatItem
string_items [] = []
string_items (c ∷ cs) = string_item (c ∷ cs) ∷ []

abbrev pub items : List ℕ → List Segment → List FormatItem
items df [] = []
items df ((str, d) ∷ segs) = string_items str ++ (directive_item df d ∷ items df segs)

abbrev pub IsKnown : Directive → Type 0
IsKnown (char c) = find_item c ≡ some (char_item c)
IsKnown (date fmt) = Unit {0}

abbrev pub AllKnown : List Segment → Type 0
AllKnown segs = All (λ (s : Segment). IsKnown s.1) segs

abbrev after_items : List FormatItem → LogFormatter → LogFormatter
after_items is f = record f { items = is ++ f.items }

make-flushed :
    (df str : List ℕ) (ps : List Piece)
    → make_items df (flushed str ++ ps) ≡ after_items (string_items str) (make_items df ps)
unfolding make_items
make-flushed df [] ps = refl
make-flushed df (c ∷ str) ps = refl

make-escaped :
    (df : List ℕ) (d : Directive) (ps : List Piece)
    → WellDirected d
    → IsKnown d
    → make_items df (escaped (escape_of d) ∷ ps)
      ≡ after_items (directive_item df d ∷ []) (make_items df ps)
unfolding make_items
make-escaped df (char c) ps w k = rw (make_items, w, k) refl
make-escaped df (date fmt) ps w k = refl

make-pieces :
    (df : List ℕ) (segs : List Segment) (ps : List Piece)
    → WellWritten segs
    → AllKnown segs
    → make_items df (pieces segs ++ ps) ≡ after_items (items df segs) (make_items df ps)
make-pieces df [] ps w k = refl
make-pieces df ((str, d) ∷ segs) ps w k =
    let here = directive_item df d in
    ap (make_items df) (append_assoc (flushed str) (escaped (escape_of d) ∷ pieces segs) ps)
    ∙ make-flushed df str (escaped (escape_of d) ∷ pieces segs ++ ps)
    ∙ ap (after_items (string_items str)) (make-escaped df d (pieces segs ++ ps) w.0.1 k.0)
    ∙ ap (λ f. after_items (string_items str) (after_items (here ∷ []) f))
        (make-pieces df segs ps w.1 k.1)
    ∙ ap (λ is. record (make_items df ps) { items = is })
        (sym (append_assoc (string_items str) (here ∷ items df segs) (make_items df ps).items))

init-pieces :
    (segs : List Segment) (tail : List ℕ)
    → WellWritten segs
    → NonePercent tail
    → init (written segs tail) ≡ some (make_items (dates segs) (pieces segs ++ flushed tail))
unfolding init parse
init-pieces segs tail w h =
    ap (λ p. formatter_of (end_parse p)) (parse-written segs [] [] tail w)
    ∙ ap
        (λ t.
          formatter_of (end_parse (parse (in_mode parsing_string (pieces segs) [] (dates segs)) t)))
        (sym (append-nil tail))
    ∙ ap (λ p. formatter_of (end_parse p)) (parse-string tail (pieces segs) [] (dates segs) [] h)

make-tail :
    (df tail : List ℕ)
    → make_items df (flushed tail) ≡ record { items = string_items tail; error = false }
unfolding make_items
make-tail df [] = refl
make-tail df (c ∷ tail) = refl

-- A pattern written from strings and known directives gives just the items that were meant, in their
-- order and without an error; but all its dates get one format, which is all the formats that the
-- pattern has one after the other.
pub init-written :
    (segs : List Segment) (tail : List ℕ)
    → WellWritten segs
    → AllKnown segs
    → NonePercent tail
    → init (written segs tail)
      ≡ some (record { items = items (dates segs) segs ++ string_items tail; error = false })
init-written segs tail w k h =
    init-pieces segs tail w h
    ∙ ap some (
        make-pieces (dates segs) segs (flushed tail) w k
        ∙ ap (after_items (items (dates segs) segs)) (make-tail (dates segs) tail))

pieces-append : (segs more : List Segment) → pieces (segs ++ more) ≡ pieces segs ++ pieces more
pieces-append [] more = refl
pieces-append ((str, d) ∷ segs) more =
    ap (λ ps. flushed str ++ (escaped (escape_of d) ∷ ps)) (pieces-append segs more)
    ∙ sym (append_assoc (flushed str) (escaped (escape_of d) ∷ pieces segs) (pieces more))

make-unknown :
    (df : List ℕ) (c : ℕ) (ps : List Piece)
    → (c == 100) ≡ false
    → find_item c ≡ none
    → make_items df (escaped c ∷ ps) ≡ record { items = []; error = true }
unfolding make_items
make-unknown df c ps w u = rw (make_items, w, u) refl

-- An unknown directive ends the items with an error: those before it are kept.
init-unknown :
    (segs later : List Segment) (str tail : List ℕ) (c : ℕ)
    → WellWritten segs
    → WellWritten ((str, char c) ∷ later)
    → NonePercent tail
    → AllKnown segs
    → find_item c ≡ none
    → init (written (segs ++ (str, char c) ∷ later) tail)
      ≡ some (record {
        items = items (dates (segs ++ (str, char c) ∷ later)) segs ++ string_items str;
        error = true;
      })
init-unknown segs later str tail c w w' h k u =
    let all = segs ++ (str, char c) ∷ later in
    let df = dates all in
    let rest = pieces later ++ flushed tail in
    init-pieces all tail
      (All-append (λ (s : Segment). NonePercent s.0 × WellDirected s.1) segs ((str, char c) ∷ later)
        w w')
      h
    ∙ ap (λ ps. some (make_items df (ps ++ flushed tail)))
        (pieces-append segs ((str, char c) ∷ later))
    ∙ ap (λ ps. some (make_items df ps))
        (append_assoc (pieces segs) (pieces ((str, char c) ∷ later)) (flushed tail))
    ∙ ap some (make-pieces df segs (pieces ((str, char c) ∷ later) ++ flushed tail) w k)
    ∙ ap (λ ps. some (after_items (items df segs) (make_items df ps)))
        (append_assoc (flushed str) (escaped c ∷ pieces later) (flushed tail))
    ∙ ap (λ f. some (after_items (items df segs) f))
        (make-flushed df str (escaped c ∷ rest)
          ∙ ap (after_items (string_items str)) (make-unknown df c rest w'.0.1 u))
    ∙ ap (λ is. some (record { items = items df segs ++ is; error = true }))
        (append-nil (string_items str))

-- A pattern that ends in `%d` without braces is read past its end.
init-past_end :
    (segs : List Segment) (str : List ℕ)
    → WellWritten segs
    → NonePercent str
    → init (written segs (str ++ 37 ∷ 100 ∷ [])) ≡ none
unfolding init parse
init-past_end segs str w h =
    ap (λ p. formatter_of (end_parse p))
      (parse-written segs [] [] (str ++ 37 ∷ 100 ∷ []) w
        ∙ parse-string str (pieces segs) [] (dates segs) (37 ∷ 100 ∷ []) h)
