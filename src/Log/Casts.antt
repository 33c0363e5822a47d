-- ===== src/Log/Casts.antt =====
-- The casts of `LogDefine` to YAML and back (serverframework/log/log.cc).
use my_server_framework.Prelude.{
  ℕ, ◌≡◌, refl, sym, ap, ap₂, subst, ◌∙◌, inl, inr, ◌⊎◌, Option, none, some, List, [], ◌∷◌, All,
}
use my_server_framework.Log.{
  Level, fatal, alert, crit, error, warn, notice, info, debug, notset, to_string, from_string,
}
use my_server_framework.Log.Define.{
  LogAppenderDefine, LogDefine, AppenderNode, DefineNode, appender_of_node, appenders_of_nodes,
  define_of_node, node_of_appender, nodes_of_appenders, node_of_define, define_of_text,
  text_of_define,
}

-- An appender of a file, or one of the terminal, which has no file.
abbrev pub IsAppender : LogAppenderDefine → Type 0
IsAppender a = (a.type_number ≡ 1) ⊎ ((a.type_number ≡ 2) × (a.file ≡ []))

from_string-to_string : (l : Level) → from_string (to_string l) ≡ l
unfolding from_string to_string
from_string-to_string fatal = refl
from_string-to_string alert = refl
from_string-to_string crit = refl
from_string-to_string error = refl
from_string-to_string warn = refl
from_string-to_string notice = refl
from_string-to_string info = refl
from_string-to_string debug = refl
from_string-to_string notset = refl

abbrev Returns : LogAppenderDefine → Type 0
Returns a = appender_of_node (node_of_appender a) ≡ some a

file-Returns :
    (pattern file : List ℕ) → Returns (record { type_number = 1; pattern = pattern; file = file })
unfolding appender_of_node node_of_appender
file-Returns [] file = refl
file-Returns (c ∷ cs) file = refl

stdout-Returns :
    (pattern : List ℕ) → Returns (record { type_number = 2; pattern = pattern; file = [] })
unfolding appender_of_node node_of_appender
stdout-Returns [] = refl
stdout-Returns (c ∷ cs) = refl

appender_of_node-node_of_appender : (a : LogAppenderDefine) → IsAppender a → Returns a
appender_of_node-node_of_appender a (inl h) =
    subst Returns (ap (λ t. record { type_number = t; pattern = a.pattern; file = a.file }) (sym h))
      (file-Returns a.pattern a.file)
appender_of_node-node_of_appender a (inr h) =
    subst Returns
      (ap₂ (λ t f. record { type_number = t; pattern = a.pattern; file = f }) (sym h.0) (sym h.1))
      (stdout-Returns a.pattern)

appenders_of_nodes-nodes_of_appenders :
    (as_ : List LogAppenderDefine)
    → All IsAppender as_
    → appenders_of_nodes (nodes_of_appenders as_) ≡ as_
unfolding appenders_of_nodes nodes_of_appenders
appenders_of_nodes-nodes_of_appenders [] h = refl
appenders_of_nodes-nodes_of_appenders (a ∷ as_) h =
    rw (appenders_of_nodes, appender_of_node-node_of_appender a h.0)
      (ap (λ rest. a ∷ rest) (appenders_of_nodes-nodes_of_appenders as_ h.1))

abbrev opened : Option (List AppenderNode) → List LogAppenderDefine
opened none = []
opened (some ns) = appenders_of_nodes ns

opened_lem :
    (ns : List AppenderNode)
    → opened (elim ns [ [] ↦ none | n ∷ rest ↦ some (n ∷ rest) ]) ≡ appenders_of_nodes ns
unfolding appenders_of_nodes
opened_lem [] = refl
opened_lem (n ∷ rest) = refl

-- Where the YAML text of a node is read as the node, and each appender of a configuration is one of a
-- file, or one of the terminal that names no file, the text of the configuration is read as the
-- configuration itself, with its name, its level and its appenders in order.
pub define_of_text-text_of_define :
    {S : Type 0} (load : S → DefineNode) (emit : DefineNode → S) (d : LogDefine)
    → ((n : DefineNode) → load (emit n) ≡ n)
    → All IsAppender d.appenders
    → define_of_text load emit (text_of_define load emit d) ≡ some d
unfolding define_of_text text_of_define define_of_node node_of_define
define_of_text-text_of_define load emit d reads h =
    ap define_of_node (reads (node_of_define d))
    ∙ ap₂ (λ l a. some (record { name = d.name; level = l; appenders = a }))
        (from_string-to_string d.level)
        (opened_lem (nodes_of_appenders d.appenders)
          ∙ appenders_of_nodes-nodes_of_appenders d.appenders h)
