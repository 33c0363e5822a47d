-- ===== src/Log/Define.antt =====
-- The configuration of the loggers (serverframework/log/log.cc): `LogDefine`, its casts from and to
-- YAML, and what `LogIniter` does where it changes. The YAML library is a parameter: a node is what the
-- code reads of it, with `none` for what is not defined, and `load` and `emit` are between text and nodes.
use my_server_framework.Prelude.{
  ℕ, Bool, true, false, ◌&&◌, Option, none, some, List, [], ◌∷◌, if◌then◌else◌, ◌==◌,
}
use my_server_framework.Prelude.Strings.{same_bytes}
use my_server_framework.Log.{Level, level_value, to_string, from_string}

pub record LogAppenderDefine : Type 0 where
  pub type_number : ℕ
  pub pattern : List ℕ
  pub file : List ℕ

pub record LogDefine : Type 0 where
  pub name : List ℕ
  pub level : Level
  pub appenders : List LogAppenderDefine

-- The `operator==` of both, and of vectors of appenders.
unfoldable pub same_appender : LogAppenderDefine → LogAppenderDefine → Bool
same_appender a b =
    a.type_number == b.type_number && (same_bytes a.pattern b.pattern && same_bytes a.file b.file)

unfoldable pub same_appenders : List LogAppenderDefine → List LogAppenderDefine → Bool
same_appenders [] [] = true
same_appenders [] (b ∷ bs) = false
same_appenders (a ∷ as_) [] = false
same_appenders (a ∷ as_) (b ∷ bs) = same_appender a b && same_appenders as_ bs

unfoldable pub same_define : LogDefine → LogDefine → Bool
same_define d oth =
    same_bytes d.name oth.name
    && (level_value d.level == level_value oth.level && same_appenders d.appenders d.appenders)

-- What the code reads of a YAML node.
pub record AppenderNode : Type 0 where
  pub node_type : Option (List ℕ)
  pub node_file : Option (List ℕ)
  pub node_pattern : Option (List ℕ)

pub record DefineNode : Type 0 where
  pub node_name : Option (List ℕ)
  pub node_level : Option (List ℕ)
  pub node_appenders : Option (List AppenderNode)

-- "FileLogAppender" and "StdoutLogAppender"
abbrev pub file_type : List ℕ
file_type =
    70 ∷ 105 ∷ 108 ∷ 101 ∷ 76 ∷ 111 ∷ 103 ∷ 65 ∷ 112 ∷ 112 ∷ 101 ∷ 110 ∷ 100 ∷ 101 ∷ 114 ∷ []

abbrev pub stdout_type : List ℕ
stdout_type =
    83 ∷ 116 ∷ 100 ∷ 111 ∷ 117 ∷ 116 ∷ 76 ∷ 111 ∷ 103 ∷ 65 ∷ 112 ∷ 112 ∷ 101 ∷ 110 ∷ 100 ∷ 101 ∷ 114
    ∷ []

abbrev pub or_empty : Option (List ℕ) → List ℕ
or_empty none = []
or_empty (some s) = s

-- The body of the loop over the appenders; `none` is `continue`.
unfoldable pub appender_of_node : AppenderNode → Option LogAppenderDefine
appender_of_node a = elim a.node_type [
  | none ↦ none
  | some kind ↦
      if same_bytes kind file_type
      then elim a.node_file [
        | none ↦ none
        | some file ↦
            some (record { type_number = 1; pattern = or_empty a.node_pattern; file = file })
      ]
      else if same_bytes kind stdout_type
      then some (record { type_number = 2; pattern = or_empty a.node_pattern; file = [] })
      else none
]

unfoldable pub appenders_of_nodes : List AppenderNode → List LogAppenderDefine
appenders_of_nodes [] = []
appenders_of_nodes (a ∷ as_) =
    let rest = appenders_of_nodes as_ in
    elim (appender_of_node a) [ none ↦ rest | some d ↦ d ∷ rest ]

-- The cast from a node; `none` is the exception.
unfoldable pub define_of_node : DefineNode → Option LogDefine
define_of_node n = elim n.node_name [
  | none ↦ none
  | some name ↦ some (record {
    name = name;
    level = from_string (or_empty n.node_level);
    appenders = elim n.node_appenders [ none ↦ [] | some as_ ↦ appenders_of_nodes as_ ];
  })
]

-- The cast to a node. `push_back` defines the appenders with the first of them.
unfoldable pub node_of_appender : LogAppenderDefine → AppenderNode
node_of_appender a = record {
  node_type =
      if a.type_number == 1
      then some file_type
      else if a.type_number == 2
      then some stdout_type
      else none;
  node_file = if a.type_number == 1 then some a.file else none;
  node_pattern = elim a.pattern [ [] ↦ none | c ∷ cs ↦ some (c ∷ cs) ];
}

unfoldable pub nodes_of_appenders : List LogAppenderDefine → List AppenderNode
nodes_of_appenders [] = []
nodes_of_appenders (a ∷ as_) = node_of_appender a ∷ nodes_of_appenders as_

unfoldable pub node_of_define : LogDefine → DefineNode
node_of_define d = record {
  node_name = some d.name;
  node_level = some (to_string d.level);
  node_appenders = elim (nodes_of_appenders d.appenders) [ [] ↦ none | a ∷ as_ ↦ some (a ∷ as_) ];
}

-- The casts from and to text, of which the YAML library says what is one.
module _ {S : Type 0} (load : S → DefineNode) (emit : DefineNode → S) where
  unfoldable pub define_of_text : S → Option LogDefine
  define_of_text v = define_of_node (load v)

  unfoldable pub text_of_define : LogDefine → S
  text_of_define d = emit (node_of_define d)
