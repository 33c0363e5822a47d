-- ===== src/Log/Crashes.antt =====
-- Where the listener of the logs (serverframework/log/log.cc) does not use a null pointer.
use my_server_framework.Prelude.{
  ◌≡◌, refl, sym, ◌∙◌, Bool, false, Bool-cases, Option-cases, inl, inr, some, List, [], ◌∷◌, All,
  arith, ◌==◌,
}
use my_server_framework.Log.{level_value}
use my_server_framework.Log.Define.{LogAppenderDefine, LogDefine, same_define}
use my_server_framework.Log.Listener.{
  Appender, Loggers, Change, changed, null_logger, null_appender, and_then, find_define,
  make_appenders, take_new, take_all_new, on_change,
}
use my_server_framework.Log.Changes.{IsMade, IsReady, found_name, same_define-level}

and_then-changed :
    (c : Change) (f : Loggers → Change) (ls : Loggers)
    → and_then c f ≡ changed ls
    → (first : Loggers) × (c ≡ changed first) × (f first ≡ changed ls)
and_then-changed (changed first) f ls h = (first, refl, h)
and_then-changed null_logger f ls h = absurd (ground (arith, h))
and_then-changed null_appender f ls h = absurd (ground (arith, h))

-- The appenders after the first are made too, and the first is of a type that is known.
first-IsMade :
    (daemon : Bool) (a : LogAppenderDefine) (as_ : List LogAppenderDefine) (made : List Appender)
    → make_appenders daemon (a ∷ as_) ≡ some made
    → IsMade a × ((rest : List Appender) × (make_appenders daemon as_ ≡ some rest))
unfolding make_appenders
first-IsMade daemon a as_ made h = elim (Bool-cases (a.type_number == 1)) [
  | inl one ↦ elim (Option-cases (make_appenders daemon as_)) [
    | inl gone ↦ absurd (ground (arith, rw (one, gone) at h))
    | inr r ↦ (inl (ground (arith, one)), r)
  ]
  | inr not_one ↦ elim (Bool-cases (a.type_number == 2)) [
    | inr not_two ↦ absurd (ground (arith, rw (not_one, not_two) at h))
    | inl two ↦ elim (Option-cases (make_appenders daemon as_)) [
      | inr r ↦ (inr (ground (arith, two)), r)
      | inl gone ↦ elim (Bool-cases daemon) [
        | inl yes_ ↦ absurd (ground (arith, h, not_one, two, gone, yes_))
        | inr no_ ↦ absurd (ground (arith, h, not_one, two, gone, no_))
      ]
    ]
  ]
]

make_appenders-IsMade :
    (daemon : Bool) (as_ : List LogAppenderDefine) (made : List Appender)
    → make_appenders daemon as_ ≡ some made
    → All IsMade as_
make_appenders-IsMade daemon [] made h = tt
make_appenders-IsMade daemon (a ∷ as_) made h =
    let (known, rest) = first-IsMade daemon a as_ made h in
    (known, make_appenders-IsMade daemon as_ rest.0 rest.1)

take_new-IsReady :
    (daemon : Bool) (old : List LogDefine) (d : LogDefine) (ls ls' : Loggers)
    → take_new daemon old d ls ≡ changed ls'
    → IsReady old d
unfolding take_new
take_new-IsReady daemon old d ls ls' h = elim (Option-cases (find_define old d.name)) [
  | inl new ↦ elim (Option-cases (make_appenders daemon d.appenders)) [
    | inl gone ↦ absurd (ground (arith, rw (take_new, new, gone) at h))
    | inr r ↦ inl (new, make_appenders-IsMade daemon d.appenders r.0 r.1)
  ]
  | inr (before, there) ↦ elim (Bool-cases (level_value d.level == level_value before.level)) [
    | inl same ↦ inr (before, there, ground (arith, same))
    | inr differs ↦
        let not_same : same_define d before ≡ false =
          same_define-level d before (sym (found_name old d.name before there)) ∙ differs in
        absurd (ground (arith, rw (take_new, there, not_same) at h))
  ]
]

take_all_new-IsReady :
    (daemon : Bool) (old ds : List LogDefine) (ls ls' : Loggers)
    → take_all_new daemon old ds ls ≡ changed ls'
    → All (IsReady old) ds
unfolding take_all_new
take_all_new-IsReady daemon old [] ls ls' h = tt
take_all_new-IsReady daemon old (d ∷ ds) ls ls' h =
    let (first, e, rest) =
      and_then-changed (take_new daemon old d ls) (take_all_new daemon old ds) ls' h in
    (take_new-IsReady daemon old d ls first e, take_all_new-IsReady daemon old ds first ls' rest)

-- Where the listener runs without the use of a null pointer, each of the new definitions is of a name that
-- had no definition, with appenders of known types, or of one that had a definition with the same level.
pub on_change-IsReady :
    (daemon : Bool) (old new : List LogDefine) (ls ls' : Loggers)
    → on_change daemon old new ls ≡ changed ls'
    → All (IsReady old) new
unfolding on_change
on_change-IsReady daemon old new ls ls' h =
    let (first, e, rest) = and_then-changed (take_all_new daemon old new ls) _ ls' h in
    take_all_new-IsReady daemon old new ls first e
