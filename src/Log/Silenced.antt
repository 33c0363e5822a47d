-- ===== src/Log/Silenced.antt =====
-- The loggers that are silenced by a change of the configuration, and what the whole change does
-- (serverframework/log/log.cc).
use my_server_framework.Prelude.{
  ℕ, ◌≡◌, refl, ◌∙◌, subst, Bool, true, false, not, ◌&&◌, ◌||◌, Bool-cases, Option-cases, inl, inr,
  none, some, List, [], ◌∷◌, All, arith, if◌then◌else◌,
}
use my_server_framework.Prelude.Strings.{same_bytes, same_bytes-true}
use my_server_framework.Log.{notset}
use my_server_framework.Log.Define.{LogDefine}
use my_server_framework.Log.Listener.{
  State, Loggers, logger_at, find_define, take_old, take_all_old, changed, on_change,
}
use my_server_framework.Log.Changes.{
  logger_at-put_logger, after_new, IsReady, AreDistinct, take_all_new_lem,
}

abbrev pub silenced : State
silenced = record { level = notset; appenders = [] }

-- Whether a name has a definition.
unfoldable pub is_defined : List LogDefine → List ℕ → Bool
is_defined [] name = false
is_defined (d ∷ ds) name = same_bytes d.name name || is_defined ds name

is_defined-none :
    (ds : List LogDefine) (name : List ℕ) → find_define ds name ≡ none → is_defined ds name ≡ false
unfolding is_defined find_define
is_defined-none [] name h = refl
is_defined-none (d ∷ ds) name h = elim (Bool-cases (same_bytes d.name name)) [
  | inl y ↦ absurd (ground (arith, h, y))
  | inr n ↦ rw n (is_defined-none ds name (rw n at h))
]

is_defined-some :
    (ds : List LogDefine) (name : List ℕ) (d : LogDefine)
    → find_define ds name ≡ some d
    → is_defined ds name ≡ true
unfolding is_defined find_define
is_defined-some [] name d h = absurd (ground (arith, h))
is_defined-some (e ∷ ds) name d h = elim (Bool-cases (same_bytes e.name name)) [
  | inl y ↦ rw y refl
  | inr n ↦ rw n (is_defined-some ds name d (rw n at h))
]

take_old_lem :
    (new : List LogDefine) (d : LogDefine) (ls : Loggers) (n : List ℕ)
    → logger_at (take_old new d ls) n
      ≡ (if same_bytes d.name n && not (is_defined new n) then silenced else logger_at ls n)
unfolding take_old
take_old_lem new d ls n = elim (Option-cases (find_define new d.name)) [
  | inl e ↦
      rw (take_old, e)
        (logger_at-put_logger ls d.name n silenced ∙ elim (Bool-cases (same_bytes d.name n)) [
          | inl y ↦
              let there : is_defined new n ≡ false =
                subst (λ x. is_defined new x ≡ false) (same_bytes-true d.name n y)
                  (is_defined-none new d.name e) in
              rw (y, there) refl
          | inr no_ ↦ rw no_ refl
        ])
  | inr r ↦
      rw (take_old, r.1)
        (elim (Bool-cases (same_bytes d.name n)) [
          | inl y ↦
              let there : is_defined new n ≡ true =
                subst (λ x. is_defined new x ≡ true) (same_bytes-true d.name n y)
                  (is_defined-some new d.name r.0 r.1) in
              rw (y, there) refl
          | inr no_ ↦ rw no_ refl
        ])
]

twice :
    {A : Type 0} (s a b : Bool) (silent x y z : A)
    → x ≡ (if a && b then silent else y)
    → y ≡ (if s && b then silent else z)
    → x ≡ (if (s || a) && b then silent else z)
twice true true true silent x y z e f = e
twice true true false silent x y z e f = e ∙ f
twice true false true silent x y z e f = e ∙ f
twice true false false silent x y z e f = e ∙ f
twice false true true silent x y z e f = e
twice false true false silent x y z e f = e ∙ f
twice false false b silent x y z e f = e ∙ f

take_all_old_lem :
    (new ds : List LogDefine) (ls : Loggers) (n : List ℕ)
    → logger_at (take_all_old new ds ls) n
      ≡ (if is_defined ds n && not (is_defined new n) then silenced else logger_at ls n)
unfolding take_all_old is_defined
take_all_old_lem new [] ls n = refl
take_all_old_lem new (d ∷ ds) ls n =
    twice (same_bytes d.name n) (is_defined ds n) (not (is_defined new n)) silenced
      (logger_at (take_all_old new ds (take_old new d ls)) n) (logger_at (take_old new d ls) n)
      (logger_at ls n) (take_all_old_lem new ds (take_old new d ls) n) (take_old_lem new d ls n)

-- Where the names of the new definitions are distinct, and each is of a name that had no definition, with
-- appenders of known types, or of one that had a definition with the same level, the listener runs. After
-- it each logger that was defined and is no more has the level `notset` and no appenders, each that is
-- newly defined has the level and the appenders of its definition, those of the terminal left out for a
-- daemon, and each other one is as it was, even if the appenders of its definition changed.
pub on_change-logger_at :
    (daemon : Bool) (old new : List LogDefine) (ls : Loggers)
    → All (IsReady old) new
    → AreDistinct new
    → (ls' : Loggers) × (on_change daemon old new ls ≡ changed ls')
      × ((n : List ℕ)
          → logger_at ls' n ≡ (
              if is_defined old n && not (is_defined new n)
              then silenced
              else after_new daemon old new ls n))
unfolding on_change
on_change-logger_at daemon old new ls h u =
    let taken = take_all_new_lem daemon old new ls h u in
    (
      take_all_old new old taken.0,
      rw (on_change, taken.1) refl,
      λ n.
          subst
            (λ x.
              logger_at (take_all_old new old taken.0) n
              ≡ (if is_defined old n && not (is_defined new n) then silenced else x))
            (taken.2 n) (take_all_old_lem new old taken.0 n),
    )
