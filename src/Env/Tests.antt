-- ===== src/Env/Tests.antt =====
-- A command line (serverframework/env/env.cc): "-c /x -d -c /y".
use my_server_framework.Prelude.{ℕ, ◌≡◌, refl, true, none, some, List, [], ◌∷◌}
use my_server_framework.Env.{Env, init}
use my_server_framework.Env.Arguments.{Setting, AllSettings, written, settled, init-settled}

abbrev empty_env : Env
empty_env = record { args = []; helps = []; program = [] }

abbrev c_key : List ℕ
c_key = 99 ∷ []

abbrev line : List Setting
line = (c_key, some (47 ∷ 120 ∷ [])) ∷ (100 ∷ [], none) ∷ (c_key, some (47 ∷ 121 ∷ [])) ∷ []

line-AllSettings : AllSettings line
line-AllSettings = ((tt, refl), ((tt, tt), ((tt, refl), tt)))

init-settled_example :
    init empty_env (97 ∷ []) (written line [])
    ≡ (true, settled (record empty_env { program = 97 ∷ [] }) line)
init-settled_example = init-settled empty_env (97 ∷ []) line line-AllSettings
