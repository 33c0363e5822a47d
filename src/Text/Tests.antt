-- ===== src/Text/Tests.antt =====
-- Runs of the string functions (serverframework/util/util.cc) on " ab ".
use my_server_framework.Prelude.{ℕ, ◌≡◌, refl, some, List, [], ◌∷◌}
use my_server_framework.Text.{find_last, not_of}

abbrev padded : List ℕ
padded = 32 ∷ 97 ∷ 98 ∷ 32 ∷ []

last : find_last (not_of (32 ∷ [])) padded ≡ some 2
unfolding find_last
last = refl
