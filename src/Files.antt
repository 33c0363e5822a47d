-- ===== src/Files.antt =====
-- The file functions of `FSUtil` (serverframework/util/util.cc) on the bytes of a path. What the system
-- calls return is an argument: this module has the names of a directory, `Listing` lists the files of a
-- tree, `Remove` removes one, and `Make` makes the directories of a path.
pub mod Listing
pub mod Trees
pub mod Found
pub mod Remove
pub mod Purge
pub mod Make
pub mod Tests
use my_server_framework.Prelude.{ℕ, Bool, ◌||◌, List, [], ◌∷◌, ◌++◌}
use my_server_framework.Prelude.Strings.{same_bytes}

-- `path + "/" + name`
abbrev pub join : List ℕ → List ℕ → List ℕ
join path name = path ++ (47 ∷ name)

-- The names "." and "..".
unfoldable pub is_dots : List ℕ → Bool
is_dots name = same_bytes name (46 ∷ []) || same_bytes name (46 ∷ 46 ∷ [])
