-- ===== src/Files/Trees.antt =====
-- Trees of directories, and the files of them, which `Files.Found` compares with what
-- `ListAllFile` (serverframework/util/util.cc) finds.
use my_server_framework.Prelude.{
  ℕ, suc, ◌≡◌, Bool, false, ◌||◌, Option, none, some, List, [], ◌∷◌, ◌++◌, if◌then◌else◌,
}
use Prim.Native.Nat.{max}
use my_server_framework.Prelude.Strings.{same_bytes}
use my_server_framework.Files.{join, is_dots}
use my_server_framework.Files.Listing.{EntryType, dt_dir, dt_reg, dt_other, Dirent, Directories}

-- A tree of directories, with the names of each in the order of `readdir`, "." and ".." among them.
-- A closed directory is one that cannot be read.
mutual
  pub data Node : Type 0 where
    regular : Node
    special : Node
    closed : Node
    directory : Entries → Node

  pub data Entries : Type 0 where
    nil : Entries
    itself : Entries → Entries
    parent : Entries → Entries
    entry : List ℕ → Node → Entries → Entries

unfoldable pub type_of : Node → EntryType
type_of regular = dt_reg
type_of special = dt_other
type_of closed = dt_dir
type_of (directory es) = dt_dir

unfoldable pub dirents : Entries → List Dirent
dirents nil = []
dirents (itself es) = record { d_name = 46 ∷ []; d_type = dt_dir } ∷ dirents es
dirents (parent es) = record { d_name = 46 ∷ 46 ∷ []; d_type = dt_dir } ∷ dirents es
dirents (entry name node es) = record { d_name = name; d_type = type_of node } ∷ dirents es

-- What opening a directory gives.
abbrev pub opens : Directories → List ℕ → Option (List Dirent)
opens fs path = if fs.access path then fs.opendir path else none

-- The system shows a tree below a path. Only the two names of a directory itself are dots.
unfoldable mutual
  pub Shows : Directories → List ℕ → Node → Type 0
  Shows fs path regular = Unit {0}
  Shows fs path special = Unit {0}
  Shows fs path closed = opens fs path ≡ none
  Shows fs path (directory es) = (opens fs path ≡ some (dirents es)) × ShowsAll fs path es

  pub ShowsAll : Directories → List ℕ → Entries → Type 0
  ShowsAll fs path nil = Unit {0}
  ShowsAll fs path (itself es) = ShowsAll fs path es
  ShowsAll fs path (parent es) = ShowsAll fs path es
  ShowsAll fs path (entry name node es) =
      (is_dots name ≡ false) × Shows fs (join path name) node × ShowsAll fs path es

-- A name ends in a suffix.
unfoldable pub ends_in : List ℕ → List ℕ → Bool
ends_in suffix [] = same_bytes [] suffix
ends_in suffix (c ∷ cs) = same_bytes (c ∷ cs) suffix || ends_in suffix cs

-- The paths of the files of a tree whose names end in a suffix.
unfoldable mutual
  pub files_in : List ℕ → List ℕ → Node → List (List ℕ)
  files_in suffix path regular = []
  files_in suffix path special = []
  files_in suffix path closed = []
  files_in suffix path (directory es) = files_of suffix path es

  pub files_of : List ℕ → List ℕ → Entries → List (List ℕ)
  files_of suffix path nil = []
  files_of suffix path (itself es) = files_of suffix path es
  files_of suffix path (parent es) = files_of suffix path es
  files_of suffix path (entry name regular es) =
      if ends_in suffix name
      then join path name ∷ files_of suffix path es
      else files_of suffix path es
  files_of suffix path (entry name special es) = files_of suffix path es
  files_of suffix path (entry name closed es) = files_of suffix path es
  files_of suffix path (entry name (directory ds) es) =
      files_of suffix (join path name) ds ++ files_of suffix path es

-- How deep the directories of a tree are.
unfoldable mutual
  pub depth : Node → ℕ
  depth regular = 0
  depth special = 0
  depth closed = 1
  depth (directory es) = suc (depth_of es)

  pub depth_of : Entries → ℕ
  depth_of nil = 0
  depth_of (itself es) = depth_of es
  depth_of (parent es) = depth_of es
  depth_of (entry name node es) = max (depth node) (depth_of es)
