-- ===== src/Files/Listing.antt =====
-- `ListAllFile` (serverframework/util/util.cc): the files below a directory whose names end in a suffix.
use my_server_framework.Prelude.{
  ℕ, zero, suc, ◌-◌, Bool, true, false, Option, none, some, List, [], ◌∷◌, ◌++◌, length, drop, ltb,
  if◌then◌else◌,
}
use my_server_framework.Prelude.Strings.{same_bytes}
use my_server_framework.Files.{join, is_dots}

-- `d_type` of a name that `readdir` gives.
pub data EntryType : Type 0 where
  dt_dir : EntryType
  dt_reg : EntryType
  dt_other : EntryType

pub record Dirent : Type 0 where
  pub d_name : List ℕ
  pub d_type : EntryType

-- What `access` and `opendir` answer for a path; an open directory gives its names in this order.
pub record Directories : Type 0 where
  pub access : List ℕ → Bool
  pub opendir : List ℕ → Option (List Dirent)

abbrev pub is_empty : List ℕ → Bool
is_empty [] = true
is_empty (c ∷ cs) = false

-- The test of a file's name.
unfoldable pub takes_file : List ℕ → List ℕ → Bool
takes_file suffix name =
    if is_empty suffix
    then true
    else if ltb (length name) (length suffix)
    then false
    else same_bytes (drop (length name - length suffix) name) suffix

-- The loop over the names of a directory; `list_dir` is the call for a directory in it.
unfoldable pub list_entries :
    (List (List ℕ) → List ℕ → List (List ℕ))
    → List ℕ
    → List (List ℕ)
    → List ℕ
    → List Dirent
    → List (List ℕ)
list_entries list_dir suffix files path [] = files
list_entries list_dir suffix files path (e ∷ es) =
    let files' : List (List ℕ) = elim e.d_type [
      | dt_dir ↦ if is_dots e.d_name then files else list_dir files (join path e.d_name)
      | dt_reg ↦ if takes_file suffix e.d_name then files ++ (join path e.d_name ∷ []) else files
      | dt_other ↦ files
    ] in
    list_entries list_dir suffix files' path es

-- `ListAllFile`, on fuel for the depth of the directories: the files that were there, and those found.
unfoldable pub list_all_file : ℕ → Directories → List ℕ → List (List ℕ) → List ℕ → List (List ℕ)
list_all_file zero fs suffix files path = files
list_all_file (suc n) fs suffix files path =
    if fs.access path
    then elim (fs.opendir path) [
      | none ↦ files
      | some es ↦ list_entries (λ fs' p. list_all_file n fs suffix fs' p) suffix files path es
    ]
    else files
