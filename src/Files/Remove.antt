-- ===== src/Files/Remove.antt =====
-- `Unlink`, `Rm`, `Mv` and `Symlink` (serverframework/util/util.cc). Each path is looked at and removed
-- once, so what a system call returns for it is a function of the path.
use my_server_framework.Prelude.{
  ℕ, zero, suc, ◌/◌, ◌%◌, Bool, true, false, not, ◌&&◌, Option, none, some, List, [], ◌∷◌, ◌++◌,
  if◌then◌else◌, ◌==◌,
}
use my_server_framework.Files.{join, is_dots}

-- `lstat` gives `st_mode`, `opendir` and `readdir` the names of a directory, and the others whether
-- they succeed.
pub record Calls : Type 0 where
  pub lstat : List ℕ → Option ℕ
  pub opendir : List ℕ → Option (List (List ℕ))
  pub unlink : List ℕ → Bool
  pub rmdir : List ℕ → Bool

-- The calls that remove something.
pub data Removal : Type 0 where
  unlinks : List ℕ → Removal
  rmdirs : List ℕ → Removal

-- `Unlink`: its answer, and its call.
unfoldable pub unlink_file : Calls → List ℕ → Bool → Bool × List Removal
unlink_file sys filename exist = elim (sys.lstat filename) [
  | none ↦ if not exist then (true, []) else (sys.unlink filename, unlinks filename ∷ [])
  | some mode ↦ (sys.unlink filename, unlinks filename ∷ [])
]

-- `st_mode & S_IFDIR`, which is one bit.
unfoldable pub dir_bit : ℕ → Bool
dir_bit mode = not ((mode / 0x4000) % 2 == 0)

-- The loop over the names; `remove` is the call for a name. `ret` is that of the last call.
unfoldable pub rm_entries :
    (List ℕ → Bool × List Removal)
    → List ℕ
    → Bool
    → List Removal
    → List (List ℕ)
    → Bool × List Removal
rm_entries remove path ret done [] = (ret, done)
rm_entries remove path ret done (name ∷ names) =
    let r = remove (join path name) in
    if is_dots name
    then rm_entries remove path ret done names
    else rm_entries remove path r.0 (done ++ r.1) names

-- `Rm`, on fuel for the depth of the directories: its answer, and the calls that it makes, in order.
unfoldable pub rm : ℕ → Calls → List ℕ → Bool × List Removal
rm zero sys path = (false, [])
rm (suc n) sys path = elim (sys.lstat path) [
  | none ↦ (true, [])
  | some mode ↦ if not (dir_bit mode) then unlink_file sys path false else elim (sys.opendir path) [
    | none ↦ (false, [])
    | some names ↦
        let r = rm_entries (λ p. rm n sys p) path true [] names in
        (sys.rmdir path && r.0, r.1 ++ (rmdirs path ∷ []))
  ]
]

-- `Mv` and `Symlink`: `Rm` of the target, then the call, of which `call` says whether it succeeds.
unfoldable pub mv : ℕ → Calls → (List ℕ → List ℕ → Bool) → List ℕ → List ℕ → Bool
mv n sys rename from to = if not (rm n sys to).0 then false else rename from to

unfoldable pub symlink : ℕ → Calls → (List ℕ → List ℕ → Bool) → List ℕ → List ℕ → Bool
symlink n sys call from to = if not (rm n sys to).0 then false else call from to
