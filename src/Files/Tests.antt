-- ===== src/Files/Tests.antt =====
-- A small tree with a directory of its own, one that cannot be read and a socket; and directories made
-- one in another.
use my_server_framework.Prelude.{
  ℕ, ◌≡◌, refl, Bool, true, false, ◌||◌, none, some, List, [], ◌∷◌, ◌++◌, All, if◌then◌else◌, arith,
}
use my_server_framework.Prelude.Strings.{same_bytes, same_bytes_refl}
use my_server_framework.Files.{is_dots}
use my_server_framework.Files.Listing.{Directories, list_all_file}
use my_server_framework.Files.Trees.{
  regular, special, closed, directory, Entries, nil, itself, parent, entry, type_of, dirents, Shows,
  ends_in, files_of, depth,
}
use my_server_framework.Files.Found.{list_all_file-files_of}
use my_server_framework.Files.Remove.{Calls, dir_bit, rmdirs, rm}
use my_server_framework.Files.Purge.{
  names_of, removed, all_removed, HasTree, removals_of, succeeds, rm-succeeds,
}
use my_server_framework.Files.Make.{
  Disk, Makes, mkdir_path, make_each, make_one, cuts, mkdir_path-access,
}

-- "/" holds "a.y", "b" with "c.y" and "e", "d" that is closed, and the socket "s".
abbrev inner : Entries
inner = itself (entry (99 ∷ 46 ∷ 121 ∷ []) regular (parent (entry (101 ∷ []) regular nil)))

abbrev outer : Entries
outer = entry (97 ∷ 46 ∷ 121 ∷ []) regular (
    itself (
      entry (98 ∷ []) (directory inner)
        (parent (entry (100 ∷ []) closed (entry (115 ∷ []) special nil)))))

abbrev small_disk : Directories
small_disk = record {
  access = λ p. true;
  opendir = λ p.
      if same_bytes p (47 ∷ [])
      then some (dirents outer)
      else if same_bytes p (47 ∷ 47 ∷ 98 ∷ [])
      then some (dirents inner)
      else none;
}

list_all_file-files_of_example :
    list_all_file 2 small_disk (46 ∷ 121 ∷ []) [] (47 ∷ [])
    ≡ (47 ∷ 47 ∷ 97 ∷ 46 ∷ 121 ∷ []) ∷ (47 ∷ 47 ∷ 98 ∷ 47 ∷ 99 ∷ 46 ∷ 121 ∷ []) ∷ []
unfolding Shows files_of ends_in depth dirents type_of is_dots
list_all_file-files_of_example =
    list_all_file-files_of 2 small_disk (46 ∷ 121 ∷ []) (47 ∷ []) [] outer (omega arith)
      (refl, (refl, tt, (refl, (refl, (refl, tt, (refl, tt, tt))), (refl, refl, (refl, tt, tt)))))

-- A socket has the bit of a directory, as a block device has; a file, a link and a pipe have not.
socket_has_dir_bit :
    (dir_bit 0xc1ed ≡ true)
    × (dir_bit 0x61b0 ≡ true)
    × (dir_bit 0x81a4 ≡ false)
    × (dir_bit 0xa1ff ≡ false)
    × (dir_bit 0x11a4 ≡ false)
unfolding dir_bit
socket_has_dir_bit = (refl, refl, refl, refl, refl)

-- "/" with the file "a" and the directory "b" that has dots and a file.
abbrev small_dir : Entries
small_dir = entry (97 ∷ []) regular (entry (98 ∷ []) (directory inner) nil)

abbrev small_calls : Calls
small_calls = record {
  lstat = λ p.
      if same_bytes p (47 ∷ []) || same_bytes p (47 ∷ 47 ∷ 98 ∷ [])
      then some 0x41ed
      else some 0x81a4;
  opendir = λ p.
      if same_bytes p (47 ∷ [])
      then some (names_of small_dir)
      else if same_bytes p (47 ∷ 47 ∷ 98 ∷ [])
      then some (names_of inner)
      else none;
  unlink = λ p. true;
  rmdir = λ p. true;
}

small_inner : HasTree small_calls (47 ∷ 47 ∷ 98 ∷ []) (directory inner)
unfolding HasTree names_of removed all_removed is_dots dir_bit
small_inner = (
  (0x41ed, refl, refl),
  refl,
  λ e. refl,
  (refl, (0x81a4, refl, refl), (refl, (0x81a4, refl, refl), tt)),
)

rm-succeeds_example :
    ((rm 3 small_calls (47 ∷ [])).1 ≡ removals_of (47 ∷ []) small_dir ++ (rmdirs (47 ∷ []) ∷ []))
    × ((rm 3 small_calls (47 ∷ [])).0 ≡ true)
    × ((rm 3 small_calls (47 ∷ [])).0 ≡ true
        → All
            (λ r. succeeds small_calls r ≡ true)
            (removals_of (47 ∷ []) small_dir ++ (rmdirs (47 ∷ []) ∷ [])))
unfolding HasTree names_of removed all_removed depth is_dots dir_bit
rm-succeeds_example =
    rm-succeeds 3 small_calls (47 ∷ []) small_dir (omega arith)
      ((0x41ed, refl, refl), refl, λ e. refl, (refl, (0x81a4, refl, refl), (refl, small_inner, tt)))

-- A disk on which "x" is there and every directory can be made.
unfoldable has : List (List ℕ) → List ℕ → Bool
has [] p = false
has (q ∷ qs) p = same_bytes q p || has qs p

abbrev set_disk : Disk (List (List ℕ))
set_disk = record {
  lstat = has;
  access = has;
  mkdir = λ s p. (p ∷ s, true);
  open_file = λ s p. (s, false);
}

or_true : (b : Bool) → b ≡ true → (c : Bool) → (c || b) ≡ true
or_true b e true = refl
or_true b e false = e

abbrev set_makes : Makes set_disk
unfolding has or_true
set_makes = record {
  made = λ s p e. rw (same_bytes_refl p) refl;
  kept = λ s p q h. or_true (has s q) h (same_bytes p q);
}

mkdir_path-access_example :
    (has
        ((120 ∷ 47 ∷ 121 ∷ 47 ∷ 122 ∷ []) ∷ (120 ∷ 47 ∷ 121 ∷ []) ∷ (120 ∷ []) ∷ [])
        (120 ∷ 47 ∷ 121 ∷ 47 ∷ 122 ∷ [])
      ≡ true)
    × ((p q : List ℕ)
        → 47 ∷ 121 ∷ 47 ∷ 122 ∷ [] ≡ p ++ (47 ∷ q)
        → has ((120 ∷ 47 ∷ 121 ∷ 47 ∷ 122 ∷ []) ∷ (120 ∷ 47 ∷ 121 ∷ []) ∷ (120 ∷ []) ∷ []) (120 ∷ p)
          ≡ true)
unfolding has mkdir_path make_each make_one cuts
mkdir_path-access_example =
    mkdir_path-access set_disk set_makes ((120 ∷ []) ∷ [])
      ((120 ∷ 47 ∷ 121 ∷ 47 ∷ 122 ∷ []) ∷ (120 ∷ 47 ∷ 121 ∷ []) ∷ (120 ∷ []) ∷ []) 120
      (47 ∷ 121 ∷ 47 ∷ 122 ∷ []) refl refl
