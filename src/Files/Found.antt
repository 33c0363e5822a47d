-- ===== src/Files/Found.antt =====
-- `ListAllFile` (serverframework/util/util.cc) finds the files of a tree.
use my_server_framework.Prelude.{
  ℕ, zero, suc, ◌-◌, ◌≤◌, ◌<◌, ◌≡◌, refl, sym, ap, ◌∙◌, Bool, true, false, ◌||◌, Bool-cases, inl,
  inr, none, some, List, [], ◌∷◌, ◌++◌, append-nil, append_assoc, length, drop, ltb, arith,
}
use my_server_framework.Prelude.Strings.{same_bytes}
use my_server_framework.Files.{join, is_dots}
use my_server_framework.Files.Listing.{
  dt_dir, dt_reg, dt_other, Dirent, Directories, takes_file, list_entries, list_all_file,
}
use my_server_framework.Files.Trees.{
  Node, regular, special, closed, directory, Entries, nil, itself, parent, entry, type_of, dirents,
  opens, Shows, ShowsAll, ends_in, files_in, files_of, depth, depth_of,
}

or_false : (b : Bool) → b ≡ b || false
or_false true = refl
or_false false = refl

ends_in_nil : (name : List ℕ) → ends_in [] name ≡ true
unfolding ends_in
ends_in_nil [] = refl
ends_in_nil (c ∷ cs) = ends_in_nil cs

short_differs : (xs ys : List ℕ) → length xs < length ys → same_bytes xs ys ≡ false
short_differs [] [] h = absurd (omega arith)
short_differs [] (y ∷ ys) h = refl
short_differs (x ∷ xs) [] h = refl
short_differs (x ∷ xs) (y ∷ ys) h = ground (arith, short_differs xs ys (omega arith))

long_differs : (xs ys : List ℕ) → length ys < length xs → same_bytes xs ys ≡ false
long_differs [] ys h = absurd (omega arith)
long_differs (x ∷ xs) [] h = refl
long_differs (x ∷ xs) (y ∷ ys) h = ground (arith, long_differs xs ys (omega arith))

ends_in-short : (suffix name : List ℕ) → length name < length suffix → ends_in suffix name ≡ false
unfolding ends_in
ends_in-short suffix [] h = short_differs [] suffix h
ends_in-short suffix (c ∷ cs) h =
    rw (short_differs (c ∷ cs) suffix h) (ends_in-short suffix cs (omega arith))

drop_nil : (n : ℕ) → drop {A = ℕ} n [] ≡ []
drop_nil zero = refl
drop_nil (suc n) = refl

drop-suc : (n k : ℕ) (c : ℕ) (cs : List ℕ) → k ≤ n → drop (suc n - k) (c ∷ cs) ≡ drop (n - k) cs
drop-suc n k c cs h = let e : suc n - k ≡ suc (n - k) = omega arith in ap (λ i. drop i (c ∷ cs)) e

substr-ends_in :
    (suffix name : List ℕ)
    → length suffix ≤ length name
    → same_bytes (drop (length name - length suffix) name) suffix ≡ ends_in suffix name
unfolding ends_in
substr-ends_in suffix [] h = ap (λ xs. same_bytes xs suffix) (drop_nil (0 - length suffix))
substr-ends_in suffix (c ∷ cs) h = elim (Bool-cases (ltb (length cs) (length suffix))) [
  | inl e ↦
      let same : length (c ∷ cs) - length suffix ≡ 0 = ground (arith, e) in
      rw (same, ends_in-short suffix cs (ground (arith, e))) (or_false (same_bytes (c ∷ cs) suffix))
  | inr e ↦
      rw
        (
          drop-suc (length cs) (length suffix) c cs (ground (arith, e)),
          long_differs (c ∷ cs) suffix (ground (arith, e)),
        )
        (substr-ends_in suffix cs (ground (arith, e)))
]

-- The code's test of a name, by lengths and `substr`, is whether the name ends in the suffix.
takes_file-ends_in : (suffix name : List ℕ) → takes_file suffix name ≡ ends_in suffix name
unfolding takes_file
takes_file-ends_in [] name = sym (ends_in_nil name)
takes_file-ends_in (c ∷ cs) name = elim (Bool-cases (ltb (length name) (length (c ∷ cs)))) [
  | inl e ↦ rw e (sym (ends_in-short (c ∷ cs) name (ground (arith, e))))
  | inr e ↦ rw e (substr-ends_in (c ∷ cs) name (ground (arith, e)))
]

-- A loop over the names of a directory whose own directories are listed right adds the files of them.
unfoldable mutual
  pub ListsAll : (List (List ℕ) → List ℕ → List (List ℕ)) → List ℕ → List ℕ → Entries → Type 0
  ListsAll list_dir suffix path nil = Unit {0}
  ListsAll list_dir suffix path (itself es) = ListsAll list_dir suffix path es
  ListsAll list_dir suffix path (parent es) = ListsAll list_dir suffix path es
  ListsAll list_dir suffix path (entry name node es) =
      (is_dots name ≡ false)
      × ((type_of node ≡ dt_dir)
          → (files : List (List ℕ))
          → list_dir files (join path name) ≡ files ++ files_in suffix (join path name) node)
      × ListsAll list_dir suffix path es

list_entries-files_of :
    (list_dir : List (List ℕ) → List ℕ → List (List ℕ)) (suffix path : List ℕ)
    (files : List (List ℕ)) (es : Entries)
    → ListsAll list_dir suffix path es
    → list_entries list_dir suffix files path (dirents es) ≡ files ++ files_of suffix path es
unfolding list_entries dirents files_of files_in ListsAll type_of is_dots
list_entries-files_of f suffix path files nil h = sym (append-nil files)
list_entries-files_of f suffix path files (itself es) h =
    list_entries-files_of f suffix path files es h
list_entries-files_of f suffix path files (parent es) h =
    list_entries-files_of f suffix path files es h
list_entries-files_of f suffix path files (entry name regular es) h =
    elim (Bool-cases (ends_in suffix name)) [
      | inl e ↦
          rw (list_entries, takes_file-ends_in suffix name, e)
            (list_entries-files_of f suffix path (files ++ (join path name ∷ [])) es h.2
              ∙ append_assoc files (join path name ∷ []) (files_of suffix path es))
      | inr e ↦
          rw (list_entries, takes_file-ends_in suffix name, e)
            (list_entries-files_of f suffix path files es h.2)
    ]
list_entries-files_of f suffix path files (entry name special es) h =
    list_entries-files_of f suffix path files es h.2
list_entries-files_of f suffix path files (entry name closed es) h =
    rw (list_entries, h.0, h.1 refl files, append-nil files)
      (list_entries-files_of f suffix path files es h.2)
list_entries-files_of f suffix path files (entry name (directory ds) es) h =
    rw (list_entries, h.0, h.1 refl files)
      (list_entries-files_of f suffix path (files ++ files_of suffix (join path name) ds) es h.2
        ∙ append_assoc files (files_of suffix (join path name) ds) (files_of suffix path es))

reg_differs : dt_reg ≡ dt_dir → ⊥
reg_differs e = ground (arith, e)

other_differs : dt_other ≡ dt_dir → ⊥
other_differs e = ground (arith, e)

list-closed :
    (n : ℕ) (fs : Directories) (suffix : List ℕ) (files : List (List ℕ)) (path : List ℕ)
    → opens fs path ≡ none
    → list_all_file n fs suffix files path ≡ files
unfolding list_all_file
list-closed zero fs suffix files path h = refl
list-closed (suc n) fs suffix files path h = elim (Bool-cases (fs.access path)) [
  | inl e ↦ let shut : fs.opendir path ≡ none = rw e at h in rw (e, shut) refl
  | inr e ↦ rw e refl
]

list-open :
    (n : ℕ) (fs : Directories) (suffix : List ℕ) (files : List (List ℕ)) (path : List ℕ)
    (es : List Dirent)
    → opens fs path ≡ some es
    → list_all_file (suc n) fs suffix files path
      ≡ list_entries (λ fs' p. list_all_file n fs suffix fs' p) suffix files path es
unfolding list_all_file
list-open n fs suffix files path es h = elim (Bool-cases (fs.access path)) [
  | inl e ↦ let found : fs.opendir path ≡ some es = rw e at h in rw (e, found) refl
  | inr e ↦ absurd (ground (arith, h, e))
]

mutual
  unfolding list_all_file Shows files_in depth type_of ListsAll

  list_all_file-files_in :
      (n : ℕ) (fs : Directories) (suffix path : List ℕ) (files : List (List ℕ)) (node : Node)
      → type_of node ≡ dt_dir
      → depth node ≤ n
      → Shows fs path node
      → list_all_file n fs suffix files path ≡ files ++ files_in suffix path node
  list_all_file-files_in n fs suffix path files regular d le h = absurd (reg_differs d)
  list_all_file-files_in n fs suffix path files special d le h = absurd (other_differs d)
  list_all_file-files_in n fs suffix path files closed d le h =
      list-closed n fs suffix files path h ∙ sym (append-nil files)
  list_all_file-files_in zero fs suffix path files (directory es) d le h = absurd (omega arith)
  list_all_file-files_in (suc n) fs suffix path files (directory es) d le h =
      list-open n fs suffix files path (dirents es) h.0
      ∙ list_entries-files_of (λ fs' p. list_all_file n fs suffix fs' p) suffix path files es
          (lists_all n fs suffix path es (omega arith) h.1)

  lists_all :
      (n : ℕ) (fs : Directories) (suffix path : List ℕ) (es : Entries)
      → depth_of es ≤ n
      → ShowsAll fs path es
      → ListsAll (λ files p. list_all_file n fs suffix files p) suffix path es
  lists_all n fs suffix path nil le h = tt
  lists_all n fs suffix path (itself es) le h = lists_all n fs suffix path es le h
  lists_all n fs suffix path (parent es) le h = lists_all n fs suffix path es le h
  lists_all n fs suffix path (entry name node es) le h = (
    h.0,
    λ d files. list_all_file-files_in n fs suffix (join path name) files node d (omega arith) h.1,
    lists_all n fs suffix path es (omega arith) h.2,
  )

-- Where the system shows a tree with a directory at its root, and the fuel is no less than its depth,
-- `ListAllFile` adds to the files just the paths of the regular files of the tree whose names end in the
-- suffix, in the order of the directories; directories that cannot be read add none.
pub list_all_file-files_of :
    (n : ℕ) (fs : Directories) (suffix path : List ℕ) (files : List (List ℕ)) (es : Entries)
    → suc (depth_of es) ≤ n
    → Shows fs path (directory es)
    → list_all_file n fs suffix files path ≡ files ++ files_of suffix path es
unfolding depth files_in type_of
list_all_file-files_of n fs suffix path files es le h =
    list_all_file-files_in n fs suffix path files (directory es) refl le h
