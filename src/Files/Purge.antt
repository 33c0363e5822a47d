-- ===== src/Files/Purge.antt =====
-- What `Rm` (serverframework/util/util.cc) removes of a tree, and what its answer tells.
use my_server_framework.Prelude.{
  ℕ, zero, suc, ◌≤◌, ◌≡◌, refl, sym, ap, ◌∙◌, Bool, true, false, ◌&&◌, none, some, List, [], ◌∷◌,
  ◌++◌, append-nil, append_assoc, All, arith,
}
use my_server_framework.Prelude.Sums.{All-append}
use my_server_framework.Files.{join, is_dots}
use my_server_framework.Files.Trees.{
  Node, regular, special, closed, directory, Entries, nil, itself, parent, entry, depth, depth_of,
}
use my_server_framework.Files.Remove.{
  Calls, Removal, unlinks, rmdirs, unlink_file, dir_bit, rm_entries, rm,
}

unfoldable pub names_of : Entries → List (List ℕ)
names_of nil = []
names_of (itself es) = (46 ∷ []) ∷ names_of es
names_of (parent es) = (46 ∷ 46 ∷ []) ∷ names_of es
names_of (entry name node es) = name ∷ names_of es

-- Whether what is at a path is removed.
unfoldable pub removed : Calls → List ℕ → Node → Bool
removed sys path regular = sys.unlink path
removed sys path special = sys.unlink path
removed sys path closed = false
removed sys path (directory es) = sys.rmdir path

unfoldable pub all_removed : Calls → List ℕ → Entries → Bool
all_removed sys path nil = true
all_removed sys path (itself es) = all_removed sys path es
all_removed sys path (parent es) = all_removed sys path es
all_removed sys path (entry name node es) =
    removed sys (join path name) node && all_removed sys path es

-- The mode at a path has the bit of a directory, or not.
abbrev pub HasMode : Calls → List ℕ → Bool → Type 0
HasMode sys path dir = (mode : ℕ) × (sys.lstat path ≡ some mode) × (dir_bit mode ≡ dir)

-- The system has a tree at a path. A directory is removed only where all in it was removed.
unfoldable mutual
  pub HasTree : Calls → List ℕ → Node → Type 0
  HasTree sys path regular = HasMode sys path false
  HasTree sys path special = HasMode sys path false
  HasTree sys path closed = HasMode sys path true × (sys.opendir path ≡ none)
  HasTree sys path (directory es) =
      HasMode sys path true
      × (sys.opendir path ≡ some (names_of es))
      × (sys.rmdir path ≡ true → all_removed sys path es ≡ true)
      × HasAll sys path es

  pub HasAll : Calls → List ℕ → Entries → Type 0
  HasAll sys path nil = Unit {0}
  HasAll sys path (itself es) = HasAll sys path es
  HasAll sys path (parent es) = HasAll sys path es
  HasAll sys path (entry name node es) =
      (is_dots name ≡ false) × HasTree sys (join path name) node × HasAll sys path es

-- The calls that remove a tree, what is in a directory before the directory.
unfoldable mutual
  pub removals : List ℕ → Node → List Removal
  removals path regular = unlinks path ∷ []
  removals path special = unlinks path ∷ []
  removals path closed = []
  removals path (directory es) = removals_of path es ++ (rmdirs path ∷ [])

  pub removals_of : List ℕ → Entries → List Removal
  removals_of path nil = []
  removals_of path (itself es) = removals_of path es
  removals_of path (parent es) = removals_of path es
  removals_of path (entry name node es) = removals (join path name) node ++ removals_of path es

-- The answer of the loop: that for the last name.
unfoldable pub last_answer : Calls → List ℕ → Bool → Entries → Bool
last_answer sys path ret nil = ret
last_answer sys path ret (itself es) = last_answer sys path ret es
last_answer sys path ret (parent es) = last_answer sys path ret es
last_answer sys path ret (entry name node es) =
    last_answer sys path (removed sys (join path name) node) es

last_answer-true :
    (sys : Calls) (path : List ℕ) (ret : Bool) (es : Entries)
    → ret ≡ true
    → all_removed sys path es ≡ true
    → last_answer sys path ret es ≡ true
unfolding last_answer all_removed
last_answer-true sys path ret nil r h = r
last_answer-true sys path ret (itself es) r h = last_answer-true sys path ret es r h
last_answer-true sys path ret (parent es) r h = last_answer-true sys path ret es r h
last_answer-true sys path ret (entry name node es) r h =
    last_answer-true sys path (removed sys (join path name) node) es (ground (arith, h))
      (ground (arith, h))

-- Each name of a directory is removed as its tree says.
unfoldable pub RemovesAll : Calls → (List ℕ → Bool × List Removal) → List ℕ → Entries → Type 0
RemovesAll sys remove path nil = Unit {0}
RemovesAll sys remove path (itself es) = RemovesAll sys remove path es
RemovesAll sys remove path (parent es) = RemovesAll sys remove path es
RemovesAll sys remove path (entry name node es) =
    (is_dots name ≡ false)
    × (remove (join path name)
        ≡ (removed sys (join path name) node, removals (join path name) node))
    × RemovesAll sys remove path es

rm_entries_lem :
    (sys : Calls) (remove : List ℕ → Bool × List Removal) (path : List ℕ) (ret : Bool)
    (done : List Removal) (es : Entries)
    → RemovesAll sys remove path es
    → rm_entries remove path ret done (names_of es)
      ≡ (last_answer sys path ret es, done ++ removals_of path es)
unfolding rm_entries names_of last_answer removals RemovesAll is_dots
rm_entries_lem sys f path ret done nil h = ap (λ d. (ret, d)) (sym (append-nil done))
rm_entries_lem sys f path ret done (itself es) h = rm_entries_lem sys f path ret done es h
rm_entries_lem sys f path ret done (parent es) h = rm_entries_lem sys f path ret done es h
rm_entries_lem sys f path ret done (entry name node es) h =
    rw (h.0, h.1)
      (rm_entries_lem sys f path (removed sys (join path name) node)
          (done ++ removals (join path name) node) es h.2
        ∙ ap (λ d. (last_answer sys path (removed sys (join path name) node) es, d))
            (append_assoc done (removals (join path name) node) (removals_of path es)))

and_absorbs : (a b : Bool) → (a ≡ true → b ≡ true) → (a && b) ≡ a
and_absorbs true b h = h refl
and_absorbs false b h = refl

mutual
  unfolding HasTree rm unlink_file removed removals depth RemovesAll

  rm-removals :
      (n : ℕ) (sys : Calls) (path : List ℕ) (node : Node)
      → suc (depth node) ≤ n
      → HasTree sys path node
      → rm n sys path ≡ (removed sys path node, removals path node)
  rm-removals zero sys path node le h = absurd (omega arith)
  rm-removals (suc n) sys path regular le h = rw (rm, h.1, h.2, unlink_file, h.1) refl
  rm-removals (suc n) sys path special le h = rw (rm, h.1, h.2, unlink_file, h.1) refl
  rm-removals (suc n) sys path closed le h = rw (rm, h.0.1, h.0.2, h.1) refl
  rm-removals (suc n) sys path (directory es) le h =
      rw
        (
          rm,
          h.0.1,
          h.0.2,
          h.1,
          rm_entries_lem sys (λ p. rm n sys p) path true [] es
              (removes_all n sys path es (omega arith) h.3),
        )
        (ap (λ b. (b, removals_of path es ++ (rmdirs path ∷ [])))
          (and_absorbs (sys.rmdir path) (last_answer sys path true es)
            (λ e. last_answer-true sys path true es refl (h.2 e))))

  removes_all :
      (n : ℕ) (sys : Calls) (path : List ℕ) (es : Entries)
      → suc (depth_of es) ≤ n
      → HasAll sys path es
      → RemovesAll sys (λ p. rm n sys p) path es
  removes_all n sys path nil le h = tt
  removes_all n sys path (itself es) le h = removes_all n sys path es le h
  removes_all n sys path (parent es) le h = removes_all n sys path es le h
  removes_all n sys path (entry name node es) le h = (
    h.0,
    rm-removals n sys (join path name) node (omega arith) h.1,
    removes_all n sys path es (omega arith) h.2,
  )

-- Whether a call that removes something succeeds.
unfoldable pub succeeds : Calls → Removal → Bool
succeeds sys (unlinks path) = sys.unlink path
succeeds sys (rmdirs path) = sys.rmdir path

mutual
  unfolding HasTree removed all_removed removals succeeds

  All-succeed :
      (sys : Calls) (path : List ℕ) (node : Node)
      → HasTree sys path node
      → removed sys path node ≡ true
      → All (λ r. succeeds sys r ≡ true) (removals path node)
  All-succeed sys path regular h e = (e, tt)
  All-succeed sys path special h e = (e, tt)
  All-succeed sys path closed h e = tt
  All-succeed sys path (directory es) h e =
      All-append (λ r. succeeds sys r ≡ true) (removals_of path es) (rmdirs path ∷ [])
        (All-succeed_in sys path es h.3 (h.2 e)) (e, tt)

  All-succeed_in :
      (sys : Calls) (path : List ℕ) (es : Entries)
      → HasAll sys path es
      → all_removed sys path es ≡ true
      → All (λ r. succeeds sys r ≡ true) (removals_of path es)
  All-succeed_in sys path nil h e = tt
  All-succeed_in sys path (itself es) h e = All-succeed_in sys path es h e
  All-succeed_in sys path (parent es) h e = All-succeed_in sys path es h e
  All-succeed_in sys path (entry name node es) h e =
      All-append (λ r. succeeds sys r ≡ true) (removals (join path name) node) (removals_of path es)
        (All-succeed sys (join path name) node h.1 (ground (arith, e)))
        (All-succeed_in sys path es h.2 (ground (arith, e)))

-- Where the system has a tree with a directory at a path, directories are removed only where all in them
-- was removed, and the fuel is more than the depth of the tree, `Rm` makes the calls that remove the tree,
-- what is in a directory before it; it answers whether the last one, for the directory itself,
-- succeeded; and where it answers true, all of them succeeded.
pub rm-succeeds :
    (n : ℕ) (sys : Calls) (path : List ℕ) (es : Entries)
    → suc (suc (depth_of es)) ≤ n
    → HasTree sys path (directory es)
    → ((rm n sys path).1 ≡ removals_of path es ++ (rmdirs path ∷ []))
      × ((rm n sys path).0 ≡ sys.rmdir path)
      × ((rm n sys path).0 ≡ true
          → All (λ r. succeeds sys r ≡ true) (removals_of path es ++ (rmdirs path ∷ [])))
unfolding removals removed depth
rm-succeeds n sys path es le h =
    let e = rm-removals n sys path (directory es) le h in
    (
      ap (λ r. r.1) e,
      ap (λ r. r.0) e,
      λ t. All-succeed sys path (directory es) h (sym (ap (λ r. r.0) e) ∙ t),
    )
