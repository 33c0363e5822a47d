-- ===== src/Files/Make.antt =====
-- `Mkdir`, `OpenForWrite` and `IsRunningPidfile` (serverframework/util/util.cc), over the state of the
-- file system.
use my_server_framework.Prelude.{
  ℕ, ◌≡◌, refl, sym, ap, ◌∙◌, subst, Bool, true, false, not, Bool-cases, inl, inr, Option, none,
  some, List, [], ◌∷◌, ◌++◌, append-nil, append_assoc, All, if◌then◌else◌, ◌==◌, leb, arith,
}
use my_server_framework.Prelude.Sums.{some-injective}
use my_server_framework.Text.{dirname}

-- Whether `lstat` and `access` find a path, `mkdir`, and opening a file to write.
pub record Disk (S : Type 0) : Type 0 where
  pub lstat : S → List ℕ → Bool
  pub access : S → List ℕ → Bool
  pub mkdir : S → List ℕ → S × Bool
  pub open_file : S → List ℕ → S × Bool

-- What `mkdir` promises: a directory that it makes is there, and so is what was there before.
pub record Makes {S : Type 0} (disk : Disk S) : Type 0 where
  pub made :
      (s : S) (p : List ℕ) → (disk.mkdir s p).1 ≡ true → disk.access (disk.mkdir s p).0 p ≡ true
  pub kept :
      (s : S) (p q : List ℕ) → disk.access s q ≡ true → disk.access (disk.mkdir s p).0 q ≡ true

-- The parts of a path that end before a slash, after what stands before it.
unfoldable pub cuts : List ℕ → List ℕ → List (List ℕ)
cuts before [] = []
cuts before (c ∷ cs) =
    let rest = cuts (before ++ (c ∷ [])) cs in if c == 47 then before ∷ rest else rest

module _ {S : Type 0} (disk : Disk S) where
  -- `__mkdir`
  unfoldable pub make_one : S → List ℕ → S × Bool
  make_one s path = if disk.access s path then (s, true) else disk.mkdir s path

  -- The loop, which ends at the first directory that cannot be made.
  unfoldable pub make_each : S → List (List ℕ) → S × Bool
  make_each s [] = (s, true)
  make_each s (path ∷ paths) =
      let r = make_one s path in let rest = make_each r.0 paths in if r.1 then rest else r

  -- `Mkdir`; there is no result for an empty name that `lstat` does not find, since `strchr` then reads
  -- past the end of the copy.
  unfoldable pub mkdir_path : S → List ℕ → Option (S × Bool)
  mkdir_path s name = if disk.lstat s name then some (s, true) else elim name [
    | [] ↦ none
    | c ∷ cs ↦ some (make_each s (cuts (c ∷ []) cs ++ ((c ∷ cs) ∷ [])))
  ]

  -- `OpenForWrite`
  unfoldable pub open_for_write : S → List ℕ → Option (S × Bool)
  open_for_write s filename =
      let first = disk.open_file s filename in
      if first.1 then some first else elim (mkdir_path first.0 (dirname filename)) [
        | none ↦ none
        | some made ↦ some (disk.open_file made.0 filename)
      ]

-- `IsRunningPidfile`: whether `lstat` finds the file, its first line if there is one, what `atoi` makes
-- of a line, negative numbers as 0, and whether a signal can be sent to a process.
unfoldable pub is_running_pidfile : Bool → Option (List ℕ) → (List ℕ → ℕ) → (ℕ → Bool) → Bool
is_running_pidfile found first_line atoi kill = if not found then false else elim first_line [
  | none ↦ false
  | some [] ↦ false
  | some (c ∷ cs) ↦ if leb (atoi (c ∷ cs)) 1 then false else kill (atoi (c ∷ cs))
]

true_differs : true ≡ false → ⊥
true_differs e = ground (arith, e)

module _ {S : Type 0} (disk : Disk S) (laws : Makes disk) where
  make_one-access :
      (s : S) (path : List ℕ)
      → (make_one disk s path).1 ≡ true
      → disk.access (make_one disk s path).0 path ≡ true
  unfolding make_one
  make_one-access s path h = elim (Bool-cases (disk.access s path)) [
    | inl e ↦ rw (e, e) refl
    | inr e ↦ rw e (laws.made s path (rw e at h))
  ]

  make_one-kept :
      (s : S) (path q : List ℕ)
      → disk.access s q ≡ true
      → disk.access (make_one disk s path).0 q ≡ true
  unfolding make_one
  make_one-kept s path q h = elim (Bool-cases (disk.access s path)) [
    | inl e ↦ rw e h
    | inr e ↦ rw e (laws.kept s path q h)
  ]

  make_each-kept :
      (s : S) (paths : List (List ℕ)) (q : List ℕ)
      → disk.access s q ≡ true
      → disk.access (make_each disk s paths).0 q ≡ true
  unfolding make_each
  make_each-kept s [] q h = h
  make_each-kept s (path ∷ paths) q h = elim (Bool-cases (make_one disk s path).1) [
    | inl e ↦ rw e (make_each-kept (make_one disk s path).0 paths q (make_one-kept s path q h))
    | inr e ↦ rw e (make_one-kept s path q h)
  ]

  make_each-access :
      (s : S) (paths : List (List ℕ))
      → (make_each disk s paths).1 ≡ true
      → All (λ p. disk.access (make_each disk s paths).0 p ≡ true) paths
  unfolding make_each
  make_each-access s [] h = tt
  make_each-access s (path ∷ paths) h = elim (Bool-cases (make_one disk s path).1) [
    | inl e ↦
        let s' : S = (make_one disk s path).0 in
        let step : make_each disk s (path ∷ paths) ≡ make_each disk s' paths = rw e refl in
        subst
          (λ (r : S × Bool).
            (disk.access r.0 path ≡ true) × All (λ p. disk.access r.0 p ≡ true) paths)
          (sym step)
          (
            make_each-kept s' paths path (make_one-access s path e),
            make_each-access s' paths (sym (ap (λ r. r.1) step) ∙ h),
          )
    | inr e ↦
        let step : make_each disk s (path ∷ paths) ≡ make_one disk s path = rw e refl in
        absurd (true_differs (sym h ∙ ap (λ r. r.1) step ∙ e))
  ]

-- Each part of a path before a slash is among the cuts.
cut_at :
    (P : List ℕ → Type 0) (before p q : List ℕ)
    → All P (cuts before (p ++ (47 ∷ q)))
    → P (before ++ p)
unfolding cuts
cut_at P before [] q h = subst P (sym (append-nil before)) h.0
cut_at P before (c ∷ p) q h = elim (Bool-cases (c == 47)) [
  | inl e ↦
      subst P (append_assoc before (c ∷ []) p) (cut_at P (before ++ (c ∷ [])) p q (rw e at h).1)
  | inr e ↦ subst P (append_assoc before (c ∷ []) p) (cut_at P (before ++ (c ∷ [])) p q (rw e at h))
]

All-left : (P : List ℕ → Type 0) (xs ys : List (List ℕ)) → All P (xs ++ ys) → All P xs
All-left P [] ys h = tt
All-left P (x ∷ xs) ys h = (h.0, All-left P xs ys h.1)

All-right : (P : List ℕ → Type 0) (xs ys : List (List ℕ)) → All P (xs ++ ys) → All P ys
All-right P [] ys h = h
All-right P (x ∷ xs) ys h = All-right P xs ys h.1

-- Where a directory that `mkdir` makes is there and keeps what was there, and `Mkdir` of a name that
-- `lstat` did not find answers true, the directory is there after it, and so is each part of its name
-- that ends before a slash, but the empty one.
pub mkdir_path-access :
    {S : Type 0} (disk : Disk S) (laws : Makes disk) (s s' : S) (c : ℕ) (cs : List ℕ)
    → disk.lstat s (c ∷ cs) ≡ false
    → mkdir_path disk s (c ∷ cs) ≡ some (s', true)
    → (disk.access s' (c ∷ cs) ≡ true)
      × ((p q : List ℕ) → cs ≡ p ++ (47 ∷ q) → disk.access s' (c ∷ p) ≡ true)
unfolding mkdir_path
mkdir_path-access disk laws s s' c cs new e =
    let paths : List (List ℕ) = cuts (c ∷ []) cs ++ ((c ∷ cs) ∷ []) in
    let run : make_each disk s paths ≡ (s', true) = some-injective _ _ (rw new at e) in
    let all : All (λ p. disk.access s' p ≡ true) paths =
      subst (λ r. All (λ p. disk.access r.0 p ≡ true) paths) run
        (make_each-access disk laws s paths (ap (λ r. r.1) run)) in
    (
      (All-right (λ p. disk.access s' p ≡ true) (cuts (c ∷ []) cs) ((c ∷ cs) ∷ []) all).0,
      λ p q eq.
          cut_at (λ p. disk.access s' p ≡ true) (c ∷ []) p q
            (subst (λ xs. All (λ p. disk.access s' p ≡ true) (cuts (c ∷ []) xs)) eq
              (All-left (λ p. disk.access s' p ≡ true) (cuts (c ∷ []) cs) ((c ∷ cs) ∷ []) all)),
    )
