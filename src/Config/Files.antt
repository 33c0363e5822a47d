-- ===== src/Config/Files.antt =====
-- `LoadFromConfDir` (serverframework/config/config.cc): which files are read again. A file is a number
-- with the time of its last change, which the system gives; what is done with a file that is read is
-- `LoadFromYaml`, after its time is noted.
use my_server_framework.Prelude.{
  All, ℕ, ◌≡◌, refl, sym, ap, subst, ◌∙◌, arith, Bool, true, false, not, ◌&&◌, Bool-cases, inl, inr,
  List, [], ◌∷◌, if◌then◌else◌, ◌==◌,
}

-- `s_file2modifytime[i]`, which is 0 where there is none, and its assignment.
abbrev pub time_of : ℕ → List (ℕ × ℕ) → ℕ
time_of file [] = 0
time_of file (p ∷ ps) = let rest = time_of file ps in if p.0 == file then p.1 else rest

abbrev pub put_time : ℕ → ℕ → List (ℕ × ℕ) → List (ℕ × ℕ)
put_time file time [] = (file, time) ∷ []
put_time file time (p ∷ ps) =
    let rest = put_time file time ps in if p.0 == file then (file, time) ∷ ps else p ∷ rest

-- The loop: the times noted, and the files that are read.
unfoldable pub load_files : Bool → List (ℕ × ℕ) → List (ℕ × ℕ) → List (ℕ × ℕ) × List ℕ
load_files force times [] = (times, [])
load_files force times (f ∷ fs) = elim (not force && time_of f.0 times == f.1) [
  | true ↦ load_files force times fs
  | false ↦ let r = load_files force (put_time f.0 f.1 times) fs in (r.0, f.0 ∷ r.1)
]

time_of-put_time_self : (f t : ℕ) (times : List (ℕ × ℕ)) → time_of f (put_time f t times) ≡ t
time_of-put_time_self f t [] = ground arith
time_of-put_time_self f t (p ∷ ps) = elim (Bool-cases (p.0 == f)) [
  | inl same ↦ rw same (ground arith)
  | inr other ↦ rw (other, other) (time_of-put_time_self f t ps)
]

time_of-put_time_ne :
    (f g t : ℕ) (times : List (ℕ × ℕ))
    → (f == g) ≡ false
    → time_of g (put_time f t times) ≡ time_of g times
time_of-put_time_ne f g t [] n = rw n refl
time_of-put_time_ne f g t (p ∷ ps) n = elim (Bool-cases (p.0 == f)) [
  | inl same ↦
      let passed : (p.0 == g) ≡ false = ground (arith, same, n) in rw (same, n, passed) refl
  | inr other ↦ rw other (ap (λ r. if p.0 == g then p.1 else r) (time_of-put_time_ne f g t ps n))
]

-- The file is not among others.
abbrev pub NotAmong : ℕ → List (ℕ × ℕ) → Type 0
NotAmong f fs = All (λ (p : ℕ × ℕ). (p.0 == f) ≡ false) fs

abbrev pub Distinct : List (ℕ × ℕ) → Type 0
Distinct [] = Unit {0}
Distinct (f ∷ fs) = NotAmong f.0 fs × Distinct fs

load_files-others :
    (force : Bool) (fs times : List (ℕ × ℕ)) (g : ℕ)
    → NotAmong g fs
    → time_of g (load_files force times fs).0 ≡ time_of g times
unfolding load_files
load_files-others force [] times g n = refl
load_files-others force (f ∷ fs) times g n =
    elim (Bool-cases (not force && time_of f.0 times == f.1)) [
      | inl known ↦ rw (load_files, known) (load_files-others force fs times g n.1)
      | inr new ↦
          rw (load_files, new)
            (load_files-others force fs (put_time f.0 f.1 times) g n.1
              ∙ time_of-put_time_ne f.0 g f.1 times n.0)
    ]

abbrev Noted : List (ℕ × ℕ) → List (ℕ × ℕ) → Type 0
Noted times fs = All (λ (p : ℕ × ℕ). time_of p.0 times ≡ p.1) fs

load_files-Noted :
    (force : Bool) (fs times : List (ℕ × ℕ)) → Distinct fs → Noted (load_files force times fs).0 fs
unfolding load_files
load_files-Noted force [] times d = tt
load_files-Noted force (f ∷ fs) times d =
    elim (Bool-cases (not force && time_of f.0 times == f.1)) [
      | inl known ↦
          let now : time_of f.0 times ≡ f.1 = ground (arith, known) in
          let step : (load_files force times (f ∷ fs)).0 ≡ (load_files force times fs).0 =
            rw (load_files, known) refl in
          subst (λ ts. Noted ts (f ∷ fs)) (sym step)
            (load_files-others force fs times f.0 d.0 ∙ now, load_files-Noted force fs times d.1)
      | inr new ↦
          let times' = put_time f.0 f.1 times in
          let step : (load_files force times (f ∷ fs)).0 ≡ (load_files force times' fs).0 =
            rw (load_files, new) refl in
          subst (λ ts. Noted ts (f ∷ fs)) (sym step)
            (
              load_files-others force fs times' f.0 d.0 ∙ time_of-put_time_self f.0 f.1 times,
              load_files-Noted force fs times' d.1,
            )
    ]

Noted-load_files :
    (fs times : List (ℕ × ℕ)) → Noted times fs → load_files false times fs ≡ (times, [])
unfolding load_files
Noted-load_files [] times n = refl
Noted-load_files (f ∷ fs) times n =
    let known : (not false && time_of f.0 times == f.1) ≡ true = ground (arith, n.0) in
    rw (load_files, known) (Noted-load_files fs times n.1)

-- After a load of a directory, forced or not, whose files are distinct, another that is not forced
-- reads no file and notes no time, as long as none of them has changed.
load_files-load_files :
    (force : Bool) (times fs : List (ℕ × ℕ))
    → Distinct fs
    → let noted = (load_files force times fs).0 in load_files false noted fs ≡ (noted, [])
load_files-load_files force times fs d =
    Noted-load_files fs (load_files force times fs).0 (load_files-Noted force fs times d)
