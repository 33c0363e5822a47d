-- ===== src/FdManager/Table.antt =====
-- The table of `FdManager` (serverframework/net/fd_manager.cc): what `Get` finds after `Get` and `Del`.
use my_server_framework.Prelude.{
  ℕ, zero, suc, ◌-◌, ◌*◌, ◌/◌, ◌≤◌, ◌<◌, ◌≡◌, ◌≢◌, refl, ap, arith, true, false, Option, none, some,
  inl, inr, Bool-cases, Option-cases, [], ◌∷◌, leb, length, set, get_elem?-set_self,
  get_elem?-set_ne, replicate, take, length-append, length-take, length-replicate,
}
use my_server_framework.FdManager.{FdCtx, Kernel, Table, at, joined, resize, del, init, create, get}

pub at-set :
    (datas : Table) (fd : ℕ) (c : Option FdCtx) → fd < length datas → at (set datas fd c) fd ≡ c
at-set datas fd c h = ap joined (get_elem?-set_self datas fd c h)

at-beyond : (datas : Table) (fd : ℕ) → length datas ≤ fd → at datas fd ≡ none
at-beyond [] fd h = refl
at-beyond (c ∷ datas) zero h = absurd (omega (arith, h))
at-beyond (c ∷ datas) (suc fd) h = at-beyond datas fd (omega (arith, h))

length-resize : (n : ℕ) (datas : Table) → length datas ≤ n → length (resize n datas) ≡ n
unfolding resize
length-resize n datas h =
    let nothing : Option FdCtx = none in
    omega (
      arith,
      length-append (take n datas) (replicate (n - length datas) nothing),
      length-take n datas,
      length-replicate (n - length datas) nothing,
      h,
    )

-- `Del` forgets the descriptor, within the table or beyond it, and no other.
del-at :
    (datas : Table) (fd other : ℕ)
    → (at (del datas fd) fd ≡ none) × (fd ≢ other → at (del datas fd) other ≡ at datas other)
unfolding del
del-at datas fd other = elim (Bool-cases (leb (length datas) fd)) [
  | inl beyond ↦ rw beyond (at-beyond datas fd (ground arith), λ n. refl)
  | inr within ↦
      rw within
        (at-set datas fd none (ground arith), λ n. ap joined (get_elem?-set_ne datas none n))
]

module _ {K : Type 0} (os : Kernel K) where
  create-at :
      (k : K) (datas : Table) (fd : ℕ)
      → 64 ≤ length datas
      → at (create os k datas fd).1 fd ≡ some (create os k datas fd).0
  unfolding create
  create-at k datas fd h = elim (Bool-cases (leb (length datas) fd)) [
    | inl beyond ↦ rw beyond (
        at-set (resize (fd * 3 / 2) datas) fd (some (init os k fd).0)
          (ground (arith, length-resize (fd * 3 / 2) datas)))
    | inr within ↦ rw within (at-set datas fd (some (init os k fd).0) (ground arith))
  ]

  -- In a table of at least the 64 places that the manager begins with, `Get` that may create gives a
  -- context, and `Get` that may not gives the same one after it.
  get-get :
      (k : K) (datas : Table) (fd : ℕ)
      → 64 ≤ length datas
      → (ctx : FdCtx) × (datas' : Table) × (k' : K) × (get os k datas (some fd) true
          ≡ (some ctx, datas', k'))
        × (get os k' datas' (some fd) false ≡ (some ctx, datas', k'))
  unfolding get
  get-get k datas fd h = elim (Option-cases (at datas fd)) [
    | inr (ctx, there) ↦ (ctx, datas, k, rw (get, there) refl, rw (get, there) refl)
    | inl new ↦
        let found = create-at k datas fd h in
        let (ctx, datas', k') = create os k datas fd in
        (ctx, datas', k', rw (get, new) refl, rw (get, found) refl)
  ]
