-- ===== src/Hook/Flags.antt =====
-- What a user sees of a descriptor's flag O_NONBLOCK through the hooks (serverframework/net/hook.cc),
-- and what the system has.
use my_server_framework.Prelude.{
  ℕ, ◌<◌, ◌≡◌, ap, subst, ◌∙◌, arith, Bool, true, false, Option, none, some, inl, inr, Bool-cases,
  if◌then◌else◌, length, length-set, set,
}
use my_server_framework.FdManager.{
  FdCtx, Kernel, Table, at, has_nonblock, with_nonblock, without_nonblock,
}
use my_server_framework.FdManager.Table.{at-set}
use my_server_framework.Hook.Calls.{
  unmanaged, sys_nonblock_of, user_nonblock_of, fcntl_setfl, fcntl_getfl, ioctl_fionbio,
}

-- What is documented of F_SETFL: it sets O_NONBLOCK as it is given, whatever it keeps of the other
-- flags, for which O_NONBLOCK makes no difference.
pub record Stores {K : Type 0} (os : Kernel K) : Type 0 where
  pub takes :
      (k : K) (fd flags : ℕ)
      → has_nonblock (os.get_flags (os.set_flags k fd flags) fd) ≡ has_nonblock flags
  pub others :
      (k : K) (fd flags : ℕ)
      → os.get_flags (os.set_flags k fd (with_nonblock flags)) fd
        ≡ with_nonblock (os.get_flags (os.set_flags k fd flags) fd)

-- The context of an open socket, which the system has non-blocking.
abbrev pub Managed : Table → ℕ → FdCtx → Type 0
Managed datas fd ctx =
    (at datas fd ≡ some ctx)
    × (ctx.is_closed ≡ false)
    × (ctx.is_socket ≡ true)
    × (ctx.sys_nonblock ≡ true)
    × (fd < length datas)

with-has : (flags : ℕ) → has_nonblock (with_nonblock flags) ≡ true
with-has flags = ground arith

without-has : (flags : ℕ) → has_nonblock (without_nonblock flags) ≡ false
without-has flags = ground arith

with-with : (flags : ℕ) → has_nonblock flags ≡ true → with_nonblock (with_nonblock flags) ≡ flags
with-with flags h = ground arith

without-with :
    (flags : ℕ) → has_nonblock flags ≡ false → without_nonblock (with_nonblock flags) ≡ flags
without-with flags h = ground arith

seen_flags :
    (arg : ℕ)
    → (if has_nonblock arg
        then with_nonblock (with_nonblock arg)
        else without_nonblock (with_nonblock arg))
      ≡ arg
seen_flags arg = elim (Bool-cases (has_nonblock arg)) [
  | inl is ↦
      ap
        (λ b. if b then with_nonblock (with_nonblock arg) else without_nonblock (with_nonblock arg))
        is
      ∙ with-with arg is
  | inr is_not ↦
      ap
        (λ b. if b then with_nonblock (with_nonblock arg) else without_nonblock (with_nonblock arg))
        is_not
      ∙ without-with arg is_not
]

managed_open :
    (ctx : FdCtx) → ctx.is_closed ≡ false → ctx.is_socket ≡ true → unmanaged (some ctx) ≡ false
managed_open ctx c s = ground (arith, c, s)

module _ {K : Type 0} (os : Kernel K) (law : Stores os) where
  abbrev wished : FdCtx → Bool → FdCtx
  wished ctx b = record ctx { user_nonblock = b }

  setfl_eq :
      (k : K) (datas : Table) (fd arg : ℕ) (ctx : FdCtx)
      → Managed datas fd ctx
      → fcntl_setfl os k datas fd arg ≡ (
        set datas fd (some (wished ctx (has_nonblock arg))),
        os.set_flags k fd (with_nonblock arg),
      )
  unfolding fcntl_setfl
  setfl_eq k datas fd arg ctx m =
      let noted : Option FdCtx → Table =
        λ c. elim c [ none ↦ datas | some x ↦ set datas fd (some (wished x (has_nonblock arg))) ] in
      let call = λ (c : Option FdCtx). if unmanaged c then (datas, os.set_flags k fd arg) else (
        noted c,
        os.set_flags k fd (if sys_nonblock_of c then with_nonblock arg else without_nonblock arg),
      ) in
      ap call m.0
      ∙ ap
          (λ b. if b then (datas, os.set_flags k fd arg) else (
            noted (some ctx),
            os.set_flags k fd
                (if ctx.sys_nonblock then with_nonblock arg else without_nonblock arg),
          ))
          (managed_open ctx m.1 m.2)
      ∙ ap
          (λ b. (
            noted (some ctx),
            os.set_flags k fd (if b then with_nonblock arg else without_nonblock arg),
          ))
          m.3

  getfl_eq :
      (k : K) (datas : Table) (fd : ℕ) (ctx : FdCtx)
      → Managed datas fd ctx
      → fcntl_getfl os k datas fd ≡ (
          if ctx.user_nonblock
          then with_nonblock (os.get_flags k fd)
          else without_nonblock (os.get_flags k fd))
  unfolding fcntl_getfl
  getfl_eq k datas fd ctx m =
      let arg = os.get_flags k fd in
      let call = λ (c : Option FdCtx).
        if unmanaged c
        then arg
        else if user_nonblock_of c
        then with_nonblock arg
        else without_nonblock arg in
      ap call m.0
      ∙ ap
          (λ b.
            if b
            then arg
            else if ctx.user_nonblock
            then with_nonblock arg
            else without_nonblock arg)
          (managed_open ctx m.1 m.2)

  -- On an open socket that the system has non-blocking, where the original F_SETFL sets O_NONBLOCK as it
  -- is given and otherwise does the same with it and without it: after flags are set through the hook, a
  -- user gets through the hook just what the original would give had it been given them, while the
  -- system's flags stay non-blocking, and the context notes whether the user asked for non-blocking calls.
  pub fcntl_getfl-fcntl_setfl :
      (k : K) (datas : Table) (fd arg : ℕ) (ctx : FdCtx)
      → Managed datas fd ctx
      → (datas' : Table) × (k' : K) × (fcntl_setfl os k datas fd arg ≡ (datas', k'))
        × (fcntl_getfl os k' datas' fd ≡ os.get_flags (os.set_flags k fd arg) fd)
        × (has_nonblock (os.get_flags k' fd) ≡ true)
        × (at datas' fd ≡ some (record ctx { user_nonblock = has_nonblock arg }))
  fcntl_getfl-fcntl_setfl k datas fd arg ctx m =
      let datas' = set datas fd (some (wished ctx (has_nonblock arg))) in
      let k' = os.set_flags k fd (with_nonblock arg) in
      let there = at-set datas fd (some (wished ctx (has_nonblock arg))) m.4 in
      let m' : Managed datas' fd (wished ctx (has_nonblock arg)) = (
        there,
        m.1,
        m.2,
        m.3,
        omega (arith, m.4, length-set datas fd (some (wished ctx (has_nonblock arg)))),
      ) in
      let plain = os.get_flags (os.set_flags k fd arg) fd in
      let wish : Bool = has_nonblock arg in
      let flags : os.get_flags k' fd ≡ with_nonblock plain = law.others k fd arg in
      let seen : (if wish
            then with_nonblock (with_nonblock plain)
            else without_nonblock (with_nonblock plain))
          ≡ plain =
        subst
          (λ (b : Bool).
            (if b
              then with_nonblock (with_nonblock plain)
              else without_nonblock (with_nonblock plain))
            ≡ plain)
          (law.takes k fd arg) (seen_flags plain) in
      (
        datas',
        k',
        setfl_eq k datas fd arg ctx m,
        getfl_eq k' datas' fd (wished ctx (has_nonblock arg)) m'
            ∙ ap (λ f. if wish then with_nonblock f else without_nonblock f) flags
            ∙ seen,
        ap has_nonblock flags ∙ with-has plain,
        there,
      )

  -- On such a socket `ioctl` with FIONBIO and zero makes the descriptor itself blocking, although its
  -- context still says that the system has it non-blocking.
  ioctl_fionbio-blocks :
      (k : K) (datas : Table) (fd : ℕ) (ctx : FdCtx)
      → Managed datas fd ctx
      → (has_nonblock (os.get_flags (ioctl_fionbio os k datas fd false).1 fd) ≡ false)
        × (at (ioctl_fionbio os k datas fd false).0 fd
            ≡ some (record ctx { user_nonblock = false }))
  unfolding ioctl_fionbio
  ioctl_fionbio-blocks k datas fd ctx m =
      let flags = os.get_flags k fd in
      let k' = os.set_flags k fd (without_nonblock flags) in
      let noted : Option FdCtx → Table =
        λ c. elim c [ none ↦ datas | some x ↦ set datas fd (some (wished x false)) ] in
      let same : ioctl_fionbio os k datas fd false ≡ (set datas fd (some (wished ctx false)), k') =
        ap (λ (c : Option FdCtx). if unmanaged c then (datas, k') else (noted c, k')) m.0
        ∙ ap (λ b. if b then (datas, k') else (noted (some ctx), k')) (managed_open ctx m.1 m.2) in
      (
        ap (λ (r : Table × K). has_nonblock (os.get_flags r.1 fd)) same
            ∙ law.takes k fd (without_nonblock flags)
            ∙ without-has flags,
        ap (λ (r : Table × K). at r.0 fd) same ∙ at-set datas fd (some (wished ctx false)) m.4,
      )
