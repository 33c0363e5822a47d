-- ===== src/FdManager.antt =====
-- `FdCtx` and `FdManager` (serverframework/net/fd_manager.h, fd_manager.cc): what the hooks know of a
-- descriptor. `fstat` and the original `fcntl` are parameters: whether a descriptor is a socket,
-- `none` for an error, and its status flags, which `set_flags` changes. A descriptor is `none` for -1,
-- and not below. The manager's lock is held over each operation, but for the fall of its read lock
-- before the write lock in `Get`.
pub mod Table
use my_server_framework.Prelude.{
  ℕ, suc, ◌+◌, ◌-◌, ◌*◌, ◌/◌, ◌%◌, ◌^◌, Bool, true, false, ◌&&◌, ◌||◌, not, Option, none, some,
  List, [], ◌∷◌, ◌++◌, if◌then◌else◌, ltb, leb, ◌==◌, length, set, get_elem?, replicate, take,
}

pub record FdCtx : Type 0 where
  pub is_init : Bool
  pub is_socket : Bool
  pub sys_nonblock : Bool
  pub user_nonblock : Bool
  pub is_closed : Bool
  pub recv_timeout : ℕ
  pub send_timeout : ℕ

-- `(uint64_t)-1`
abbrev pub no_timeout : ℕ
no_timeout = 2 ^ 64 - 1

-- `O_NONBLOCK` in a number of flags: the test, `|` and `& ~`.
abbrev pub has_nonblock : ℕ → Bool
has_nonblock flags = flags / 2 ^ 11 % 2 == 1

abbrev pub with_nonblock : ℕ → ℕ
with_nonblock flags = if has_nonblock flags then flags else flags + 2 ^ 11

abbrev pub without_nonblock : ℕ → ℕ
without_nonblock flags = if has_nonblock flags then flags - 2 ^ 11 else flags

-- The two options for a time limit, `SO_RCVTIMEO` and `SO_SNDTIMEO`.
pub data TimeoutType : Type 0 where
  so_rcvtimeo so_sndtimeo : TimeoutType

-- `SetTimeout` and `GetTimeout`
unfoldable pub set_timeout : FdCtx → TimeoutType → ℕ → FdCtx
set_timeout c so_rcvtimeo v = record c { recv_timeout = v }
set_timeout c so_sndtimeo v = record c { send_timeout = v }

unfoldable pub get_timeout : FdCtx → TimeoutType → ℕ
get_timeout c so_rcvtimeo = c.recv_timeout
get_timeout c so_sndtimeo = c.send_timeout

-- `datas_`
abbrev pub Table : Type 0
Table = List (Option FdCtx)

-- The system: what `fstat` says of a descriptor, and its flags.
pub record Kernel (K : Type 0) : Type 0 where
  pub fstat : K → ℕ → Option Bool
  pub get_flags : K → ℕ → ℕ
  pub set_flags : K → ℕ → ℕ → K

-- `datas_.resize`
unfoldable pub resize : ℕ → Table → Table
resize n datas = take n datas ++ replicate (n - length datas) none

abbrev pub joined : Option (Option FdCtx) → Option FdCtx
joined none = none
joined (some c) = c

-- `datas_[fd]`, null beyond the end.
abbrev pub at : Table → ℕ → Option FdCtx
at datas fd = joined (get_elem? datas fd)

-- `Del`
unfoldable pub del : Table → ℕ → Table
del datas fd = if leb (length datas) fd then datas else set datas fd none

module _ {K : Type 0} (os : Kernel K) where
  -- `FdCtx::Init`, called by the constructor: a socket is made non-blocking for the system.
  unfoldable pub init : K → ℕ → FdCtx × K
  init k fd =
      let socket : Bool = elim (os.fstat k fd) [ none ↦ false | some s ↦ s ] in
      let known : Bool = elim (os.fstat k fd) [ none ↦ false | some s ↦ true ] in
      let flags = os.get_flags k fd in
      (
        record {
          is_init = known;
          is_socket = socket;
          sys_nonblock = socket;
          user_nonblock = false;
          is_closed = false;
          recv_timeout = no_timeout;
          send_timeout = no_timeout;
        },
        if socket && not (has_nonblock flags) then os.set_flags k fd (with_nonblock flags) else k,
      )

  -- The end of `Get`: a context is made and stored.
  unfoldable pub create : K → Table → ℕ → FdCtx × Table × K
  create k datas fd =
      let (ctx, k') = init k fd in
      let room = if leb (length datas) fd then resize (fd * 3 / 2) datas else datas in
      (ctx, set room fd (some ctx), k')

  abbrev pub made : FdCtx × Table × K → Option FdCtx × Table × K
  made r = (some r.0, r.1, r.2)

  -- `Get`
  unfoldable pub get : K → Table → Option ℕ → Bool → Option FdCtx × Table × K
  get k datas none auto_create = (none, datas, k)
  get k datas (some fd) auto_create = elim (at datas fd) [
    | some ctx ↦ (some ctx, datas, k)
    | none ↦ if auto_create then made (create k datas fd) else (none, datas, k)
  ]
