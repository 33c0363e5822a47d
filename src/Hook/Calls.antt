-- ===== src/Hook/Calls.antt =====
-- The other hooks (serverframework/net/hook.cc): `connect`, `close`, `fcntl`, `ioctl`, `setsockopt`, the
-- sleeps, and `socket` and `accept`, which make a context. The original functions are those of the
-- parameter `os`, of `FdManager`; a call of `fcntl` for anything but the status flags is passed on.
use my_server_framework.Prelude.{
  ℕ, ◌+◌, ◌-◌, ◌*◌, ◌/◌, ◌%◌, ◌^◌, Bool, true, false, ◌||◌, not, Option, none, some, if◌then◌else◌,
  ◌==◌, set,
}
use my_server_framework.FdManager.{
  FdCtx, TimeoutType, Kernel, Table, at, del, get, set_timeout, has_nonblock, with_nonblock,
  without_nonblock,
}
use my_server_framework.IoManager.{IoManager, write_event}
use my_server_framework.IoManager.Calls.{EpollCtl, cancel_all}
use my_server_framework.Timer.{add_timer}
use my_server_framework.Hook.{
  Outcome, got, failed, ebadf, einprogress, etimedout, World, Away, Io, returned, crashed, waiting,
  Call, refused, away, broken, begin_wait, cancel_timer,
}

-- `!ctx || ctx->IsClose() || !ctx->IsSocket()`
abbrev pub unmanaged : Option FdCtx → Bool
unmanaged none = true
unmanaged (some ctx) = ctx.is_closed || not ctx.is_socket

abbrev pub set_user_nonblock : Table → ℕ → Bool → Table
set_user_nonblock datas fd b = elim (at datas fd) [
  | none ↦ datas
  | some ctx ↦ set datas fd (some (record ctx { user_nonblock = b }))
]

abbrev pub sys_nonblock_of : Option FdCtx → Bool
sys_nonblock_of none = false
sys_nonblock_of (some ctx) = ctx.sys_nonblock

abbrev pub user_nonblock_of : Option FdCtx → Bool
user_nonblock_of none = false
user_nonblock_of (some ctx) = ctx.user_nonblock

module _ {K : Type 0} (os : Kernel K) where
  -- `fcntl(fd, F_SETFL, arg)`: the user's wish is noted, and the system keeps its own flag.
  unfoldable pub fcntl_setfl : K → Table → ℕ → ℕ → Table × K
  fcntl_setfl k datas fd arg =
      let ctx = at datas fd in
      let kept = if sys_nonblock_of ctx then with_nonblock arg else without_nonblock arg in
      if unmanaged ctx
      then (datas, os.set_flags k fd arg)
      else (set_user_nonblock datas fd (has_nonblock arg), os.set_flags k fd kept)

  -- `fcntl(fd, F_GETFL)`
  unfoldable pub fcntl_getfl : K → Table → ℕ → ℕ
  fcntl_getfl k datas fd =
      let ctx = at datas fd in
      let arg = os.get_flags k fd in
      if unmanaged ctx
      then arg
      else if user_nonblock_of ctx
      then with_nonblock arg
      else without_nonblock arg

  -- `ioctl(d, FIONBIO, &arg)`, of which the system sets the flag to the argument.
  unfoldable pub ioctl_fionbio : K → Table → ℕ → Bool → Table × K
  ioctl_fionbio k datas d user_nonblock =
      let flags = os.get_flags k d in
      let k' =
        os.set_flags k d (if user_nonblock then with_nonblock flags else without_nonblock flags) in
      if unmanaged (at datas d) then (datas, k') else (set_user_nonblock datas d user_nonblock, k')

  -- `socket` and `accept`, once the original gives a descriptor.
  unfoldable pub adopt : Bool → K → Table → Option ℕ → Table × K
  adopt hooked k datas fd =
      let r = get os k datas fd true in if hooked then (r.1, r.2) else (datas, k)

-- `setsockopt` of a time limit, in seconds and microseconds.
unfoldable pub setsockopt_timeout : Bool → Table → ℕ → TimeoutType → ℕ → ℕ → Table
setsockopt_timeout hooked datas fd so sec usec = elim (at datas fd) [
  | none ↦ datas
  | some ctx ↦
      if hooked
      then set datas fd (some (set_timeout ctx so ((sec * 1000 + usec / 1000) % 2 ^ 64)))
      else datas
]

-- `close`, up to the original; `iom` is null where the thread has no manager.
unfoldable pub close :
    Bool → Table → Option IoManager → EpollCtl → ℕ → Option (Table × Option IoManager)
close hooked datas iom epoll_ctl fd =
    let closed : Option (Table × Option IoManager) = elim iom [
      | none ↦ some (del datas fd, none)
      | some m ↦ elim (cancel_all m epoll_ctl fd) [
        | none ↦ none
        | some r ↦ some (del datas fd, some r.1)
      ]
    ] in
    if not hooked
    then some (datas, iom)
    else elim (at datas fd) [ none ↦ some (datas, iom) | some ctx ↦ closed ]

-- The milliseconds of `sleep`, an `unsigned int`, of `usleep`, and of `nanosleep`, an `int`; a
-- negative one is a great number for the timer.
unfoldable pub sleep_ms : ℕ → ℕ
sleep_ms seconds = seconds * 1000 % 2 ^ 32

unfoldable pub usleep_ms : ℕ → ℕ
usleep_ms usec = usec / 1000

unfoldable pub nanosleep_ms : ℕ → ℕ → ℕ
nanosleep_ms sec nsec =
    let ms = (sec * 1000 + nsec / 1000 / 1000) % 2 ^ 32 in
    if ms / 2 ^ 31 == 0 then ms else ms + 2 ^ 64 - 2 ^ 32

-- A sleep: a timer that schedules the fiber again, before it yields.
unfoldable pub sleep : World → ℕ → ℕ → ℕ → ℕ → World
sleep w now timer ms schedule_me = record w {
  timers = (add_timer w.timers now timer ms (some schedule_me) false).1;
}

-- What `getsockopt` says of the connection.
abbrev pub connected : Option ℕ → ℕ → Outcome
connected none errno = failed errno
connected (some error) errno = if error == 0 then got 0 else failed error

-- `connect_with_timeout` on a socket that the user has left blocking, after the original gives `first`;
-- `error` is what `getsockopt` reports, `none` for its failure with `errno`.
unfoldable pub connect_wait : Call → World → Outcome → Away → Option ℕ → ℕ → Io
connect_wait c w (got n) a error errno = returned (got n) w
connect_wait c w (failed e) a error errno = elim (e == einprogress) [
  | false ↦ returned (failed e) w
  | true ↦ elim (begin_wait (record c { event = write_event }) w) [
    | refused (returned o w') ↦ returned (connected error errno) w'
    | refused crashed ↦ crashed
    | refused (waiting w') ↦ waiting w'
    | broken ↦ crashed
    | away w' ↦ elim (a w') [
      | none ↦ crashed
      | some r ↦ elim (cancel_timer c r.1) [
        | none ↦ crashed
        | some w'' ↦
            if r.0 then returned (failed etimedout) w'' else returned (connected error errno) w''
      ]
    ]
  ]
]

-- `connect_with_timeout`
unfoldable pub connect_with_timeout :
    Bool → Option FdCtx → Call → World → Outcome → Away → Option ℕ → ℕ → Io
connect_with_timeout hooked none c w first a error errno =
    if hooked then returned (failed ebadf) w else returned first w
connect_with_timeout hooked (some ctx) c w first a error errno =
    if not hooked
    then returned first w
    else if ctx.is_closed
    then returned (failed ebadf) w
    else if not ctx.is_socket || ctx.user_nonblock
    then returned first w
    else connect_wait c w first a error errno
