-- ===== src/Hook/Tests.antt =====
-- Runs of the hooks (serverframework/net/hook.cc) on descriptor 0, a socket.
use my_server_framework.Prelude.{
  ℕ, ◌+◌, ◌*◌, ◌/◌, ◌%◌, ◌^◌, ◌≡◌, refl, sym, ap, ◌∙◌, arith, Bool, true, false, some, List, [],
  ◌∷◌, ◌++◌, if◌then◌else◌, ◌==◌,
}
use my_server_framework.IoManager.{read_event, new_contexts, run_fiber}
use my_server_framework.IoManager.Contexts.{
  new_contexts-Proper, total-new_contexts, length-new_contexts,
}
use my_server_framework.Timer.{Heap, is_set, detect_clock_rollover}
use my_server_framework.FdManager.{
  Kernel, FdCtx, Table, so_rcvtimeo, no_timeout, get_timeout, at, has_nonblock, with_nonblock,
}
use my_server_framework.Hook.{got, failed, eagain, etimedout, World, returned, Call, do_io}
use my_server_framework.Hook.Waits.{Ready, Rested, times_out}
use my_server_framework.Hook.Blocking.{Retry, interrupted, awaited, retries, woken, do_io-retries}
use my_server_framework.Hook.Timeouts.{do_io-times_out}
use my_server_framework.Hook.Calls.{fcntl_setfl, fcntl_getfl}
use my_server_framework.Hook.Flags.{Stores, Managed, fcntl_getfl-fcntl_setfl}

-- What a socket keeps of flags: O_APPEND and O_NONBLOCK, while its access mode is O_RDWR.
abbrev kept : ℕ → ℕ
kept flags = 2 + flags / 2 ^ 10 % 4 * 2 ^ 10

-- A system of sockets, whose state is the flags of each descriptor.
abbrev sockets : Kernel (ℕ → ℕ)
sockets = record {
  fstat = λ k fd. some true;
  get_flags = λ k fd. k fd;
  set_flags = λ k fd flags other. if other == fd then kept flags else k other;
}

-- Another timer, at the address 2.
abbrev one_timer : Heap
one_timer u = record { recurring = false; ms = 20; next = 40; cb = some 300 }

abbrev world : World
world = record {
  iom = record { fd_contexts = new_contexts 0 32; pending_event_count = 0; scheduled = [] };
  timers = record { heap = one_timer; timers = 2 ∷ []; tickled = false; previous_use_time = 3 };
}

abbrev call : Call
call = record {
  fd = 0;
  event = read_event;
  timeout = 0;
  who = record { scheduler = some 1; fiber = 4; running = true };
  epoll_ctl = λ op fd events. true;
  epoll_errno = 0;
  now = 5;
  timer = 1;
  callback = 200;
}

abbrev socket : FdCtx
socket = record {
  is_init = true;
  is_socket = true;
  sys_nonblock = true;
  user_nonblock = false;
  is_closed = false;
  recv_timeout = 20;
  send_timeout = no_timeout;
}

world-Rested : Rested call world
world-Rested = (
  (
    omega (arith, length-new_contexts 0 32),
    new_contexts-Proper 0 32,
    omega (arith, total-new_contexts 0 32),
  ),
  refl,
)

call-Ready : Ready call 1
call-Ready = record {
  event = λ e. ground (arith, e);
  scheduler = refl;
  running = refl;
  accepts = λ op f e. refl;
}

abbrev twice : List Retry
twice = awaited ∷ interrupted ∷ awaited ∷ []

do_io-retries_example :
    (w' : World) × (do_io true (some socket) so_rcvtimeo call world (retries call twice (got 9))
      ≡ returned (got 9) w')
    × Rested call w'
    × (w'.iom.scheduled ≡ [] ++ woken 1 4 twice)
do_io-retries_example =
    do_io-retries socket so_rcvtimeo call 1 twice world (got 9) (refl, refl, refl) call-Ready
      world-Rested tt

abbrev table : Table
table = some socket ∷ []

same_fd : (fd : ℕ) → (fd == fd) ≡ true
same_fd fd = ground arith

kept-has : (flags : ℕ) → has_nonblock (kept flags) ≡ has_nonblock flags
kept-has flags = ground arith

kept-with : (flags : ℕ) → kept (with_nonblock flags) ≡ with_nonblock (kept flags)
kept-with flags = ground arith

sockets-Stores : Stores sockets
sockets-Stores = record {
  takes = λ k fd flags.
      ap (λ (b : Bool). has_nonblock (if b then kept flags else k fd)) (same_fd fd)
      ∙ kept-has flags;
  others = λ k fd flags.
      ap (λ (b : Bool). if b then kept (with_nonblock flags) else k fd) (same_fd fd)
      ∙ kept-with flags
      ∙ sym (ap (λ (b : Bool). with_nonblock (if b then kept flags else k fd)) (same_fd fd));
}

table-Managed : Managed table 0 socket
table-Managed = (refl, refl, refl, refl, omega arith)

fcntl_getfl-fcntl_setfl_example :
    (datas' : Table) × (k' : ℕ → ℕ) × (fcntl_setfl sockets (λ fd. 2050) table 0 5 ≡ (datas', k'))
    × (fcntl_getfl sockets k' datas' 0 ≡ kept 5)
    × (has_nonblock (k' 0) ≡ true)
    × (at datas' 0 ≡ some (record socket { user_nonblock = has_nonblock 5 }))
fcntl_getfl-fcntl_setfl_example =
    fcntl_getfl-fcntl_setfl sockets sockets-Stores (λ fd. 2050) table 0 5 socket table-Managed

-- The limit of 20 is over at 25.
do_io-times_out_example :
    (w' : World) × (do_io true
        (some socket)
        so_rcvtimeo
        call
        world
        ((failed eagain, times_out call 25 0) ∷ [])
      ≡ returned (failed etimedout) w')
    × Rested call w'
    × (w'.iom.scheduled ≡ [] ++ (run_fiber 1 (some 4) ∷ []))
    × (is_set (w'.timers.heap 1).cb ≡ false)
unfolding get_timeout detect_clock_rollover
do_io-times_out_example =
    do_io-times_out socket so_rcvtimeo call 1 world 25 0 (refl, refl, refl) call-Ready world-Rested
      refl (tt, tt) ((λ e. ground (arith, e)), tt) refl refl
