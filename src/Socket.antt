-- ===== src/Socket.antt =====
-- `Socket` (serverframework/net/socket.cc): its descriptor, whether it is connected, and its time
-- limits, which are in the context of its descriptor. What the system's calls return is an argument.
-- Addresses are numbers; the descriptor is `none` for -1.
pub mod Calls
use my_server_framework.Prelude.{
  ℕ, ◌*◌, ◌/◌, ◌%◌, ◌^◌, Bool, true, false, not, ◌&&◌, ◌||◌, Option, none, some, if◌then◌else◌,
  ◌==◌,
}
use my_server_framework.FdManager.{
  FdCtx, Table, at, TimeoutType, so_rcvtimeo, so_sndtimeo, get_timeout,
}
use my_server_framework.Hook.Calls.{setsockopt_timeout}

pub record Socket : Type 0 where
  pub sock : Option ℕ
  pub family : ℕ
  pub type_number : ℕ
  pub protocol : ℕ
  pub is_connected : Bool
  pub local_address : Option ℕ
  pub remote_address : Option ℕ

-- The constructor.
abbrev pub new_socket : ℕ → ℕ → ℕ → Socket
new_socket family type_number protocol = record {
  sock = none;
  family = family;
  type_number = type_number;
  protocol = protocol;
  is_connected = false;
  local_address = none;
  remote_address = none;
}

abbrev pub is_valid : Socket → Bool
is_valid s = elim s.sock [ none ↦ false | some fd ↦ true ]

-- `if (!IsValid()) NewSock();`, where `made` is what `socket` returns.
abbrev pub with_sock : Socket → Option ℕ → Socket
with_sock s made = if is_valid s then s else record s { sock = made }

-- `close`: what it returns, the descriptor that the system closes, and the socket.
unfoldable pub close : Socket → Bool × Option ℕ × Socket
close s =
    if not s.is_connected && not (is_valid s)
    then (true, none, s)
    else (false, s.sock, record s { is_connected = false; sock = none })

-- `bind`, to an address of a family; `taken` is for the address of a Unix socket whether a socket
-- connects to it, and `bound` whether the system's `bind` succeeds, after which the local address is
-- kept.
unfoldable pub bind : Socket → Option ℕ → ℕ → ℕ → Bool → Bool → Bool × Socket
bind s made address family taken bound =
    let s' = with_sock (record s { local_address = some address }) made in
    (is_valid s' && family == s'.family && not taken && bound, s')

-- `listen`
abbrev pub listen : Socket → Bool → Bool
listen s listens = is_valid s && listens

-- `connect`, where `reaches` is whether `::connect` or `connect_with_timeout` succeeds, and `name` what
-- `getsockname` gives.
unfoldable pub connect : Socket → Option ℕ → ℕ → ℕ → Bool → Option ℕ → Bool × Socket
connect s made address family reaches name =
    let s' = with_sock (record s { remote_address = some address }) made in
    let local : Option ℕ = elim s'.local_address [ none ↦ name | some a ↦ some a ] in
    if not (is_valid s' && family == s'.family)
    then (false, s')
    else if reaches
    then (true, record s' { is_connected = true; local_address = local })
    else (false, (close s').2)

-- `reconnect`
unfoldable pub reconnect : Socket → Option ℕ → ℕ → Bool → Option ℕ → Bool × Socket
reconnect s made family reaches name = elim s.remote_address [
  | none ↦ (false, s)
  | some address ↦ connect (record s { local_address = none }) made address family reaches name
]

-- `Init`, with the contexts of descriptors, and what `getsockname` and `getpeername` give.
unfoldable pub init : Table → Socket → ℕ → Option ℕ → Option ℕ → Bool × Socket
init datas s fd local peer = elim (at datas fd) [
  | none ↦ (false, s)
  | some ctx ↦
      if ctx.is_socket && not ctx.is_closed
      then (
        true,
        record s {
          sock = some fd;
          is_connected = true;
          local_address = elim s.local_address [ none ↦ local | some a ↦ some a ];
          remote_address = elim s.remote_address [ none ↦ peer | some a ↦ some a ];
        },
      )
      else (false, s)
]

-- `accept`, where `newsock` is what `::accept` returns; `none` is null.
unfoldable pub accept : Table → Socket → Option ℕ → Option ℕ → Option ℕ → Option Socket
accept datas s none local peer = none
accept datas s (some newsock) local peer =
    let r = init datas (new_socket s.family s.type_number s.protocol) newsock local peer in
    if r.0 then some r.1 else none

-- The conversion to `int` of a number of at most 2 ^ 31 - 1; more wraps to a negative number, `none`.
abbrev pub to_int : ℕ → Option ℕ
to_int n = let m = n % 2 ^ 32 in if m / 2 ^ 31 == 0 then some m else none

abbrev pub set_in : Bool → Table → Option ℕ → TimeoutType → Option ℕ → ℕ → Option Table
set_in hooked datas none so sec usec = some datas
set_in hooked datas (some fd) so none usec = none
set_in hooked datas (some fd) so (some sec) usec =
    some (setsockopt_timeout hooked datas fd so sec usec)

-- `SetRecvTimeout` and `SetSendTimeout` of `v` milliseconds, not negative, through the hook of
-- `setsockopt`; `none` is a number of seconds beyond an `int`.
unfoldable pub set_socket_timeout : Bool → Table → Socket → TimeoutType → ℕ → Option Table
set_socket_timeout hooked datas s so v =
    set_in hooked datas s.sock so (to_int (v / 1000)) (v % 1000 * 1000)

-- `GetRecvTimeout` and `GetSendTimeout`; `none` is -1 for want of a context.
unfoldable pub get_socket_timeout : Table → Socket → TimeoutType → Option ℕ
get_socket_timeout datas s so = elim s.sock [
  | none ↦ none
  | some fd ↦ elim (at datas fd) [ none ↦ none | some ctx ↦ some (get_timeout ctx so) ]
]
