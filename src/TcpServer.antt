-- ===== src/TcpServer.antt =====
-- `TcpServer` (serverframework/tcp/tcp_server.cc): the sockets that it listens on, and what it gives its
-- two schedulers. Addresses and sockets are numbers; what `Socket` answers is an argument.
pub mod Binding
use my_server_framework.Prelude.{
  ℕ, Bool, true, false, not, ◌&&◌, Option, none, some, List, [], ◌∷◌, ◌++◌, if◌then◌else◌,
}

-- What the schedulers are given.
pub data Job : Type 0 where
  start_accept : ℕ → Job
  close_all : Job
  handle_client : ℕ → Job

pub record TcpServer : Type 0 where
  pub socks : List ℕ
  pub is_stop : Bool
  pub accept_jobs : List Job
  pub io_jobs : List Job

abbrev pub new_server : TcpServer
new_server = record { socks = []; is_stop = true; accept_jobs = []; io_jobs = [] }

-- The loop of `bind`: the sockets that are bound and listen, and the addresses that failed.
-- `sock_of` is the socket made for an address, and the others say whether its calls succeed.
unfoldable pub bind_loop :
    (ℕ → ℕ) → (ℕ → Bool) → (ℕ → Bool) → List ℕ → List ℕ → List ℕ → List ℕ × List ℕ
bind_loop sock_of binds listens [] socks fails = (socks, fails)
bind_loop sock_of binds listens (addr ∷ addrs) socks fails =
    let good = binds addr && listens addr in
    bind_loop sock_of binds listens addrs (if good then socks ++ (sock_of addr ∷ []) else socks)
      (if good then fails else fails ++ (addr ∷ []))

abbrev pub is_nil : List ℕ → Bool
is_nil [] = true
is_nil (x ∷ xs) = false

-- `bind`: what it returns, the failures and the server.
unfoldable pub bind :
    (ℕ → ℕ) → (ℕ → Bool) → (ℕ → Bool) → TcpServer → List ℕ → List ℕ → Bool × List ℕ × TcpServer
bind sock_of binds listens s addrs fails =
    let r = bind_loop sock_of binds listens addrs s.socks fails in
    if is_nil r.1
    then (true, r.1, record s { socks = r.0 })
    else (false, r.1, record s { socks = [] })

abbrev pub accepts : List ℕ → List Job
accepts [] = []
accepts (sock ∷ socks) = start_accept sock ∷ accepts socks

-- `Start`
unfoldable pub start : TcpServer → TcpServer
start s =
    if not s.is_stop
    then s
    else record s { is_stop = false; accept_jobs = s.accept_jobs ++ accepts s.socks }

-- `Stop`, and the job that it gives to the scheduler.
unfoldable pub stop : TcpServer → TcpServer
stop s = record s { is_stop = true; accept_jobs = s.accept_jobs ++ (close_all ∷ []) }

unfoldable pub run_close_all : TcpServer → TcpServer
run_close_all s = record s { socks = [] }

-- `StartAccept`, over what each `accept` returns, `none` for null, and whether the server is stopped
-- before it.
unfoldable pub accept_loop : List (Bool × Option ℕ) → List Job
accept_loop [] = []
accept_loop ((stopped, client) ∷ rest) =
    let later = accept_loop rest in
    if stopped then [] else elim client [ none ↦ later | some c ↦ handle_client c ∷ later ]
