-- ===== src/Socket/Calls.antt =====
-- What the calls of `Socket` (serverframework/net/socket.cc) leave behind.
use my_server_framework.Prelude.{
  ℕ, ◌+◌, ◌*◌, ◌/◌, ◌%◌, ◌^◌, ◌<◌, ◌≡◌, refl, ap, ◌∙◌, arith, Bool, true, false, ◌&&◌, Option, none,
  some, ◌==◌, length, set,
}
use my_server_framework.FdManager.{
  FdCtx, Table, at, TimeoutType, so_rcvtimeo, so_sndtimeo, set_timeout, get_timeout,
}
use my_server_framework.FdManager.Table.{at-set}
use my_server_framework.Hook.Calls.{setsockopt_timeout}
use my_server_framework.Socket.{
  Socket, is_valid, with_sock, close, connect, to_int, set_in, set_socket_timeout,
  get_socket_timeout,
}

-- A connected socket has a descriptor.
abbrev pub Sound : Socket → Type 0
Sound s = s.is_connected ≡ true → is_valid s ≡ true

-- `connect` succeeds just where the socket has or gets a descriptor, the address is of its family and
-- the system connects; then it is connected, with the descriptor and the address. Where only the
-- system refuses, the socket is closed. It stays sound in all cases.
connect-outcome :
    (s : Socket) (made : Option ℕ) (address family : ℕ) (reaches : Bool) (name : Option ℕ)
    → Sound s
    → let r = connect s made address family reaches name in
      let usable = is_valid (with_sock s made) && family == s.family in
      (r.0 ≡ (usable && reaches))
      × (r.0 ≡ true
          → (r.1.is_connected ≡ true) × (is_valid r.1 ≡ true) × (r.1.remote_address ≡ some address))
      × (usable ≡ true → reaches ≡ false → (r.1.is_connected ≡ false) × (r.1.sock ≡ none))
      × Sound r.1
unfolding connect close
connect-outcome s made address family reaches name h = ground (arith, h)

to_int-small : (n : ℕ) → n < 2 ^ 31 → to_int n ≡ some n
to_int-small n h = ground (arith, h)

set_socket_timeout_lem :
    (datas : Table) (s : Socket) (so : TimeoutType) (v fd : ℕ) (ctx : FdCtx)
    → s.sock ≡ some fd
    → at datas fd ≡ some ctx
    → v < 2 ^ 31 * 1000
    → set_socket_timeout true datas s so v
      ≡ some (
          set datas fd
            (some (set_timeout ctx so ((v / 1000 * 1000 + v % 1000 * 1000 / 1000) % 2 ^ 64))))
unfolding set_socket_timeout setsockopt_timeout
set_socket_timeout_lem datas s so v fd ctx opened there small =
    let sec = to_int-small (v / 1000) (omega (arith, small)) in
    ap (λ o. set_in true datas o so (to_int (v / 1000)) (v % 1000 * 1000)) opened
    ∙ ap (λ o. set_in true datas (some fd) so o (v % 1000 * 1000)) sec
    ∙ ap
        (λ (o : Option FdCtx). some (elim o [
          | none ↦ datas
          | some c ↦
              set datas fd
                (some (set_timeout c so ((v / 1000 * 1000 + v % 1000 * 1000 / 1000) % 2 ^ 64)))
        ]))
        there

get-set_timeout :
    (ctx : FdCtx) (so : TimeoutType) (v : ℕ) → get_timeout (set_timeout ctx so v) so ≡ v
unfolding get_timeout set_timeout
get-set_timeout ctx so_rcvtimeo v = refl
get-set_timeout ctx so_sndtimeo v = refl

get_socket_timeout_lem :
    (datas : Table) (s : Socket) (so : TimeoutType) (fd : ℕ) (ctx : FdCtx)
    → s.sock ≡ some fd
    → at datas fd ≡ some ctx
    → get_socket_timeout datas s so ≡ some (get_timeout ctx so)
unfolding get_socket_timeout
get_socket_timeout_lem datas s so fd ctx opened there =
    ap
      (λ (o : Option ℕ). elim o [
        | none ↦ none
        | some i ↦ elim (at datas i) [ none ↦ none | some c ↦ some (get_timeout c so) ]
      ])
      opened
    ∙ ap (λ (o : Option FdCtx). elim o [ none ↦ none | some c ↦ some (get_timeout c so) ]) there

-- A time limit of fewer than 2 ^ 31 seconds that a socket is given, with hooks and a context of its
-- descriptor, is the one that is got, in milliseconds.
get-set_socket_timeout :
    (datas : Table) (s : Socket) (so : TimeoutType) (v fd : ℕ) (ctx : FdCtx)
    → s.sock ≡ some fd
    → at datas fd ≡ some ctx
    → fd < length datas
    → v < 2 ^ 31 * 1000
    → (datas' : Table) × (set_socket_timeout true datas s so v ≡ some datas')
      × (get_socket_timeout datas' s so ≡ some v)
get-set_socket_timeout datas s so v fd ctx opened there room small =
    let w = (v / 1000 * 1000 + v % 1000 * 1000 / 1000) % 2 ^ 64 in
    let same : w ≡ v = omega (arith, small) in
    let ctx' = set_timeout ctx so w in
    (
      set datas fd (some ctx'),
      set_socket_timeout_lem datas s so v fd ctx opened there small,
      get_socket_timeout_lem (set datas fd (some ctx')) s so fd ctx' opened
            (at-set datas fd (some ctx') room)
          ∙ ap some (get-set_timeout ctx so w ∙ same),
    )
