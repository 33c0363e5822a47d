-- ===== src/TcpServer/Binding.antt =====
-- What `bind` of `TcpServer` (serverframework/tcp/tcp_server.cc) leaves: all sockets or none.
use my_server_framework.Prelude.{
  All, ℕ, ◌≡◌, refl, sym, ap, ap₂, ◌∙◌, Bool, true, false, not, ◌&&◌, Bool-cases, inl, inr, List,
  [], ◌∷◌, ◌++◌, map, append-nil, append_assoc, if◌then◌else◌,
}
use my_server_framework.TcpServer.{TcpServer, bind_loop, is_nil, bind}

-- The addresses of which a test holds.
abbrev pub filter : (ℕ → Bool) → List ℕ → List ℕ
filter p [] = []
filter p (x ∷ xs) = let rest = filter p xs in if p x then x ∷ rest else rest

module _ (sock_of : ℕ → ℕ) (binds listens : ℕ → Bool) where
  abbrev pub good : ℕ → Bool
  good addr = binds addr && listens addr

  bind_loop_lem :
      (addrs socks fails : List ℕ)
      → bind_loop sock_of binds listens addrs socks fails
        ≡ (socks ++ map sock_of (filter good addrs), fails ++ filter (λ a. not (good a)) addrs)
  unfolding bind_loop
  bind_loop_lem [] socks fails =
      ap₂ (λ s f. (s, f)) (sym (append-nil socks)) (sym (append-nil fails))
  bind_loop_lem (a ∷ addrs) socks fails = elim (Bool-cases (good a)) [
    | inl yes_ ↦ rw yes_ (
        bind_loop_lem addrs (socks ++ (sock_of a ∷ [])) fails
        ∙ ap (λ s. (s, fails ++ filter (λ a. not (good a)) addrs))
            (append_assoc socks (sock_of a ∷ []) (map sock_of (filter good addrs))))
    | inr no_ ↦ rw no_ (
        bind_loop_lem addrs socks (fails ++ (a ∷ []))
        ∙ ap (λ f. (socks ++ map sock_of (filter good addrs), f))
            (append_assoc fails (a ∷ []) (filter (λ a. not (good a)) addrs)))
  ]

  every_good : (addrs : List ℕ) → All (λ a. good a ≡ true) addrs → filter good addrs ≡ addrs
  every_good [] h = refl
  every_good (a ∷ addrs) h = rw h.0 (ap (λ as_. a ∷ as_) (every_good addrs h.1))

  none_bad :
      (addrs : List ℕ) → All (λ a. good a ≡ true) addrs → filter (λ a. not (good a)) addrs ≡ []
  none_bad [] h = refl
  none_bad (a ∷ addrs) h = rw h.0 (none_bad addrs h.1)

  some_bad :
      (before after : List ℕ) (a : ℕ)
      → good a ≡ false
      → is_nil (filter (λ a. not (good a)) (before ++ (a ∷ after))) ≡ false
  some_bad [] after a bad = rw bad refl
  some_bad (b ∷ before) after a bad = elim (Bool-cases (good b)) [
    | inl yes_ ↦ rw yes_ (some_bad before after a bad)
    | inr no_ ↦ rw no_ refl
  ]

  -- Where each address is bound and listened on, `bind` with no failures before succeeds and adds a
  -- socket for each, in order.
  bind-succeeds :
      (s : TcpServer) (addrs : List ℕ)
      → All (λ a. good a ≡ true) addrs
      → bind sock_of binds listens s addrs []
        ≡ (true, [], record s { socks = s.socks ++ map sock_of addrs })
  unfolding bind
  bind-succeeds s addrs h =
      let r = bind_loop_lem addrs s.socks [] in
      let t : bind_loop sock_of binds listens addrs s.socks []
          ≡ (s.socks ++ map sock_of addrs, []) =
        r
        ∙ ap₂ (λ (x y : List ℕ). (s.socks ++ map sock_of x, y)) (every_good addrs h)
            (none_bad addrs h) in
      ap
        (λ (r : List ℕ × List ℕ).
          if is_nil r.1
          then (true, r.1, record s { socks = r.0 })
          else (false, r.1, record s { socks = [] }))
        t

  -- Where one address fails, `bind` returns false, has just the failed addresses in the list, in order,
  -- and the server has no socket left, be it from before.
  bind-failed :
      (s : TcpServer) (before after : List ℕ) (a : ℕ)
      → good a ≡ false
      → bind sock_of binds listens s (before ++ (a ∷ after)) []
        ≡ (false, filter (λ a. not (good a)) (before ++ (a ∷ after)), record s { socks = [] })
  unfolding bind
  bind-failed s before after a bad =
      let addrs = before ++ (a ∷ after) in
      ap
        (λ (r : List ℕ × List ℕ).
          if is_nil r.1
          then (true, r.1, record s { socks = r.0 })
          else (false, r.1, record s { socks = [] }))
        (bind_loop_lem addrs s.socks [])
      ∙ ap
          (λ b.
            if b
            then (
              true,
              filter (λ a. not (good a)) addrs,
              record s { socks = s.socks ++ map sock_of (filter good addrs) },
            )
            else (false, filter (λ a. not (good a)) addrs, record s { socks = [] }))
          (some_bad before after a bad)
