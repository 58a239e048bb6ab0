-- ===== src/Server/Socket/Descriptors.antt =====
-- Which descriptors are open behind the functions of src/http/http_server.c.
use ryze.Base.{
  ℕ, ◌/◌, ◌%◌, Bool, true, false, ◌||◌, ◌==◌, if◌then◌else◌, ◌≡◌, refl, ap, ◌∙◌, Option, none, some,
  [], arith,
}
use ryze.Server.Socket.{
  Call, socket, setsockopt, so_reuseaddr, so_reuseport, so_keepalive, tcp_nodelay, getfl, System,
  State, Cmd, update, with_nonblock, ◌and_then◌, call, check_zero, set_flags, set_nonblock,
  configure, close_fd, settle, with_socket, http_server_init,
}

-- O_NONBLOCK is set.
abbrev pub IsNonblock : ℕ → Type 0
IsNonblock flag = flag / 2048 % 2 ≡ 1

with_nonblock-IsNonblock : (flag : ℕ) → IsNonblock (with_nonblock flag)
with_nonblock-IsNonblock flag = ground arith

module _ {W : Type 0} where
  pub and_then_lem :
      (P : State W → Type 0) (Q : Bool × State W → Type 0) (c d : Cmd W Bool) (s : State W)
      → P (c s).1
      → ((t : State W) → P t → Q (d t))
      → ((t : State W) → P t → Q (false, t))
      → Q ((c and_then d) s)
  and_then_lem P Q c d s p on off = go (c s).0 (c s).1 p
    where
      go : (b : Bool) (t : State W) → P t → Q (if b then d t else (false, t))
      go true t p = on t p
      go false t p = off t p

  pub and_then-false :
      (c d : Cmd W Bool) (s : State W) → (c s).0 ≡ false → (c and_then d) s ≡ (false, (c s).1)
  and_then-false c d s e = ap (λ (b : Bool). if b then d (c s).1 else (false, (c s).1)) e

  -- No descriptor was opened or closed, and `fd` does not block if all went well.
  Configured : ℕ → (ℕ → Bool) → Bool × State W → Type 0
  Configured fd open_before r =
      (r.1.is_open ≡ open_before) × (r.0 ≡ true → IsNonblock (r.1.flags fd))

module _ {W : Type 0} (sys : System W) (fd : ℕ) (open_before : ℕ → Bool) where
  abbrev Same : State W → Type 0
  Same t = t.is_open ≡ open_before

  set_nonblock-Configured :
      (s : State W) → Same s → Configured fd open_before (set_nonblock sys fd s)
  unfolding set_nonblock set_flags call Configured
  set_nonblock-Configured s same = go (sys (getfl fd) s.world).0 (sys (getfl fd) s.world).1
    where
      go :
          (flag : Option ℕ) (w : W)
          → Configured fd open_before (set_flags sys fd flag (record s { world = w }))
      go none w = (same, λ e. cc)
      go (some f) w = ground (arith, same, with_nonblock-IsNonblock f)

  pub check_zero-Same : (c : Call) (s : State W) → Same s → Same (check_zero sys c s).1
  unfolding check_zero call
  check_zero-Same c s same = same

  stopped-Configured : (t : State W) → Same t → Configured fd open_before (false, t)
  unfolding Configured
  stopped-Configured t same = (same, λ e. cc)

  checked :
      (c : Call) (d : Cmd W Bool) (s : State W)
      → Same s
      → ((t : State W) → Same t → Configured fd open_before (d t))
      → Configured fd open_before ((check_zero sys c and_then d) s)
  checked c d s same rest =
      and_then_lem Same (Configured fd open_before) (check_zero sys c) d s
        (check_zero-Same c s same) rest stopped-Configured

  configure-Configured : (s : State W) → Same s → Configured fd open_before (configure sys fd s)
  unfolding configure
  configure-Configured s same =
      let c1 = setsockopt fd so_reuseaddr s.server.reuseaddr in
      let c2 = setsockopt fd so_reuseport s.server.reuseport in
      let c3 = setsockopt fd so_keepalive s.server.keepalive in
      let c4 = setsockopt fd tcp_nodelay s.server.nodelay in
      let d4 : Cmd W Bool = check_zero sys c4 and_then set_nonblock sys fd in
      let d3 : Cmd W Bool = check_zero sys c3 and_then d4 in
      let d2 : Cmd W Bool = check_zero sys c2 and_then d3 in
      checked c1 d2 s same (λ t1 p1. checked c2 d3 t1 p1 (λ t2 p2.
        checked c3 d4 t2 p2
          (λ t3 p3. checked c4 (set_nonblock sys fd) t3 p3 set_nonblock-Configured)))

-- What `http_server_init` leaves behind, given the state before: the descriptor of the server open
-- and in nonblocking mode, with no request, or nothing opened.
pub Initialised : {W : Type 0} → (ℕ → Bool) → Bool × State W → Type 0
Initialised open_before (true, t) =
    ((p : ℕ) → t.is_open p ≡ (p == t.server.fd || open_before p))
    × IsNonblock (t.flags t.server.fd)
    × (t.server.request_list ≡ [])
Initialised open_before (false, t) = (p : ℕ) → t.is_open p ≡ open_before p

module _ {W : Type 0} (sys : System W) where
  settle-Initialised :
      (fd : ℕ) (open_before opened : ℕ → Bool) (r : Bool × State W)
      → open_before fd ≡ false
      → ((p : ℕ) → opened p ≡ (p == fd || open_before p))
      → Configured fd opened r
      → Initialised open_before (settle sys fd r)
  unfolding settle close_fd call Configured Initialised
  settle-Initialised fd open_before opened (true, t) new at c =
      ((λ p. ap (λ (f : ℕ → Bool). f p) c.0 ∙ at p), c.1 refl, refl)
  settle-Initialised fd open_before opened (false, t) new at c = λ p.
      let e : t.is_open p ≡ opened p = ap (λ (f : ℕ → Bool). f p) c.0 in
      ground (arith, e, at p, new)

  with_socket-none : (t : State W) → Initialised t.is_open (with_socket sys none t)
  unfolding with_socket Initialised
  with_socket-none t = λ p. refl

  with_socket-some :
      (fd : ℕ) (t : State W)
      → t.is_open fd ≡ false
      → Initialised t.is_open (with_socket sys (some fd) t)
  unfolding with_socket
  with_socket-some fd t new =
      let opened : State W = record t { is_open = update t.is_open fd true } in
      settle-Initialised fd t.is_open opened.is_open (configure sys fd opened) new
        (λ p. ground arith) (configure-Configured sys fd opened.is_open opened refl)

  -- Whatever the system answers, `http_server_init` that returns 0 has opened one descriptor, which
  -- is that of the server and does not block, and has emptied the list of requests; if it returns
  -- -1 no descriptor is left open that was not open before. `socket` does not give a descriptor
  -- that is open.
  pub http_server_init-Initialised :
      (s : State W)
      → ((fd : ℕ)
          → (sys (socket s.server.sock_af s.server.sock_type) s.world).0 ≡ some fd
          → s.is_open fd ≡ false)
      → Initialised s.is_open (http_server_init sys s)
  unfolding http_server_init call
  http_server_init-Initialised s new =
      go (sys (socket s.server.sock_af s.server.sock_type) s.world).0
        (record s { world = (sys (socket s.server.sock_af s.server.sock_type) s.world).1 }) new
    where
      go :
          (r : Option ℕ) (t : State W)
          → ((fd : ℕ) → r ≡ some fd → t.is_open fd ≡ false)
          → Initialised t.is_open (with_socket sys r t)
      go none t new = with_socket-none t
      go (some fd) t new = with_socket-some fd t (new fd refl)
