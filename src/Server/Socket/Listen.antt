-- ===== src/Server/Socket/Listen.antt =====
-- What `http_server_listen` of src/http/http_server.c leaves open, and when it cannot succeed.
use ryze.Base.{ℕ, Bool, true, false, ◌==◌, if◌then◌else◌, ◌≡◌, refl, ap, none, arith}
use ryze.Server.Socket.{
  bind, listen, inet_pton, System, State, Cmd, update, ◌and_then◌, call, check_zero, close_fd,
  close_unless, read_host, http_server_listen,
}
use ryze.Server.Socket.Descriptors.{and_then_lem, and_then-false, check_zero-Same}

-- What `http_server_listen` leaves open: all if it returns 0, and all but the descriptor of the
-- server if it returns -1.
pub Listening : {W : Type 0} → ℕ → (ℕ → Bool) → Bool × State W → Type 0
Listening fd open_before (true, t) = t.is_open ≡ open_before
Listening fd open_before (false, t) =
    (p : ℕ) → t.is_open p ≡ (if p == fd then false else open_before p)

module _ {W : Type 0} (sys : System W) where
  close_unless-Listening :
      (fd : ℕ) (open_before : ℕ → Bool) (r : Bool × State W)
      → r.1.is_open ≡ open_before
      → Listening fd open_before (close_unless sys fd r)
  unfolding close_unless close_fd call Listening
  close_unless-Listening fd open_before (true, t) same = same
  close_unless-Listening fd open_before (false, t) same =
      λ p. ap (λ (f : ℕ → Bool). update f fd false p) same

  read_host-Same : (s : State W) → (read_host sys s).1.is_open ≡ s.is_open
  unfolding read_host call
  read_host-Same s = refl

  -- Whatever the system answers, `http_server_listen` closes the descriptor of the server if it
  -- returns -1, and no other; if it returns 0 it closes none.
  pub http_server_listen-Listening :
      (s : State W) → Listening s.server.fd s.is_open (http_server_listen sys s)
  unfolding http_server_listen
  http_server_listen-Listening s =
      let sv = s.server in
      let c1 = bind sv.fd sv.sock_af sv.port in
      let c2 = listen sv.fd sv.backlog in
      let rest : Cmd W Bool = check_zero sys c1 and_then check_zero sys c2 in
      let stays : State W → Type 0 = λ t. t.is_open ≡ s.is_open in
      let kept : Bool × State W → Type 0 = λ r. r.1.is_open ≡ s.is_open in
      close_unless-Listening sv.fd s.is_open ((read_host sys and_then rest) s) (
        and_then_lem stays kept (read_host sys) rest s (read_host-Same s)
          (λ t e.
            and_then_lem stays kept (check_zero sys c1) (check_zero sys c2) t
              (check_zero-Same sys sv.fd s.is_open c1 t e)
              (λ t' e'. check_zero-Same sys sv.fd s.is_open c2 t' e') (λ t' e'. e'))
          (λ t e. e))

  read_host-unknown :
      (s : State W)
      → (sys (inet_pton s.server.sock_type s.server.host) s.world).0 ≡ none
      → (read_host sys s).0 ≡ false
  unfolding read_host call
  read_host-unknown s unknown = ground (arith, unknown)

  close_unless-false :
      (fd : ℕ) (t : State W)
      → ((close_unless sys fd (false, t)).0 ≡ false)
        × ((close_unless sys fd (false, t)).1.is_open fd ≡ false)
  unfolding close_unless close_fd call
  close_unless-false fd t = (refl, ground arith)

  -- If the system knows no address family of the number `sock_type`, as it is with SOCK_STREAM,
  -- then `http_server_listen` fails for every host and closes the descriptor.
  pub http_server_listen-family :
      (s : State W)
      → (sys (inet_pton s.server.sock_type s.server.host) s.world).0 ≡ none
      → ((http_server_listen sys s).0 ≡ false)
        × ((http_server_listen sys s).1.is_open s.server.fd ≡ false)
  unfolding http_server_listen
  http_server_listen-family s unknown =
      let sv = s.server in
      let rest : Cmd W Bool =
        check_zero sys (bind sv.fd sv.sock_af sv.port)
        and_then check_zero sys (listen sv.fd sv.backlog) in
      let e = and_then-false (read_host sys) rest s (read_host-unknown s unknown) in
      rw e (close_unless-false sv.fd (read_host sys s).1)
