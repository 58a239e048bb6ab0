-- ===== src/Server/Socket.antt =====
-- `http_server_init` and `http_server_listen` of src/http/http_server.c. The system behind the
-- calls is a parameter.
pub mod Descriptors
pub mod Listen
use ryze.Base.{
  ℕ, ◌+◌, ◌/◌, ◌%◌, Bool, true, false, ◌==◌, if◌then◌else◌, ◌≡◌, ◌≢◌, refl, Option, none, some,
  List, [], arith,
}

pub data SockOpt : Type 0 where
  so_reuseaddr so_reuseport so_keepalive tcp_nodelay : SockOpt

-- The calls with the arguments that the code passes.
pub data Call : Type 0 where
  socket : (af type : ℕ) → Call
  setsockopt : (fd : ℕ) (opt : SockOpt) (value : ℕ) → Call
  getfl close : (fd : ℕ) → Call
  setfl : (fd flag : ℕ) → Call
  inet_pton : (af host : ℕ) → Call
  bind : (fd af port : ℕ) → Call
  listen : (fd backlog : ℕ) → Call

-- `none` is the result -1.
abbrev pub System : Type 0 → Type 0
System W = Call → W → Option ℕ × W

-- `struct http_server`, as far as the two functions use it; `host` stands for the text.
pub record HttpServer : Type 0 where
  pub fd : ℕ
  pub sock_af : ℕ
  pub sock_type : ℕ
  pub backlog : ℕ
  pub reuseaddr : ℕ
  pub reuseport : ℕ
  pub keepalive : ℕ
  pub nodelay : ℕ
  pub port : ℕ
  pub host : ℕ
  pub request_list : List ℕ

-- `is_open` are the descriptors that `socket` gave and that were not closed, and `flags` the last
-- status flags that F_SETFL has set on each.
pub record State (W : Type 0) : Type 0 where
  pub world : W
  pub is_open : ℕ → Bool
  pub flags : ℕ → ℕ
  pub server : HttpServer

abbrev pub Cmd : Type 0 → Type 0 → Type 0
Cmd W A = State W → A × State W

-- flag | O_NONBLOCK, with O_NONBLOCK = 2048
abbrev pub with_nonblock : ℕ → ℕ
with_nonblock flag = if flag / 2048 % 2 == 1 then flag else flag + 2048

abbrev pub update : {A : Type 0} → (ℕ → A) → ℕ → A → ℕ → A
update f p a q = if q == p then a else f q

module _ {W : Type 0} where
  -- One test behind the other: a test that fails leaves the block by `break`.
  infixr 5 ◌and_then◌
  abbrev pub ◌and_then◌ : Cmd W Bool → Cmd W Bool → Cmd W Bool
  ◌and_then◌ c d s = let (went_well, s') = c s in if went_well then d s' else (false, s')

module _ {W : Type 0} (sys : System W) where
  unfoldable pub call : Call → Cmd W (Option ℕ)
  call c s = let (r, w) = sys c s.world in (r, record s { world = w })

  -- if(call(...)) break
  unfoldable pub check_zero : Call → Cmd W Bool
  unfolding call
  check_zero c s = let (r, s') = call c s in (elim r [ none ↦ false | some n ↦ n == 0 ], s')

  -- The calls of fcntl: the flags that F_GETFL gives, and F_SETFL.
  unfoldable pub set_flags : ℕ → Option ℕ → Cmd W Bool
  unfolding call
  set_flags fd none s = (false, s)
  set_flags fd (some f) s =
      let (r, s') = call (setfl fd (with_nonblock f)) s in
      elim r [
        | none ↦ (false, s')
        | some n ↦ (true, record s' { flags = update s'.flags fd (with_nonblock f) })
      ]

  unfoldable pub set_nonblock : ℕ → Cmd W Bool
  unfolding call set_flags
  set_nonblock fd s = let (flag, s') = call (getfl fd) s in set_flags fd flag s'

  unfoldable pub configure : ℕ → Cmd W Bool
  unfolding check_zero set_nonblock
  configure fd s =
      (check_zero (setsockopt fd so_reuseaddr s.server.reuseaddr)
          and_then check_zero (setsockopt fd so_reuseport s.server.reuseport)
          and_then check_zero (setsockopt fd so_keepalive s.server.keepalive)
          and_then check_zero (setsockopt fd tcp_nodelay s.server.nodelay)
          and_then set_nonblock fd)
        s

  unfoldable pub close_fd : ℕ → Cmd W Bool
  unfolding call
  close_fd fd s =
      let (r, s') = call (close fd) s in (false, record s' { is_open = update s'.is_open fd false })

  -- What follows the block: the end of the function in the block, or close(fd) behind it.
  unfoldable pub settle : ℕ → Bool × State W → Bool × State W
  unfolding close_fd
  settle fd (true, s) =
      (true, record s { server = record (s.server) { fd = fd; request_list = [] } })
  settle fd (false, s) = close_fd fd s

  -- What follows `socket`: `true` stands for the result 0, `false` for -1.
  unfoldable pub with_socket : Option ℕ → Cmd W Bool
  unfolding configure settle
  with_socket none s = (false, s)
  with_socket (some fd) s =
      settle fd (configure fd (record s { is_open = update s.is_open fd true }))

  unfoldable pub http_server_init : Cmd W Bool
  unfolding call with_socket
  http_server_init s =
      let (r, s') = call (socket s.server.sock_af s.server.sock_type) s in with_socket r s'

  -- The address is read in the family `sock_type`. The result 0 of inet_pton is a failure.
  unfoldable pub read_host : Cmd W Bool
  unfolding call
  read_host s =
      let (r, s') = call (inet_pton s.server.sock_type s.server.host) s in
      (elim r [ none ↦ false | some n ↦ if n == 0 then false else true ], s')

  -- return 0, or what follows the block.
  unfoldable pub close_unless : ℕ → Bool × State W → Bool × State W
  unfolding close_fd
  close_unless fd (true, s) = (true, s)
  close_unless fd (false, s) = close_fd fd s

  unfoldable pub http_server_listen : Cmd W Bool
  unfolding read_host check_zero close_unless
  http_server_listen s =
      let sv = s.server in
      close_unless sv.fd (
        (read_host
            and_then check_zero (bind sv.fd sv.sock_af sv.port)
            and_then check_zero (listen sv.fd sv.backlog))
          s)
