-- ===== src/Eio/Memory.antt =====
-- The state of an operation of xxx/eio: the request, the blocks that `malloc` has handed out, and
-- the system behind the calls, which is not part of the program.
use ryze.Base.{ℕ, Bool, true, false, ◌==◌, if◌then◌else◌, Option, List, Run, ok, fault}

-- `struct eio_req_t`, without the fields that the operations leave alone. `args` are unions, each a
-- number, and `ret` is `none` for -1.
pub record Request : Type 0 where
  pub arg0 : ℕ
  pub arg1 : ℕ
  pub arg2 : ℕ
  pub ret : Option ℕ
  pub ptr0 : ℕ
  pub ptr1 : ℕ
  pub ptr2 : ℕ
  pub errnum : ℕ
  pub errbuf : ℕ

-- The calls that eio.c makes, with the arguments that it passes.
pub data Syscall : Type 0 where
  access chmod mkdir truncate : (path arg : ℕ) → Syscall
  chown lchown : (path owner group : ℕ) → Syscall
  fchown : (fd owner group : ℕ) → Syscall
  close fdatasync fsync : (fd : ℕ) → Syscall
  fchmod ftruncate : (fd arg : ℕ) → Syscall
  fstat futimes : (fd buf : ℕ) → Syscall
  lutimes link lstat realpath rename stat symlink utimes : (path second : ℕ) → Syscall
  mkdtemp opendir rmdir unlink : (path : ℕ) → Syscall
  open_file : (path flag mode : ℕ) → Syscall
  read write : (fd buf size : ℕ) → Syscall
  readlink : (path buf size : ℕ) → Syscall
  readv writev : (fd vector count : ℕ) → Syscall

-- What a call gives: its result, or -1 or NULL with `errno`.
pub data Reply : Type 0 where
  success : (result : ℕ) → Reply
  failure : (errno : ℕ) → Reply

-- The system, with a state of its own, and what `malloc` returns next.
pub record System (W : Type 0) : Type 0 where
  pub call : Syscall → W → Reply × W
  pub malloc : W → (ℕ → Bool) → ℕ

-- `live p` if `malloc` has handed out `p` and it has not been freed; `vector p` are the `iov_base`
-- fields of the array at `p`.
pub record State (W : Type 0) : Type 0 where
  pub world : W
  pub live : ℕ → Bool
  pub vector : ℕ → List ℕ
  pub req : Request

abbrev pub Cmd : Type 0 → Type 0 → Type 0
Cmd W A = State W → Run (A × State W)

abbrev pub and_then : {W A B : Type 0} → Run (A × State W) → (A → Cmd W B) → Run (B × State W)
and_then fault k = fault
and_then Run.out_of_fuel k = Run.out_of_fuel
and_then (ok (a, s)) k = k a s

infixl 5 ◌>>=◌ ◌>>◌
abbrev pub ◌>>=◌ : {W A B : Type 0} → Cmd W A → (A → Cmd W B) → Cmd W B
◌>>=◌ c k s = and_then (c s) k

abbrev pub ◌>>◌ : {W B : Type 0} → Cmd W (Unit {0}) → Cmd W B → Cmd W B
◌>>◌ c d s = and_then (c s) (λ _. d)

abbrev pub pure : {W A : Type 0} → A → Cmd W A
pure a s = ok (a, s)

abbrev pub update : (ℕ → Bool) → ℕ → Bool → ℕ → Bool
update f p b q = if q == p then b else f q

-- free(p): nothing at NULL, and undefined unless `p` is live.
unfoldable pub free : {W : Type 0} → ℕ → Cmd W (Unit {0})
free p s =
    if p == 0
    then ok (tt, s)
    else if s.live p
    then ok (tt, record s { live = update s.live p false })
    else fault

-- EIO_REQ_SETERR
unfoldable pub set_err : {W : Type 0} → System W → ℕ → Cmd W (Unit {0})
set_err sys errno s =
    let p = sys.malloc s.world s.live in
    ok (
      tt,
      record s { live = update s.live p true; req = record (s.req) { errnum = errno; errbuf = p } },
    )

-- EIO_REQ_FREE, up to the request itself.
unfoldable pub free_request : {W : Type 0} → Cmd W (Unit {0})
unfolding free
free_request s = (do free s.req.ptr0; free s.req.ptr1; free s.req.ptr2; free s.req.errbuf) s
