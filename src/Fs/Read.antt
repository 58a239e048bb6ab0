-- ===== src/Fs/Read.antt =====
-- The runs of `fs_read`, whose callback reads the block as a text that a NUL ends.
use ryze.Base.{
  ℕ, zero, suc, ◌==◌, false, ◌≡◌, ◌≢◌, refl, Option, none, some, List, [], ◌∷◌, ◌++◌, ◌-◌, map, All,
  replicate, length, ok, fault,
}
use ryze.Http.Chars.{Bytes}
use ryze.Eio.Memory.{State, success, failure, Syscall, System, set_err}
use ryze.Eio.Ops
use ryze.Eio.Ops.{attempt_ret, call, note_err, set_ret, free_ptr0}
use ryze.Eio.Work.{work}
use ryze.Fs.{
  Machine, Host, rejected, resolved_text, serve, fs_read, with_promise, set_contents, alloc_ptr0,
  alloc_request, call_back, settle_promise, text_at, c_string, eio_req_fs_callback3,
}
use ryze.Fs.Blocks.{IsReady, Serves, update_at}
use ryze.Fs.Finish.{fail-Serves, finish-ptr0, block}

abbrev pub IsCode : ℕ → Type 0
IsCode c = (c == 0) ≡ false

pub c_string-nul :
    (text : Bytes) (rest : List (Option ℕ))
    → All IsCode text
    → c_string (map some text ++ (some 0 ∷ rest)) ≡ ok text
unfolding c_string
c_string-nul [] rest a = refl
c_string-nul (c ∷ text) rest a = rw (a.0, c_string-nul text rest a.1)

-- A text with no NUL, and bytes that are not set behind it, if there are any.
pub c_string-fault :
    (text : Bytes) (n : ℕ) → All IsCode text → c_string (map some text ++ replicate n none) ≡ fault
unfolding c_string
c_string-fault [] zero a = refl
c_string-fault [] (suc n) a = refl
c_string-fault (c ∷ text) n a = rw (a.0, c_string-fault text n a.1)

module _ {V : Type 0} (sys : System (Machine V)) (h : Host V) (ready : IsReady sys h) where
  -- The machine behind the `malloc` of the buffer.
  abbrev pub with_buffer : Machine V
  with_buffer = set_contents (block sys h ready) (replicate 255 none) h.memory.world

  abbrev pub read_call : ℕ → Syscall
  read_call fd = Syscall.read fd (block sys h ready) 255

  behind_read : ℕ → State (Machine V)
  behind_read fd = (fs_read sys fd h).1.memory

  -- If `read` fails, the promise is settled with errno, and the buffer is freed.
  pub fs_read-error :
      (fd e : ℕ) (m : Machine V)
      → sys.call (read_call fd) with_buffer ≡ (failure e, m)
      → e ≢ 0
      → Serves h (rejected e) (serve sys (fs_read sys fd h))
  unfolding serve fs_read with_promise alloc_request alloc_ptr0 work Ops.eio_read attempt_ret call
      note_err set_ret set_err call_back eio_req_fs_callback3 behind_read
  fs_read-error fd e m reply ne = rw reply (
      fail-Serves sys h ready (λ s. text_at s.req.ptr0 s) (behind_read fd).req e m (behind_read fd)
        ne refl refl)

  read_text :
      (fd n : ℕ) (m : Machine V) (text : Bytes)
      → sys.call (read_call fd) with_buffer ≡ (success n, m)
      → c_string (m.contents (block sys h ready)) ≡ ok text
      → Serves h (resolved_text text) (serve sys (fs_read sys fd h))
  unfolding serve fs_read with_promise alloc_request alloc_ptr0 work Ops.eio_read attempt_ret call
      note_err set_ret set_err call_back eio_req_fs_callback3 behind_read text_at
  read_text fd n m text reply e = rw reply (
      finish-ptr0 (λ s. text_at s.req.ptr0 s) h
        (record (behind_read fd) {
          world = m;
          req = record ((behind_read fd).req) { ret = some n };
        })
        ready.unused refl refl (resolved_text text) refl
        (rw (update_at h.memory.live (block sys h ready), e)) (ready.first.ne_null h.memory.world)
        refl (λ p. refl) (ready.first.unused h.memory.world))

  read_fault :
      (fd n : ℕ) (m : Machine V)
      → sys.call (read_call fd) with_buffer ≡ (success n, m)
      → c_string (m.contents (block sys h ready)) ≡ fault
      → serve sys (fs_read sys fd h) ≡ fault
  unfolding serve fs_read with_promise alloc_request alloc_ptr0 work Ops.eio_read attempt_ret call
      note_err set_ret set_err call_back eio_req_fs_callback3 settle_promise text_at
  read_fault fd n m reply e =
      rw (reply, update_at h.resolvers h.next, update_at h.memory.live (block sys h ready), e)

  -- If the bytes read hold a NUL, the promise is settled with the text before the first one; and all
  -- blocks of the request are freed.
  pub fs_read-text :
      (fd n : ℕ) (m : Machine V) (text : Bytes) (rest : List (Option ℕ))
      → sys.call (read_call fd) with_buffer ≡ (success n, m)
      → m.contents (block sys h ready) ≡ (map some text ++ (some 0 ∷ rest))
      → All IsCode text
      → Serves h (resolved_text text) (serve sys (fs_read sys fd h))
  fs_read-text fd n m text rest reply held a =
      read_text fd n m text reply (rw held (c_string-nul text rest a))

  -- If `read` gives bytes none of which is a NUL, and sets those alone in the 255 bytes of the block,
  -- the callback reads a byte that is not set, or reads outside the block.
  pub fs_read-fault :
      (fd : ℕ) (m : Machine V) (text : Bytes)
      → sys.call (read_call fd) with_buffer ≡ (success (length text), m)
      → m.contents (block sys h ready) ≡ (map some text ++ replicate (255 - length text) none)
      → All IsCode text
      → serve sys (fs_read sys fd h) ≡ fault
  fs_read-fault fd m text reply held a =
      read_fault fd (length text) m reply (rw held (c_string-fault text (255 - length text) a))
