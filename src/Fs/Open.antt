-- ===== src/Fs/Open.antt =====
-- The runs of `fs_open` and `fs_close`, from the call to the end of the request.
use ryze.Base.{[], ◌∷◌, ◌++◌, map, ℕ, true, false, ◌≡◌, refl, some, List, ok}
use ryze.Http.Chars.{Bytes}
use ryze.Eio.Memory.{State, Reply, success, failure, Syscall, System, set_err, update}
use ryze.Eio.Ops
use ryze.Eio.Ops.{attempt, attempt_ret, call, note_err, set_ret, free_ptr0}
use ryze.Eio.Work.{work}
use ryze.Eio.Owns.{free-live}
use ryze.Fs.{
  set_contents, Machine, Host, Answer, rejected, resolved_int, serve, fs_open, fs_close, flag_of,
  with_promise, alloc_ptr0, alloc_request, call_back, eio_req_fs_callback1, eio_req_fs_callback2,
}
use ryze.Fs.Blocks.{IsErrno, IsReady, Serves, update_back, update_at}
use ryze.Fs.Finish.{block, block-ne, fail-Serves, finish-nothing, finish-error}

-- What a promise of `open` is to be settled with.
unfoldable pub answer_of_open : Reply → Answer
answer_of_open (success fd) = resolved_int (some fd)
answer_of_open (failure e) = rejected e

unfoldable pub answer_of_close : Reply → Answer
answer_of_close (success n) = resolved_int (some 0)
answer_of_close (failure e) = rejected e

-- The machine behind the copy of the path.
abbrev pub with_path : {V : Type 0} → System (Machine V) → Bytes → Host V → Machine V
with_path sys path h =
    set_contents (sys.malloc h.memory.world h.memory.live) (map some path ++ (some 0 ∷ []))
      h.memory.world

module _ {V : Type 0} (sys : System (Machine V)) (h : Host V) (ready : IsReady sys h) where
  close_reply :
      (fd : ℕ) (r : Reply) (m : Machine V)
      → sys.call (Syscall.close fd) h.memory.world ≡ (r, m)
      → IsErrno r
      → Serves h (answer_of_close r) (serve sys (fs_close fd h))
  unfolding serve fs_close with_promise alloc_request work Ops.eio_close attempt call note_err
      set_err call_back eio_req_fs_callback1 answer_of_close
  close_reply fd (success n) m e errno = rw e (
      finish-nothing (λ s. ok (resolved_int (some s.req.errnum))) h
        (record (h.memory) { world = m; req = record (alloc_request h.memory.req) { arg0 = fd } })
        ready.unused refl refl (resolved_int (some 0)) refl refl refl refl (λ p. refl))
  close_reply fd (failure n) m e errno = rw e (
      finish-error (λ s. ok (resolved_int (some s.req.errnum))) h
        (record (h.memory) {
          world = m;
          live = update h.memory.live (sys.malloc m h.memory.live) true;
          req = record (alloc_request h.memory.req) {
            arg0 = fd;
            errnum = n;
            errbuf = sys.malloc m h.memory.live;
          };
        })
        ready.unused refl refl errno refl (ready.first.ne_null m) (λ p. refl)
        (ready.first.unused m))

  -- fs_close, the work of its request and the callback settle the promise of the call, and no other:
  -- with 0 if `close` succeeds, and with errno if it fails. The resolver is deleted, and what is live
  -- in the end are the blocks from before.
  pub fs_close-Serves :
      (fd : ℕ)
      → Serves h
          (answer_of_close (sys.call (Syscall.close fd) h.memory.world).0)
          (serve sys (fs_close fd h))
  fs_close-Serves fd =
      let reply = sys.call (Syscall.close fd) h.memory.world in
      close_reply fd reply.0 reply.1 refl (ready.errors (Syscall.close fd) h.memory.world)

  -- The state behind fs_open.
  behind_open : Bytes → List ℕ → State (Machine V)
  behind_open path args = (fs_open sys path args h).1.memory

  open_reply :
      (path : Bytes) (args : List ℕ) (r : Reply) (m : Machine V)
      → sys.call
          (Syscall.open_file (block sys h ready) (flag_of args) (flag_of args))
          (with_path sys path h)
        ≡ (r, m)
      → IsErrno r
      → Serves h (answer_of_open r) (serve sys (fs_open sys path args h))
  unfolding serve fs_open with_promise alloc_request alloc_ptr0 work Ops.eio_open attempt_ret call
      note_err set_ret set_err free_ptr0 call_back eio_req_fs_callback2 behind_open answer_of_open
  open_reply path args (success n) m e errno =
      rw
        (
          e,
          free-live (block sys h ready)
              (record (behind_open path args) {
                world = m;
                req = record ((behind_open path args).req) { ret = some n };
              })
              (block-ne sys h ready) (update_at h.memory.live (block sys h ready)),
        )
        (finish-nothing (λ s. ok (resolved_int s.req.ret)) h
          (record (behind_open path args) {
            world = m;
            live = update (update h.memory.live (block sys h ready) true) (block sys h ready) false;
            req = record ((behind_open path args).req) { ret = some n; ptr0 = 0 };
          })
          ready.unused refl refl (resolved_int (some n)) refl refl refl refl
          (λ p.
            update_back h.memory.live (block sys h ready) p (ready.first.unused h.memory.world)))
  open_reply path args (failure n) m e errno = rw e (
      fail-Serves sys h ready (λ s. ok (resolved_int s.req.ret)) (behind_open path args).req n m
        (behind_open path args) errno refl refl)

  -- fs_open, the work of its request and the callback settle the promise of the call, and no other:
  -- with the descriptor if `open` succeeds, and with errno if it fails. The system is asked for the
  -- copy of the path with the flags of the call, O_RDONLY if there are none, and with the flags as
  -- the mode, whatever the mode of the call is. The resolver is deleted, and what is live in the end
  -- are the blocks from before: the copy of the path and the text of the error have been freed.
  pub fs_open-Serves :
      (path : Bytes) (args : List ℕ)
      → Serves h
          (answer_of_open
            (sys.call
              (Syscall.open_file (block sys h ready) (flag_of args) (flag_of args))
              (with_path sys path h)).0)
          (serve sys (fs_open sys path args h))
  fs_open-Serves path args =
      let c = Syscall.open_file (block sys h ready) (flag_of args) (flag_of args) in
      let reply = sys.call c (with_path sys path h) in
      open_reply path args reply.0 reply.1 refl (ready.errors c (with_path sys path h))
