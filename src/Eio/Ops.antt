-- ===== src/Eio/Ops.antt =====
-- The functions of xxx/eio/eio.c, one for one.
use ryze.Base.{
  true, ◌==◌, if◌then◌else◌, ℕ, zero, suc, Option, none, some, List, [], ◌∷◌, ok, fault,
}
use ryze.Eio.Memory.{
  Syscall, Reply, success, failure, System, Cmd, ◌>>=◌, ◌>>◌, pure, free, set_err, update,
}

-- req->ret = ...
abbrev pub ret_of : Reply → Option ℕ
ret_of (success n) = some n
ret_of (failure e) = none

module _ {W : Type 0} where
  -- free(req->ptr[0]); req->ptr[0] = NULL
  unfoldable pub free_ptr0 : Cmd W (Unit {0})
  unfolding free
  free_ptr0 s =
      (free s.req.ptr0 >> (λ t. ok (tt, record t { req = record (t.req) { ptr0 = 0 } }))) s

  -- free(req->ptr[1]); req->ptr[1] = NULL
  unfoldable pub free_ptr1 : Cmd W (Unit {0})
  unfolding free
  free_ptr1 s =
      (free s.req.ptr1 >> (λ t. ok (tt, record t { req = record (t.req) { ptr1 = 0 } }))) s

  -- free(req->ptr[0]); free(req->ptr[1]); req->ptr[0] = NULL; req->ptr[1] = NULL
  unfoldable pub free_both : Cmd W (Unit {0})
  unfolding free
  free_both s =
      (do
        free s.req.ptr0
        free s.req.ptr1
        (λ t. ok (tt, record t { req = record (t.req) { ptr0 = 0; ptr1 = 0 } })))
        s

  -- free(req->ptr[0]); req->ptr[0] = req->ptr[1]; req->ptr[1] = NULL
  unfoldable pub free_and_move : Cmd W (Unit {0})
  unfolding free
  free_and_move s =
      (free s.req.ptr0
          >> (λ t. ok (tt, record t { req = record (t.req) { ptr0 = t.req.ptr1; ptr1 = 0 } })))
        s

  -- for(int i = 0; i < count; i++) free(vector[i].iov_base)
  unfoldable pub free_bases : ℕ → List ℕ → Cmd W (Unit {0})
  unfolding free
  free_bases zero bases = pure tt
  free_bases (suc k) [] = λ _. fault
  free_bases (suc k) (b ∷ bases) = free b >> free_bases k bases

  -- The block under the test of a call that failed.
  abbrev pub on_failure : Reply → Cmd W (Unit {0}) → Cmd W (Unit {0})
  on_failure (success n) c = pure tt
  on_failure (failure e) c = c

  -- req->ptr[0] = ret, for the DIR * that `opendir` gave, or NULL.
  unfoldable pub set_directory : Reply → Cmd W (Unit {0})
  set_directory (success dir) s = ok (tt, record s { req = record (s.req) { ptr0 = dir } })
  set_directory (failure e) s = ok (tt, record s { req = record (s.req) { ptr0 = 0 } })

  unfoldable pub set_ret : Reply → Cmd W (Unit {0})
  set_ret r s = ok (tt, record s { req = record (s.req) { ret = ret_of r } })

module _ {W : Type 0} (sys : System W) where
  unfoldable pub call : Syscall → Cmd W Reply
  call c s = let (r, w) = sys.call c s.world in ok (r, record s { world = w })

  unfoldable pub note_err : Reply → Cmd W (Unit {0})
  unfolding set_err
  note_err (success n) = pure tt
  note_err (failure e) = set_err sys e

  -- if(call(...)) { EIO_REQ_SETERR(req); }, and the result for what the block does besides.
  unfoldable pub attempt : Syscall → Cmd W Reply
  unfolding call note_err
  attempt c = do r ← call c; note_err r; pure r

  -- The same where the result goes to `req->ret` first.
  unfoldable pub attempt_ret : Syscall → Cmd W Reply
  unfolding call note_err set_ret
  attempt_ret c = do r ← call c; set_ret r; note_err r; pure r

  unfoldable pub eio_access : Cmd W (Unit {0})
  unfolding attempt free_ptr0
  eio_access s = (attempt (Syscall.access s.req.ptr0 s.req.arg0) >>= λ _. free_ptr0) s

  unfoldable pub eio_chmod : Cmd W (Unit {0})
  unfolding attempt free_ptr0
  eio_chmod s = (attempt (Syscall.chmod s.req.ptr0 s.req.arg0) >>= λ _. free_ptr0) s

  unfoldable pub eio_chown : Cmd W (Unit {0})
  unfolding attempt free_ptr0
  eio_chown s = (attempt (Syscall.chown s.req.ptr0 s.req.arg0 s.req.arg1) >>= λ _. free_ptr0) s

  unfoldable pub eio_close : Cmd W (Unit {0})
  unfolding attempt
  eio_close s = (attempt (Syscall.close s.req.arg0) >>= λ _. pure tt) s

  unfoldable pub eio_fchmod : Cmd W (Unit {0})
  unfolding attempt
  eio_fchmod s = (attempt (Syscall.fchmod s.req.arg0 s.req.arg1) >>= λ _. pure tt) s

  unfoldable pub eio_fchown : Cmd W (Unit {0})
  unfolding attempt
  eio_fchown s = (attempt (Syscall.fchown s.req.arg0 s.req.arg1 s.req.arg2) >>= λ _. pure tt) s

  unfoldable pub eio_fdatasync : Cmd W (Unit {0})
  unfolding attempt
  eio_fdatasync s = (attempt (Syscall.fdatasync s.req.arg0) >>= λ _. pure tt) s

  unfoldable pub eio_fstat : Cmd W (Unit {0})
  unfolding attempt free_ptr0
  eio_fstat s = (attempt (Syscall.fstat s.req.arg0 s.req.ptr0) >>= λ r. on_failure r free_ptr0) s

  unfoldable pub eio_fsync : Cmd W (Unit {0})
  unfolding attempt
  eio_fsync s = (attempt (Syscall.fsync s.req.arg0) >>= λ _. pure tt) s

  unfoldable pub eio_ftruncate : Cmd W (Unit {0})
  unfolding attempt
  eio_ftruncate s = (attempt (Syscall.ftruncate s.req.arg0 s.req.arg1) >>= λ _. pure tt) s

  unfoldable pub eio_futimes : Cmd W (Unit {0})
  unfolding attempt free_ptr0
  eio_futimes s = (attempt (Syscall.futimes s.req.arg0 s.req.ptr0) >>= λ _. free_ptr0) s

  unfoldable pub eio_lchown : Cmd W (Unit {0})
  unfolding attempt free_ptr0
  eio_lchown s = (attempt (Syscall.lchown s.req.ptr0 s.req.arg0 s.req.arg1) >>= λ _. free_ptr0) s

  unfoldable pub eio_lutimes : Cmd W (Unit {0})
  unfolding attempt free_both
  eio_lutimes s = (attempt (Syscall.lutimes s.req.ptr0 s.req.ptr1) >>= λ _. free_both) s

  unfoldable pub eio_link : Cmd W (Unit {0})
  unfolding attempt free_both
  eio_link s = (attempt (Syscall.link s.req.ptr0 s.req.ptr1) >>= λ _. free_both) s

  unfoldable pub eio_lstat : Cmd W (Unit {0})
  unfolding attempt free_ptr1 free_and_move
  eio_lstat s =
      (attempt (Syscall.lstat s.req.ptr0 s.req.ptr1) >>= λ r.
      on_failure r free_ptr1 >> free_and_move)
        s

  unfoldable pub eio_mkdir : Cmd W (Unit {0})
  unfolding attempt free_ptr0
  eio_mkdir s = (attempt (Syscall.mkdir s.req.ptr0 s.req.arg0) >>= λ _. free_ptr0) s

  unfoldable pub eio_mkdtemp : Cmd W (Unit {0})
  unfolding attempt free_ptr0
  eio_mkdtemp s = (attempt (Syscall.mkdtemp s.req.ptr0) >>= λ r. on_failure r free_ptr0) s

  unfoldable pub eio_open : Cmd W (Unit {0})
  unfolding attempt_ret free_ptr0
  eio_open s =
      (attempt_ret (Syscall.open_file s.req.ptr0 s.req.arg0 s.req.arg0) >>= λ _. free_ptr0) s

  unfoldable pub eio_opendir : Cmd W (Unit {0})
  unfolding attempt free_ptr0 set_directory
  eio_opendir s = (attempt (Syscall.opendir s.req.ptr0) >>= λ r. free_ptr0 >> set_directory r) s

  unfoldable pub eio_read : Cmd W (Unit {0})
  unfolding attempt_ret free_ptr0
  eio_read s =
      (attempt_ret (Syscall.read s.req.arg0 s.req.ptr0 s.req.arg1) >>= λ r. on_failure r free_ptr0)
        s

  unfoldable pub eio_readlink : Cmd W (Unit {0})
  unfolding attempt_ret free_ptr0 free_ptr1
  eio_readlink s =
      (attempt_ret (Syscall.readlink s.req.ptr0 s.req.ptr1 s.req.arg0) >>= λ r.
      on_failure r free_ptr1 >> free_ptr0)
        s

  unfoldable pub eio_readv : Cmd W (Unit {0})
  unfolding attempt_ret free_ptr0 free_bases
  eio_readv s =
      (attempt_ret (Syscall.readv s.req.arg0 s.req.ptr0 s.req.arg1) >>= λ r.
      on_failure r (free_bases s.req.arg1 (s.vector s.req.ptr0) >> free_ptr0))
        s

  -- `realpath` that succeeds and has no block for its result, `p` being NULL, takes one by `malloc`.
  -- Its address is compared with NULL and not kept.
  unfoldable pub alloc_result : Reply → (p : ℕ) → Cmd W (Unit {0})
  alloc_result (success n) p s =
      if p == 0
      then ok (tt, record s { live = update s.live (sys.malloc s.world s.live) true })
      else ok (tt, s)
  alloc_result (failure e) p s = ok (tt, s)

  unfoldable pub eio_realpath : Cmd W (Unit {0})
  unfolding attempt alloc_result free_ptr0 free_ptr1
  eio_realpath s =
      (attempt (Syscall.realpath s.req.ptr0 s.req.ptr1) >>= λ r.
      alloc_result r s.req.ptr1 >> (on_failure r free_ptr1 >> free_ptr0))
        s

  unfoldable pub eio_rename : Cmd W (Unit {0})
  unfolding attempt free_both
  eio_rename s = (attempt (Syscall.rename s.req.ptr0 s.req.ptr1) >>= λ _. free_both) s

  unfoldable pub eio_rmdir : Cmd W (Unit {0})
  unfolding attempt free_ptr0
  eio_rmdir s = (attempt (Syscall.rmdir s.req.ptr0) >>= λ _. free_ptr0) s

  unfoldable pub eio_stat : Cmd W (Unit {0})
  unfolding attempt free_ptr0 free_ptr1
  eio_stat s =
      (attempt (Syscall.stat s.req.ptr0 s.req.ptr1) >>= λ r. on_failure r free_ptr1 >> free_ptr0) s

  unfoldable pub eio_symlink : Cmd W (Unit {0})
  unfolding attempt free_both
  eio_symlink s = (attempt (Syscall.symlink s.req.ptr0 s.req.ptr1) >>= λ _. free_both) s

  unfoldable pub eio_truncate : Cmd W (Unit {0})
  unfolding attempt free_ptr0
  eio_truncate s = (attempt (Syscall.truncate s.req.ptr0 s.req.arg0) >>= λ _. free_ptr0) s

  unfoldable pub eio_unlink : Cmd W (Unit {0})
  unfolding attempt free_ptr0
  eio_unlink s = (attempt (Syscall.unlink s.req.ptr0) >>= λ _. free_ptr0) s

  unfoldable pub eio_utimes : Cmd W (Unit {0})
  unfolding attempt free_both
  eio_utimes s = (attempt (Syscall.utimes s.req.ptr0 s.req.ptr1) >>= λ _. free_both) s

  unfoldable pub eio_write : Cmd W (Unit {0})
  unfolding attempt_ret free_ptr0
  eio_write s =
      (attempt_ret (Syscall.write s.req.arg0 s.req.ptr0 s.req.arg1) >>= λ r. on_failure r free_ptr0)
        s

  unfoldable pub eio_writev : Cmd W (Unit {0})
  unfolding attempt_ret free_ptr0 free_bases
  eio_writev s =
      (attempt_ret (Syscall.writev s.req.arg0 s.req.ptr0 s.req.arg1) >>= λ r.
      on_failure r (free_bases s.req.arg1 (s.vector s.req.ptr0) >> free_ptr0))
        s
