-- ===== src/Eio/Work.antt =====
-- The operations as the values of `req->work`, and what each of them leaves of the blocks of its
-- request.
use ryze.Base.{ℕ, Bool, ◌≡◌, ◌≢◌, refl}
use ryze.Eio.Memory.{Syscall, System, State, Cmd, ◌>>◌, pure, free_request}
use ryze.Eio.Ops
use ryze.Eio.Ops.{
  free_ptr0, free_ptr1, free_both, free_and_move, on_failure, attempt, attempt_ret, call, note_err,
  set_ret, alloc_result,
}
use ryze.Eio.Owns.{Returns, Returns-bind, Owns, free_request-Owns}
use ryze.Eio.Keeps.{
  IsFresh, Clean, Keeps-pure, Keeps-then, Keeps-free_ptr0, Keeps-free_ptr1, Keeps-free_both,
  Keeps-free_and_move, Keeps-on_failure, Keeps-alloc_result, attempt-Owns, attempt_ret-Owns,
}

-- The functions whose requests hold blocks of `malloc` alone: all but `eio_opendir`, which leaves a
-- `DIR *`, and `eio_readv` and `eio_writev`, which hold an array of blocks.
pub data Work : Type 0 where
  eio_access eio_chmod eio_chown eio_close eio_fchmod eio_fchown eio_fdatasync : Work
  eio_fstat eio_fsync eio_ftruncate eio_futimes eio_lchown eio_lutimes eio_link : Work
  eio_lstat eio_mkdir eio_mkdtemp eio_open eio_read eio_readlink eio_realpath : Work
  eio_rename eio_rmdir eio_stat eio_symlink eio_truncate eio_unlink eio_utimes : Work
  eio_write : Work

-- req->work(req)
unfoldable pub work : {W : Type 0} → System W → Work → Cmd W (Unit {0})
unfolding Ops.eio_access Ops.eio_chmod Ops.eio_chown Ops.eio_close Ops.eio_fchmod Ops.eio_fchown
    Ops.eio_fdatasync Ops.eio_fstat Ops.eio_fsync Ops.eio_ftruncate Ops.eio_futimes Ops.eio_lchown
    Ops.eio_lutimes Ops.eio_link Ops.eio_lstat Ops.eio_mkdir Ops.eio_mkdtemp Ops.eio_open
    Ops.eio_read Ops.eio_readlink Ops.eio_realpath Ops.eio_rename Ops.eio_rmdir Ops.eio_stat
    Ops.eio_symlink Ops.eio_truncate Ops.eio_unlink Ops.eio_utimes Ops.eio_write
work sys eio_access = Ops.eio_access sys
work sys eio_chmod = Ops.eio_chmod sys
work sys eio_chown = Ops.eio_chown sys
work sys eio_close = Ops.eio_close sys
work sys eio_fchmod = Ops.eio_fchmod sys
work sys eio_fchown = Ops.eio_fchown sys
work sys eio_fdatasync = Ops.eio_fdatasync sys
work sys eio_fstat = Ops.eio_fstat sys
work sys eio_fsync = Ops.eio_fsync sys
work sys eio_ftruncate = Ops.eio_ftruncate sys
work sys eio_futimes = Ops.eio_futimes sys
work sys eio_lchown = Ops.eio_lchown sys
work sys eio_lutimes = Ops.eio_lutimes sys
work sys eio_link = Ops.eio_link sys
work sys eio_lstat = Ops.eio_lstat sys
work sys eio_mkdir = Ops.eio_mkdir sys
work sys eio_mkdtemp = Ops.eio_mkdtemp sys
work sys eio_open = Ops.eio_open sys
work sys eio_read = Ops.eio_read sys
work sys eio_readlink = Ops.eio_readlink sys
work sys eio_realpath = Ops.eio_realpath sys
work sys eio_rename = Ops.eio_rename sys
work sys eio_rmdir = Ops.eio_rmdir sys
work sys eio_stat = Ops.eio_stat sys
work sys eio_symlink = Ops.eio_symlink sys
work sys eio_truncate = Ops.eio_truncate sys
work sys eio_unlink = Ops.eio_unlink sys
work sys eio_utimes = Ops.eio_utimes sys
work sys eio_write = Ops.eio_write sys

module _ {W : Type 0} (frame : ℕ → Bool) (sys : System W) where
  pub work-Owns :
      (op : Work) (s : State W)
      → (op ≡ eio_realpath → s.req.ptr1 ≢ 0)
      → IsFresh sys s.live
      → Clean frame s
      → Returns (λ _ t. Owns frame t) (work sys op s)
  unfolding work
  work-Owns eio_access s buffer fresh c =
      attempt-Owns frame sys (Syscall.access s.req.ptr0 s.req.arg0) (λ _. free_ptr0)
        (λ _. Keeps-free_ptr0 frame) s fresh c
  work-Owns eio_chmod s buffer fresh c =
      attempt-Owns frame sys (Syscall.chmod s.req.ptr0 s.req.arg0) (λ _. free_ptr0)
        (λ _. Keeps-free_ptr0 frame) s fresh c
  work-Owns eio_chown s buffer fresh c =
      attempt-Owns frame sys (Syscall.chown s.req.ptr0 s.req.arg0 s.req.arg1) (λ _. free_ptr0)
        (λ _. Keeps-free_ptr0 frame) s fresh c
  work-Owns eio_close s buffer fresh c =
      attempt-Owns frame sys (Syscall.close s.req.arg0) (λ _. pure tt) (λ _. Keeps-pure frame) s
        fresh c
  work-Owns eio_fchmod s buffer fresh c =
      attempt-Owns frame sys (Syscall.fchmod s.req.arg0 s.req.arg1) (λ _. pure tt)
        (λ _. Keeps-pure frame) s fresh c
  work-Owns eio_fchown s buffer fresh c =
      attempt-Owns frame sys (Syscall.fchown s.req.arg0 s.req.arg1 s.req.arg2) (λ _. pure tt)
        (λ _. Keeps-pure frame) s fresh c
  work-Owns eio_fdatasync s buffer fresh c =
      attempt-Owns frame sys (Syscall.fdatasync s.req.arg0) (λ _. pure tt) (λ _. Keeps-pure frame) s
        fresh c
  work-Owns eio_fstat s buffer fresh c =
      attempt-Owns frame sys (Syscall.fstat s.req.arg0 s.req.ptr0) (λ r. on_failure r free_ptr0)
        (λ r. Keeps-on_failure frame r free_ptr0 (Keeps-free_ptr0 frame)) s fresh c
  work-Owns eio_fsync s buffer fresh c =
      attempt-Owns frame sys (Syscall.fsync s.req.arg0) (λ _. pure tt) (λ _. Keeps-pure frame) s
        fresh c
  work-Owns eio_ftruncate s buffer fresh c =
      attempt-Owns frame sys (Syscall.ftruncate s.req.arg0 s.req.arg1) (λ _. pure tt)
        (λ _. Keeps-pure frame) s fresh c
  work-Owns eio_futimes s buffer fresh c =
      attempt-Owns frame sys (Syscall.futimes s.req.arg0 s.req.ptr0) (λ _. free_ptr0)
        (λ _. Keeps-free_ptr0 frame) s fresh c
  work-Owns eio_lchown s buffer fresh c =
      attempt-Owns frame sys (Syscall.lchown s.req.ptr0 s.req.arg0 s.req.arg1) (λ _. free_ptr0)
        (λ _. Keeps-free_ptr0 frame) s fresh c
  work-Owns eio_lutimes s buffer fresh c =
      attempt-Owns frame sys (Syscall.lutimes s.req.ptr0 s.req.ptr1) (λ _. free_both)
        (λ _. Keeps-free_both frame) s fresh c
  work-Owns eio_link s buffer fresh c =
      attempt-Owns frame sys (Syscall.link s.req.ptr0 s.req.ptr1) (λ _. free_both)
        (λ _. Keeps-free_both frame) s fresh c
  work-Owns eio_lstat s buffer fresh c =
      attempt-Owns frame sys (Syscall.lstat s.req.ptr0 s.req.ptr1)
        (λ r. on_failure r free_ptr1 >> free_and_move)
        (λ r.
          Keeps-then frame (on_failure r free_ptr1) (free_and_move)
            (Keeps-on_failure frame r free_ptr1 (Keeps-free_ptr1 frame))
            (Keeps-free_and_move frame))
        s fresh c
  work-Owns eio_mkdir s buffer fresh c =
      attempt-Owns frame sys (Syscall.mkdir s.req.ptr0 s.req.arg0) (λ _. free_ptr0)
        (λ _. Keeps-free_ptr0 frame) s fresh c
  work-Owns eio_mkdtemp s buffer fresh c =
      attempt-Owns frame sys (Syscall.mkdtemp s.req.ptr0) (λ r. on_failure r free_ptr0)
        (λ r. Keeps-on_failure frame r free_ptr0 (Keeps-free_ptr0 frame)) s fresh c
  work-Owns eio_open s buffer fresh c =
      attempt_ret-Owns frame sys (Syscall.open_file s.req.ptr0 s.req.arg0 s.req.arg0)
        (λ _. free_ptr0) (λ _. Keeps-free_ptr0 frame) s fresh c
  work-Owns eio_read s buffer fresh c =
      attempt_ret-Owns frame sys (Syscall.read s.req.arg0 s.req.ptr0 s.req.arg1)
        (λ r. on_failure r free_ptr0)
        (λ r. Keeps-on_failure frame r free_ptr0 (Keeps-free_ptr0 frame)) s fresh c
  work-Owns eio_readlink s buffer fresh c =
      attempt_ret-Owns frame sys (Syscall.readlink s.req.ptr0 s.req.ptr1 s.req.arg0)
        (λ r. on_failure r free_ptr1 >> free_ptr0)
        (λ r.
          Keeps-then frame (on_failure r free_ptr1) (free_ptr0)
            (Keeps-on_failure frame r free_ptr1 (Keeps-free_ptr1 frame)) (Keeps-free_ptr0 frame))
        s fresh c
  work-Owns eio_realpath s buffer fresh c =
      attempt-Owns frame sys (Syscall.realpath s.req.ptr0 s.req.ptr1)
        (λ r. alloc_result sys r s.req.ptr1 >> (on_failure r free_ptr1 >> free_ptr0))
        (λ r.
          Keeps-then frame (alloc_result sys r s.req.ptr1) (on_failure r free_ptr1 >> free_ptr0)
            (Keeps-alloc_result frame sys r s.req.ptr1 (buffer refl))
            (Keeps-then frame (on_failure r free_ptr1) free_ptr0
              (Keeps-on_failure frame r free_ptr1 (Keeps-free_ptr1 frame)) (Keeps-free_ptr0 frame)))
        s fresh c
  work-Owns eio_rename s buffer fresh c =
      attempt-Owns frame sys (Syscall.rename s.req.ptr0 s.req.ptr1) (λ _. free_both)
        (λ _. Keeps-free_both frame) s fresh c
  work-Owns eio_rmdir s buffer fresh c =
      attempt-Owns frame sys (Syscall.rmdir s.req.ptr0) (λ _. free_ptr0)
        (λ _. Keeps-free_ptr0 frame) s fresh c
  work-Owns eio_stat s buffer fresh c =
      attempt-Owns frame sys (Syscall.stat s.req.ptr0 s.req.ptr1)
        (λ r. on_failure r free_ptr1 >> free_ptr0)
        (λ r.
          Keeps-then frame (on_failure r free_ptr1) (free_ptr0)
            (Keeps-on_failure frame r free_ptr1 (Keeps-free_ptr1 frame)) (Keeps-free_ptr0 frame))
        s fresh c
  work-Owns eio_symlink s buffer fresh c =
      attempt-Owns frame sys (Syscall.symlink s.req.ptr0 s.req.ptr1) (λ _. free_both)
        (λ _. Keeps-free_both frame) s fresh c
  work-Owns eio_truncate s buffer fresh c =
      attempt-Owns frame sys (Syscall.truncate s.req.ptr0 s.req.arg0) (λ _. free_ptr0)
        (λ _. Keeps-free_ptr0 frame) s fresh c
  work-Owns eio_unlink s buffer fresh c =
      attempt-Owns frame sys (Syscall.unlink s.req.ptr0) (λ _. free_ptr0)
        (λ _. Keeps-free_ptr0 frame) s fresh c
  work-Owns eio_utimes s buffer fresh c =
      attempt-Owns frame sys (Syscall.utimes s.req.ptr0 s.req.ptr1) (λ _. free_both)
        (λ _. Keeps-free_both frame) s fresh c
  work-Owns eio_write s buffer fresh c =
      attempt_ret-Owns frame sys (Syscall.write s.req.arg0 s.req.ptr0 s.req.arg1)
        (λ r. on_failure r free_ptr0)
        (λ r. Keeps-on_failure frame r free_ptr0 (Keeps-free_ptr0 frame)) s fresh c

-- A request that owns its blocks and has no error text, and has a block for the result if it is one
-- of `eio_realpath`, is run and freed, for each operation but `eio_opendir`, `eio_readv` and
-- `eio_writev`: the operation ends without a fault whatever the system answers, no block is freed
-- twice, and what is live in the end are the blocks of others, neither more nor fewer.
pub work-free_request :
    {W : Type 0} (frame : ℕ → Bool) (sys : System W) (op : Work) (s : State W)
    → (op ≡ eio_realpath → s.req.ptr1 ≢ 0)
    → IsFresh sys s.live
    → Clean frame s
    → Returns (λ _ t. (p : ℕ) → t.live p ≡ frame p) ((work sys op >> free_request) s)
work-free_request frame sys op s buffer fresh c =
    Returns-bind _ _ (work sys op s) (λ _. free_request) (work-Owns frame sys op s buffer fresh c)
      (λ _ t o. free_request-Owns frame t o)
