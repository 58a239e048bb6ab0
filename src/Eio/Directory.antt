-- ===== src/Eio/Directory.antt =====
-- `eio_opendir` of xxx/eio/eio.c followed by EIO_REQ_FREE of xxx/eio/eio.h.
use ryze.Base.{ℕ, Bool, false, ◌==◌, ◌≡◌, ◌≢◌, fault, Bool-cases, inl, inr, arith}
use ryze.Eio.Memory.{success, Syscall, System, State, ◌>>◌, free_request}
use ryze.Eio.Ops.{eio_opendir}
use ryze.Eio.Owns.{Owns}

-- If `opendir` succeeds, EIO_REQ_FREE hands the `DIR *` to `free`, though no `malloc` of the program
-- gave it: undefined, unless the callback has taken the pointer out of the request.
pub opendir-free_request :
    {W : Type 0} (frame : ℕ → Bool) (sys : System W) (s : State W) (dir : ℕ) (w : W)
    → Owns frame s
    → sys.call (Syscall.opendir s.req.ptr0) s.world ≡ (success dir, w)
    → dir ≢ 0
    → s.live dir ≡ false
    → (eio_opendir sys >> free_request) s ≡ fault
unfolding eio_opendir free_request
opendir-free_request frame sys s dir w o called ne unused =
    rw called (elim (Bool-cases (s.req.ptr0 == 0)) [
      | inl null ↦ rw null (ground arith)
      | inr block ↦ rw block (ground (arith, o.live s.req.ptr0))
    ])
