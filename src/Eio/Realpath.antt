-- ===== src/Eio/Realpath.antt =====
-- `eio_realpath` of xxx/eio/eio.c on a request with no block for the result.
use ryze.Base.{ℕ, Bool, true, false, ◌==◌, ◌||◌, ◌≡◌, arith}
use ryze.Eio.Memory.{success, Syscall, System, State, ◌>>◌, update, free_request}
use ryze.Eio.Ops.{eio_realpath, free_ptr0}
use ryze.Eio.Owns.{Returns, Returns-bind, Owns, free_ptr0-Owns, free_request-Owns}
use ryze.Eio.Keeps.{IsFresh}

-- If `realpath` succeeds where `ptr[1]` is NULL, the block that it has taken is live behind
-- EIO_REQ_FREE, besides those of others.
pub eio_realpath-leak :
    {W : Type 0} (frame : ℕ → Bool) (sys : System W) (s : State W) (n : ℕ) (w : W)
    → IsFresh sys s.live
    → Owns frame s
    → s.req.ptr1 ≡ 0
    → sys.call (Syscall.realpath s.req.ptr0 s.req.ptr1) s.world ≡ (success n, w)
    → (frame (sys.malloc w s.live) ≡ false)
      × Returns
          (λ _ t. (p : ℕ) → t.live p ≡ (p == sys.malloc w s.live || frame p))
          ((eio_realpath sys >> free_request) s)
unfolding eio_realpath
eio_realpath-leak frame sys s n w fresh o null called =
    let b : ℕ = sys.malloc w s.live in
    let unused = fresh.unused w in
    let other : frame b ≡ false = ground (arith, o.live b, unused) in
    let t : State _ = record s { world = w; live = update s.live b true } in
    let owns : Owns (λ p. p == b || frame p) t = record {
      live = λ p. ground (arith, o.live p);
      others = λ p h. ground (arith, o.others p h, o.live b, unused);
      d01 = o.d01;
      d02 = o.d02;
      d0e = o.d0e;
      d12 = o.d12;
      d1e = o.d1e;
      d2e = o.d2e;
    } in
    let rest =
      Returns-bind _ _ (free_ptr0 t) (λ _. free_request)
        (free_ptr0-Owns (λ p. p == b || frame p) t owns)
        (λ _ u h. free_request-Owns (λ p. p == b || frame p) u h.0) in
    let nul : (s.req.ptr1 == 0) ≡ true = ground (arith, null) in (other, rw (called, nul) rest)
