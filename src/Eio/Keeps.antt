-- ===== src/Eio/Keeps.antt =====
-- The parts of the operations keep the blocks of a request together: nothing is freed twice, and
-- nothing is lost.
use ryze.Base.{◌==◌, ℕ, Bool, false, ◌≡◌, ◌≢◌, refl, Option, Run, ok, fault, out_of_fuel, arith}
use ryze.Eio.Memory.{
  Reply, success, failure, Syscall, System, State, Cmd, and_then, ◌>>=◌, ◌>>◌, pure, set_err,
}
use ryze.Eio.Ops.{
  free_ptr0, free_ptr1, free_both, free_and_move, on_failure, ret_of, set_ret, call, note_err,
  attempt, attempt_ret, alloc_result,
}
use ryze.Eio.Owns.{Returns, Returns-bind, Returns-mono, Owns, free_ptr0-Owns, free_ptr1-Owns}

-- What `malloc` gives is not NULL and not in use, while the blocks of `live` are.
pub record IsFresh {W : Type 0} (sys : System W) (live : ℕ → Bool) : Type 0 where
  pub ne_null : (w : W) → sys.malloc w live ≢ 0
  pub unused : (w : W) → live (sys.malloc w live) ≡ false

module _ {W : Type 0} (frame : ℕ → Bool) where
  -- A step that keeps the request's blocks together.
  abbrev pub Keeps : {A : Type 0} → Cmd W A → Type 0
  Keeps c = (s : State W) → Owns frame s → Returns (λ _ t. Owns frame t) (c s)

  pub Keeps-then : (c d : Cmd W (Unit {0})) → Keeps c → Keeps d → Keeps (c >> d)
  Keeps-then c d kc kd s o = Returns-bind _ _ (c s) (λ _. d) (kc s o) (λ _ t o'. kd t o')

  pub Keeps-pure : Keeps (pure tt)
  Keeps-pure s o = o

  pub Keeps-free_ptr0 : Keeps free_ptr0
  Keeps-free_ptr0 s o = Returns-mono _ _ (free_ptr0 s) (free_ptr0-Owns frame s o) (λ _ t h. h.0)

  pub Keeps-free_ptr1 : Keeps free_ptr1
  Keeps-free_ptr1 s o = Returns-mono _ _ (free_ptr1 s) (free_ptr1-Owns frame s o) (λ _ t h. h.0)

  free_both-eq : (s : State W) → free_both s ≡ (free_ptr0 >> free_ptr1) s
  unfolding free_both free_ptr0 free_ptr1
  free_both-eq s = ground arith

  pub Keeps-free_both : Keeps free_both
  Keeps-free_both s o =
      rw free_both-eq (Keeps-then free_ptr0 free_ptr1 Keeps-free_ptr0 Keeps-free_ptr1 s o)

  move : Cmd W (Unit {0})
  move s = ok (tt, record s { req = record (s.req) { ptr0 = s.req.ptr1; ptr1 = 0 } })

  free_and_move-eq : (s : State W) → free_and_move s ≡ (free_ptr0 >> move) s
  unfolding free_and_move free_ptr0 move
  free_and_move-eq s = ground arith

  move-Owns : (s : State W) → Owns frame s → s.req.ptr0 ≡ 0 → Returns (λ _ t. Owns frame t) (move s)
  unfolding move
  move-Owns s o null = record {
    live = λ p. ground (arith, o.live p);
    others = λ p h. ground (arith, o.others p);
    d01 = ground arith;
    d02 = o.d12;
    d0e = o.d1e;
    d12 = refl;
    d1e = refl;
    d2e = o.d2e;
  }

  pub Keeps-free_and_move : Keeps free_and_move
  Keeps-free_and_move s o = rw free_and_move-eq (
      Returns-bind _ _ (free_ptr0 s) (λ _. move) (free_ptr0-Owns frame s o)
        (λ _ t h. move-Owns t h.0 (ground (arith, h.1))))

  pub Keeps-on_failure : (r : Reply) (c : Cmd W (Unit {0})) → Keeps c → Keeps (on_failure r c)
  Keeps-on_failure (success n) c k s o = o
  Keeps-on_failure (failure e) c k s o = k s o

  -- Before its first call an operation has no error text.
  pub record Clean (s : State W) : Type 0 where
    pub owns : Owns frame s
    pub no_error : s.req.errbuf ≡ 0

  module _ (sys : System W) where
    -- A call that is given a block for its result takes none.
    pub Keeps-alloc_result : (r : Reply) (p : ℕ) → p ≢ 0 → Keeps (alloc_result sys r p)
    unfolding alloc_result
    Keeps-alloc_result (success n) p ne s o =
        let given : (p == 0) ≡ false = ground (arith, ne) in rw given o
    Keeps-alloc_result (failure e) p ne s o = o

    set_err-Owns :
        (e : ℕ) (s : State W)
        → IsFresh sys s.live
        → Clean s
        → Returns (λ _ t. Owns frame t) (set_err sys e s)
    unfolding set_err
    set_err-Owns e s fresh c =
        let o = c.owns in
        let p0 = sys.malloc s.world s.live in
        let unused = fresh.unused s.world in
        let ne = fresh.ne_null s.world in
        record {
          live = λ p. ground (arith, o.live p, c.no_error);
          others = λ p h. ground (arith, o.others p, o.live p, c.no_error);
          d01 = o.d01;
          d02 = o.d02;
          d0e = ground (arith, o.live p0, c.no_error);
          d12 = o.d12;
          d1e = ground (arith, o.live p0, c.no_error);
          d2e = ground (arith, o.live p0, c.no_error);
        }

    note_err-Owns :
        (r : Reply) (s : State W)
        → IsFresh sys s.live
        → Clean s
        → Returns (λ _ t. Owns frame t) (note_err sys r s)
    unfolding note_err
    note_err-Owns (success n) s fresh c = c.owns
    note_err-Owns (failure e) s fresh c = set_err-Owns e s fresh c

    Clean-world :
        (s : State W) (w : W) (v : Option ℕ)
        → Clean s
        → Clean (record s { world = w; req = record (s.req) { ret = v } })
    Clean-world s w v c = record {
      owns = record {
        live = c.owns.live;
        others = c.owns.others;
        d01 = c.owns.d01;
        d02 = c.owns.d02;
        d0e = c.owns.d0e;
        d12 = c.owns.d12;
        d1e = c.owns.d1e;
        d2e = c.owns.d2e;
      };
      no_error = c.no_error;
    }

    -- What follows the call: the error is noted, and the rest is run on the result.
    continue-Owns :
        (r : Reply) (k : Reply → Cmd W (Unit {0})) (s : State W)
        → Keeps (k r)
        → IsFresh sys s.live
        → Clean s
        → Returns (λ _ t. Owns frame t) (and_then (and_then (note_err sys r s) (λ _. pure r)) k)
    continue-Owns r k s keep fresh clean = noted (note_err sys r s) (note_err-Owns r s fresh clean)
      where
        noted :
            (run : Run (Unit {0} × State W))
            → Returns (λ _ t. Owns frame t) run
            → Returns (λ _ t. Owns frame t) (and_then (and_then run (λ _. pure r)) k)
        noted (ok (a, t)) o = keep t o
        noted fault o = absurd o
        noted out_of_fuel o = absurd o

    -- An operation that begins with its call keeps the blocks together if the rest does.
    pub attempt-Owns :
        (c : Syscall) (k : Reply → Cmd W (Unit {0}))
        → ((r : Reply) → Keeps (k r))
        → (s : State W) → IsFresh sys s.live
        → Clean s
        → Returns (λ _ t. Owns frame t) ((attempt sys c >>= k) s)
    unfolding attempt call
    attempt-Owns c k keep s fresh clean =
        let u = sys.call c s.world in
        let s' : State W = record s { world = u.1 } in
        continue-Owns u.0 k s' (keep u.0) fresh (Clean-world s u.1 s.req.ret clean)

    pub attempt_ret-Owns :
        (c : Syscall) (k : Reply → Cmd W (Unit {0}))
        → ((r : Reply) → Keeps (k r))
        → (s : State W) → IsFresh sys s.live
        → Clean s
        → Returns (λ _ t. Owns frame t) ((attempt_ret sys c >>= k) s)
    unfolding attempt_ret call set_ret
    attempt_ret-Owns c k keep s fresh clean =
        let u = sys.call c s.world in
        let s' : State W = record s { world = u.1; req = record (s.req) { ret = ret_of u.0 } } in
        continue-Owns u.0 k s' (keep u.0) fresh (Clean-world s u.1 (ret_of u.0) clean)
