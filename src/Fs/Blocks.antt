-- ===== src/Fs/Blocks.antt =====
-- What the system may do to the requests of xxx/fs, and what a request leaves when it is served.
use ryze.Base.{
  ℕ, ◌==◌, arith, Bool-cases, inl, inr, Bool, true, false, ◌≡◌, ◌≢◌, [], ◌∷◌, ◌++◌, Run, ok, fault,
  out_of_fuel,
}
use ryze.Eio.Memory.{Reply, success, failure, Syscall, System, State, update, free, free_request}
use ryze.Eio.Keeps.{IsFresh}
use ryze.Fs.{Machine, Host, Answer, rejected, settle_promise, error_of}

-- `errno` is not 0 after a call that failed.
abbrev pub IsErrno : Reply → Type 0
IsErrno (success n) = Unit {0}
IsErrno (failure e) = e ≢ 0

-- `malloc` gives blocks that are not in use, for the pointer and for the text of an error, each call
-- that fails has an errno, and the next resolver is not in use.
pub record IsReady {V : Type 0} (sys : System (Machine V)) (h : Host V) : Type 0 where
  pub first : IsFresh sys h.memory.live
  pub second : (p : ℕ) → IsFresh sys (update h.memory.live p true)
  pub errors : (c : Syscall) (m : Machine V) → IsErrno (sys.call c m).0
  pub unused : h.resolvers h.next ≡ false

-- The promise of the call, and no other, is settled, by `answer`; its resolver is deleted; and the
-- blocks that are live are those from before the call.
pub record Settles {V : Type 0} (h g : Host V) (answer : Answer) : Type 0 where
  pub settled : g.settled ≡ (h.settled ++ ((h.next, answer) ∷ []))
  pub resolvers : (r : ℕ) → g.resolvers r ≡ h.resolvers r
  pub live : (p : ℕ) → g.memory.live p ≡ h.memory.live p

abbrev pub Serves : {V : Type 0} → Host V → Answer → Run (Host V) → Type 0
Serves h answer (ok g) = Settles h g answer
Serves h answer fault = ⊥
Serves h answer out_of_fuel = ⊥

pub ne-eq : (p : ℕ) → p ≢ 0 → (p == 0) ≡ false
ne-eq p ne = ground (arith, ne)

module _ {V : Type 0} (result : State (Machine V) → Run Answer) (r : ℕ) (h : Host V)
    (allocated : h.resolvers r ≡ true) where
  pub settle_promise-result :
      (answer : Answer)
      → (h.memory.req.errnum == 0) ≡ true
      → result h.memory ≡ ok answer
      → settle_promise result r h
        ≡ ok (record h {
          resolvers = update h.resolvers r false;
          settled = h.settled ++ ((r, answer) ∷ []);
        })
  unfolding settle_promise
  settle_promise-result answer none_yet e = rw (allocated, none_yet, e)

  pub settle_promise-error :
      h.memory.req.errnum ≢ 0
      → h.memory.live h.memory.req.errbuf ≡ true
      → settle_promise result r h
        ≡ ok (record h {
          resolvers = update h.resolvers r false;
          settled = h.settled ++ ((r, rejected h.memory.req.errnum) ∷ []);
        })
  unfolding settle_promise error_of
  settle_promise-error some_error live = rw (allocated, ne-eq h.memory.req.errnum some_error, live)

-- A request that has no block is freed.
pub free_request-nothing :
    {W : Type 0} (s : State W)
    → s.req.ptr0 ≡ 0
    → s.req.ptr1 ≡ 0
    → s.req.ptr2 ≡ 0
    → s.req.errbuf ≡ 0
    → free_request s ≡ ok (tt, s)
unfolding free_request free
free_request-nothing s e0 e1 e2 e3 = rw (e0, e1, e2, e3)

-- One that has a block for the text of an error alone.
pub free_request-error :
    {W : Type 0} (s : State W)
    → s.req.ptr0 ≡ 0
    → s.req.ptr1 ≡ 0
    → s.req.ptr2 ≡ 0
    → s.req.errbuf ≢ 0
    → s.live s.req.errbuf ≡ true
    → free_request s ≡ ok (tt, record s { live = update s.live s.req.errbuf false })
unfolding free_request free
free_request-error s e0 e1 e2 ne live = rw (e0, e1, e2, ne-eq s.req.errbuf ne, live)

-- One that has a block at `ptr[0]` alone.
pub free_request-ptr0 :
    {W : Type 0} (s : State W)
    → s.req.ptr0 ≢ 0
    → s.live s.req.ptr0 ≡ true
    → s.req.ptr1 ≡ 0
    → s.req.ptr2 ≡ 0
    → s.req.errbuf ≡ 0
    → free_request s ≡ ok (tt, record s { live = update s.live s.req.ptr0 false })
unfolding free_request free
free_request-ptr0 s ne live e1 e2 e3 = rw (e1, e2, e3, ne-eq s.req.ptr0 ne, live)

pub update_at : (live : ℕ → Bool) (p : ℕ) → update live p true p ≡ true
update_at live p = ground arith

-- A block that is taken and given back leaves what was live.
pub update_back :
    (live : ℕ → Bool) (p q : ℕ) → live p ≡ false → update (update live p true) p false q ≡ live q
update_back live p q free_before = elim (Bool-cases (q == p)) [
  | inl same ↦ let e : q ≡ p = ground arith in ground (arith, e, free_before)
  | inr other ↦ rw other
]
