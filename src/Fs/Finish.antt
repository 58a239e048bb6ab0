-- ===== src/Fs/Finish.antt =====
-- The end of a request of xxx/fs: its callback and EIO_REQ_FREE, behind a work that succeeds or fails.
use ryze.Base.{none, suc, refl, ◌∙◌, ◌>>=◌, ℕ, ◌==◌, arith, Bool, true, false, ◌≡◌, ◌≢◌, Run, ok}
use ryze.Eio.Memory.{Request, System, State, update, free_request}
use ryze.Eio.Ops.{free_ptr0}
use ryze.Eio.Owns.{free-live}
use ryze.Fs.{Machine, Host, Answer, rejected, settle_promise, with_memory}
use ryze.Fs.Blocks.{
  IsReady, Serves, ne-eq, settle_promise-result, settle_promise-error, free_request-nothing,
  free_request-error, free_request-ptr0, update_at, update_back,
}

-- A callback that settles with `result`, and EIO_REQ_FREE behind it.
abbrev pub finish : {V : Type 0} → (State (Machine V) → Run Answer) → ℕ → Host V → Run (Host V)
finish result r g = settle_promise result r g >>= λ h2. with_memory h2 (free_request h2.memory)

-- The host behind the work of the request that `h` was called for: with the resolver of the call.
abbrev pub called : {V : Type 0} → Host V → State (Machine V) → Host V
called h s = record h { memory = s; resolvers = update h.resolvers h.next true; next = suc h.next }

module _ {V : Type 0} (result : State (Machine V) → Run Answer) (h : Host V) (s : State (Machine V))
    (unused : h.resolvers h.next ≡ false) (ptr1 : s.req.ptr1 ≡ 0) (ptr2 : s.req.ptr2 ≡ 0) where
  deleted : (r : ℕ) → update (update h.resolvers h.next true) h.next false r ≡ h.resolvers r
  deleted r = update_back h.resolvers h.next r unused

  released :
      (b : ℕ)
      → ((p : ℕ) → s.live p ≡ update h.memory.live b true p)
      → h.memory.live b ≡ false
      → (p : ℕ) → update s.live b false p ≡ h.memory.live p
  released b same free_before p = ground (arith, same p, free_before)

  -- The work failed, and the text of the error is the one block that is left.
  pub finish-error :
      s.req.errnum ≢ 0
      → s.req.ptr0 ≡ 0
      → s.req.errbuf ≢ 0
      → ((p : ℕ) → s.live p ≡ update h.memory.live s.req.errbuf true p)
      → h.memory.live s.req.errbuf ≡ false
      → Serves h (rejected s.req.errnum) (finish result h.next (called h s))
  finish-error some_error e0 ne same free_before =
      let b : ℕ = s.req.errbuf in
      let live : s.live b ≡ true = same b ∙ update_at h.memory.live b in
      rw
        (
          settle_promise-error result h.next (called h s) (update_at h.resolvers h.next) some_error
              live,
          free_request-error s e0 ptr1 ptr2 ne live,
        )
        record { settled = refl; resolvers = deleted; live = released b same free_before }

  -- It succeeded, and left no block.
  pub finish-nothing :
      (answer : Answer)
      → (s.req.errnum == 0) ≡ true
      → result s ≡ ok answer
      → s.req.ptr0 ≡ 0
      → s.req.errbuf ≡ 0
      → ((p : ℕ) → s.live p ≡ h.memory.live p)
      → Serves h answer (finish result h.next (called h s))
  finish-nothing answer none_yet e e0 e3 same =
      rw
        (
          settle_promise-result result h.next (called h s) (update_at h.resolvers h.next) answer
              none_yet e,
          free_request-nothing s e0 ptr1 ptr2 e3,
        )
        record { settled = refl; resolvers = deleted; live = same }

  -- It succeeded, and left the block at `ptr[0]`.
  pub finish-ptr0 :
      (answer : Answer)
      → (s.req.errnum == 0) ≡ true
      → result s ≡ ok answer
      → s.req.ptr0 ≢ 0
      → s.req.errbuf ≡ 0
      → ((p : ℕ) → s.live p ≡ update h.memory.live s.req.ptr0 true p)
      → h.memory.live s.req.ptr0 ≡ false
      → Serves h answer (finish result h.next (called h s))
  finish-ptr0 answer none_yet e ne e3 same free_before =
      rw
        (
          settle_promise-result result h.next (called h s) (update_at h.resolvers h.next) answer
              none_yet e,
          free_request-ptr0 s ne (same s.req.ptr0 ∙ update_at h.memory.live s.req.ptr0) ptr1 ptr2
              e3,
        )
        record { settled = refl; resolvers = deleted; live = released s.req.ptr0 same free_before }

-- A block taken, another taken, and the first given back.
pub update_other :
    (live : ℕ → Bool) (a b p : ℕ)
    → live a ≡ false
    → update live a true b ≡ false
    → update (update (update live a true) b true) a false p ≡ update live b true p
update_other live a b p ha hb = ground (arith, ha, hb)

pub update_first : (live : ℕ → Bool) (a b : ℕ) → update (update live a true) b true a ≡ true
update_first live a b = ground arith

pub unused_before : (live : ℕ → Bool) (a b : ℕ) → update live a true b ≡ false → live b ≡ false
unused_before live a b hb = ground (arith, hb)

module _ {V : Type 0} (sys : System (Machine V)) (h : Host V) (ready : IsReady sys h) where
  -- The block of a request, from the first `malloc`, and that of the text of an error.
  abbrev pub block : ℕ
  block = sys.malloc h.memory.world h.memory.live

  abbrev pub error_block : Machine V → ℕ
  error_block m = sys.malloc m (update h.memory.live block true)

  pub block-ne : (block == 0) ≡ false
  block-ne = ne-eq block (ready.first.ne_null h.memory.world)

  -- The state behind EIO_REQ_SETERR, for a request with a block.
  abbrev pub failed : Request → ℕ → Machine V → State (Machine V)
  failed q e m = record (h.memory) {
    world = m;
    live = update (update h.memory.live block true) (error_block m) true;
    req = record q { ret = none; ptr0 = block; errnum = e; errbuf = error_block m };
  }

  -- A request whose work fails and frees its block.
  pub fail-Serves :
      (result : State (Machine V) → Run Answer) (q : Request) (e : ℕ) (m : Machine V)
      (t : State (Machine V))
      → e ≢ 0
      → q.ptr1 ≡ 0
      → q.ptr2 ≡ 0
      → Serves h
          (rejected e)
          (with_memory (called h t) (free_ptr0 (failed q e m)) >>= finish result h.next)
  unfolding free_ptr0
  fail-Serves result q e m t ne e1 e2 =
      rw
        (free-live block (failed q e m) block-ne (update_first h.memory.live block (error_block m)))
        (finish-error result h
          (record (failed q e m) {
            live = update (failed q e m).live block false;
            req = record ((failed q e m).req) { ptr0 = 0 };
          })
          ready.unused e1 e2 ne refl ((ready.second block).ne_null m)
          (λ p.
            update_other h.memory.live block (error_block m) p (ready.first.unused h.memory.world)
              ((ready.second block).unused m))
          (unused_before h.memory.live block (error_block m) ((ready.second block).unused m)))
