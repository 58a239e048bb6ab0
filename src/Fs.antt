-- ===== src/Fs.antt =====
-- xxx/fs/fs.cc: the functions `open`, `read` and `close` of the runtime, which make a request of
-- xxx/eio and a promise, and the callbacks that settle the promise. The arguments are those that V8
-- gives, a text and integers that are not negative; objects of V8 are taken to be made.
pub mod Blocks
pub mod Finish
pub mod Open
pub mod Read
use ryze.Base.{
  ℕ, suc, ◌+◌, Bool, true, false, ◌==◌, if◌then◌else◌, Option, none, some, List, [], ◌∷◌, ◌++◌, map,
  replicate, Run, ok, fault, out_of_fuel, ◌>>=◌,
}
use ryze.Http.Chars.{Bytes}
use ryze.Eio.Memory.{Request, System, State, update, free_request}
use ryze.Eio.Work.{Work, work, eio_open, eio_read, eio_close}

-- What the blocks hold, `none` for a byte that is not set, and the rest of the system.
pub record Machine (V : Type 0) : Type 0 where
  pub contents : ℕ → List (Option ℕ)
  pub world : V

-- How a promise is settled: with the number of an error, with an integer, `none` for -1, or with a
-- text.
pub data Answer : Type 0 where
  rejected : (errno : ℕ) → Answer
  resolved_int : (value : Option ℕ) → Answer
  resolved_text : (text : Bytes) → Answer

-- The memory, with the request that is looked at; the `Global<Promise::Resolver>` that are allocated,
-- and the next one; and the promises that were settled, in order.
pub record Host (V : Type 0) : Type 0 where
  pub memory : State (Machine V)
  pub resolvers : ℕ → Bool
  pub next : ℕ
  pub settled : List (ℕ × Answer)

pub data Callback : Type 0 where
  callback1 callback2 callback3 : Callback

-- The fields of a request that the operations leave alone.
pub record Call : Type 0 where
  pub work : Work
  pub callback : Callback
  pub resolver : ℕ

-- The text at a pointer to char, whose bytes are read up to the NUL.
unfoldable pub c_string : List (Option ℕ) → Run Bytes
c_string [] = fault
c_string (none ∷ bytes) = fault
c_string (some c ∷ bytes) =
    let rest = c_string bytes in if c == 0 then ok [] else (do text ← rest; ok (c ∷ text))

-- EIO_REQ_ALLOC, which sets neither `args` nor `ret`.
unfoldable pub alloc_request : Request → Request
alloc_request q = record q { ptr0 = 0; ptr1 = 0; ptr2 = 0; errnum = 0; errbuf = 0 }

-- req->args[0].flag and what `args[1]` and `args[2]` of the call make of it: O_RDONLY without them.
unfoldable pub flag_of : List ℕ → ℕ
flag_of [] = 0
flag_of (flag ∷ rest) = flag

-- req->args[1].mode: 0664 without the third argument.
unfoldable pub mode_of : List ℕ → ℕ
mode_of [] = 436
mode_of (flag ∷ []) = 436
mode_of (flag ∷ mode ∷ rest) = mode

module _ {V : Type 0} where
  abbrev pub set_contents : ℕ → List (Option ℕ) → Machine V → Machine V
  set_contents p bytes m = record m { contents = λ q. if q == p then bytes else m.contents q }

  -- malloc of a block of these bytes, for `req->ptr[0]`.
  unfoldable pub alloc_ptr0 :
      System (Machine V) → List (Option ℕ) → State (Machine V) → State (Machine V)
  alloc_ptr0 sys bytes s =
      let p = sys.malloc s.world s.live in
      record s {
        live = update s.live p true;
        world = set_contents p bytes s.world;
        req = record (s.req) { ptr0 = p };
      }

  -- new Global<Promise::Resolver>, and `resolver`, `work` and `callback` of the request.
  unfoldable pub with_promise : Work → Callback → State (Machine V) → Host V → Call × Host V
  with_promise w c s h = (
    record { work = w; callback = c; resolver = h.next },
    record h { memory = s; resolvers = update h.resolvers h.next true; next = suc h.next },
  )

  unfoldable pub fs_open : System (Machine V) → Bytes → List ℕ → Host V → Call × Host V
  unfolding alloc_request alloc_ptr0 with_promise flag_of mode_of
  fs_open sys path args h =
      let s = record (h.memory) { req = alloc_request h.memory.req } in
      let t = alloc_ptr0 sys (map some path ++ (some 0 ∷ [])) s in
      with_promise eio_open callback2
        (record t { req = record (t.req) { arg0 = flag_of args; arg1 = mode_of args } }) h

  unfoldable pub fs_read : System (Machine V) → ℕ → Host V → Call × Host V
  unfolding alloc_request alloc_ptr0 with_promise
  fs_read sys fd h =
      let q = alloc_request h.memory.req in
      let s = record (h.memory) { req = record q { arg0 = fd; arg1 = 255 } } in
      with_promise eio_read callback3 (alloc_ptr0 sys (replicate 255 none) s) h

  unfoldable pub fs_close : ℕ → Host V → Call × Host V
  unfolding alloc_request with_promise
  fs_close fd h =
      let q = alloc_request h.memory.req in
      with_promise eio_close callback1 (record (h.memory) { req = record q { arg0 = fd } }) h

  -- The object with `errno` and `error`, whose text is read.
  unfoldable pub error_of : State (Machine V) → Run Answer
  error_of s = if s.live s.req.errbuf then ok (rejected s.req.errnum) else fault

  -- V8_STR of a pointer.
  unfoldable pub text_at : ℕ → State (Machine V) → Run Answer
  unfolding c_string
  text_at p s =
      if s.live p then (do text ← c_string (s.world.contents p); ok (resolved_text text)) else fault

  -- The common part of the callbacks, which read the resolver, settle it and delete it.
  unfoldable pub settle_promise : (State (Machine V) → Run Answer) → ℕ → Host V → Run (Host V)
  unfolding error_of
  settle_promise result r h =
      if h.resolvers r
      then (do
        answer ← (if h.memory.req.errnum == 0 then result h.memory else error_of h.memory)
        ok (record h {
          resolvers = update h.resolvers r false;
          settled = h.settled ++ ((r, answer) ∷ []);
        }))
      else fault

  unfoldable pub eio_req_fs_callback1 : ℕ → Host V → Run (Host V)
  unfolding settle_promise
  eio_req_fs_callback1 = settle_promise (λ s. ok (resolved_int (some s.req.errnum)))

  unfoldable pub eio_req_fs_callback2 : ℕ → Host V → Run (Host V)
  unfolding settle_promise
  eio_req_fs_callback2 = settle_promise (λ s. ok (resolved_int s.req.ret))

  unfoldable pub eio_req_fs_callback3 : ℕ → Host V → Run (Host V)
  unfolding settle_promise text_at
  eio_req_fs_callback3 = settle_promise (λ s. text_at s.req.ptr0 s)

  -- req->callback(req)
  unfoldable pub call_back : Callback → ℕ → Host V → Run (Host V)
  unfolding eio_req_fs_callback1 eio_req_fs_callback2 eio_req_fs_callback3
  call_back callback1 = eio_req_fs_callback1
  call_back callback2 = eio_req_fs_callback2
  call_back callback3 = eio_req_fs_callback3

  abbrev pub with_memory : Host V → Run (Unit {0} × State (Machine V)) → Run (Host V)
  with_memory h fault = fault
  with_memory h out_of_fuel = out_of_fuel
  with_memory h (ok (u, s)) = ok (record h { memory = s })

  -- What becomes of a request: `req->work(req)` on a thread, then `req->callback(req)` and
  -- EIO_REQ_FREE in `ev_loop_run`.
  unfoldable pub serve : System (Machine V) → Call × Host V → Run (Host V)
  unfolding work call_back free_request
  serve sys (c, h) = do
    h1 ← with_memory h (work sys c.work h.memory)
    h2 ← call_back c.callback c.resolver h1
    with_memory h2 (free_request h2.memory)
