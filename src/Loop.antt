-- ===== src/Loop.antt =====
-- src/ev/ev.c and EV_REQ_ADD of src/ev/ev.h: the later thread pool, for any number of threads.
pub mod Invariant
pub mod Reachable
pub mod Delivery
pub mod Progress
use ryze.Base.{
  ℕ, ◌+◌, ◌-◌, Bool, true, false, ltb, if◌then◌else◌, ◌≡◌, some, List, [], ◌∷◌, ◌++◌, replicate,
  get_elem?,
}
use ryze.Ev.Workers.{Worker, locking, waiting, woken, working, posting, set_worker, wake, IsChoice}

-- `struct ev_loop`, with the lists as queues of requests, which are numbers. `event` is true if the
-- eventfd was written behind the last report of its event, and `running` until `ev_loop_run`
-- returns. `added` is a history of the requests handed to EV_REQ_ADD, `reported` the number of
-- calls of `callback` for the eventfd.
pub record Loop : Type 0 where
  pub nthreads : ℕ
  pub wait_threads : ℕ
  pub list0 : List ℕ
  pub list1 : List ℕ
  pub workers : List Worker
  pub event : Bool
  pub running : Bool
  pub reported : ℕ
  pub added : List ℕ

unfoldable pub ev_loop_init : ℕ → Loop
ev_loop_init nthreads = record {
  nthreads = nthreads;
  wait_threads = 0;
  list0 = [];
  list1 = [];
  workers = replicate nthreads locking;
  event = false;
  running = true;
  reported = 0;
  added = [];
}

-- if(wait_threads > 0) pthread_cond_signal(&cond[0])
unfoldable pub signal_if_waiting : ℕ → Loop → Loop
signal_if_waiting j l = if ltb 0 l.wait_threads then record l { workers = wake j l.workers } else l

unfoldable pub ev_req_add : ℕ → ℕ → Loop → Loop
unfolding signal_if_waiting
ev_req_add j r l =
    signal_if_waiting j (record l { list0 = l.list0 ++ (r ∷ []); added = l.added ++ (r ∷ []) })

-- `ev_work` from the test of its inner loop on, up to `pthread_cond_wait` or to the first unlock,
-- for the entries of `list[0]`.
unfoldable pub take_entry : List ℕ → ℕ → ℕ → Loop → Loop
unfolding signal_if_waiting
take_entry [] j i l = record l {
  wait_threads = l.wait_threads + 1;
  workers = set_worker i waiting l.workers;
}
take_entry (r ∷ []) j i l = record l { list0 = []; workers = set_worker i (working r) l.workers }
take_entry (r ∷ q ∷ qs) j i l =
    signal_if_waiting j (record l { list0 = q ∷ qs; workers = set_worker i (working r) l.workers })

unfoldable pub take_request : ℕ → ℕ → Loop → Loop
unfolding take_entry
take_request j i l = take_entry l.list0 j i l

-- Behind `pthread_cond_wait`.
unfoldable pub wake_up : ℕ → ℕ → Loop → Loop
unfolding take_request
wake_up j i l = take_request j i (record l { wait_threads = l.wait_threads - 1 })

-- The second stretch under a lock.
unfoldable pub add_result : ℕ → ℕ → Loop → Loop
add_result i r l = record l {
  list1 = l.list1 ++ (r ∷ []);
  event = true;
  workers = set_worker i locking l.workers;
}

-- A round of `ev_loop_run` with the event of the eventfd, up to the call of `callback`, which is not
-- part of the file and whose stretches are steps of their own. Nothing is taken from `list[1]`.
unfoldable pub report : Loop → Loop
report l = record l { event = false; reported = l.reported + 1 }

-- A step of thread `i`. The number `j` of a signal is the choice of the system.
pub data Moves (i : ℕ) : Loop → Loop → Type 0 where
  enter :
      (j : ℕ) (l : Loop)
      → get_elem? l.workers i ≡ some locking
      → IsChoice j l.workers
      → Moves i l (take_request j i l)
  leave_wait :
      (j : ℕ) (l : Loop)
      → get_elem? l.workers i ≡ some woken
      → IsChoice j l.workers
      → Moves i l (wake_up j i l)
  work :
      (r : ℕ) (l : Loop)
      → get_elem? l.workers i ≡ some (working r)
      → Moves i l (record l { workers = set_worker i (posting r) l.workers })
  post :
      (r : ℕ) (l : Loop) → get_elem? l.workers i ≡ some (posting r) → Moves i l (add_result i r l)

-- The steps of all: a thread may wake with no signal, requests are added at any point, and
-- `ev_loop_run` reports the event or ends when `epoll_wait` fails. The caller of `ev_loop_run` gives
-- `callback`, which gets the loop for each event: `callback l l'` says that a stretch of it
-- may take `l` to `l'`, whenever that is.
pub data Step (callback : Loop → Loop → Type 0) : Loop → Loop → Type 0 where
  move : {l l' : Loop} (i : ℕ) → Moves i l l' → Step callback l l'
  spurious :
      (i : ℕ) (l : Loop)
      → get_elem? l.workers i ≡ some waiting
      → Step callback l (record l { workers = set_worker i woken l.workers })
  add : (j r : ℕ) (l : Loop) → IsChoice j l.workers → Step callback l (ev_req_add j r l)
  poll : (l : Loop) → l.running ≡ true → l.event ≡ true → Step callback l (report l)
  call_back : (l l' : Loop) → callback l l' → Step callback l l'
  fail : (l : Loop) → Step callback l (record l { running = false })

pub data Reach (callback : Loop → Loop → Type 0) (nthreads : ℕ) : Loop → Type 0 where
  start : Reach callback nthreads (ev_loop_init nthreads)
  then_step :
      {l l' : Loop} → Reach callback nthreads l → Step callback l l' → Reach callback nthreads l'

-- A callback that uses the loop for EV_REQ_ADD alone.
abbrev pub OnlyAdds : (Loop → Loop → Type 0) → Type 0
OnlyAdds callback =
    (l l' : Loop)
    → callback l l'
    → (j : ℕ) × (r : ℕ) × IsChoice j l.workers × (l' ≡ ev_req_add j r l)
