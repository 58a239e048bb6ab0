-- ===== src/Ev/Pool.antt =====
-- xxx/ev/ev.c and EV_REQ_ADD of xxx/ev/ev.h: what each stretch of code under a lock does, and the
-- steps in which the threads interleave. A request is a number; the lists are those of the queues
-- at `head[0]` and `head[1]`.
use ryze.Base.{
  ℕ, ◌+◌, ◌-◌, Bool, true, false, ltb, leb, if◌then◌else◌, ◌≡◌, ◌≢◌, some, List, [], ◌∷◌, ◌++◌,
  replicate, get_elem?, Run, ok, out_of_fuel,
}
use ryze.Ev.Workers.{
  Worker, locking, waiting, woken, ended, working, posting, set_worker, wake, IsChoice,
}

-- The thread of `ev_loop_run`: in `epoll_wait`; behind `read`, on the way into `lock[1]`; in the
-- inner loop, under `lock[1]`.
pub data Main : Type 0 where
  polling entering draining : Main

-- `struct ev_loop_t`. `efd` is true if the counter of the eventfd is not 0, so that its event is
-- reported. `added` and `finished` are a history: the requests handed to EV_REQ_ADD, and those
-- whose callback was called and whose memory was freed.
pub record Loop : Type 0 where
  pub stop : Bool
  pub efd : Bool
  pub nthreads : ℕ
  pub wait_threads : ℕ
  pub alive_threads : ℕ
  pub head0 : List ℕ
  pub head1 : List ℕ
  pub workers : List Worker
  pub main : Main
  pub added : List ℕ
  pub finished : List ℕ

-- ev_loop_init: 4 threads, each at the begin of `ev_work`.
unfoldable pub ev_loop_init : Loop
ev_loop_init = record {
  stop = false;
  efd = false;
  nthreads = 4;
  wait_threads = 0;
  alive_threads = 4;
  head0 = [];
  head1 = [];
  workers = replicate 4 locking;
  main = polling;
  added = [];
  finished = [];
}

-- EV_SIGNAL(loop->lock[0])
unfoldable pub ev_signal : ℕ → Loop → Loop
ev_signal j l = record l { workers = wake j l.workers }

-- EV_REQ_ADD
unfoldable pub ev_req_add : ℕ → ℕ → Loop → Loop
unfolding ev_signal
ev_req_add j r l =
    let l' : Loop = record l { head0 = l.head0 ++ (r ∷ []); added = l.added ++ (r ∷ []) } in
    if ltb 0 l.wait_threads then ev_signal j l' else l'

-- The inner loop of `ev_work` from its test on, up to EV_WAIT or to EV_UNLOCK, for the entries of
-- `head[0]`.
unfoldable pub next_entry : List ℕ → ℕ → ℕ → Loop → Loop
unfolding ev_signal
next_entry [] j i l = record l {
  wait_threads = l.wait_threads + 1;
  efd = if leb l.nthreads (l.wait_threads + 1) then true else l.efd;
  workers = set_worker i waiting l.workers;
}
next_entry (r ∷ []) j i l = record l { head0 = []; workers = set_worker i (working r) l.workers }
next_entry (r ∷ q ∷ qs) j i l =
    ev_signal j (record l { head0 = q ∷ qs; workers = set_worker i (working r) l.workers })

unfoldable pub test_queue : ℕ → ℕ → Loop → Loop
unfolding next_entry
test_queue j i l = next_entry l.head0 j i l

-- Behind EV_WAIT.
unfoldable pub resume : ℕ → ℕ → Loop → Loop
unfolding ev_signal test_queue
resume j i l =
    if l.stop
    then ev_signal j (record l {
      wait_threads = l.wait_threads - 1;
      alive_threads = l.alive_threads - 1;
      workers = set_worker i ended l.workers;
    })
    else test_queue j i (record l { wait_threads = l.wait_threads - 1 })

-- The second stretch under a lock: LIST_ADD_TAIL and `write`.
unfoldable pub post : ℕ → ℕ → Loop → Loop
post i r l = record l {
  head1 = l.head1 ++ (r ∷ []);
  efd = true;
  workers = set_worker i locking l.workers;
}

-- A test of the loop over `head[1]` in `ev_loop_run`, and one round of it.
unfoldable pub drain_entries : List ℕ → Loop → Loop
drain_entries [] l = record l { main = polling }
drain_entries (r ∷ rest) l = record l { head1 = rest; finished = l.finished ++ (r ∷ []) }

unfoldable pub drain : Loop → Loop
unfolding drain_entries
drain l = drain_entries l.head1 l

-- The steps. The number `j` of a signal is the choice of the system, and a thread may leave EV_WAIT
-- with no signal. While `ev_loop_run` drains it holds `lock[1]`; EV_REQ_ADD is called by the thread
-- of `ev_loop_run`, from callbacks too, which `add` allows at any point.
pub data Step : Loop → Loop → Type 0 where
  add : (j r : ℕ) (l : Loop) → IsChoice j l.workers → Step l (ev_req_add j r l)
  enter :
      (j i : ℕ) (l : Loop)
      → get_elem? l.workers i ≡ some locking
      → IsChoice j l.workers
      → Step l (test_queue j i l)
  spurious :
      (i : ℕ) (l : Loop)
      → get_elem? l.workers i ≡ some waiting
      → Step l (record l { workers = set_worker i woken l.workers })
  leave_wait :
      (j i : ℕ) (l : Loop)
      → get_elem? l.workers i ≡ some woken
      → IsChoice j l.workers
      → Step l (resume j i l)
  work :
      (i r : ℕ) (l : Loop)
      → get_elem? l.workers i ≡ some (working r)
      → Step l (record l { workers = set_worker i (posting r) l.workers })
  add_result :
      (i r : ℕ) (l : Loop)
      → get_elem? l.workers i ≡ some (posting r)
      → l.main ≢ draining
      → Step l (post i r l)
  poll :
      (l : Loop)
      → l.main ≡ polling
      → l.efd ≡ true
      → Step l (record l { main = entering; efd = false })
  lock : (l : Loop) → l.main ≡ entering → Step l (record l { main = draining })
  round : (l : Loop) → l.main ≡ draining → Step l (drain l)

pub data Reach : Loop → Type 0 where
  start : Reach ev_loop_init
  then_step : {l l' : Loop} → Reach l → Step l l' → Reach l'

-- The loop of `ev_loop_free`, over the states that its looks at `alive_threads` find: the other
-- threads go on between two of them.
unfoldable pub await_threads : List Loop → Run (Unit {0})
await_threads [] = out_of_fuel
await_threads (l ∷ ls) =
    let rest = await_threads ls in if leb l.alive_threads 0 then ok tt else rest
