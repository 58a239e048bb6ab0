-- ===== src/ThreadPool.antt =====
-- ev_thread_pool.cc: a pool whose threads have a list of tasks, a mutex and a condition variable
-- each. A stretch under a mutex is one step; the steps of the threads and of `main` interleave.
pub mod Queue
pub mod Invariant
pub mod Reachable
pub mod Destroy
pub mod Late
pub mod Feed
use ryze.Base.{
  ℕ, suc, ◌+◌, ◌<◌, Bool, true, false, ◌≡◌, ◌≢◌, ltb, ◌==◌, if◌then◌else◌, List, [], ◌∷◌, ◌++◌,
}

-- Where `ev_task_info_func` stands. `locking`: on the way into the mutex; `waiting`: in
-- pthread_cond_wait; `woken`: on the way out of it; `running`: with a task, the mutex unlocked;
-- `stuck`: on the way into the mutex that the thread holds itself; `leaving`: behind the unlock of
-- the last round, before its signal; `ended`: behind that; `dangling`: behind it too, but the
-- signal was to a condition variable in freed memory; `early`: the thread has begun while
-- `ev_thread_pool_init` had not yet filled in its struct. What it does then is undefined, and no
-- step is given for it.
pub data Stage : Type 0 where
  locking waiting woken stuck leaving ended dangling early : Stage
  running : (task : ℕ) → Stage

-- `struct ev_thread_info`, with the list of tasks as a queue, where its thread stands, and whether
-- the struct is freed. The histories are of the tasks that were added, run and freed unrun.
pub record Info : Type 0 where
  pub status : ℕ
  pub tasks : List ℕ
  pub stage : Stage
  pub freed : Bool
  pub added : List ℕ
  pub run : List ℕ
  pub dropped : List ℕ

-- Where `main` stands: about to add a task or to destroy the pool; between the unlock and the
-- signal of `ev_task_info_add`; in the first loop of `ev_thread_pool_destroy`, before the lock and
-- before the signal; in its second loop, the same; behind it.
pub data Main : Type 0 where
  adding finished : Main
  signalling marking telling checking nudging : (thread_info : ℕ) → Main

-- `struct ev_thread_pool`. The structs of the threads are known by their place in the list, of
-- which there are `min_num`.
pub record Pool : Type 0 where
  pub min_num : ℕ
  pub max_num : ℕ
  pub infos : ℕ → Info
  pub main : Main

abbrev pub update : (ℕ → Info) → ℕ → Info → ℕ → Info
update f i t j = if j == i then t else f j

abbrev pub fresh : Info
fresh = record {
  status = 0;
  tasks = [];
  stage = locking;
  freed = false;
  added = [];
  run = [];
  dropped = [];
}

-- A round of the loop of `ev_thread_pool_init`: pthread_create comes before the mutex, the condition
-- variable and the list are set, and the system chooses whether the thread begins in between.
unfoldable pub create_info : (begins : Bool) → Info
create_info begins = if begins then record fresh { stage = early } else fresh

-- `begins i` is what the system chooses for thread `i`. A thread that does not begin early goes on
-- by the steps below, which the rounds behind its own do not touch.
unfoldable pub ev_thread_pool_init : (min_num max_num : ℕ) → (begins : ℕ → Bool) → Pool
unfolding create_info
ev_thread_pool_init n m begins = record {
  min_num = n;
  max_num = m;
  infos = λ i. create_info (begins i);
  main = adding;
}

-- `ev_task_info_add` under the mutex.
unfoldable pub ev_task_info_add : ℕ → Info → Info
ev_task_info_add r t = record t { tasks = t.tasks ++ (r ∷ []); added = t.added ++ (r ∷ []) }

-- A thread under its mutex, at the first test of the list, with its tasks.
unfoldable pub first_test : List ℕ → Info → Info
first_test [] t = record t { stage = waiting }
first_test (r ∷ rest) t = record t { tasks = rest; stage = running r }

-- Behind the wait: `continue` keeps the mutex locked.
unfoldable pub second_test : List ℕ → Info → Info
second_test [] t =
    if t.status == 0
    then record t { stage = stuck }
    else record t { status = t.status + 1; stage = leaving }
second_test (r ∷ rest) t = record t { tasks = rest; stage = running r }

-- The task and its callback are called, and the task is freed.
unfoldable pub run_task : ℕ → Info → Info
run_task r t = record t { stage = locking; run = t.run ++ (r ∷ []) }

-- The signal of a thread that leaves.
unfoldable pub leave : Info → Info
leave t = record t { stage = if t.freed then dangling else ended }

-- pthread_cond_signal of `main`, and a wait that ends by itself.
unfoldable pub awake : Stage → Stage
awake waiting = woken
awake other = other

unfoldable pub wake : Info → Info
unfolding awake
wake t = record t { stage = awake t.stage }

-- The first loop of `ev_thread_pool_destroy`, under the mutex.
unfoldable pub mark : Info → Info
mark t = record t { status = t.status + 1; tasks = []; dropped = t.dropped ++ t.tasks }

-- The struct behind the two.
unfoldable pub after_mark : (n j : ℕ) → Main
after_mark n j = if ltb (suc j) n then marking (suc j) else checking 0

unfoldable pub after_free : (n j : ℕ) → Main
after_free n j = if ltb (suc j) n then checking (suc j) else finished

-- One round of the second loop, under the mutex.
unfoldable pub check_info : ℕ → Pool → Pool
unfolding after_free
check_info j p =
    if (p.infos j).status == 2
    then record p {
      infos = update p.infos j (record (p.infos j) { freed = true });
      main = after_free p.min_num j;
    }
    else record p { main = nudging j }

abbrev pub set_info : ℕ → Info → Pool → Pool
set_info i t p = record p { infos = update p.infos i t }

-- The mutex of a thread is free between the steps, unless the thread is stuck.
abbrev pub IsFree : Info → Type 0
IsFree t = t.stage ≢ stuck

pub data Step : Pool → Pool → Type 0 where
  add :
      (j r : ℕ) (p : Pool)
      → p.main ≡ adding
      → j < p.min_num
      → IsFree (p.infos j)
      → Step p (record p {
        infos = update p.infos j (ev_task_info_add r (p.infos j));
        main = signalling j;
      })
  signal :
      (j : ℕ) (p : Pool)
      → p.main ≡ signalling j
      → Step p (record p { infos = update p.infos j (wake (p.infos j)); main = adding })
  destroy : (p : Pool) → p.main ≡ adding → Step p (record p { main = marking 0 })
  mark_info :
      (j : ℕ) (p : Pool)
      → p.main ≡ marking j
      → j < p.min_num
      → IsFree (p.infos j)
      → Step p (record p { infos = update p.infos j (mark (p.infos j)); main = telling j })
  tell :
      (j : ℕ) (p : Pool)
      → p.main ≡ telling j
      → Step p
          (record p { infos = update p.infos j (wake (p.infos j)); main = after_mark p.min_num j })
  check :
      (j : ℕ) (p : Pool)
      → p.main ≡ checking j
      → j < p.min_num
      → IsFree (p.infos j)
      → Step p (check_info j p)
  nudge :
      (j : ℕ) (p : Pool)
      → p.main ≡ nudging j
      → Step p (record p { infos = update p.infos j (wake (p.infos j)); main = checking j })
  first :
      (i : ℕ) (p : Pool)
      → i < p.min_num
      → (p.infos i).stage ≡ locking
      → Step p (set_info i (first_test (p.infos i).tasks (p.infos i)) p)
  second :
      (i : ℕ) (p : Pool)
      → i < p.min_num
      → (p.infos i).stage ≡ woken
      → Step p (set_info i (second_test (p.infos i).tasks (p.infos i)) p)
  spurious :
      (i : ℕ) (p : Pool)
      → i < p.min_num
      → (p.infos i).stage ≡ waiting
      → Step p (set_info i (wake (p.infos i)) p)
  run_next :
      (i r : ℕ) (p : Pool)
      → i < p.min_num
      → (p.infos i).stage ≡ running r
      → Step p (set_info i (run_task r (p.infos i)) p)
  last :
      (i : ℕ) (p : Pool)
      → i < p.min_num
      → (p.infos i).stage ≡ leaving
      → Step p (set_info i (leave (p.infos i)) p)

-- What the steps reach from `p`.
pub data Reach (p : Pool) : Pool → Type 0 where
  here : Reach p p
  then_step : {q q' : Pool} → Reach p q → Step q q' → Reach p q'
