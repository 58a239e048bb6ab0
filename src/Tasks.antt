-- ===== src/Tasks.antt =====
-- xxx/main-bak.c: threads that claim tasks by an atomic counter, and the list of the event loop.
pub mod Claims
pub mod Process
use ryze.Base.{
  ℕ, zero, suc, ◌+◌, Bool, true, false, not, ◌&&◌, ◌==◌, ltb, if◌then◌else◌, ◌≡◌, Option, none,
  some, List, [], ◌∷◌, replicate, get_elem?,
}

-- Where a thread of `thread_func` stands, by the number of the task: at the test for NULL in front
-- of it, or behind its claim, before `result` and the event are written.
pub data Thread : Type 0 where
  looking running : (task : ℕ) → Thread

-- `count` of each task, how often its `func` was run (a history), and the threads.
pub record Pool : Type 0 where
  pub size : ℕ
  pub count : ℕ → ℕ
  pub runs : ℕ → ℕ
  pub threads : List Thread

-- `task_alloc` sets each count to 0; `main` starts `n` threads on the tasks.
unfoldable pub start_pool : (size n : ℕ) → Pool
start_pool size n = record {
  size = size;
  count = λ k. 0;
  runs = λ k. 0;
  threads = replicate n (looking 0);
}

abbrev pub bump : ℕ → (ℕ → ℕ) → ℕ → ℕ
bump k f q = if q == k then suc (f q) else f q

abbrev pub set_thread : ℕ → Thread → List Thread → List Thread
set_thread i v [] = []
set_thread zero v (t ∷ ts) = v ∷ ts
set_thread (suc i) v (t ∷ ts) = t ∷ set_thread i v ts

-- atomic_fetch_add: the thread goes on with the task if its count was 0, else to the next task.
unfoldable pub claim : (i k : ℕ) → Pool → Pool
claim i k p = record p {
  count = bump k p.count;
  threads = set_thread i (if p.count k == 0 then running k else looking (suc k)) p.threads;
}

-- `func` is run, its result and the event are written.
unfoldable pub finish_run : (i k : ℕ) → Pool → Pool
finish_run i k p = record p {
  runs = bump k p.runs;
  threads = set_thread i (looking (suc k)) p.threads;
}

-- A thread ends where it looks at the end of the list.
pub data Step : Pool → Pool → Type 0 where
  claim_step :
      (i k : ℕ) (p : Pool)
      → get_elem? p.threads i ≡ some (looking k)
      → ltb k p.size ≡ true
      → Step p (claim i k p)
  run_step :
      (i k : ℕ) (p : Pool) → get_elem? p.threads i ≡ some (running k) → Step p (finish_run i k p)

pub data Reach (size n : ℕ) : Pool → Type 0 where
  start : Reach size n (start_pool size n)
  then_step : {p p' : Pool} → Reach size n p → Step p p' → Reach size n p'

-- What `process_task` looks at of a task: `finish` and the text of `result`, if it is not NULL.
pub record Task : Type 0 where
  pub id : ℕ
  pub finish : Bool
  pub result : Option ℕ

-- The tasks left in the list, those destroyed, and the results printed.
pub record Round : Type 0 where
  pub left : List Task
  pub destroyed : List ℕ
  pub printed : List ℕ

abbrev pub keep : Task → Round → Round
keep t r = record r { left = t ∷ r.left }

abbrev pub print_result : ℕ → Round → Round
print_result v r = record r { printed = v ∷ r.printed }

-- The second test of the loop, for a task that stays.
unfoldable pub show_task : Task → Round → Round
show_task t r = if t.finish then keep t r else elim t.result [
  | none ↦ keep t r
  | some v ↦ print_result v (keep (record t { finish = true }) r)
]

abbrev finish_behind : Task → Bool
finish_behind t = elim t.result [ none ↦ t.finish | some v ↦ true ]

-- `process_task`, with whether the task in front is the head or has its `finish` set.
unfoldable pub process_task : Bool → List Task → Round
unfolding show_task
process_task before [] = record { left = []; destroyed = []; printed = [] }
process_task before (t ∷ ts) =
    let gone = process_task before ts in
    let stays = process_task (finish_behind t) ts in
    if t.finish && before
    then record gone { destroyed = t.id ∷ gone.destroyed }
    else show_task t stays
