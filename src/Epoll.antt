-- ===== src/Epoll.antt =====
-- epoll.cc: threads that add three tasks each and write to an eventfd, and a loop that waits for
-- the eventfd and runs the tasks. A stretch under the mutex is one step.
pub mod Order
pub mod Lost
use ryze.Base.{
  ℕ, zero, suc, ◌+◌, ◌-◌, ◌<◌, Bool, true, false, ◌&&◌, ◌≡◌, ◌==◌, if◌then◌else◌, List, [], ◌∷◌,
  ◌++◌,
}

-- Where `thread_func` stands: on the way into the mutex, behind the unlock, behind its loop, or at a
-- mutex that `main` has destroyed.
pub data Stage : Type 0 where
  locking writing ended dangling : Stage

-- `count` of `thread_func`.
pub record Thread : Type 0 where
  pub stage : Stage
  pub count : ℕ

-- Where `main` stands: in epoll_wait, in `process_task` before the lock and before the read, or
-- behind the frees.
pub data Main : Type 0 where
  polling processing reading finished : Main

-- A task is known by its thread. `edge` is true if the eventfd was written to and epoll_wait has
-- not told of it, `counter` if the counter of the eventfd is not 0. The histories are of the tasks
-- that were added and run.
pub record Program : Type 0 where
  pub size : ℕ
  pub threads : ℕ → Thread
  pub main : Main
  pub head : List ℕ
  pub edge : Bool
  pub counter : Bool
  pub added : List ℕ
  pub run : List ℕ

abbrev pub update : (ℕ → Thread) → ℕ → Thread → ℕ → Thread
update f i t j = if j == i then t else f j

abbrev pub rounds : ℕ
rounds = 3

-- `main` up to its loop.
unfoldable pub start_program : ℕ → Program
start_program n = record {
  size = n;
  threads = λ _. record { stage = locking; count = rounds };
  main = polling;
  head = [];
  edge = false;
  counter = false;
  added = [];
  run = [];
}

-- A round of `thread_func` up to its signal, for which nobody waits.
unfoldable pub add_task : ℕ → Main → Program → Program
add_task i finished p = record p {
  threads = update p.threads i (record (p.threads i) { stage = dangling });
}
add_task i main p = record p {
  threads = update p.threads i (record (p.threads i) { stage = writing });
  head = p.head ++ (i ∷ []);
  added = p.added ++ (i ∷ []);
}

-- The rest of the round, and the test of the loop.
unfoldable pub end_round : Thread → Thread
end_round t = record { stage = if t.count - 1 == 0 then ended else locking; count = t.count - 1 }

unfoldable pub write_event : ℕ → Program → Program
unfolding end_round
write_event i p = record p {
  threads = update p.threads i (end_round (p.threads i));
  edge = true;
  counter = true;
}

-- The loop of `process_task` over the list.
unfoldable pub run_tasks : List ℕ → List ℕ → List ℕ
run_tasks [] run = run
run_tasks (task ∷ rest) run = run_tasks rest (run ++ (task ∷ []))

unfoldable pub process_task : Program → Program
unfolding run_tasks
process_task p = record p { head = []; run = run_tasks p.head p.run; main = reading }

pub data Step : Program → Program → Type 0 where
  add :
      (i : ℕ) (p : Program)
      → i < p.size
      → (p.threads i).stage ≡ locking
      → Step p (add_task i p.main p)
  write :
      (i : ℕ) (p : Program) → i < p.size → (p.threads i).stage ≡ writing → Step p (write_event i p)
  poll :
      (p : Program)
      → p.main ≡ polling
      → (p.edge && p.counter) ≡ true
      → Step p (record p { main = processing; edge = false })
  process : (p : Program) → p.main ≡ processing → Step p (process_task p)
  read : (p : Program) → p.main ≡ reading → Step p (record p { main = polling; counter = false })
  timeout :
      (p : Program)
      → p.main ≡ polling
      → (p.edge && p.counter) ≡ false
      → Step p (record p { main = finished })

pub data Reach (p : Program) : Program → Type 0 where
  here : Reach p p
  then_step : {q q' : Program} → Reach p q → Step q q' → Reach p q'
