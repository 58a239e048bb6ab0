-- ===== src/TaskList/Program.antt =====
-- The program of epoll2.cc: its thread adds one task and writes to the eventfd, `main` waits for
-- the event, runs the task and ends.
pub mod Shown
use ryze.Base.{
  ℕ, Bool, true, false, ◌≡◌, Option, none, some, List, [], ◌∷◌, ◌++◌, Run, ok, fault, out_of_fuel,
  ◌>>=◌,
}
use ryze.TaskList.{Items, list_init, list_add, list_remove}

-- Where `thread_func` stands.
pub data Writer : Type 0 where
  before_add before_write ended : Writer

-- Where `main` stands: in epoll_wait; behind it with an event; behind `process_task` and the `close`
-- of the eventfd; behind `list_free`. `crashed` is behind an access through NULL, of either thread.
pub data Main : Type 0 where
  polling processing closed finished crashed : Main

-- `event` is true while the counter of the eventfd is not 0. `shown` is a history of the tasks that
-- `process_task` has run.
pub record Program : Type 0 where
  pub items : Items
  pub writer : Writer
  pub main : Main
  pub event : Bool
  pub shown : List ℕ

unfoldable pub start_program : (prev next task : ℕ → ℕ) → Program
start_program prev next task = record {
  items = list_init prev next task;
  writer = before_add;
  main = polling;
  event = false;
  shown = [];
}

-- The head of `process_task`, which reads the fields of an item that may be NULL.
unfoldable pub task_of : Option ℕ → Items → Run ℕ
task_of none li = fault
task_of (some it) li = ok (li.task it)

-- The task, and the list behind. The task is run and freed with its item.
unfoldable pub process_task : Items → Run (ℕ × Items)
unfolding task_of
process_task li = do (it, li') ← list_remove li; task ← task_of it li'; ok (task, li')

unfoldable pub after_add : Run Items → Program → Program
after_add (ok li) p = record p { items = li; writer = before_write }
after_add fault p = record p { main = crashed }
after_add out_of_fuel p = record p { main = crashed }

unfoldable pub after_process : Run (ℕ × Items) → Program → Program
after_process (ok (task, li)) p = record p {
  items = li;
  main = closed;
  event = false;
  shown = p.shown ++ (task ∷ []);
}
after_process fault p = record p { main = crashed }
after_process out_of_fuel p = record p { main = crashed }

-- `it` and `task` are what `malloc` gives to `list_add` and to `thread_func`.
pub data Step (it task : ℕ) : Program → Program → Type 0 where
  add :
      (p : Program)
      → p.writer ≡ before_add
      → Step it task p (after_add (list_add it task p.items) p)
  write :
      (p : Program)
      → p.writer ≡ before_write
      → Step it task p (record p { writer = ended; event = true })
  poll :
      (p : Program)
      → p.main ≡ polling
      → p.event ≡ true
      → Step it task p (record p { main = processing })
  process :
      (p : Program) → p.main ≡ processing → Step it task p (after_process (process_task p.items) p)
  leave : (p : Program) → p.main ≡ closed → Step it task p (record p { main = finished })

pub data Reach (it task : ℕ) (s : Program) : Program → Type 0 where
  here : Reach it task s s
  then_step : {p q : Program} → Reach it task s p → Step it task p q → Reach it task s q
