-- ===== src/ThreadPool/Queue.antt =====
-- The list of tasks of a thread of ev_thread_pool.cc, as the code links it: a pointer is a number,
-- NULL is 0.
pub mod Laws
use ryze.Base.{
  ℕ, zero, suc, ◌==◌, if◌then◌else◌, Option, none, some, List, [], ◌∷◌, ◌++◌, Run, ok, fault,
  out_of_fuel, ◌>>=◌,
}
use ryze.Links.{update}

-- The fields `head` and `tail` of `struct ev_thread_info`, and the field `next` of every
-- `struct ev_task_info`.
pub record TaskQueue : Type 0 where
  pub head : ℕ
  pub tail : ℕ
  pub next : ℕ → ℕ

-- `ev_task_info_add`, between `malloc` and the unlock.
unfoldable pub put_task : ℕ → TaskQueue → Run TaskQueue
put_task task q =
    let q1 : TaskQueue = record q { next = update q.next task 0 } in
    if q1.head == 0
    then ok (record q1 { head = task; tail = task })
    else if q1.tail == 0
    then fault
    else ok (record q1 { next = update q1.next q1.tail task; tail = task })

-- `ev_task_info_func`, from its second test of `head` to the unlock: NULL is `none`.
unfoldable pub take_task : TaskQueue → Option ℕ × TaskQueue
take_task q =
    if q.head == 0
    then (none, q)
    else if q.head == q.tail
    then (some q.head, record q { head = 0; tail = 0 })
    else (some q.head, record q { head = q.next q.head })

-- The inner loop of `ev_thread_pool_destroy`, with the tasks that it has freed.
unfoldable pub free_tasks : (fuel : ℕ) → (ℕ → ℕ) → ℕ → List ℕ → Run (List ℕ)
free_tasks zero next task_info freed = out_of_fuel
free_tasks (suc fuel) next task_info freed =
    let rest = free_tasks fuel next (next task_info) (freed ++ (task_info ∷ [])) in
    if task_info == 0 then ok freed else rest

-- The loop and the two assignments behind it.
unfoldable pub clear_tasks : (fuel : ℕ) → TaskQueue → Run (List ℕ × TaskQueue)
clear_tasks fuel q = do
  freed ← free_tasks fuel q.next q.head []
  ok (freed, record q { head = 0; tail = 0 })
