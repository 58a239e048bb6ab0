-- ===== src/Tests/ThreadPool.antt =====
-- A pool of ev_thread_pool.cc with one thread, and its list of tasks.
use ryze.Base.{
  ℕ, Bool, false, ◌*◌, ◌<◌, ◌==◌, if◌then◌else◌, ◌≡◌, ◌≢◌, refl, true, some, [], ◌∷◌, ◌++◌, ok,
  arith,
}
use ryze.ThreadPool.{
  stuck, dangling, Info, adding, checking, finished, Pool, create_info, ev_thread_pool_init,
  ev_task_info_add, first_test, second_test, leave, awake, wake, mark, after_mark, after_free,
  check_info, add, signal, destroy, mark_info, tell, check, first, second, spurious, last, Reach,
  here, then_step,
}
use ryze.ThreadPool.Queue.{TaskQueue, put_task, take_task, clear_tasks}
use ryze.ThreadPool.Queue.Laws.{IsQueue, put_task-IsQueue, take_task-IsQueue, clear_tasks-IsQueue}
use ryze.ThreadPool.Invariant.{held, left}
use ryze.ThreadPool.Destroy.{NoneEarly, added-order, freed-left, finished-settled, stuck-endless}
use ryze.ThreadPool.Late.{late-stuck}
use ryze.ThreadPool.Feed.{feed, turns, feed-turns}

abbrev two_tasks : TaskQueue
two_tasks = record { head = 5; tail = 9; next = λ p. if p == 5 then 9 else 0 }

two_tasks-IsQueue : IsQueue (5 ∷ 9 ∷ []) two_tasks
two_tasks-IsQueue = record {
  chain = (refl, omega arith, (omega arith, tt), (refl, omega arith, tt, refl));
  ends = refl;
}

take_two : (take_task two_tasks).0 ≡ some 5
unfolding take_task
take_two = refl

put_task-IsQueue_example :
    (q : TaskQueue) × (put_task 7 two_tasks ≡ ok q) × IsQueue (5 ∷ 9 ∷ 7 ∷ []) q
put_task-IsQueue_example =
    put_task-IsQueue 7 (5 ∷ 9 ∷ []) two_tasks two_tasks-IsQueue (omega arith)
      (omega arith, (omega arith, tt))

take_task-IsQueue_example :
    (q : TaskQueue) × (take_task two_tasks ≡ (some 5, q)) × IsQueue (9 ∷ []) q
take_task-IsQueue_example = take_task-IsQueue 5 (9 ∷ []) two_tasks two_tasks-IsQueue

clear_tasks-IsQueue_example :
    (q : TaskQueue) × (clear_tasks 3 two_tasks ≡ ok (5 ∷ 9 ∷ [], q)) × IsQueue [] q
clear_tasks-IsQueue_example =
    clear_tasks-IsQueue 3 (5 ∷ 9 ∷ []) two_tasks two_tasks-IsQueue (omega arith)

-- The thread begins once its struct is filled in.
abbrev late : ℕ → Bool
late i = false

none_early : NoneEarly 1 late
none_early i lt = refl

abbrev one_thread : Pool
one_thread = ev_thread_pool_init 1 8 late

-- The pool is destroyed while its thread comes out of the wait, with a task in the list.
only : 0 < 1
only = omega arith

abbrev added_run : (p : Pool) × Reach one_thread p × (p.main ≡ adding)
unfolding ev_thread_pool_init create_info ev_task_info_add first_test awake wake
added_run =
    let start : Reach one_thread one_thread = here in
    let waits = then_step start (first 0 _ only refl) in
    (_, then_step (then_step waits (add 0 7 _ refl only (λ s. cc))) (signal 0 _ refl), refl)

abbrev marked_run : (p : Pool) × Reach one_thread p × (p.main ≡ checking 0)
unfolding ev_thread_pool_init create_info ev_task_info_add first_test awake wake mark after_mark
marked_run =
    let marking_run = then_step added_run.1 (destroy _ added_run.2) in
    (_, then_step (then_step marking_run (mark_info 0 _ refl only (λ s. cc))) (tell 0 _ refl), refl)

abbrev settled_run : (p : Pool) × Reach one_thread p × (p.main ≡ finished)
unfolding ev_thread_pool_init create_info ev_task_info_add first_test second_test awake wake mark
    after_mark after_free check_info
settled_run =
    let out = then_step marked_run.1 (second 0 _ only refl) in
    (_, then_step out (check 0 _ refl only (λ s. cc)), refl)

abbrev settled : Info
settled = settled_run.0.infos 0

finished-settled_example :
    (settled.freed ≡ true)
    × (left settled.stage ≡ 1)
    × (settled.added ≡ settled.run ++ settled.dropped)
finished-settled_example = finished-settled 1 8 late none_early settled_run.1 0 only settled_run.2

added-order_example :
    settled.added ≡ settled.run ++ (held settled.stage ++ (settled.tasks ++ settled.dropped))
added-order_example = added-order 1 8 late none_early settled_run.1 0 only

freed-left_example : left settled.stage ≡ 1
freed-left_example = freed-left 1 8 late none_early settled_run.1 0 only finished-settled_example.0

-- The thread signals its condition variable, which `main` has freed.
dangling_run : (p : Pool) × Reach one_thread p × ((p.infos 0).stage ≡ dangling)
unfolding ev_thread_pool_init create_info ev_task_info_add first_test second_test leave awake wake
    mark after_mark after_free check_info
dangling_run = (_, then_step settled_run.1 (last 0 _ only refl), refl)

late-stuck_example : (p : Pool) × Reach one_thread p × ((p.infos 0).stage ≡ stuck)
unfolding ev_thread_pool_init create_info
late-stuck_example = late-stuck 0 7 one_thread refl only refl refl refl

-- The same thread, woken by chance.
abbrev stuck_run : (p : Pool) × Reach one_thread p × ((p.infos 0).stage ≡ stuck)
unfolding ev_thread_pool_init create_info first_test second_test awake wake
stuck_run =
    let start : Reach one_thread one_thread = here in
    let waits = then_step start (first 0 _ only refl) in
    let up = then_step waits (spurious 0 _ only refl) in
    (_, then_step up (second 0 _ only refl), refl)

stuck-endless_example : ((stuck_run.0.infos 0).stage ≡ stuck) × (stuck_run.0.main ≢ finished)
stuck-endless_example = stuck-endless 1 8 late 0 none_early only stuck_run.1 stuck_run.2 here

feed-turns_example : feed 40 2 0 0 0 ≡ ok (turns 2 0 (16 * 2))
feed-turns_example = feed-turns 40 2 (omega arith) (omega arith)
