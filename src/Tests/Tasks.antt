-- ===== src/Tests/Tasks.antt =====
-- Two threads and two tasks, and rounds over a list of three tasks.
use ryze.Base.{◌+◌, ◌≤◌, ◌≡◌, refl, true, false, some, none, List, [], ◌∷◌}
use ryze.Tasks.{Pool, start_pool, claim, claim_step, Reach, start, then_step, Task, process_task}
use ryze.Tasks.Claims.{total, at_work, runs-bound}
use ryze.Tasks.Process.{Settles, process_task-Settles}

-- Thread 0 claims task 0, then thread 1 comes by.
abbrev busy : Pool
busy = claim 1 0 (claim 0 0 (start_pool 1 2))

busy-Reach : Reach 1 2 busy
unfolding claim start_pool
busy-Reach = then_step (then_step start (claim_step 0 0 _ refl refl)) (claim_step 1 0 _ refl refl)

runs-bound_example : busy.runs 0 + total (at_work 0) busy.threads ≤ 1
runs-bound_example = runs-bound busy-Reach 0

abbrev tasks : List Task
tasks =
    record { id = 1; finish = true; result = some 5 }
    ∷ record { id = 2; finish = false; result = some 6 }
    ∷ record { id = 3; finish = false; result = none }
    ∷ []

process_task-Settles_example : Settles true tasks
process_task-Settles_example = process_task-Settles true tasks

first_round : (process_task true tasks).destroyed ≡ 1 ∷ []
unfolding process_task
first_round = refl
