-- ===== src/Tests/Loop.antt =====
-- The thread pool of src/ev with one thread and one request.
use ryze.Base.{ℕ, ◌+◌, ◌≤◌, false, true, ◌≡◌, refl, ◌⊎◌, inl, inr, some, [], ◌∷◌, get_elem?, arith}
use ryze.Ev.Workers.{locking, waiting, woken, working, total, in_wait, holding, count, IsChoice}
use ryze.Loop.{
  Loop, ev_loop_init, ev_req_add, take_request, wake_up, add_result, Moves, enter, leave_wait, work,
  post, move, add, OnlyAdds, Reach, start, then_step,
}
use ryze.Loop.Delivery.{requests-kept, wait_threads-bound, sleeper-served, waiting-undelivered}
use ryze.Loop.Progress.{measure, Chain, rest, next, Chain-bound, pending-Moves}

-- A callback that may add request 9 for each event, and does nothing else with the loop.
unfoldable AddsNine : Loop → Loop → Type 0
AddsNine l l' = (j : ℕ) × IsChoice j l.workers × (l' ≡ ev_req_add j 9 l)

AddsNine-OnlyAdds : OnlyAdds AddsNine
unfolding AddsNine
AddsNine-OnlyAdds l l' (j, c, e) = (j, 9, c, e)

-- Two threads sleep; request 7 is added, and thread 0 is woken for it.
abbrev queued : Loop
queued = record {
  nthreads = 2;
  wait_threads = 2;
  list0 = 7 ∷ [];
  list1 = [];
  workers = woken ∷ waiting ∷ [];
  event = false;
  running = true;
  reported = 0;
  added = 7 ∷ [];
}

queued-Reach : Reach AddsNine 2 queued
unfolding ev_loop_init take_request ev_req_add
queued-Reach =
    then_step
      (then_step (then_step start (move 0 (enter 0 _ refl (inr refl))))
        (move 1 (enter 0 _ refl (inl refl))))
      (add 0 7 _ (inl refl))

-- Its result is in `list[1]`, and the threads sleep again.
abbrev rested : Loop
rested = record queued {
  list0 = [];
  list1 = 7 ∷ [];
  workers = waiting ∷ waiting ∷ [];
  event = true;
}

taking :
    Moves 0 queued
      (record queued { list0 = []; wait_threads = 1; workers = working 7 ∷ waiting ∷ [] })
unfolding wake_up
taking = leave_wait 1 _ refl (inl refl)

chain : Chain 4 queued rested
unfolding add_result take_request
chain =
    next 0 taking (
      next 0 (work 7 _ refl) (next 0 (post 7 _ refl) (next 0 (enter 1 _ refl (inl refl)) (rest _))))

rested-Reach : Reach AddsNine 2 rested
unfolding add_result take_request
rested-Reach =
    then_step
      (then_step (then_step (then_step queued-Reach (move 0 taking)) (move 0 (work 7 _ refl)))
        (move 0 (post 7 _ refl)))
      (move 0 (enter 1 _ refl (inl refl)))

requests-kept_example :
    count 7 queued.added
    ≡ count 7 queued.list0 + total (holding 7) queued.workers + count 7 queued.list1
requests-kept_example = requests-kept AddsNine AddsNine-OnlyAdds queued-Reach 7

wait_threads-bound_example :
    (rested.wait_threads ≡ total in_wait rested.workers) × (rested.wait_threads ≤ 2)
wait_threads-bound_example = wait_threads-bound AddsNine AddsNine-OnlyAdds rested-Reach

sleeper-served_example :
    (k : ℕ) × ((get_elem? queued.workers k ≡ some locking)
      ⊎ (get_elem? queued.workers k ≡ some woken))
sleeper-served_example = sleeper-served AddsNine AddsNine-OnlyAdds queued-Reach 1 (λ e. cc) refl

waiting-undelivered_example : count 7 rested.list1 ≡ count 7 rested.added
waiting-undelivered_example =
    waiting-undelivered AddsNine AddsNine-OnlyAdds rested-Reach (omega arith) (refl, (refl, tt)) 7

Chain-bound_example : 4 + measure rested ≤ measure queued
Chain-bound_example = Chain-bound chain

pending-Moves_example : (i : ℕ) × (l' : Loop) × Moves i queued l'
pending-Moves_example =
    pending-Moves AddsNine 7 AddsNine-OnlyAdds queued-Reach (omega arith) (omega arith)
