-- ===== src/Tests/Ev.antt =====
-- A request that passes through the thread pool of xxx/ev, and the theorems at its states.
use ryze.Base.{
  ℕ, ◌+◌, ◌≤◌, true, false, ◌≡◌, ◌≢◌, refl, ◌⊎◌, inl, inr, some, [], ◌∷◌, replicate, get_elem?,
  out_of_fuel,
}
use ryze.Ev.Workers.{locking, waiting, woken, total, in_wait, holding, count}
use ryze.Ev.Pool.{
  Loop, polling, draining, ev_loop_init, ev_req_add, test_queue, resume, post, drain, add, enter,
  leave_wait, work, add_result, poll, lock, round, Reach, start, then_step, await_threads,
}
use ryze.Ev.Delivery.{
  quiet-finished, added-kept, queued-served, wait_threads-exact, await_threads-endless,
}

-- All threads have gone to sleep; the last one has written to the eventfd.
abbrev asleep_loop : Loop
asleep_loop = record {
  stop = false;
  efd = true;
  nthreads = 4;
  wait_threads = 4;
  alive_threads = 4;
  head0 = [];
  head1 = [];
  workers = replicate 4 waiting;
  main = polling;
  added = [];
  finished = [];
}

asleep-Reach : Reach asleep_loop
unfolding ev_loop_init test_queue
asleep-Reach =
    then_step
      (then_step
        (then_step (then_step start (enter 0 0 _ refl (inr refl))) (enter 0 1 _ refl (inl refl)))
        (enter 0 2 _ refl (inl refl)))
      (enter 0 3 _ refl (inl refl))

-- Request 7 is added, and thread 0 is woken for it.
abbrev queued_loop : Loop
queued_loop = record asleep_loop {
  head0 = 7 ∷ [];
  workers = woken ∷ replicate 3 waiting;
  added = 7 ∷ [];
}

queued-Reach : Reach queued_loop
unfolding ev_req_add
queued-Reach = then_step asleep-Reach (add 0 7 _ (inl refl))

main_apart : polling ≢ draining
main_apart e = cc

-- The callback was called, and all is quiet again.
abbrev quiet_loop : Loop
quiet_loop = record asleep_loop { efd = false; added = 7 ∷ []; finished = 7 ∷ [] }

quiet-Reach : Reach quiet_loop
unfolding resume test_queue post drain
quiet-Reach =
    let taken = then_step queued-Reach (leave_wait 1 0 _ refl (inl refl)) in
    let posted =
      then_step (then_step taken (work 0 7 _ refl))
        (add_result 0 7 _ refl (λ (e : polling ≡ draining). main_apart e)) in
    let slept = then_step posted (enter 1 0 _ refl (inl refl)) in
    let held = then_step (then_step slept (poll _ refl refl)) (lock _ refl) in
    then_step (then_step held (round _ refl)) (round _ refl)

quiet-finished_example : count 7 quiet_loop.finished ≡ count 7 quiet_loop.added
quiet-finished_example = quiet-finished quiet-Reach (refl, (refl, (refl, (refl, tt)))) refl refl 7

added-kept_example :
    count 7 queued_loop.added
    ≡ count 7 queued_loop.head0
      + total (holding 7) queued_loop.workers
      + count 7 queued_loop.head1
      + count 7 queued_loop.finished
added-kept_example = added-kept queued-Reach 7

queued-served_example :
    (k : ℕ) × ((get_elem? queued_loop.workers k ≡ some locking)
      ⊎ (get_elem? queued_loop.workers k ≡ some woken))
queued-served_example = queued-served 1 queued-Reach (λ e. cc) refl

wait_threads-exact_example :
    (queued_loop.wait_threads ≡ total in_wait queued_loop.workers) × (queued_loop.wait_threads ≤ 4)
wait_threads-exact_example = wait_threads-exact queued-Reach

await_threads-endless_example :
    await_threads (asleep_loop ∷ queued_loop ∷ quiet_loop ∷ []) ≡ out_of_fuel
await_threads-endless_example =
    await_threads-endless (asleep_loop ∷ queued_loop ∷ quiet_loop ∷ [])
      (asleep-Reach, (queued-Reach, (quiet-Reach, tt)))
