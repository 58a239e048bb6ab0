-- ===== src/Tests/Etp.antt =====
-- One thread and one request, as in xxx/main22.c.
use ryze.Base.{◌≡◌, refl, true, false, [], ◌∷◌, arith}
use ryze.Ev.Workers.{ended, count}
use ryze.Etp.{
  Loop, start_loop, take_entry, add_result, process_work, take, work, post, poll, process, Reach,
  start, then_step,
}
use ryze.Etp.Delivery.{ended-freed}

abbrev freed_loop : Loop
freed_loop = record {
  head0 = [];
  head1 = [];
  workers = ended ∷ [];
  event = false;
  polling = true;
  freed = 7 ∷ [];
}

freed-Reach : Reach 1 (7 ∷ []) freed_loop
unfolding start_loop take_entry add_result process_work
freed-Reach =
    let posted =
      then_step (then_step (then_step start (take 0 _ refl)) (work 0 7 _ refl)) (post 0 7 _ refl) in
    then_step (then_step (then_step posted (take 0 _ refl)) (poll _ refl refl)) (process _ refl)

ended-freed_example : count 7 freed_loop.freed ≡ count 7 (7 ∷ [])
ended-freed_example = ended-freed freed-Reach (omega arith) (refl, tt) refl refl 7
