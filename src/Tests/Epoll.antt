-- ===== src/Tests/Epoll.antt =====
-- The program of epoll.cc with one thread.
use ryze.Base.{ℕ, ◌≡◌, ◌≤◌, ◌<◌, refl, true, [], ◌∷◌, ◌++◌, arith}
use ryze.Ev.Workers.{count}
use ryze.Epoll.{
  locking, reading, Program, start_program, add_task, end_round, write_event, process_task, add,
  write, poll, process, Reach, here, then_step,
}
use ryze.Epoll.Order.{added-fifo}
use ryze.Epoll.Lost.{late-lost}

abbrev one_thread : Program
one_thread = start_program 1

only : 0 < 1
only = omega arith

-- One task is run.
abbrev one_round : (p : Program) × Reach one_thread p × (p.main ≡ reading)
unfolding start_program add_task write_event process_task end_round
one_round =
    let start : Reach one_thread one_thread = here in
    let posted = then_step (then_step start (add 0 _ only refl)) (write 0 _ only refl) in
    (_, then_step (then_step posted (poll _ refl refl)) (process _ refl), refl)

added-fifo_example :
    (one_round.0.added ≡ one_round.0.run ++ one_round.0.head)
    × ((i : ℕ) → i < 1 → count i one_round.0.added ≤ 3)
added-fifo_example = added-fifo 1 one_round.1

-- The thread has one task left.
abbrev last_round : Program
last_round = record {
  size = 1;
  threads = λ _. record { stage = locking; count = 1 };
  main = reading;
  head = [];
  edge = true;
  counter = true;
  added = 0 ∷ 0 ∷ [];
  run = 0 ∷ 0 ∷ [];
}

late-lost_example :
    (q : Program) × Reach last_round q
    × (q.head ≡ 0 ∷ [])
    × ((r : Program) → Reach q r → r.run ≡ 0 ∷ 0 ∷ [])
late-lost_example =
    late-lost 0 last_round refl only refl refl (λ j lt ne. absurd (ne (omega arith)))
