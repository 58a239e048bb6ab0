-- ===== src/Epoll/Order.antt =====
-- The tasks of epoll.cc are run in the order in which they were added.
use mathlib.Core.Path.{subst}
use ryze.Base.{
  ℕ, ◌+◌, ◌-◌, ◌≤◌, ◌<◌, ◌≡◌, ◌≢◌, refl, ap, sym, ◌∙◌, ◌⊎◌, inl, inr, ◌==◌, Bool-cases, List, [],
  ◌∷◌, ◌++◌, arith,
}
use mathlib.Core.List.{append_assoc, append-nil}
use ryze.Ev.Workers.{count}
use ryze.Ev.Invariant.{count-append}
use ryze.Epoll.{
  Stage, locking, writing, ended, dangling, Thread, Main, finished, Program, update, rounds,
  start_program, add_task, end_round, write_event, run_tasks, process_task, Step, add, write, poll,
  process, read, timeout, Reach, here, then_step,
}

run_tasks-append : (qs run : List ℕ) → run_tasks qs run ≡ run ++ qs
unfolding run_tasks
run_tasks-append [] run = sym (append-nil run)
run_tasks-append (q ∷ qs) run = run_tasks-append qs (run ++ (q ∷ [])) ∙ append_assoc run (q ∷ []) qs

-- The rounds that a thread has begun and not ended.
abbrev begun : Stage → ℕ
begun s = elim s [ writing ↦ 1 | _ ↦ 0 ]

-- A thread before its lock has a round left.
record Rounds (i : ℕ) (added : List ℕ) (t : Thread) : Type 0 where
  total : count i added + t.count ≡ rounds + begun t.stage
  more : (t.stage ≡ locking) ⊎ (t.stage ≡ writing) → 0 < t.count

record Inv (n : ℕ) (p : Program) : Type 0 where
  size : p.size ≡ n
  kept : p.added ≡ p.run ++ p.head
  each : (i : ℕ) → i < n → Rounds i p.added (p.threads i)

count-snoc :
    (j i : ℕ) (added : List ℕ) → count j (added ++ (i ∷ [])) ≡ count j added + count j (i ∷ [])
count-snoc j i added = count-append j added (i ∷ [])

add-Rounds :
    (i : ℕ) (added : List ℕ) (t : Thread)
    → t.stage ≡ locking
    → Rounds i added t
    → Rounds i (added ++ (i ∷ [])) (record t { stage = writing })
add-Rounds i added t at r = record {
  total =
      let one : count i (i ∷ []) ≡ 1 = ground arith in
      let z : begun t.stage ≡ 0 = rw at refl in omega (arith, r.total, count-snoc i i added);
  more = λ _. r.more (inl at);
}

other-Rounds :
    (j i : ℕ) (added : List ℕ) (t : Thread)
    → j ≢ i
    → Rounds j added t
    → Rounds j (added ++ (i ∷ [])) t
other-Rounds j i added t ne r = record {
  total =
      let none : count j (i ∷ []) ≡ 0 = ground arith in
      omega (arith, r.total, count-snoc j i added);
  more = r.more;
}

end_round-Rounds :
    (i : ℕ) (added : List ℕ) (t : Thread)
    → t.stage ≡ writing
    → Rounds i added t
    → Rounds i added (end_round t)
unfolding end_round
end_round-Rounds i added t at r =
    let some_round : 0 < t.count = r.more (inr at) in
    let one : begun t.stage ≡ 1 = rw at refl in
    elim (Bool-cases (t.count - 1 == 0)) [
      | inl over ↦ rw over (record {
        total = let z : t.count - 1 ≡ 0 = ground arith in omega (arith, r.total);
        more = λ s. absurd (elim s [ inl a ↦ cc | inr a ↦ cc ]);
      })
      | inr more ↦ rw more (record { total = omega (arith, r.total); more = λ s. ground arith })
    ]

stop-Rounds :
    (i : ℕ) (added : List ℕ) (t : Thread)
    → t.stage ≡ locking
    → Rounds i added t
    → Rounds i added (record t { stage = dangling })
stop-Rounds i added t at r = record {
  total = let z : begun t.stage ≡ 0 = rw at refl in omega (arith, r.total);
  more = λ s. absurd (elim s [ inl a ↦ cc | inr a ↦ cc ]);
}

count-le :
    (i : ℕ) (added : List ℕ) (t : Thread) (s : Stage)
    → t.stage ≡ s
    → Rounds i added t
    → count i added ≤ 3
count-le i added t writing at r =
    let one : begun t.stage ≡ 1 = ap begun at in omega (arith, r.total, r.more (inr at))
count-le i added t locking at r = let z : begun t.stage ≡ 0 = ap begun at in omega (arith, r.total)
count-le i added t ended at r = let z : begun t.stage ≡ 0 = ap begun at in omega (arith, r.total)
count-le i added t dangling at r = let z : begun t.stage ≡ 0 = ap begun at in omega (arith, r.total)

module _ (n : ℕ) where
  update-Rounds :
      (i : ℕ) (t : Thread) (threads : ℕ → Thread) (added : List ℕ)
      → (i < n → Rounds i added t)
      → ((j : ℕ) → j < n → j ≢ i → Rounds j added (threads j))
      → (j : ℕ) → j < n
      → Rounds j added (update threads i t j)
  update-Rounds i t threads added new old j lt = elim (Bool-cases (j == i)) [
    | inl e ↦
        let eq : j ≡ i = ground arith in
        rw e (subst (λ k. Rounds k added t) (sym eq) (new (omega arith)))
    | inr ne ↦ rw ne (old j lt (ground arith))
  ]

  add_task-Inv :
      (i : ℕ) (m : Main) (p : Program)
      → (p.threads i).stage ≡ locking
      → Inv n p
      → Inv n (add_task i m p)
  unfolding add_task
  add_task-Inv i finished p at inv = record {
    size = inv.size;
    kept = inv.kept;
    each =
        update-Rounds i _ p.threads p.added
          (λ lt. stop-Rounds i p.added (p.threads i) at (inv.each i lt)) (λ j lt _. inv.each j lt);
  }
  add_task-Inv i m p at inv = record {
    size = inv.size;
    kept = ap (λ (l : List ℕ). l ++ (i ∷ [])) inv.kept ∙ append_assoc p.run p.head (i ∷ []);
    each =
        update-Rounds i _ p.threads (p.added ++ (i ∷ []))
          (λ lt. add-Rounds i p.added (p.threads i) at (inv.each i lt))
          (λ j lt ne. other-Rounds j i p.added (p.threads j) ne (inv.each j lt));
  }

  Step-Inv : {p q : Program} → Step p q → Inv n p → Inv n q
  unfolding write_event process_task
  Step-Inv (add i p lt at) inv = add_task-Inv i p.main p at inv
  Step-Inv (write i p lt at) inv = record {
    size = inv.size;
    kept = inv.kept;
    each =
        update-Rounds i _ p.threads p.added
          (λ lt. end_round-Rounds i p.added (p.threads i) at (inv.each i lt))
          (λ j lt _. inv.each j lt);
  }
  Step-Inv (poll p at event) inv = record { size = inv.size; kept = inv.kept; each = inv.each }
  Step-Inv (process p at) inv = record {
    size = inv.size;
    kept = rw (run_tasks-append p.head p.run) (inv.kept ∙ sym (append-nil (p.run ++ p.head)));
    each = inv.each;
  }
  Step-Inv (read p at) inv = record { size = inv.size; kept = inv.kept; each = inv.each }
  Step-Inv (timeout p at quiet) inv = record { size = inv.size; kept = inv.kept; each = inv.each }

  start-Inv : Inv n (start_program n)
  unfolding start_program
  start-Inv = record {
    size = refl;
    kept = refl;
    each = λ i lt. record { total = refl; more = λ _. omega arith };
  }

  Reach-Inv : {p : Program} → Reach (start_program n) p → Inv n p
  Reach-Inv here = start-Inv
  Reach-Inv (then_step reach step) = Step-Inv step (Reach-Inv reach)

  -- In every state that the program reaches, the tasks that were added are, in this order, those
  -- that were run and those in the list, and no thread has added more than three.
  pub added-fifo :
      {p : Program}
      → Reach (start_program n) p
      → (p.added ≡ p.run ++ p.head) × ((i : ℕ) → i < n → count i p.added ≤ 3)
  added-fifo {p} reach =
      let inv = Reach-Inv reach in
      (inv.kept, λ i lt. count-le i p.added (p.threads i) (p.threads i).stage refl (inv.each i lt))
