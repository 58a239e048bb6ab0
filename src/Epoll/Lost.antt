-- ===== src/Epoll/Lost.antt =====
-- `process_task` of epoll.cc reads the eventfd after it has run the tasks: an event that comes in
-- between is lost.
use mathlib.Core.Path.{subst}
use ryze.Base.{
  ℕ, ◌<◌, Bool, true, false, ◌&&◌, ◌≡◌, ◌≢◌, refl, ◌∙◌, ◌⊎◌, inl, inr, ◌==◌, Bool-cases, [], ◌∷◌,
  ◌++◌, arith,
}
use ryze.Epoll.{
  locking, ended, polling, reading, finished, Program, add_task, end_round, write_event, Step, add,
  write, poll, process, read, timeout, Reach, here, then_step,
}

-- All threads have ended, and `main` waits with no event, or has ended too.
record Quiet (p : Program) : Type 0 where
  past : (j : ℕ) → j < p.size → (p.threads j).stage ≡ ended
  still : p.counter ≡ false
  waits : (p.main ≡ polling) ⊎ (p.main ≡ finished)

no_event : (edge counter : Bool) → counter ≡ false → (edge && counter) ≡ false
no_event true counter e = e
no_event false counter e = refl

Step-Quiet : {p q : Program} → Step p q → Quiet p → Quiet q × (q.run ≡ p.run)
Step-Quiet (add i p lt at) quiet = let e = quiet.past i lt in absurd (cc)
Step-Quiet (write i p lt at) quiet = let e = quiet.past i lt in absurd (cc)
Step-Quiet (poll p at event) quiet = let none = no_event p.edge p.counter quiet.still in absurd (cc)
Step-Quiet (process p at) quiet = absurd (elim quiet.waits [ inl e ↦ cc | inr e ↦ cc ])
Step-Quiet (read p at) quiet = absurd (elim quiet.waits [ inl e ↦ cc | inr e ↦ cc ])
Step-Quiet (timeout p at none) quiet =
    (record { past = quiet.past; still = quiet.still; waits = inr refl }, refl)

Reach-Quiet : {p q : Program} → Quiet p → Reach p q → Quiet q × (q.run ≡ p.run)
Reach-Quiet quiet here = (quiet, refl)
Reach-Quiet quiet (then_step reach step) =
    let (before, same) = Reach-Quiet quiet reach in
    let (after, same') = Step-Quiet step before in (after, same' ∙ same)

-- From a state where `main` has run the tasks and not read the eventfd, and one thread is about to
-- add its last task while the others have ended, there is a run to a state that has this task in
-- the list, and from which no task is run any more.
pub late-lost :
    (i : ℕ) (p : Program)
    → p.main ≡ reading
    → i < p.size
    → (p.threads i).stage ≡ locking
    → (p.threads i).count ≡ 1
    → ((j : ℕ) → j < p.size → j ≢ i → (p.threads j).stage ≡ ended)
    → (q : Program) × Reach p q
      × (q.head ≡ p.head ++ (i ∷ []))
      × ((r : Program) → Reach q r → r.run ≡ p.run)
unfolding add_task write_event end_round
late-lost i p on lt at once others =
    let self : (i == i) ≡ true = ground arith in
    let s0 : Reach p p = here in
    let added : Reach p (add_task i reading p) =
      then_step s0 (subst (λ m. Step p (add_task i m p)) on (add i p lt at)) in
    let written = then_step added (write i _ lt (simp self)) in
    let end = then_step written (read _ on) in
    (
      _,
      end,
      refl,
      λ r more.
          (Reach-Quiet
            (record {
              past = λ j lt'. elim (Bool-cases (j == i)) [
                | inl e ↦ simp (e, self, once)
                | inr ne ↦ rw ne (others j lt' (ground arith))
              ];
              still = refl;
              waits = inl refl;
            })
            more).1,
    )
