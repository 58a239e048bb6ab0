-- ===== src/ThreadPool/Reachable.antt =====
-- The invariant of the whole pool, kept by every step.
use mathlib.Core.Path.{subst}
use ryze.Base.{
  Bool, ℕ, suc, ◌<◌, true, false, ◌≡◌, ◌≢◌, refl, sym, ◌∙◌, inl, inr, ltb, ◌==◌, Bool-cases, arith,
}
use ryze.ThreadPool.{
  Info, Main, adding, finished, signalling, marking, telling, checking, nudging, Pool, update,
  create_info, ev_thread_pool_init, ev_task_info_add, first_test, second_test, run_task, leave,
  wake, mark, after_mark, after_free, check_info, Step, add, signal, destroy, mark_info, tell,
  check, nudge, first, second, spurious, run_next, last, Reach, here, then_step,
}
use ryze.ThreadPool.Invariant.{
  InfoInv, marked, released, fresh-InfoInv, ev_task_info_add-InfoInv, wake-InfoInv,
  first_test-InfoInv, second_test-InfoInv, run_task-InfoInv, leave-InfoInv, mark-InfoInv,
  free-InfoInv,
}

abbrev pub Infos : ℕ → Main → (ℕ → Info) → Type 0
Infos n m infos = (i : ℕ) → i < n → InfoInv (marked m i) (released m i) (infos i)

-- A change of one thread, and of what `main` has done to it.
update-Infos :
    (n j : ℕ) (m m' : Main) (infos : ℕ → Info) (t : Info)
    → (j < n → InfoInv (marked m' j) (released m' j) t)
    → ((i : ℕ) → i < n → i ≢ j → (marked m' i ≡ marked m i) × (released m' i ≡ released m i))
    → Infos n m infos
    → Infos n m' (update infos j t)
update-Infos n j m m' infos t new same inv i lt = elim (Bool-cases (i == j)) [
  | inl e ↦
      let eq : i ≡ j = ground arith in
      rw e (subst (λ k. InfoInv (marked m' k) (released m' k) t) (sym eq) (new (omega arith)))
  | inr ne ↦ let (a, b) = same i lt (ground arith) in rw (ne, a, b) (inv i lt)
]

-- Where `main` only moves on.
main-Infos :
    (n : ℕ) (m m' : Main) (infos : ℕ → Info)
    → ((i : ℕ) → i < n → (marked m' i ≡ marked m i) × (released m' i ≡ released m i))
    → Infos n m infos
    → Infos n m' infos
main-Infos n m m' infos same inv i lt = let (a, b) = same i lt in rw (a, b) (inv i lt)

-- One thread moves, and `main` does not.
thread-Infos :
    (n i : ℕ) (m : Main) (infos : ℕ → Info) (t : Info)
    → InfoInv (marked m i) (released m i) t
    → Infos n m infos
    → Infos n m (update infos i t)
thread-Infos n i m infos t new inv =
    update-Infos n i m m infos t (λ _. new) (λ _ _ _. (refl, refl)) inv

add-Infos :
    (n j r : ℕ) (infos : ℕ → Info)
    → Infos n adding infos
    → Infos n (signalling j) (update infos j (ev_task_info_add r (infos j)))
add-Infos n j r infos inv =
    update-Infos n j adding (signalling j) infos (ev_task_info_add r (infos j))
      (λ lt. ev_task_info_add-InfoInv r (inv j lt)) (λ _ _ _. (refl, refl)) inv

wake-Infos :
    (n j : ℕ) (m : Main) (infos : ℕ → Info)
    → Infos n m infos
    → Infos n m (update infos j (wake (infos j)))
wake-Infos n j m infos inv =
    update-Infos n j m m infos (wake (infos j)) (λ lt. wake-InfoInv (inv j lt))
      (λ _ _ _. (refl, refl)) inv

mark-Infos :
    (n j : ℕ) (infos : ℕ → Info)
    → Infos n (marking j) infos
    → Infos n (telling j) (update infos j (mark (infos j)))
mark-Infos n j infos inv =
    let off : ltb j j ≡ false = ground arith in
    let on : ltb j (suc j) ≡ true = ground arith in
    update-Infos n j (marking j) (telling j) infos (mark (infos j))
      (λ lt. rw on (mark-InfoInv (subst (λ b. InfoInv b false (infos j)) off (inv j lt))))
      (λ i _ ne. (ground arith, refl)) inv

after_mark-Infos :
    (n j : ℕ) (infos : ℕ → Info) → Infos n (telling j) infos → Infos n (after_mark n j) infos
unfolding after_mark
after_mark-Infos n j infos inv = elim (Bool-cases (ltb (suc j) n)) [
  | inl more ↦ rw more (main-Infos n (telling j) (marking (suc j)) infos (λ _ _. (refl, refl)) inv)
  | inr none ↦
      rw none
        (main-Infos n (telling j) (checking 0) infos (λ i lt. (ground arith, ground arith)) inv)
]

free-Infos :
    (n j : ℕ) (infos : ℕ → Info)
    → (infos j).status ≡ 2
    → Infos n (checking j) infos
    → Infos n (after_free n j) (update infos j (record (infos j) { freed = true }))
unfolding after_free
free-Infos n j infos two inv =
    let t : Info = record (infos j) { freed = true } in
    let on : ltb j (suc j) ≡ true = ground arith in
    elim (Bool-cases (ltb (suc j) n)) [
      | inl more ↦ rw more (
          update-Infos n j (checking j) (checking (suc j)) infos t
            (λ lt. rw on (free-InfoInv two (inv j lt))) (λ i _ ne. (refl, ground arith)) inv)
      | inr none ↦ rw none (
          update-Infos n j (checking j) finished infos t (λ lt. free-InfoInv two (inv j lt))
            (λ i lt ne. (refl, ground arith)) inv)
    ]

check-Infos :
    (j : ℕ) (p : Pool)
    → Infos p.min_num (checking j) p.infos
    → p.main ≡ checking j
    → Infos p.min_num (check_info j p).main (check_info j p).infos
unfolding check_info
check-Infos j p inv at = elim (Bool-cases ((p.infos j).status == 2)) [
  | inl two ↦ rw two (free-Infos p.min_num j p.infos (ground arith) inv)
  | inr other ↦
      rw other (main-Infos p.min_num (checking j) (nudging j) p.infos (λ _ _. (refl, refl)) inv)
]

min_num-check_info : (j : ℕ) (p : Pool) → (check_info j p).min_num ≡ p.min_num
unfolding check_info
min_num-check_info j p = elim (Bool-cases ((p.infos j).status == 2)) [
  | inl two ↦ rw two refl
  | inr other ↦ rw other refl
]

-- The number of threads stays, and so does the invariant.
pub record PoolInv (n : ℕ) (p : Pool) : Type 0 where
  pub size : p.min_num ≡ n
  pub each : Infos p.min_num p.main p.infos

-- Where `main` stands at `m`.
at_main : {n : ℕ} {p : Pool} (m : Main) → p.main ≡ m → PoolInv n p → Infos p.min_num m p.infos
at_main {n} {p} m e inv = subst (λ k. Infos p.min_num k p.infos) e inv.each

pub Step-PoolInv : {n : ℕ} {p q : Pool} → Step p q → PoolInv n p → PoolInv n q
Step-PoolInv (add j r p e lt free) inv = record {
  size = inv.size;
  each = add-Infos p.min_num j r p.infos (at_main adding e inv);
}
Step-PoolInv (signal j p e) inv = record {
  size = inv.size;
  each =
      main-Infos p.min_num (signalling j) adding (update p.infos j (wake (p.infos j)))
        (λ _ _. (refl, refl))
        (wake-Infos p.min_num j (signalling j) p.infos (at_main (signalling j) e inv));
}
Step-PoolInv (destroy p e) inv = record {
  size = inv.size;
  each =
      main-Infos p.min_num adding (marking 0) p.infos (λ i _. (ground arith, refl))
        (at_main adding e inv);
}
Step-PoolInv (mark_info j p e lt free) inv = record {
  size = inv.size;
  each = mark-Infos p.min_num j p.infos (at_main (marking j) e inv);
}
Step-PoolInv (tell j p e) inv = record {
  size = inv.size;
  each =
      after_mark-Infos p.min_num j (update p.infos j (wake (p.infos j)))
        (wake-Infos p.min_num j (telling j) p.infos (at_main (telling j) e inv));
}
Step-PoolInv (check j p e lt free) inv = record {
  size = min_num-check_info j p ∙ inv.size;
  each = rw (min_num-check_info j p) (check-Infos j p (at_main (checking j) e inv) e);
}
Step-PoolInv (nudge j p e) inv = record {
  size = inv.size;
  each =
      main-Infos p.min_num (nudging j) (checking j) (update p.infos j (wake (p.infos j)))
        (λ _ _. (refl, refl))
        (wake-Infos p.min_num j (nudging j) p.infos (at_main (nudging j) e inv));
}
Step-PoolInv (first i p lt at) inv = record {
  size = inv.size;
  each =
      thread-Infos p.min_num i p.main p.infos (first_test (p.infos i).tasks (p.infos i))
        (first_test-InfoInv (p.infos i).tasks refl at (inv.each i lt)) inv.each;
}
Step-PoolInv (second i p lt at) inv = record {
  size = inv.size;
  each =
      thread-Infos p.min_num i p.main p.infos (second_test (p.infos i).tasks (p.infos i))
        (second_test-InfoInv (p.infos i).tasks refl at (inv.each i lt)) inv.each;
}
Step-PoolInv (spurious i p lt at) inv = record {
  size = inv.size;
  each = wake-Infos p.min_num i p.main p.infos inv.each;
}
Step-PoolInv (run_next i r p lt at) inv = record {
  size = inv.size;
  each =
      thread-Infos p.min_num i p.main p.infos (run_task r (p.infos i))
        (run_task-InfoInv r at (inv.each i lt)) inv.each;
}
Step-PoolInv (last i p lt at) inv = record {
  size = inv.size;
  each =
      thread-Infos p.min_num i p.main p.infos (leave (p.infos i)) (leave-InfoInv at (inv.each i lt))
        inv.each;
}

pub Reach-PoolInv : {n : ℕ} {p q : Pool} → PoolInv n p → Reach p q → PoolInv n q
Reach-PoolInv inv here = inv
Reach-PoolInv inv (then_step reach step) = Step-PoolInv step (Reach-PoolInv inv reach)

pub ev_thread_pool_init-PoolInv :
    (n m : ℕ) (begins : ℕ → Bool)
    → ((i : ℕ) → i < n → begins i ≡ false)
    → PoolInv n (ev_thread_pool_init n m begins)
unfolding ev_thread_pool_init create_info
ev_thread_pool_init-PoolInv n m begins none_early = record {
  size = refl;
  each = λ i lt. rw (none_early i lt) fresh-InfoInv;
}
