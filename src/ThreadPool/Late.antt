-- ===== src/ThreadPool/Late.antt =====
-- A signal of ev_thread_pool.cc that comes late.
use ryze.Base.{ℕ, ◌<◌, true, ◌≡◌, refl, ◌==◌, [], arith}
use ryze.ThreadPool.{
  locking, stuck, adding, Pool, ev_task_info_add, first_test, second_test, run_task, awake, wake,
  add, signal, first, second, run_next, Reach, here, then_step,
}

-- From a state where `main` is about to add a task, and thread `j` is on the way into its mutex
-- with no task and not told to end, there is a run that leaves the thread waiting for its own
-- mutex: the task is run before `main` signals, and the signal wakes the thread from its next wait.
pub late-stuck :
    (j r : ℕ) (p : Pool)
    → p.main ≡ adding
    → j < p.min_num
    → (p.infos j).stage ≡ locking
    → (p.infos j).tasks ≡ []
    → (p.infos j).status ≡ 0
    → (q : Pool) × Reach p q × ((q.infos j).stage ≡ stuck)
unfolding ev_task_info_add first_test second_test run_task wake awake
late-stuck j r p at lt on none run =
    let self : (j == j) ≡ true = ground arith in
    let s0 : Reach p p = here in
    let s1 = then_step s0 (add j r p at lt (λ s. cc)) in
    let s2 = then_step s1 (first j _ lt (simp (self, on))) in
    let s3 = then_step s2 (run_next j r _ lt (simp (self, none))) in
    let s4 = then_step s3 (first j _ lt (simp (self, none))) in
    let s5 = then_step s4 (signal j _ refl) in
    let s6 = then_step s5 (second j _ lt (simp (self, none))) in (_, s6, simp (self, none, run))
