-- ===== src/ThreadPool/Invariant.antt =====
-- What holds of each thread of the pool, whatever the interleaving.
use ryze.Base.{
  ℕ, suc, ◌+◌, ◌≤◌, Bool, true, false, ◌≡◌, ◌≢◌, refl, ap, ◌∙◌, inl, inr, ltb, ◌==◌, if◌then◌else◌,
  Bool-cases, List, [], ◌∷◌, ◌++◌, arith,
}
use mathlib.Core.List.{append_assoc, append-nil}
use ryze.ThreadPool.{
  Stage, locking, waiting, woken, stuck, leaving, ended, dangling, early, running, Info, Main,
  adding, finished, signalling, marking, telling, checking, nudging, fresh, ev_task_info_add,
  first_test, second_test, run_task, leave, awake, wake, mark,
}

-- The task that a thread runs.
abbrev pub held : Stage → List ℕ
held s = elim s [ running r ↦ r ∷ [] | _ ↦ [] ]

-- 1 for a thread that has left its loop.
abbrev pub left : Stage → ℕ
left s = elim s [ leaving ↦ 1 | ended ↦ 1 | dangling ↦ 1 | _ ↦ 0 ]

abbrev bit : Bool → ℕ
bit b = if b then 1 else 0

-- Whether `ev_thread_pool_destroy` has marked the thread at place `i`, and freed its struct.
abbrev pub marked : Main → ℕ → Bool
marked adding i = false
marked (signalling j) i = false
marked (marking j) i = ltb i j
marked (telling j) i = ltb i (suc j)
marked (checking j) i = true
marked (nudging j) i = true
marked finished i = true

abbrev pub released : Main → ℕ → Bool
released adding i = false
released (signalling j) i = false
released (marking j) i = false
released (telling j) i = false
released (checking j) i = ltb i j
released (nudging j) i = ltb i j
released finished i = true

-- The tasks that were added are, in this order, the ones run, the one that runs, the ones in the
-- list and the ones freed unrun.
pub record InfoInv (m r : Bool) (t : Info) : Type 0 where
  pub kept : t.added ≡ t.run ++ (held t.stage ++ (t.tasks ++ t.dropped))
  pub status : t.status ≡ bit m + left t.stage
  pub left_marked : left t.stage ≤ bit m
  pub before : m ≡ false → t.dropped ≡ []
  pub after : m ≡ true → t.tasks ≡ []
  pub freed : t.freed ≡ r
  pub freed_left : r ≡ true → left t.stage ≡ 1

pub fresh-InfoInv : InfoInv false false fresh
fresh-InfoInv = record {
  kept = refl;
  status = refl;
  left_marked = omega arith;
  before = λ _. refl;
  after = λ e. absurd (cc);
  freed = refl;
  freed_left = λ e. absurd (cc);
}

awake-same : (s : Stage) → (held (awake s) ≡ held s) × (left (awake s) ≡ left s)
unfolding awake
awake-same locking = (refl, refl)
awake-same waiting = (refl, refl)
awake-same woken = (refl, refl)
awake-same stuck = (refl, refl)
awake-same leaving = (refl, refl)
awake-same ended = (refl, refl)
awake-same dangling = (refl, refl)
awake-same early = (refl, refl)
awake-same (running r) = (refl, refl)

left_by :
    (b : Bool)
    → (held (if b then dangling else ended) ≡ []) × (left (if b then dangling else ended) ≡ 1)
left_by true = (refl, refl)
left_by false = (refl, refl)

module _ {r : Bool} {t : Info} where
  pub ev_task_info_add-InfoInv :
      (q : ℕ) → InfoInv false r t → InfoInv false r (ev_task_info_add q t)
  unfolding ev_task_info_add
  ev_task_info_add-InfoInv q inv = record {
    kept =
        let none = inv.before refl in
        let k : t.added ≡ t.run ++ (held t.stage ++ t.tasks) =
          inv.kept
          ∙ ap (λ d. t.run ++ (held t.stage ++ d)) (ap (◌++◌ t.tasks) none ∙ append-nil t.tasks) in
        simp (k, none, append-nil, append_assoc);
    status = inv.status;
    left_marked = inv.left_marked;
    before = inv.before;
    after = λ e. absurd (cc);
    freed = inv.freed;
    freed_left = inv.freed_left;
  }

  pub wake-InfoInv : {m : Bool} → InfoInv m r t → InfoInv m r (wake t)
  unfolding wake
  wake-InfoInv inv =
      let (h, l) = awake-same t.stage in
      record {
        kept = rw h inv.kept;
        status = rw l inv.status;
        left_marked = rw l inv.left_marked;
        before = inv.before;
        after = inv.after;
        freed = inv.freed;
        freed_left = rw l inv.freed_left;
      }

  -- A thread takes the first task.
  take-InfoInv :
      {m : Bool} (q : ℕ) (qs : List ℕ)
      → t.tasks ≡ q ∷ qs
      → held t.stage ≡ []
      → left t.stage ≡ 0
      → InfoInv m r t
      → InfoInv m r (record t { tasks = qs; stage = running q })
  take-InfoInv {m} q qs e h l inv = record {
    kept = inv.kept ∙ rw (h, e) refl;
    status = inv.status ∙ rw l refl;
    left_marked = omega arith;
    before = inv.before;
    after = λ on. let none = inv.after on in absurd (cc);
    freed = inv.freed;
    freed_left = λ on. let one = inv.freed_left on in absurd (omega arith);
  }

  -- A thread moves on and stays in its loop.
  move-InfoInv :
      {m : Bool} (s : Stage)
      → held s ≡ held t.stage
      → left s ≡ left t.stage
      → InfoInv m r t
      → InfoInv m r (record t { stage = s })
  move-InfoInv s h l inv = record {
    kept = rw h inv.kept;
    status = rw l inv.status;
    left_marked = rw l inv.left_marked;
    before = inv.before;
    after = inv.after;
    freed = inv.freed;
    freed_left = rw l inv.freed_left;
  }

  pub first_test-InfoInv :
      {m : Bool} (qs : List ℕ)
      → t.tasks ≡ qs
      → t.stage ≡ locking
      → InfoInv m r t
      → InfoInv m r (first_test qs t)
  unfolding first_test
  first_test-InfoInv [] e at inv = move-InfoInv waiting (rw at refl) (rw at refl) inv
  first_test-InfoInv (q ∷ qs) e at inv = take-InfoInv q qs e (rw at refl) (rw at refl) inv

  leave_loop-InfoInv :
      {m : Bool}
      → held t.stage ≡ []
      → left t.stage ≡ 0
      → t.status ≢ 0
      → InfoInv m r t
      → InfoInv m r (record t { status = t.status + 1; stage = leaving })
  leave_loop-InfoInv h l ne inv = record {
    kept = inv.kept ∙ rw h refl;
    status = omega (arith, inv.status, l);
    left_marked = let s = inv.status in omega arith;
    before = inv.before;
    after = inv.after;
    freed = inv.freed;
    freed_left = λ _. refl;
  }

  pub second_test-InfoInv :
      {m : Bool} (qs : List ℕ)
      → t.tasks ≡ qs
      → t.stage ≡ woken
      → InfoInv m r t
      → InfoInv m r (second_test qs t)
  unfolding second_test
  second_test-InfoInv [] e at inv = elim (Bool-cases (t.status == 0)) [
    | inl none ↦ rw none (move-InfoInv stuck (rw at refl) (rw at refl) inv)
    | inr some ↦ rw some (leave_loop-InfoInv (rw at refl) (rw at refl) (ground arith) inv)
  ]
  second_test-InfoInv (q ∷ qs) e at inv = take-InfoInv q qs e (rw at refl) (rw at refl) inv

  pub run_task-InfoInv :
      {m : Bool} (q : ℕ) → t.stage ≡ running q → InfoInv m r t → InfoInv m r (run_task q t)
  unfolding run_task
  run_task-InfoInv q at inv = record {
    kept = inv.kept ∙ rw at (simp append_assoc);
    status = inv.status ∙ rw at refl;
    left_marked = omega arith;
    before = inv.before;
    after = inv.after;
    freed = inv.freed;
    freed_left = λ on.
        let l = inv.freed_left on in let z : left t.stage ≡ 0 = rw at refl in absurd (omega arith);
  }

  pub leave-InfoInv : {m : Bool} → t.stage ≡ leaving → InfoInv m r t → InfoInv m r (leave t)
  unfolding leave
  leave-InfoInv at inv =
      let (h, l) = left_by t.freed in
      move-InfoInv (if t.freed then dangling else ended) (rw at h) (rw at l) inv

  pub mark-InfoInv : InfoInv false r t → InfoInv true r (mark t)
  unfolding mark
  mark-InfoInv inv = record {
    kept = inv.kept ∙ rw (inv.before refl) (simp append-nil);
    status = omega (arith, inv.status);
    left_marked = omega (arith, inv.left_marked);
    before = λ e. absurd (cc);
    after = λ _. refl;
    freed = inv.freed;
    freed_left = inv.freed_left;
  }

  pub free-InfoInv : t.status ≡ 2 → InfoInv true r t → InfoInv true true (record t { freed = true })
  free-InfoInv two inv = record {
    kept = inv.kept;
    status = inv.status;
    left_marked = inv.left_marked;
    before = inv.before;
    after = inv.after;
    freed = refl;
    freed_left = λ _. omega (arith, inv.status);
  }
