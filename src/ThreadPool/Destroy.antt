-- ===== src/ThreadPool/Destroy.antt =====
-- What becomes of the tasks and of the threads of ev_thread_pool.cc when the pool is destroyed.
use ryze.Base.{
  ℕ, Bool, false, ◌<◌, true, ◌≡◌, ◌≢◌, refl, ap, sym, ◌∙◌, inl, inr, ◌==◌, Bool-cases, [], ◌++◌,
  arith,
}
use ryze.ThreadPool.{
  Stage, stuck, Info, finished, Pool, update, ev_thread_pool_init, wake, check_info, Step, add,
  signal, destroy, mark_info, tell, check, nudge, first, second, spurious, run_next, last, Reach,
  here, then_step,
}
use ryze.ThreadPool.Invariant.{InfoInv, held, left, marked, released}
use ryze.ThreadPool.Reachable.{Reach-PoolInv, ev_thread_pool_init-PoolInv}

left-held : (s : Stage) → left s ≡ 1 → held s ≡ []
left-held s e = ground arith

-- None of the threads begins before `ev_thread_pool_init` has filled in its struct.
abbrev pub NoneEarly : ℕ → (ℕ → Bool) → Type 0
NoneEarly n begins = (i : ℕ) → i < n → begins i ≡ false

module _ (n m : ℕ) (begins : ℕ → Bool) (none_early : NoneEarly n begins) {p : Pool}
    (reach : Reach (ev_thread_pool_init n m begins) p) (i : ℕ) (lt : i < n) where
  inv_of : InfoInv (marked p.main i) (released p.main i) (p.infos i)
  inv_of =
      let inv = Reach-PoolInv (ev_thread_pool_init-PoolInv n m begins none_early) reach in
      inv.each i (let s = inv.size in omega arith)

  -- In every state that the steps reach with no such thread, the tasks that were added to a thread are, in their order,
  -- those that it has run, the one that it runs, those in its list and those that the destroying of
  -- the pool has freed unrun.
  pub added-order : let t = p.infos i in t.added ≡ t.run ++ (held t.stage ++ (t.tasks ++ t.dropped))
  added-order = inv_of.kept

  -- In every state that the steps reach with no such thread, a thread whose struct is freed has left its loop: it has no
  -- task, and does not wait.
  pub freed-left : (p.infos i).freed ≡ true → left (p.infos i).stage ≡ 1
  freed-left on = inv_of.freed_left (sym inv_of.freed ∙ on)

  -- If the system lets no thread begin before `ev_thread_pool_init` has filled in its struct, then in
  -- a state that the steps reach where `ev_thread_pool_destroy` has returned, each struct is freed,
  -- its thread has left its loop, and each task has been run or freed, in the order in which they
  -- were added.
  pub finished-settled :
      p.main ≡ finished
      → ((p.infos i).freed ≡ true)
        × (left (p.infos i).stage ≡ 1)
        × ((p.infos i).added ≡ (p.infos i).run ++ (p.infos i).dropped)
  finished-settled e =
      let on : released p.main i ≡ true = rw e refl in
      let freed = inv_of.freed ∙ on in
      let out = inv_of.freed_left on in
      let none : (p.infos i).tasks ≡ [] = inv_of.after (rw e refl) in
      (freed, out, inv_of.kept ∙ rw (left-held (p.infos i).stage out, none) refl)

update-stuck :
    (infos : ℕ → Info) (j : ℕ) (t : Info) (i : ℕ)
    → (i ≡ j → t.stage ≡ stuck)
    → (infos i).stage ≡ stuck
    → (update infos j t i).stage ≡ stuck
update-stuck infos j t i same at = elim (Bool-cases (i == j)) [
  | inl e ↦ rw e (same (ground arith))
  | inr ne ↦ rw ne at
]

wake-stuck : (t : Info) → t.stage ≡ stuck → (wake t).stage ≡ stuck
unfolding wake
wake-stuck t at = rw at refl

-- The moves of another thread.
other-stuck :
    (infos : ℕ → Info) (j : ℕ) (t : Info) (i : ℕ)
    → (infos j).stage ≢ stuck
    → (infos i).stage ≡ stuck
    → (update infos j t i).stage ≡ stuck
other-stuck infos j t i free at =
    update-stuck infos j t i (λ e. absurd (free (ap (λ k. (infos k).stage) (sym e) ∙ at))) at

woken-stuck :
    (infos : ℕ → Info) (j i : ℕ)
    → (infos i).stage ≡ stuck
    → (update infos j (wake (infos j)) i).stage ≡ stuck
woken-stuck infos j i at =
    update-stuck infos j (wake (infos j)) i
      (λ e. wake-stuck (infos j) (ap (λ k. (infos k).stage) (sym e) ∙ at)) at

check-stuck :
    (j : ℕ) (p : Pool) (i : ℕ)
    → (p.infos i).stage ≡ stuck
    → ((check_info j p).infos i).stage ≡ stuck
unfolding check_info
check-stuck j p i at = elim (Bool-cases ((p.infos j).status == 2)) [
  | inl two ↦ rw two (
      update-stuck p.infos j (record (p.infos j) { freed = true }) i
        (λ e. ap (λ k. (p.infos k).stage) (sym e) ∙ at) at)
  | inr other ↦ rw other at
]

Step-stuck : {p q : Pool} (i : ℕ) → Step p q → (p.infos i).stage ≡ stuck → (q.infos i).stage ≡ stuck
Step-stuck i (add j r p e lt free) at = other-stuck p.infos j _ i free at
Step-stuck i (signal j p e) at = woken-stuck p.infos j i at
Step-stuck i (destroy p e) at = at
Step-stuck i (mark_info j p e lt free) at = other-stuck p.infos j _ i free at
Step-stuck i (tell j p e) at = woken-stuck p.infos j i at
Step-stuck i (check j p e lt free) at = check-stuck j p i at
Step-stuck i (nudge j p e) at = woken-stuck p.infos j i at
Step-stuck i (first j p lt on) at = other-stuck p.infos j _ i (λ s. cc) at
Step-stuck i (second j p lt on) at = other-stuck p.infos j _ i (λ s. cc) at
Step-stuck i (spurious j p lt on) at = woken-stuck p.infos j i at
Step-stuck i (run_next j r p lt on) at = other-stuck p.infos j _ i (λ s. cc) at
Step-stuck i (last j p lt on) at = other-stuck p.infos j _ i (λ s. cc) at

Reach-stuck :
    {p q : Pool} (i : ℕ) → (p.infos i).stage ≡ stuck → Reach p q → (q.infos i).stage ≡ stuck
Reach-stuck i at here = at
Reach-stuck i at (then_step reach step) = Step-stuck i step (Reach-stuck i at reach)

Reach-trans : {p q r : Pool} → Reach p q → Reach q r → Reach p r
Reach-trans a here = a
Reach-trans a (then_step b step) = then_step (Reach-trans a b) step

-- If no thread begins before its struct is filled in, a thread of the pool that waits for its own mutex does so for ever, and
-- `ev_thread_pool_destroy` does not return from then on.
pub stuck-endless :
    (n m : ℕ) (begins : ℕ → Bool) {p q : Pool} (i : ℕ)
    → NoneEarly n begins
    → i < n
    → Reach (ev_thread_pool_init n m begins) p
    → (p.infos i).stage ≡ stuck
    → Reach p q
    → ((q.infos i).stage ≡ stuck) × (q.main ≢ finished)
stuck-endless n m begins {q} i none_early lt reach at more =
    let still = Reach-stuck i at more in
    let settled = finished-settled n m begins none_early (Reach-trans reach more) i lt in
    (
      still,
      λ e.
          let out = (settled e).1 in
          let inside : left (q.infos i).stage ≡ 0 = rw still refl in absurd (omega arith),
    )
