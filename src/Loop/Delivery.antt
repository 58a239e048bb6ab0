-- ===== src/Loop/Delivery.antt =====
-- What becomes of the requests that EV_REQ_ADD of src/ev/ev.h hands to the threads of src/ev/ev.c.
use ryze.Base.{ℕ, ◌+◌, ◌≤◌, ◌<◌, ◌≡◌, ◌≢◌, ap, ◌⊎◌, inl, inr, some, [], get_elem?, All, arith}
use ryze.Ev.Workers.{locking, waiting, woken, total, in_wait, holding, count}
use ryze.Ev.Delivery.{IsWaiting, All-asleep, All-none_held, seeker, sleeper, in_wait-le}
use ryze.Loop.{Loop, Reach, OnlyAdds}
use ryze.Loop.Reachable.{Reach-Inv}

module _ (callback : Loop → Loop → Type 0) (only : OnlyAdds callback) {n : ℕ} {l : Loop}
    (reach : Reach callback n l) where
  -- In every state that the steps reach with n threads, each request is as often in `list[0]`, with
  -- a thread or in `list[1]` as it was added: it never leaves `list[1]`, if `callback` only adds.
  pub requests-kept :
      (r : ℕ) → count r l.added ≡ count r l.list0 + total (holding r) l.workers + count r l.list1
  requests-kept = (Reach-Inv callback only n reach).steady.kept

  -- In every state that the steps reach with n threads, `wait_threads` is the number of threads in
  -- `pthread_cond_wait`, and at most n.
  pub wait_threads-bound : (l.wait_threads ≡ total in_wait l.workers) × (l.wait_threads ≤ n)
  wait_threads-bound =
      let s = (Reach-Inv callback only n reach).steady in
      (s.waits, omega (arith, s.waits, s.lives, in_wait-le l.workers))

  -- In a state that the steps reach, if a request is queued and a thread sleeps, then some thread is
  -- on its way to the queue.
  pub sleeper-served :
      (i : ℕ)
      → l.list0 ≢ []
      → get_elem? l.workers i ≡ some waiting
      → (k : ℕ) × ((get_elem? l.workers k ≡ some locking) ⊎ (get_elem? l.workers k ≡ some woken))
  sleeper-served i queued sleeps = elim (Reach-Inv callback only n reach).served [
    | inl e ↦ absurd (queued e)
    | inr (inl none) ↦ absurd (omega (arith, none, sleeper l.workers i sleeps))
    | inr (inr some_seek) ↦ seeker l.workers some_seek
  ]

  -- If the caller's `callback` uses the loop for EV_REQ_ADD alone, then in a state that the steps
  -- reach with at least one thread, where every thread waits, `list[1]` holds every request as often
  -- as it was added.
  pub waiting-undelivered :
      0 < n → All IsWaiting l.workers → (r : ℕ) → count r l.list1 ≡ count r l.added
  waiting-undelivered some_thread wait r =
      let inv = Reach-Inv callback only n reach in
      let s = inv.steady in
      let (e, e') = All-asleep l.workers wait in
      let queue : l.list0 ≡ [] = elim inv.served [
        | inl e0 ↦ e0
        | inr (inl none) ↦ absurd (omega (arith, none, e, s.lives, some_thread))
        | inr (inr some_seek) ↦ absurd (omega (arith, some_seek, e'))
      ] in
      let c0 : count r l.list0 ≡ 0 = ap (count r) queue in
      omega (arith, s.kept r, All-none_held r l.workers wait, c0)
