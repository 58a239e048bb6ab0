-- ===== src/Ev/Delivery.antt =====
-- What becomes of the requests that EV_REQ_ADD of xxx/ev/ev.h hands to the threads of xxx/ev/ev.c.
use ryze.Base.{
  ℕ, zero, suc, ◌+◌, ◌≤◌, ◌<◌, false, ◌≡◌, ◌≢◌, refl, ap, ◌⊎◌, inl, inr, some, List, [], ◌∷◌,
  get_elem?, All, out_of_fuel, arith,
}
use ryze.Ev.Workers.{
  Worker, locking, waiting, woken, ended, working, posting, total, asleep, in_wait, seeking, alive,
  holding, count,
}
use ryze.Ev.Pool.{polling, Loop, Reach, await_threads}
use ryze.Ev.Reachable.{Reach-Inv}

abbrev pub IsWaiting : Worker → Type 0
IsWaiting w = w ≡ waiting

pub All-asleep :
    (ws : List Worker)
    → All IsWaiting ws
    → (total asleep ws ≡ total alive ws) × (total seeking ws ≡ 0)
All-asleep [] h = (refl, refl)
All-asleep (waiting ∷ ws) h =
    let (e, e') = All-asleep ws h.1 in (omega (arith, e), omega (arith, e'))
All-asleep (locking ∷ ws) h = absurd (cc)
All-asleep (woken ∷ ws) h = absurd (cc)
All-asleep (ended ∷ ws) h = absurd (cc)
All-asleep (working r ∷ ws) h = absurd (cc)
All-asleep (posting r ∷ ws) h = absurd (cc)

pub All-none_held : (r : ℕ) (ws : List Worker) → All IsWaiting ws → total (holding r) ws ≡ 0
All-none_held r [] h = refl
All-none_held r (waiting ∷ ws) h = omega (arith, All-none_held r ws h.1)
All-none_held r (locking ∷ ws) h = absurd (cc)
All-none_held r (woken ∷ ws) h = absurd (cc)
All-none_held r (ended ∷ ws) h = absurd (cc)
All-none_held r (working q ∷ ws) h = absurd (cc)
All-none_held r (posting q ∷ ws) h = absurd (cc)

-- In a state that the steps reach, if every thread waits and `ev_loop_run` is in `epoll_wait` with
-- no event for it, then every request has been finished as often as it was added: its `work` was
-- run and its callback was called. So no wake-up and no result is lost on the way.
pub quiet-finished :
    {l : Loop}
    → Reach l
    → All IsWaiting l.workers
    → l.main ≡ polling
    → l.efd ≡ false
    → (r : ℕ) → count r l.finished ≡ count r l.added
quiet-finished {l} reach wait at quiet r =
    let inv = Reach-Inv reach in
    let s = inv.steady in
    let (e, e') = All-asleep l.workers wait in
    let queue : l.head0 ≡ [] = elim inv.served [
      | inl e0 ↦ e0
      | inr (inl none) ↦ absurd (omega (arith, none, e, s.lives, s.all_live))
      | inr (inr some_seek) ↦ absurd (omega (arith, some_seek, e'))
    ] in
    let results : l.head1 ≡ [] = elim (s.announced at) [ inl e1 ↦ e1 | inr on ↦ cc ] in
    let c0 : count r l.head0 ≡ 0 = ap (count r) queue in
    let c1 : count r l.head1 ≡ 0 = ap (count r) results in
    omega (arith, s.kept r, All-none_held r l.workers wait, c0, c1)

-- In every state that the steps reach, each request has been added as often as it is in `head[0]`,
-- with a thread, in `head[1]` or finished: none is lost, doubled or made up.
pub added-kept :
    {l : Loop}
    → Reach l
    → (r : ℕ)
    → count r l.added
      ≡ count r l.head0 + total (holding r) l.workers + count r l.head1 + count r l.finished
added-kept reach = (Reach-Inv reach).steady.kept

pub seeker :
    (ws : List Worker)
    → 0 < total seeking ws
    → (i : ℕ) × ((get_elem? ws i ≡ some locking) ⊎ (get_elem? ws i ≡ some woken))
seeker [] h = absurd (omega arith)
seeker (locking ∷ ws) h = (0, inl refl)
seeker (woken ∷ ws) h = (0, inr refl)
seeker (waiting ∷ ws) h = let (i, e) = seeker ws (omega arith) in (suc i, e)
seeker (ended ∷ ws) h = let (i, e) = seeker ws (omega arith) in (suc i, e)
seeker (working r ∷ ws) h = let (i, e) = seeker ws (omega arith) in (suc i, e)
seeker (posting r ∷ ws) h = let (i, e) = seeker ws (omega arith) in (suc i, e)

pub sleeper : (ws : List Worker) (i : ℕ) → get_elem? ws i ≡ some waiting → 0 < total asleep ws
sleeper [] i e = cc
sleeper (w ∷ ws) (suc i) e = omega (arith, sleeper ws i e)
sleeper (waiting ∷ ws) zero e = omega arith
sleeper (locking ∷ ws) zero e = cc
sleeper (woken ∷ ws) zero e = cc
sleeper (ended ∷ ws) zero e = cc
sleeper (working r ∷ ws) zero e = cc
sleeper (posting r ∷ ws) zero e = cc

-- In a state that the steps reach, if a request is queued and a thread sleeps in EV_WAIT, then some
-- thread is on its way to the queue: it is not so that all threads that are awake are at work while
-- one that could take the request sleeps.
pub queued-served :
    {l : Loop} (i : ℕ)
    → Reach l
    → l.head0 ≢ []
    → get_elem? l.workers i ≡ some waiting
    → (k : ℕ) × ((get_elem? l.workers k ≡ some locking) ⊎ (get_elem? l.workers k ≡ some woken))
queued-served {l} i reach queued sleeps = elim (Reach-Inv reach).served [
  | inl e ↦ absurd (queued e)
  | inr (inl none) ↦ absurd (omega (arith, none, sleeper l.workers i sleeps))
  | inr (inr some_seek) ↦ seeker l.workers some_seek
]

pub in_wait-le : (ws : List Worker) → total in_wait ws ≤ total alive ws
in_wait-le [] = omega arith
in_wait-le (waiting ∷ ws) = omega (arith, in_wait-le ws)
in_wait-le (woken ∷ ws) = omega (arith, in_wait-le ws)
in_wait-le (locking ∷ ws) = omega (arith, in_wait-le ws)
in_wait-le (ended ∷ ws) = omega (arith, in_wait-le ws)
in_wait-le (working r ∷ ws) = omega (arith, in_wait-le ws)
in_wait-le (posting r ∷ ws) = omega (arith, in_wait-le ws)

-- In every state that the steps reach, `wait_threads` is the number of threads in EV_WAIT, those
-- included that have been signalled and wait for the lock, and it is at most 4.
pub wait_threads-exact :
    {l : Loop} → Reach l → (l.wait_threads ≡ total in_wait l.workers) × (l.wait_threads ≤ 4)
wait_threads-exact {l} reach =
    let s = (Reach-Inv reach).steady in
    (s.waits, omega (arith, s.waits, s.lives, s.all_live, in_wait-le l.workers))

-- The loop of `ev_loop_free` does not end, whatever states its looks find: `alive_threads` stays at
-- 4, since nothing sets `stop`.
pub await_threads-endless : (ls : List Loop) → All Reach ls → await_threads ls ≡ out_of_fuel
unfolding await_threads
await_threads-endless [] h = refl
await_threads-endless (l ∷ ls) h =
    let alive4 = (Reach-Inv h.0).steady.all_live in rw alive4 (await_threads-endless ls h.1)
