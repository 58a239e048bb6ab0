-- ===== src/Loop/Progress.antt =====
-- The threads of src/ev/ev.c go on while there are requests, and come to rest.
use ryze.Base.{
  ℕ, zero, suc, ◌+◌, ◌*◌, ◌-◌, ◌≤◌, ◌<◌, ltb, ◌≡◌, refl, ap, inl, inr, some, List, [], ◌∷◌, length,
  get_elem?, Bool-cases, arith,
}
use ryze.Ev.Workers.{
  Worker, locking, waiting, woken, ended, working, posting, set_worker, wake, total, asleep,
  seeking, alive, holding, count, IsChoice, total-set_worker,
}
use ryze.Loop.{
  Loop, signal_if_waiting, take_entry, take_request, wake_up, add_result, Moves, enter, leave_wait,
  work, post, Reach, OnlyAdds,
}
use ryze.Loop.Reachable.{Reach-Inv}

-- At most so many steps of threads that a thread in its place may still cause with its request.
abbrev pub weight : Worker → ℕ
weight waiting = 0
weight locking = 1
weight woken = 1
weight ended = 0
weight (working r) = 3
weight (posting r) = 2

abbrev pub measure : Loop → ℕ
measure l = 4 * length l.list0 + total weight l.workers

total-wake-le : (j : ℕ) (ws : List Worker) → total weight (wake j ws) ≤ total weight ws + 1
total-wake-le j [] = omega arith
total-wake-le zero (waiting ∷ ws) = omega arith
total-wake-le zero (locking ∷ ws) = omega arith
total-wake-le zero (woken ∷ ws) = omega arith
total-wake-le zero (ended ∷ ws) = omega arith
total-wake-le zero (working r ∷ ws) = omega arith
total-wake-le zero (posting r ∷ ws) = omega arith
total-wake-le (suc j) (w ∷ ws) = omega (arith, total-wake-le j ws)

signal_if_waiting-le : (j : ℕ) (l : Loop) → measure (signal_if_waiting j l) ≤ measure l + 1
unfolding signal_if_waiting
signal_if_waiting-le j l = elim (Bool-cases (ltb 0 l.wait_threads)) [
  | inl e ↦ rw e (omega (arith, total-wake-le j l.workers))
  | inr e ↦ rw e (omega arith)
]

take_entry-less :
    (qs : List ℕ) (j i : ℕ) (w : Worker) (l : Loop)
    → l.list0 ≡ qs
    → get_elem? l.workers i ≡ some w
    → weight w ≡ 1
    → measure (take_entry qs j i l) < measure l
unfolding take_entry
take_entry-less [] j i w l e at one =
    omega (arith, ap length e, total-set_worker weight i waiting w l.workers at, one)
take_entry-less (r ∷ []) j i w l e at one =
    omega (arith, ap length e, total-set_worker weight i (working r) w l.workers at, one)
take_entry-less (r ∷ q ∷ qs) j i w l e at one = omega (
  arith,
  ap length e,
  total-set_worker weight i (working r) w l.workers at,
  one,
  signal_if_waiting-le j
      (record l { list0 = q ∷ qs; workers = set_worker i (working r) l.workers }),
)

Moves-less : {i : ℕ} {l l' : Loop} → Moves i l l' → measure l' < measure l
unfolding take_request wake_up add_result
Moves-less {i} (enter j l at c) = take_entry-less l.list0 j i locking l refl at refl
Moves-less {i} (leave_wait j l at c) =
    take_entry-less l.list0 j i woken (record l { wait_threads = l.wait_threads - 1 }) refl at refl
Moves-less {i} (work r l at) =
    omega (arith, total-set_worker weight i (posting r) (working r) l.workers at)
Moves-less {i} (post r l at) =
    omega (arith, total-set_worker weight i locking (posting r) l.workers at)

-- A number of steps of threads, one after the other.
pub data Chain : ℕ → Loop → Loop → Type 0 where
  rest : (l : Loop) → Chain 0 l l
  next : {k : ℕ} {l l' l'' : Loop} (i : ℕ) → Moves i l l' → Chain k l' l'' → Chain (suc k) l l''

-- The threads take at most four steps for each queued request, three for each thread at work and
-- one or two for other ones, as long as no request is added and none wakes by itself.
pub Chain-bound : {k : ℕ} {l l' : Loop} → Chain k l l' → k + measure l' ≤ measure l
Chain-bound (rest l) = omega arith
Chain-bound (next i m chain) = omega (arith, Moves-less m, Chain-bound chain)

IsChoice-behind :
    (w : Worker) (ws : List Worker)
    → asleep w ≡ 0
    → (j : ℕ) × IsChoice j ws
    → (j : ℕ) × IsChoice j (w ∷ ws)
IsChoice-behind w ws up (j, inl e) = (suc j, inl e)
IsChoice-behind w ws up (j, inr e) = (0, inr (omega (arith, up, e)))

-- The system has a thread to wake, or none sleeps.
choice : (ws : List Worker) → (j : ℕ) × IsChoice j ws
choice [] = (0, inr refl)
choice (waiting ∷ ws) = (0, inl refl)
choice (locking ∷ ws) = IsChoice-behind locking ws refl (choice ws)
choice (woken ∷ ws) = IsChoice-behind woken ws refl (choice ws)
choice (ended ∷ ws) = IsChoice-behind ended ws refl (choice ws)
choice (working r ∷ ws) = IsChoice-behind (working r) ws refl (choice ws)
choice (posting r ∷ ws) = IsChoice-behind (posting r) ws refl (choice ws)

abbrev Awake : List Worker → Type 0
Awake ws = (i : ℕ) × (w : Worker) × (get_elem? ws i ≡ some w) × (asleep w < alive w)

Awake-behind : (w : Worker) (ws : List Worker) → Awake ws → Awake (w ∷ ws)
Awake-behind w ws (i, v, e, up) = (suc i, v, e, up)

find-Awake : (ws : List Worker) → total asleep ws < total alive ws → Awake ws
find-Awake [] h = absurd (omega arith)
find-Awake (waiting ∷ ws) h = Awake-behind waiting ws (find-Awake ws (omega arith))
find-Awake (ended ∷ ws) h = Awake-behind ended ws (find-Awake ws (omega arith))
find-Awake (locking ∷ ws) h = (0, locking, refl, omega arith)
find-Awake (woken ∷ ws) h = (0, woken, refl, omega arith)
find-Awake (working r ∷ ws) h = (0, working r, refl, omega arith)
find-Awake (posting r ∷ ws) h = (0, posting r, refl, omega arith)

-- A thread that is not asleep can take a step.
awake-Moves :
    (l : Loop) (i : ℕ) (w : Worker)
    → get_elem? l.workers i ≡ some w
    → asleep w < alive w
    → (l' : Loop) × Moves i l l'
awake-Moves l i waiting at up = absurd (omega arith)
awake-Moves l i ended at up = absurd (omega arith)
awake-Moves l i locking at up =
    let (j, c) = choice l.workers in (take_request j i l, enter j l at c)
awake-Moves l i woken at up = let (j, c) = choice l.workers in (wake_up j i l, leave_wait j l at c)
awake-Moves l i (working r) at up =
    (record l { workers = set_worker i (posting r) l.workers }, work r l at)
awake-Moves l i (posting r) at up = (add_result i r l, post r l at)

-- Threads on the way to the queue, and threads with a request, are awake.
seeking-le : (ws : List Worker) → total seeking ws + total asleep ws ≤ total alive ws
seeking-le [] = omega arith
seeking-le (waiting ∷ ws) = omega (arith, seeking-le ws)
seeking-le (ended ∷ ws) = omega (arith, seeking-le ws)
seeking-le (locking ∷ ws) = omega (arith, seeking-le ws)
seeking-le (woken ∷ ws) = omega (arith, seeking-le ws)
seeking-le (working r ∷ ws) = omega (arith, seeking-le ws)
seeking-le (posting r ∷ ws) = omega (arith, seeking-le ws)

holding-awake :
    (r : ℕ) (ws : List Worker) → 0 < total (holding r) ws → total asleep ws < total alive ws
holding-awake r [] h = absurd (omega arith)
holding-awake r (waiting ∷ ws) h = omega (arith, holding-awake r ws (omega arith))
holding-awake r (ended ∷ ws) h = omega (arith, holding-awake r ws (omega arith))
holding-awake r (locking ∷ ws) h = omega (arith, holding-awake r ws (omega arith))
holding-awake r (woken ∷ ws) h = omega (arith, holding-awake r ws (omega arith))
holding-awake r (working q ∷ ws) h = omega (arith, seeking-le ws)
holding-awake r (posting q ∷ ws) h = omega (arith, seeking-le ws)

-- If the caller's `callback` uses the loop for EV_REQ_ADD alone, then in a state that the steps
-- reach with at least one thread, if some request has been added more
-- often than it is in `list[1]`, then some thread can take a step: the threads are never all stuck
-- while there is work.
pub pending-Moves :
    (callback : Loop → Loop → Type 0) {n : ℕ} {l : Loop} (r : ℕ)
    → OnlyAdds callback
    → Reach callback n l
    → 0 < n
    → count r l.list1 < count r l.added
    → (i : ℕ) × (l' : Loop) × Moves i l l'
pending-Moves callback {n} {l} r only reach some_thread pending =
    let inv = Reach-Inv callback only n reach in
    let up : total asleep l.workers < total alive l.workers = elim inv.served [
      | inl e ↦
          let c0 : count r l.list0 ≡ 0 = ap (count r) e in
          holding-awake r l.workers (omega (arith, inv.steady.kept r, pending, c0))
      | inr (inl none) ↦ omega (arith, none, some_thread, inv.steady.lives)
      | inr (inr some_seek) ↦ omega (arith, some_seek, seeking-le l.workers)
    ] in
    let (i, w, at, can) = find-Awake l.workers up in
    let (l', m) = awake-Moves l i w at can in (i, l', m)
