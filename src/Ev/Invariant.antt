-- ===== src/Ev/Invariant.antt =====
-- What holds in every state that the steps of xxx/ev reach.
use ryze.Base.{
  ℕ, ◌+◌, ◌-◌, ◌≤◌, ◌<◌, Bool, true, false, ltb, leb, if◌then◌else◌, ◌≡◌, refl, ap, ◌⊎◌, inl, inr,
  some, List, [], ◌∷◌, ◌++◌, get_elem?, ◌∙◌, Bool-cases, arith,
}
use ryze.Ev.Workers.{
  Worker, locking, waiting, woken, ended, working, posting, set_worker, total, asleep, in_wait,
  seeking, alive, holding, count, IsChoice, total-set_worker, total-wake, wake-IsChoice,
  set_worker-IsChoice, set_worker-set_worker, get_elem?_of_set_worker,
}
use ryze.Ev.Pool.{polling, Loop, ev_signal, ev_req_add, next_entry, test_queue, resume}

pub count-append : (r : ℕ) (qs qs' : List ℕ) → count r (qs ++ qs') ≡ count r qs + count r qs'
count-append r [] qs' = omega arith
count-append r (q ∷ qs) qs' = omega (arith, count-append r qs qs')

-- The counts, whatever the threads sleep on.
pub record Steady (l : Loop) : Type 0 where
  pub running : l.stop ≡ false
  pub waits : l.wait_threads ≡ total in_wait l.workers
  pub lives : l.alive_threads ≡ total alive l.workers
  pub all_live : l.alive_threads ≡ 4
  -- A request is once in the list of those added for each time it is in hand or finished.
  pub kept :
      (r : ℕ)
      → count r l.added
        ≡ count r l.head0 + total (holding r) l.workers + count r l.head1 + count r l.finished
  -- A result that nobody drains is announced.
  pub announced : l.main ≡ polling → (l.head1 ≡ []) ⊎ (l.efd ≡ true)

pub record Inv (l : Loop) : Type 0 where
  pub steady : Steady l
  -- While there is work no thread sleeps, or one is about to look at the queue.
  pub served : (l.head0 ≡ []) ⊎ ((total asleep l.workers ≡ 0) ⊎ (0 < total seeking l.workers))

pub asleep-le : (ws : List Worker) → total asleep ws ≤ total in_wait ws
asleep-le [] = omega arith
asleep-le (waiting ∷ ws) = omega (arith, asleep-le ws)
asleep-le (woken ∷ ws) = omega (arith, asleep-le ws)
asleep-le (locking ∷ ws) = omega (arith, asleep-le ws)
asleep-le (ended ∷ ws) = omega (arith, asleep-le ws)
asleep-le (working r ∷ ws) = omega (arith, asleep-le ws)
asleep-le (posting r ∷ ws) = omega (arith, asleep-le ws)

ev_signal-Inv : (j : ℕ) (l : Loop) → IsChoice j l.workers → Steady l → Inv (ev_signal j l)
unfolding ev_signal
ev_signal-Inv j l c s = record {
  steady = record {
    running = s.running;
    waits = omega (arith, s.waits, total-wake in_wait j l.workers refl);
    lives = omega (arith, s.lives, total-wake alive j l.workers refl);
    all_live = s.all_live;
    kept = λ r. omega (arith, s.kept r, total-wake (holding r) j l.workers refl);
    announced = s.announced;
  };
  served = inr (wake-IsChoice j l.workers c);
}

pub ev_req_add-Inv : (j r : ℕ) (l : Loop) → IsChoice j l.workers → Inv l → Inv (ev_req_add j r l)
unfolding ev_req_add
ev_req_add-Inv j r l c inv =
    let s = inv.steady in
    let l' : Loop = record l { head0 = l.head0 ++ (r ∷ []); added = l.added ++ (r ∷ []) } in
    let steady' : Steady l' = record {
      running = s.running;
      waits = s.waits;
      lives = s.lives;
      all_live = s.all_live;
      kept = λ r'.
          omega
            (arith, s.kept r', count-append r' l.head0 (r ∷ []), count-append r' l.added (r ∷ []));
      announced = s.announced;
    } in
    elim (Bool-cases (ltb 0 l.wait_threads)) [
      | inl e ↦ rw e (ev_signal-Inv j l' c steady')
      | inr e ↦ rw e (record {
        steady = steady';
        served = inr (inl (ground (arith, s.waits, asleep-le l.workers)));
      })
    ]

-- A thread that goes to sleep finds the queue empty.
sleep-Inv :
    (i : ℕ) (w : Worker) (l : Loop) (efd : Bool)
    → get_elem? l.workers i ≡ some w
    → in_wait w ≡ 0
    → alive w ≡ 1
    → ((r : ℕ) → holding r w ≡ 0)
    → l.head0 ≡ []
    → ((l.efd ≡ true) → efd ≡ true)
    → Steady l
    → Inv (record l {
      wait_threads = l.wait_threads + 1;
      efd = efd;
      workers = set_worker i waiting l.workers;
    })
sleep-Inv i w l efd at out lives none_held empty more s = record {
  steady = record {
    running = s.running;
    waits = omega (arith, s.waits, total-set_worker in_wait i waiting w l.workers at);
    lives = omega (arith, s.lives, total-set_worker alive i waiting w l.workers at);
    all_live = s.all_live;
    kept = λ r.
        omega (arith, s.kept r, total-set_worker (holding r) i waiting w l.workers at, none_held r);
    announced = λ p. elim (s.announced p) [ inl e ↦ inl e | inr e ↦ inr (more e) ];
  };
  served = inl empty;
}

-- A thread takes the first request.
taken-Steady :
    (i r : ℕ) (rest : List ℕ) (w : Worker) (l : Loop)
    → get_elem? l.workers i ≡ some w
    → in_wait w ≡ 0
    → alive w ≡ 1
    → ((q : ℕ) → holding q w ≡ 0)
    → l.head0 ≡ r ∷ rest
    → Steady l
    → Steady (record l { head0 = rest; workers = set_worker i (working r) l.workers })
taken-Steady i r rest w l at out lives none_held first s = record {
  running = s.running;
  waits = omega (arith, s.waits, total-set_worker in_wait i (working r) w l.workers at);
  lives = omega (arith, s.lives, total-set_worker alive i (working r) w l.workers at);
  all_live = s.all_live;
  kept = λ q.
      let k : count q l.head0 ≡ count q (r ∷ rest) = ap (count q) first in
      omega (
        arith,
        s.kept q,
        k,
        none_held q,
        total-set_worker (holding q) i (working r) w l.workers at,
      );
  announced = s.announced;
}

-- From the test of the queue on, for a thread that was on the way to it.
next_entry-Inv :
    (qs : List ℕ) (j i : ℕ) (l : Loop)
    → l.head0 ≡ qs
    → get_elem? l.workers i ≡ some locking
    → IsChoice j l.workers
    → Steady l
    → Inv (next_entry qs j i l)
unfolding next_entry
next_entry-Inv [] j i l e at c s =
    sleep-Inv i locking l (if leb l.nthreads (l.wait_threads + 1) then true else l.efd) at refl refl
      (λ r. refl) e (λ h. ground (arith, h)) s
next_entry-Inv (r ∷ []) j i l e at c s = record {
  steady = taken-Steady i r [] locking l at refl refl (λ q. refl) e s;
  served = inl refl;
}
next_entry-Inv (r ∷ q ∷ rest) j i l e at c s =
    ev_signal-Inv j (record l { head0 = q ∷ rest; workers = set_worker i (working r) l.workers })
      (set_worker-IsChoice j i (working r) locking l.workers at refl refl c)
      (taken-Steady i r (q ∷ rest) locking l at refl refl (λ p. refl) e s)

pub test_queue-Inv :
    (j i : ℕ) (l : Loop)
    → get_elem? l.workers i ≡ some locking
    → IsChoice j l.workers
    → Steady l
    → Inv (test_queue j i l)
unfolding test_queue
test_queue-Inv j i l at c s = next_entry-Inv l.head0 j i l refl at c s

-- A thread behind EV_WAIT goes on as one that was on the way to the queue.
back : ℕ → Loop → Loop
back i l = record l { wait_threads = l.wait_threads - 1; workers = set_worker i locking l.workers }

next_entry-back :
    (qs : List ℕ) (j i : ℕ) (l : Loop)
    → next_entry qs j i (record l { wait_threads = l.wait_threads - 1 })
      ≡ next_entry qs j i (back i l)
unfolding next_entry ev_signal back
next_entry-back [] j i l = rw (set_worker-set_worker i waiting locking l.workers) refl
next_entry-back (r ∷ []) j i l = rw (set_worker-set_worker i (working r) locking l.workers) refl
next_entry-back (r ∷ q ∷ qs) j i l = rw (set_worker-set_worker i (working r) locking l.workers) refl

if-false : {A : Type 0} (x y : A) (b : Bool) → b ≡ false → (if b then x else y) ≡ y
if-false x y true e = cc
if-false x y false e = refl

resume-test_queue : (j i : ℕ) (l : Loop) → l.stop ≡ false → resume j i l ≡ test_queue j i (back i l)
unfolding resume test_queue back
resume-test_queue j i l running = if-false _ _ l.stop running ∙ next_entry-back l.head0 j i l

pub resume-Inv :
    (j i : ℕ) (l : Loop)
    → get_elem? l.workers i ≡ some woken
    → IsChoice j l.workers
    → Steady l
    → Inv (resume j i l)
unfolding back
resume-Inv j i l at c s =
    let steady' : Steady (back i l) = record {
      running = s.running;
      waits = omega (arith, s.waits, total-set_worker in_wait i locking woken l.workers at);
      lives = omega (arith, s.lives, total-set_worker alive i locking woken l.workers at);
      all_live = s.all_live;
      kept =
          λ r. omega (arith, s.kept r, total-set_worker (holding r) i locking woken l.workers at);
      announced = s.announced;
    } in
    rw (resume-test_queue j i l s.running) (
      test_queue-Inv j i (back i l) (get_elem?_of_set_worker i locking woken l.workers at)
        (set_worker-IsChoice j i locking woken l.workers at refl refl c) steady')
