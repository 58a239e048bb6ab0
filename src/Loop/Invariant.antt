-- ===== src/Loop/Invariant.antt =====
-- What holds in every state that the steps of src/ev reach.
use ryze.Base.{
  ℕ, ◌+◌, ◌-◌, ◌<◌, ltb, ◌≡◌, refl, ap, ◌⊎◌, inl, inr, some, List, [], ◌∷◌, ◌++◌, get_elem?,
  Bool-cases, arith,
}
use ryze.Ev.Workers.{
  Worker, locking, waiting, woken, working, set_worker, total, asleep, in_wait, seeking, alive,
  holding, count, IsChoice, total-set_worker, total-wake, wake-IsChoice, set_worker-IsChoice,
  set_worker-set_worker, get_elem?_of_set_worker,
}
use ryze.Ev.Invariant.{count-append, asleep-le}
use ryze.Loop.{Loop, signal_if_waiting, ev_req_add, take_entry, take_request, wake_up}

-- The counts, whatever the threads sleep on.
pub record Steady (n : ℕ) (l : Loop) : Type 0 where
  pub threads : l.nthreads ≡ n
  pub waits : l.wait_threads ≡ total in_wait l.workers
  pub lives : n ≡ total alive l.workers
  pub kept :
      (r : ℕ) → count r l.added ≡ count r l.list0 + total (holding r) l.workers + count r l.list1

pub record Inv (n : ℕ) (l : Loop) : Type 0 where
  pub steady : Steady n l
  -- While there is work no thread sleeps, or one is about to look at the queue.
  pub served : (l.list0 ≡ []) ⊎ ((total asleep l.workers ≡ 0) ⊎ (0 < total seeking l.workers))

module _ (n : ℕ) where
  signal_if_waiting-Inv :
      (j : ℕ) (l : Loop) → IsChoice j l.workers → Steady n l → Inv n (signal_if_waiting j l)
  unfolding signal_if_waiting
  signal_if_waiting-Inv j l c s = elim (Bool-cases (ltb 0 l.wait_threads)) [
    | inl e ↦ rw e (record {
      steady = record {
        threads = s.threads;
        waits = omega (arith, s.waits, total-wake in_wait j l.workers refl);
        lives = omega (arith, s.lives, total-wake alive j l.workers refl);
        kept = λ r. omega (arith, s.kept r, total-wake (holding r) j l.workers refl);
      };
      served = inr (wake-IsChoice j l.workers c);
    })
    | inr e ↦
        rw e
          (record { steady = s; served = inr (inl (ground (arith, s.waits, asleep-le l.workers))) })
  ]

  pub ev_req_add-Inv :
      (j r : ℕ) (l : Loop) → IsChoice j l.workers → Inv n l → Inv n (ev_req_add j r l)
  unfolding ev_req_add
  ev_req_add-Inv j r l c inv =
      let s = inv.steady in
      signal_if_waiting-Inv j
        (record l { list0 = l.list0 ++ (r ∷ []); added = l.added ++ (r ∷ []) }) c
        (record {
          threads = s.threads;
          waits = s.waits;
          lives = s.lives;
          kept = λ q.
              omega
                (arith, s.kept q, count-append q l.list0 (r ∷ []), count-append q l.added (r ∷ []));
        })

  -- A thread moves on with what it holds; where `w` and `v` count alike.
  pub moved-Steady :
      (i : ℕ) (v w : Worker) (l : Loop)
      → get_elem? l.workers i ≡ some w
      → in_wait v ≡ in_wait w
      → alive v ≡ alive w
      → ((r : ℕ) → holding r v ≡ holding r w)
      → Steady n l
      → Steady n (record l { workers = set_worker i v l.workers })
  moved-Steady i v w l at out lives same s = record {
    threads = s.threads;
    waits = omega (arith, s.waits, out, total-set_worker in_wait i v w l.workers at);
    lives = omega (arith, s.lives, lives, total-set_worker alive i v w l.workers at);
    kept = λ r. omega (arith, s.kept r, same r, total-set_worker (holding r) i v w l.workers at);
  }

  taken-Steady :
      (i r : ℕ) (rest : List ℕ) (l : Loop)
      → get_elem? l.workers i ≡ some locking
      → l.list0 ≡ r ∷ rest
      → Steady n l
      → Steady n (record l { list0 = rest; workers = set_worker i (working r) l.workers })
  taken-Steady i r rest l at first s = record {
    threads = s.threads;
    waits = omega (arith, s.waits, total-set_worker in_wait i (working r) locking l.workers at);
    lives = omega (arith, s.lives, total-set_worker alive i (working r) locking l.workers at);
    kept = λ q.
        let k : count q l.list0 ≡ count q (r ∷ rest) = ap (count q) first in
        omega (arith, s.kept q, k, total-set_worker (holding q) i (working r) locking l.workers at);
  }

  take_entry-Inv :
      (qs : List ℕ) (j i : ℕ) (l : Loop)
      → l.list0 ≡ qs
      → get_elem? l.workers i ≡ some locking
      → IsChoice j l.workers
      → Steady n l
      → Inv n (take_entry qs j i l)
  unfolding take_entry
  take_entry-Inv [] j i l e at c s = record {
    steady = record {
      threads = s.threads;
      waits = omega (arith, s.waits, total-set_worker in_wait i waiting locking l.workers at);
      lives = omega (arith, s.lives, total-set_worker alive i waiting locking l.workers at);
      kept =
          λ r. omega (arith, s.kept r, total-set_worker (holding r) i waiting locking l.workers at);
    };
    served = inl e;
  }
  take_entry-Inv (r ∷ []) j i l e at c s = record {
    steady = taken-Steady i r [] l at e s;
    served = inl refl;
  }
  take_entry-Inv (r ∷ q ∷ qs) j i l e at c s =
      signal_if_waiting-Inv j
        (record l { list0 = q ∷ qs; workers = set_worker i (working r) l.workers })
        (set_worker-IsChoice j i (working r) locking l.workers at refl refl c)
        (taken-Steady i r (q ∷ qs) l at e s)

  pub take_request-Inv :
      (j i : ℕ) (l : Loop)
      → get_elem? l.workers i ≡ some locking
      → IsChoice j l.workers
      → Steady n l
      → Inv n (take_request j i l)
  unfolding take_request
  take_request-Inv j i l at c s = take_entry-Inv l.list0 j i l refl at c s

  -- A thread behind `pthread_cond_wait` goes on as one that was on the way to the queue.
  abbrev back : ℕ → Loop → Loop
  back i l = record l {
    wait_threads = l.wait_threads - 1;
    workers = set_worker i locking l.workers;
  }

  take_entry-back :
      (qs : List ℕ) (j i : ℕ) (l : Loop)
      → take_entry qs j i (record l { wait_threads = l.wait_threads - 1 })
        ≡ take_entry qs j i (back i l)
  unfolding take_entry signal_if_waiting
  take_entry-back [] j i l = rw (set_worker-set_worker i waiting locking l.workers) refl
  take_entry-back (r ∷ []) j i l = rw (set_worker-set_worker i (working r) locking l.workers) refl
  take_entry-back (r ∷ q ∷ qs) j i l =
      rw (set_worker-set_worker i (working r) locking l.workers) refl

  pub wake_up-Inv :
      (j i : ℕ) (l : Loop)
      → get_elem? l.workers i ≡ some woken
      → IsChoice j l.workers
      → Steady n l
      → Inv n (wake_up j i l)
  unfolding wake_up take_request
  wake_up-Inv j i l at c s =
      let steady' : Steady n (back i l) = record {
        threads = s.threads;
        waits = omega (arith, s.waits, total-set_worker in_wait i locking woken l.workers at);
        lives = omega (arith, s.lives, total-set_worker alive i locking woken l.workers at);
        kept =
            λ r. omega (arith, s.kept r, total-set_worker (holding r) i locking woken l.workers at);
      } in
      rw (take_entry-back l.list0 j i l) (
        take_entry-Inv l.list0 j i (back i l) refl
          (get_elem?_of_set_worker i locking woken l.workers at)
          (set_worker-IsChoice j i locking woken l.workers at refl refl c) steady')
