-- ===== src/Loop/Reachable.antt =====
-- Every step of src/ev keeps the invariant.
use ryze.Base.{
  ℕ, zero, suc, ◌*◌, ◌≤◌, ◌≡◌, refl, inl, inr, some, [], ◌∷◌, replicate, get_elem?, arith,
}
use ryze.Ev.Workers.{
  Worker, locking, waiting, woken, working, posting, set_worker, total, asleep, in_wait, seeking,
  alive, holding, total-set_worker,
}
use ryze.Ev.Invariant.{count-append}
use ryze.Loop.{
  Loop, ev_loop_init, add_result, report, Moves, enter, leave_wait, work, post, Step, move,
  spurious, add, poll, call_back, fail, OnlyAdds, Reach, start, then_step,
}
use ryze.Loop.Invariant.{Steady, Inv, ev_req_add-Inv, moved-Steady, take_request-Inv, wake_up-Inv}

module _ (n : ℕ) where
  add_result-Inv :
      (i r : ℕ) (l : Loop)
      → get_elem? l.workers i ≡ some (posting r)
      → Inv n l
      → Inv n (add_result i r l)
  unfolding add_result
  add_result-Inv i r l at inv =
      let s = inv.steady in
      record {
        steady = record {
          threads = s.threads;
          waits =
              omega (arith, s.waits, total-set_worker in_wait i locking (posting r) l.workers at);
          lives = omega (arith, s.lives, total-set_worker alive i locking (posting r) l.workers at);
          kept = λ q. omega (
            arith,
            s.kept q,
            count-append q l.list1 (r ∷ []),
            total-set_worker (holding q) i locking (posting r) l.workers at,
          );
        };
        served =
            inr (inr (omega (arith, total-set_worker seeking i locking (posting r) l.workers at)));
      }

  -- What a move leaves of `served`, if the thread is no nearer to sleep and as near to the queue.
  moved-Inv :
      (i : ℕ) (v w : Worker) (l : Loop)
      → get_elem? l.workers i ≡ some w
      → asleep v ≤ asleep w
      → seeking w ≤ seeking v
      → Steady n (record l { workers = set_worker i v l.workers })
      → Inv n l
      → Inv n (record l { workers = set_worker i v l.workers })
  moved-Inv i v w l at less more s inv = record {
    steady = s;
    served = elim inv.served [
      | inl e ↦ inl e
      | inr (inl none_asleep) ↦
          inr (inl (omega (arith, none_asleep, less, total-set_worker asleep i v w l.workers at)))
      | inr (inr some_seek) ↦
          inr (inr (omega (arith, some_seek, more, total-set_worker seeking i v w l.workers at)))
    ];
  }

  Moves-Inv : {i : ℕ} {l l' : Loop} → Moves i l l' → Inv n l → Inv n l'
  Moves-Inv {i} (enter j l at c) inv = take_request-Inv n j i l at c inv.steady
  Moves-Inv {i} (leave_wait j l at c) inv = wake_up-Inv n j i l at c inv.steady
  Moves-Inv {i} (work r l at) inv =
      moved-Inv i (posting r) (working r) l at (omega arith) (omega arith)
        (moved-Steady n i (posting r) (working r) l at refl refl (λ q. refl) inv.steady) inv
  Moves-Inv {i} (post r l at) inv = add_result-Inv i r l at inv

  total-replicate :
      (f : Worker → ℕ) (k v : ℕ) → f locking ≡ v → total f (replicate k locking) ≡ k * v
  total-replicate f zero v e = omega arith
  total-replicate f (suc k) v e = grind (arith, total-replicate f k v e)

  ev_loop_init-Inv : Inv n (ev_loop_init n)
  unfolding ev_loop_init
  ev_loop_init-Inv = record {
    steady = record {
      threads = refl;
      waits = omega (arith, total-replicate in_wait n 0 refl);
      lives = omega (arith, total-replicate alive n 1 refl);
      kept = λ r. omega (arith, total-replicate (holding r) n 0 refl);
    };
    served = inl refl;
  }

module _ (callback : Loop → Loop → Type 0) (only : OnlyAdds callback) (n : ℕ) where
  Step-Inv : {l l' : Loop} → Step callback l l' → Inv n l → Inv n l'
  unfolding report
  Step-Inv (move i m) inv = Moves-Inv n m inv
  Step-Inv (spurious i l at) inv =
      moved-Inv n i woken waiting l at (omega arith) (omega arith)
        (moved-Steady n i woken waiting l at refl refl (λ q. refl) inv.steady) inv
  Step-Inv (add j r l c) inv = ev_req_add-Inv n j r l c inv
  Step-Inv (poll l on event) inv = record {
    steady = record {
      threads = inv.steady.threads;
      waits = inv.steady.waits;
      lives = inv.steady.lives;
      kept = inv.steady.kept;
    };
    served = inv.served;
  }
  Step-Inv (call_back l l' called) inv =
      let (j, r, c, e) = only l l' called in rw e (ev_req_add-Inv n j r l c inv)
  Step-Inv (fail l) inv = record {
    steady = record {
      threads = inv.steady.threads;
      waits = inv.steady.waits;
      lives = inv.steady.lives;
      kept = inv.steady.kept;
    };
    served = inv.served;
  }

  pub Reach-Inv : {l : Loop} → Reach callback n l → Inv n l
  Reach-Inv start = ev_loop_init-Inv n
  Reach-Inv (then_step reach step) = Step-Inv step (Reach-Inv reach)
