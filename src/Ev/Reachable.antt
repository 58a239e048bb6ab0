-- ===== src/Ev/Reachable.antt =====
-- Every step of xxx/ev keeps the invariant.
use ryze.Base.{
  ℕ, ◌≤◌, Bool, false, ◌≡◌, ◌≢◌, refl, ap, inl, inr, some, List, [], ◌∷◌, get_elem?, arith,
}
use ryze.Ev.Workers.{
  Worker, locking, waiting, woken, working, posting, set_worker, asleep, in_wait, seeking, alive,
  holding, count, total-set_worker,
}
use ryze.Ev.Pool.{
  Main, polling, entering, draining, Loop, ev_loop_init, post, drain_entries, drain, Step, add,
  enter, spurious, leave_wait, work, add_result, poll, lock, round, Reach, start, then_step,
}
use ryze.Ev.Invariant.{count-append, Steady, Inv, ev_req_add-Inv, test_queue-Inv, resume-Inv}

-- A thread that is awake goes on to a place where it keeps its request; `w` and `v` count alike.
moved-Steady :
    (i : ℕ) (v w : Worker) (l : Loop)
    → get_elem? l.workers i ≡ some w
    → in_wait v ≡ in_wait w
    → alive v ≡ alive w
    → ((r : ℕ) → holding r v ≡ holding r w)
    → Steady l
    → Steady (record l { workers = set_worker i v l.workers })
moved-Steady i v w l at out lives same s = record {
  running = s.running;
  waits = omega (arith, s.waits, out, total-set_worker in_wait i v w l.workers at);
  lives = omega (arith, s.lives, lives, total-set_worker alive i v w l.workers at);
  all_live = s.all_live;
  kept = λ r. omega (arith, s.kept r, same r, total-set_worker (holding r) i v w l.workers at);
  announced = s.announced;
}

-- What a move leaves of `served`, if the thread is no nearer to sleep and not on the way to the
-- queue.
moved-Inv :
    (i : ℕ) (v w : Worker) (l : Loop)
    → get_elem? l.workers i ≡ some w
    → asleep v ≤ asleep w
    → seeking w ≤ seeking v
    → Steady (record l { workers = set_worker i v l.workers })
    → Inv l
    → Inv (record l { workers = set_worker i v l.workers })
moved-Inv i v w l at less more s inv = record {
  steady = s;
  served = elim inv.served [
    | inl e ↦ inl e
    | inr (inl none_asleep) ↦
        inr (inl (omega (arith, none_asleep, less, total-set_worker asleep i v w l.workers at)))
    | inr (inr some_seek) ↦
        inr (inr (omega (arith, some_seek, more, total-set_worker seeking i v w l.workers at)))
  ];
}

post-Inv :
    (i r : ℕ) (l : Loop) → get_elem? l.workers i ≡ some (posting r) → Inv l → Inv (post i r l)
unfolding post
post-Inv i r l at inv =
    let s = inv.steady in
    record {
      steady = record {
        running = s.running;
        waits = omega (arith, s.waits, total-set_worker in_wait i locking (posting r) l.workers at);
        lives = omega (arith, s.lives, total-set_worker alive i locking (posting r) l.workers at);
        all_live = s.all_live;
        kept = λ q. omega (
          arith,
          s.kept q,
          count-append q l.head1 (r ∷ []),
          total-set_worker (holding q) i locking (posting r) l.workers at,
        );
        announced = λ p. inr refl;
      };
      served =
          inr (inr (omega (arith, total-set_worker seeking i locking (posting r) l.workers at)));
    }

apart_main : {m : Main} → m ≡ polling → m ≡ draining → ⊥
apart_main p q = cc

drain-Inv : (l : Loop) → l.main ≡ draining → Inv l → Inv (drain l)
unfolding drain drain_entries
drain-Inv l held inv = go l.head1 refl
  where
    go : (qs : List ℕ) → l.head1 ≡ qs → Inv (drain_entries qs l)
    go [] e = record {
      steady = record {
        running = inv.steady.running;
        waits = inv.steady.waits;
        lives = inv.steady.lives;
        all_live = inv.steady.all_live;
        kept = inv.steady.kept;
        announced = λ p. inl e;
      };
      served = inv.served;
    }
    go (r ∷ rest) e = record {
      steady = record {
        running = inv.steady.running;
        waits = inv.steady.waits;
        lives = inv.steady.lives;
        all_live = inv.steady.all_live;
        kept = λ q.
            let k : count q l.head1 ≡ count q (r ∷ rest) = ap (count q) e in
            omega (arith, inv.steady.kept q, k, count-append q l.finished (r ∷ []));
        announced = λ p. absurd (apart_main p held);
      };
      served = inv.served;
    }

main-Inv :
    (m : Main) (efd : Bool) (l : Loop)
    → m ≢ polling
    → Inv l
    → Inv (record l { main = m; efd = efd })
main-Inv m efd l away inv = record {
  steady = record {
    running = inv.steady.running;
    waits = inv.steady.waits;
    lives = inv.steady.lives;
    all_live = inv.steady.all_live;
    kept = inv.steady.kept;
    announced = λ p. absurd (away p);
  };
  served = inv.served;
}

Step-Inv : {l l' : Loop} → Step l l' → Inv l → Inv l'
Step-Inv (add j r l c) inv = ev_req_add-Inv j r l c inv
Step-Inv (enter j i l at c) inv = test_queue-Inv j i l at c inv.steady
Step-Inv (spurious i l at) inv =
    moved-Inv i woken waiting l at (omega arith) (omega arith)
      (moved-Steady i woken waiting l at refl refl (λ r. refl) inv.steady) inv
Step-Inv (leave_wait j i l at c) inv = resume-Inv j i l at c inv.steady
Step-Inv (work i r l at) inv =
    moved-Inv i (posting r) (working r) l at (omega arith) (omega arith)
      (moved-Steady i (posting r) (working r) l at refl refl (λ r. refl) inv.steady) inv
Step-Inv (add_result i r l at free) inv = post-Inv i r l at inv
Step-Inv (poll l at event) inv = main-Inv entering false l (λ e. cc) inv
Step-Inv (lock l at) inv = main-Inv draining l.efd l (λ e. cc) inv
Step-Inv (round l at) inv = drain-Inv l at inv

ev_loop_init-Inv : Inv ev_loop_init
unfolding ev_loop_init
ev_loop_init-Inv = record {
  steady = record {
    running = refl;
    waits = refl;
    lives = refl;
    all_live = refl;
    kept = λ r. refl;
    announced = λ p. inl refl;
  };
  served = inl refl;
}

pub Reach-Inv : {l : Loop} → Reach l → Inv l
Reach-Inv start = ev_loop_init-Inv
Reach-Inv (then_step reach step) = Step-Inv step (Reach-Inv reach)
