-- ===== src/Etp/Delivery.antt =====
-- Every request of xxx/main22.c is worked off and freed.
use ryze.Base.{
  ℕ, zero, suc, ◌+◌, ◌*◌, ◌<◌, true, false, ◌≡◌, refl, ap, ◌⊎◌, inl, inr, some, List, [], ◌∷◌, ◌++◌,
  All, replicate, get_elem?, arith,
}
use ryze.Ev.Workers.{
  Worker, locking, waiting, woken, ended, working, posting, total, alive, holding, count,
  total-set_worker,
}
use ryze.Ev.Invariant.{count-append}
use ryze.Etp.{
  Loop, start_loop, take_entry, add_result, free_entries, process_work, Step, take, work, post,
  poll, process, Reach, start, then_step,
}

record Inv (n : ℕ) (reqs : List ℕ) (l : Loop) : Type 0 where
  pub kept :
      (r : ℕ)
      → count r reqs
        ≡ count r l.head0 + total (holding r) l.workers + count r l.head1 + count r l.freed
  -- No thread ends before the list is empty.
  pub busy : (l.head0 ≡ []) ⊎ (total alive l.workers ≡ n)
  -- A result that nobody takes is announced.
  pub announced : l.polling ≡ true → (l.head1 ≡ []) ⊎ (l.event ≡ true)

count-free_entries :
    (r : ℕ) (qs freed : List ℕ) → count r (free_entries qs freed) ≡ count r qs + count r freed
unfolding free_entries
count-free_entries r [] freed = omega arith
count-free_entries r (q ∷ qs) freed =
    omega (arith, count-free_entries r qs (freed ++ (q ∷ [])), count-append r freed (q ∷ []))

module _ (n : ℕ) (reqs : List ℕ) where
  take_entry-Inv :
      (qs : List ℕ) (i : ℕ) (l : Loop)
      → l.head0 ≡ qs
      → get_elem? l.workers i ≡ some locking
      → Inv n reqs l
      → Inv n reqs (take_entry qs i l)
  unfolding take_entry
  take_entry-Inv [] i l e at inv = record {
    kept =
        λ r. omega (arith, inv.kept r, total-set_worker (holding r) i ended locking l.workers at);
    busy = inl e;
    announced = inv.announced;
  }
  take_entry-Inv (q ∷ qs) i l e at inv = record {
    kept = λ r.
        let k : count r l.head0 ≡ count r (q ∷ qs) = ap (count r) e in
        omega
          (arith, inv.kept r, k, total-set_worker (holding r) i (working q) locking l.workers at);
    busy = elim inv.busy [
      | inl none ↦ absurd (cc)
      | inr all ↦
          inr (omega (arith, all, total-set_worker alive i (working q) locking l.workers at))
    ];
    announced = inv.announced;
  }

  Step-Inv : {l l' : Loop} → Step l l' → Inv n reqs l → Inv n reqs l'
  unfolding add_result process_work
  Step-Inv (take i l at) inv = take_entry-Inv l.head0 i l refl at inv
  Step-Inv (work i r l at) inv = record {
    kept = λ q.
        omega
          (arith, inv.kept q, total-set_worker (holding q) i (posting r) (working r) l.workers at);
    busy = elim inv.busy [
      | inl e ↦ inl e
      | inr all ↦
          inr (omega (arith, all, total-set_worker alive i (posting r) (working r) l.workers at))
    ];
    announced = inv.announced;
  }
  Step-Inv (post i r l at) inv = record {
    kept = λ q. omega (
      arith,
      inv.kept q,
      count-append q l.head1 (r ∷ []),
      total-set_worker (holding q) i locking (posting r) l.workers at,
    );
    busy = elim inv.busy [
      | inl e ↦ inl e
      | inr all ↦
          inr (omega (arith, all, total-set_worker alive i locking (posting r) l.workers at))
    ];
    announced = λ p. inr refl;
  }
  Step-Inv (poll l on event) inv = record {
    kept = inv.kept;
    busy = inv.busy;
    announced = λ p. absurd (cc);
  }
  Step-Inv (process l held) inv = record {
    kept = λ r. omega (arith, inv.kept r, count-free_entries r l.head1 l.freed);
    busy = inv.busy;
    announced = λ p. inl refl;
  }

  total-replicate :
      (f : Worker → ℕ) (k v : ℕ) → f locking ≡ v → total f (replicate k locking) ≡ k * v
  total-replicate f zero v e = omega arith
  total-replicate f (suc k) v e = grind (arith, total-replicate f k v e)

  Reach-Inv : {l : Loop} → Reach n reqs l → Inv n reqs l
  unfolding start_loop
  Reach-Inv start = record {
    kept = λ r. omega (arith, total-replicate (holding r) n 0 refl);
    busy = inr (omega (arith, total-replicate alive n 1 refl));
    announced = λ p. inl refl;
  }
  Reach-Inv (then_step reach step) = Step-Inv step (Reach-Inv reach)

abbrev pub IsEnded : Worker → Type 0
IsEnded w = w ≡ ended

All-ended :
    (ws : List Worker)
    → All IsEnded ws
    → (total alive ws ≡ 0) × ((r : ℕ) → total (holding r) ws ≡ 0)
All-ended [] h = (refl, λ r. refl)
All-ended (ended ∷ ws) h =
    let (a, b) = All-ended ws h.1 in (omega (arith, a), λ r. omega (arith, b r))
All-ended (waiting ∷ ws) h = absurd (cc)
All-ended (locking ∷ ws) h = absurd (cc)
All-ended (woken ∷ ws) h = absurd (cc)
All-ended (working r ∷ ws) h = absurd (cc)
All-ended (posting r ∷ ws) h = absurd (cc)

-- In a state that the steps reach with at least one thread, if all threads have ended and `main` is
-- in `epoll_wait` with no event, each request has been freed as often as it was added.
pub ended-freed :
    {n : ℕ} {reqs : List ℕ} {l : Loop}
    → Reach n reqs l
    → 0 < n
    → All IsEnded l.workers
    → l.polling ≡ true
    → l.event ≡ false
    → (r : ℕ) → count r l.freed ≡ count r reqs
ended-freed {n} {reqs} {l} reach some_thread past at quiet r =
    let inv = Reach-Inv n reqs reach in
    let (none_alive, none_held) = All-ended l.workers past in
    let c0 : count r l.head0 ≡ 0 = elim inv.busy [
      | inl e ↦ ap (count r) e
      | inr all ↦ absurd (omega (arith, all, none_alive, some_thread))
    ] in
    let c1 : count r l.head1 ≡ 0 = elim (inv.announced at) [
      | inl e ↦ ap (count r) e
      | inr on ↦ cc
    ] in
    omega (arith, inv.kept r, none_held r, c0, c1)
