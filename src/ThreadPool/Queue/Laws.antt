-- ===== src/ThreadPool/Queue/Laws.antt =====
-- The list of tasks is a queue.
use ryze.Base.{
  ℕ, zero, suc, ◌<◌, ◌≡◌, ◌≢◌, refl, sym, none, some, List, [], ◌∷◌, ◌++◌, All, length, ok, arith,
}
use mathlib.Core.List.{append_assoc, append-nil}
use ryze.Links.{update}
use ryze.ThreadPool.Queue.{TaskQueue, put_task, take_task, free_tasks, clear_tasks}

abbrev pub IsNot : ℕ → ℕ → Type 0
IsNot t x = x ≢ t

-- From `p` the pointers `next` lead through the distinct tasks `xs` to NULL.
abbrev pub Chain : (ℕ → ℕ) → ℕ → List ℕ → Type 0
Chain next p [] = p ≡ 0
Chain next p (x ∷ xs) = (p ≡ x) × (x ≢ 0) × All (IsNot x) xs × Chain next (next x) xs

abbrev pub end_of : ℕ → List ℕ → ℕ
end_of p [] = p
end_of p (x ∷ xs) = end_of x xs

pub record IsQueue (xs : List ℕ) (q : TaskQueue) : Type 0 where
  pub chain : Chain q.next q.head xs
  pub ends : q.tail ≡ end_of 0 xs

-- A write to a task that is not in the list.
pub Chain-update :
    (t v : ℕ) (next : ℕ → ℕ) (p : ℕ) (xs : List ℕ)
    → All (IsNot t) xs
    → Chain next p xs
    → Chain (update next t v) p xs
Chain-update t v next p [] out c = c
Chain-update t v next p (x ∷ xs) out (e, pos, apart, c) =
    let same : update next t v x ≡ next x = let ne = out.0 in ground arith in
    (e, pos, apart, rw same (Chain-update t v next (next x) xs out.1 c))

pub end_of-ne : (t d : ℕ) (xs : List ℕ) → d ≢ t → All (IsNot t) xs → end_of d xs ≢ t
end_of-ne t d [] ne out = ne
end_of-ne t d (x ∷ xs) ne out = end_of-ne t x xs out.0 out.1

All-snoc : (x t : ℕ) (xs : List ℕ) → All (IsNot x) xs → t ≢ x → All (IsNot x) (xs ++ (t ∷ []))
All-snoc x t [] h ne = (ne, tt)
All-snoc x t (y ∷ ys) h ne = (h.0, All-snoc x t ys h.1 ne)

end_of-snoc : (d t : ℕ) (xs : List ℕ) → end_of d (xs ++ (t ∷ [])) ≡ t
end_of-snoc d t [] = refl
end_of-snoc d t (x ∷ xs) = end_of-snoc x t xs

-- A write to the last task of the list.
Chain-snoc :
    (t : ℕ) (next : ℕ → ℕ) (x : ℕ) (xs : List ℕ)
    → t ≢ 0
    → next t ≡ 0
    → All (IsNot t) (x ∷ xs)
    → Chain next x (x ∷ xs)
    → Chain (update next (end_of x xs) t) x (x ∷ (xs ++ (t ∷ [])))
Chain-snoc t next x [] pos new out (e, ne, apart, c) =
    let there : update next x t x ≡ t = ground arith in
    let kept : update next x t t ≡ 0 = let o = out.0 in ground arith in
    (e, ne, (λ s. out.0 (sym s), tt), (there, pos, tt, kept))
Chain-snoc t next x (y ∷ ys) pos new out (e, ne, apart, c) =
    let step : next x ≡ y = c.0 in
    let far : end_of y ys ≢ x = end_of-ne x y ys apart.0 apart.1 in
    let same : update next (end_of y ys) t x ≡ y = ground arith in
    let rest = Chain-snoc t next y ys pos new out.1 (refl, c.1, c.2, c.3) in
    (e, ne, All-snoc x t (y ∷ ys) apart (λ s. out.0 (sym s)), rw same rest)

pub nonzero : (next : ℕ → ℕ) (p : ℕ) (xs : List ℕ) → Chain next p xs → All (IsNot 0) xs
nonzero next p [] c = tt
nonzero next p (x ∷ xs) c = (c.1, nonzero next (next x) xs c.3)

pub put_task-IsQueue :
    (t : ℕ) (xs : List ℕ) (q : TaskQueue)
    → IsQueue xs q
    → t ≢ 0
    → All (IsNot t) xs
    → (q' : TaskQueue) × (put_task t q ≡ ok q') × IsQueue (xs ++ (t ∷ [])) q'
unfolding put_task
put_task-IsQueue t [] q h pos new =
    let empty : q.head ≡ 0 = h.chain in
    let kept : update q.next t 0 t ≡ 0 = ground arith in
    (
      record { head = t; tail = t; next = update q.next t 0 },
      ground arith,
      record { chain = (refl, pos, tt, kept); ends = refl },
    )
put_task-IsQueue t (x ∷ xs) q h pos new =
    let (e, ne, apart, c) = h.chain in
    let ends : q.tail ≡ end_of x xs = h.ends in
    let some_tail : end_of x xs ≢ 0 = end_of-ne 0 x xs ne (nonzero q.next (q.next x) xs c) in
    let kept : update q.next t 0 t ≡ 0 = ground arith in
    let before = Chain-update t 0 q.next x (x ∷ xs) new (refl, ne, apart, c) in
    (
      record { head = x; tail = t; next = update (update q.next t 0) (end_of x xs) t },
      ground arith,
      record {
        chain = Chain-snoc t (update q.next t 0) x xs pos kept new before;
        ends = sym (end_of-snoc x t xs);
      },
    )

pub take_task-IsQueue :
    (x : ℕ) (xs : List ℕ) (q : TaskQueue)
    → IsQueue (x ∷ xs) q
    → (q' : TaskQueue) × (take_task q ≡ (some x, q')) × IsQueue xs q'
unfolding take_task
take_task-IsQueue x [] q h =
    let (e, ne, apart, c) = h.chain in
    let ends : q.tail ≡ x = h.ends in
    (record q { head = 0; tail = 0 }, ground arith, record { chain = refl; ends = refl })
take_task-IsQueue x (y ∷ ys) q h =
    let (e, ne, apart, c) = h.chain in
    let ends : q.tail ≡ end_of y ys = h.ends in
    let far : end_of y ys ≢ x = end_of-ne x y ys apart.0 apart.1 in
    (record q { head = q.next q.head }, ground arith, record { chain = rw e c; ends = h.ends })

pub take_task-empty : (q : TaskQueue) → IsQueue [] q → take_task q ≡ (none, q)
unfolding take_task
take_task-empty q h = let empty : q.head ≡ 0 = h.chain in ground arith

free_tasks-Chain :
    (fuel : ℕ) (next : ℕ → ℕ) (p : ℕ) (xs freed : List ℕ)
    → Chain next p xs
    → length xs < fuel
    → free_tasks fuel next p freed ≡ ok (freed ++ xs)
unfolding free_tasks
free_tasks-Chain zero next p xs freed c enough = absurd (omega arith)
free_tasks-Chain (suc fuel) next p [] freed c enough = rw append-nil (ground arith)
free_tasks-Chain (suc fuel) next p (x ∷ xs) freed (e, ne, apart, c) enough =
    let rest = free_tasks-Chain fuel next (next x) xs (freed ++ (x ∷ [])) c (omega arith) in
    ground (arith, rest, append_assoc freed (x ∷ []) xs)

pub clear_tasks-IsQueue :
    (fuel : ℕ) (xs : List ℕ) (q : TaskQueue)
    → IsQueue xs q
    → length xs < fuel
    → (q' : TaskQueue) × (clear_tasks fuel q ≡ ok (xs, q')) × IsQueue [] q'
unfolding clear_tasks
clear_tasks-IsQueue fuel xs q h enough = (
  record q { head = 0; tail = 0 },
  rw (free_tasks-Chain fuel q.next q.head xs [] h.chain enough) refl,
  record { chain = refl; ends = refl },
)
