-- ===== src/Tasks/Process.antt =====
-- The rounds of `process_task` of xxx/main-bak.c over the list of tasks.
use ryze.Base.{
  ℕ, ◌+◌, Bool, true, false, ◌≡◌, refl, ap, Option, none, some, List, [], ◌∷◌, length, arith,
}
use ryze.Tasks.{Task, show_task, process_task}

-- The results of the tasks whose `finish` is not set.
abbrev unfinished : Bool → Option ℕ → List ℕ → List ℕ
unfinished true o rest = rest
unfinished false none rest = rest
unfinished false (some v) rest = v ∷ rest

abbrev pub pending : List Task → List ℕ
pending [] = []
pending (t ∷ ts) = unfinished t.finish t.result (pending ts)

-- A round prints what is pending, leaves nothing pending, and loses no task.
abbrev pub Settles : Bool → List Task → Type 0
Settles before ts =
    let r = process_task before ts in
    (r.printed ≡ pending ts)
    × (pending r.left ≡ [])
    × (length r.left + length r.destroyed ≡ length ts)

settle_task :
    (id : ℕ) (f : Bool) (o : Option ℕ) (before : Bool) (ts : List Task)
    → ((b : Bool) → Settles b ts)
    → Settles before (record { id = id; finish = f; result = o } ∷ ts)
unfolding process_task show_task
settle_task id true o true ts h = let (e, e', e'') = h true in (e, e', omega (arith, e''))
settle_task id true none false ts h = let (e, e', e'') = h true in (e, e', omega (arith, e''))
settle_task id true (some v) false ts h = let (e, e', e'') = h true in (e, e', omega (arith, e''))
settle_task id false none before ts h = let (e, e', e'') = h false in (e, e', omega (arith, e''))
settle_task id false (some v) before ts h =
    let (e, e', e'') = h true in (ap (λ r. v ∷ r) e, e', omega (arith, e''))

-- A call of `process_task` prints the result of each task that has one and no `finish`, in the order
-- of the list, and no other; behind it no result is left to print, so that each is printed once; and
-- each task is left in the list or destroyed.
pub process_task-Settles : (before : Bool) (ts : List Task) → Settles before ts
unfolding process_task
process_task-Settles before [] = (refl, refl, refl)
process_task-Settles before (t ∷ ts) =
    settle_task t.id t.finish t.result before ts (λ b. process_task-Settles b ts)
