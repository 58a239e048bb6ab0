-- ===== src/Tasks/Claims.antt =====
-- Each task of xxx/main-bak.c is run once, by one thread.
use ryze.Base.{
  ℕ, zero, suc, ◌+◌, ◌≤◌, Bool, true, false, ◌==◌, ltb, leb, if◌then◌else◌, ◌≡◌, refl, sym, ap, ◌∙◌,
  some, inl, inr, List, [], ◌∷◌, length, replicate, get_elem?, Bool-cases, arith,
}
use ryze.Tasks.{
  Thread, looking, running, Pool, start_pool, bump, set_thread, claim, finish_run, claim_step,
  run_step, Reach, start, then_step,
}

abbrev pub total : (Thread → ℕ) → List Thread → ℕ
total f [] = 0
total f (t ∷ ts) = f t + total f ts

-- Running task `k`.
abbrev pub at_work : ℕ → Thread → ℕ
at_work k (looking q) = 0
at_work k (running q) = if q == k then 1 else 0

-- Behind the claim of task `k`.
abbrev pub claimed : ℕ → Thread → ℕ
claimed k (looking q) = if ltb k q then 1 else 0
claimed k (running q) = if leb k q then 1 else 0

total-set_thread :
    (f : Thread → ℕ) (i : ℕ) (v t : Thread) (ts : List Thread)
    → get_elem? ts i ≡ some t
    → total f (set_thread i v ts) + f t ≡ total f ts + f v
total-set_thread f i v t [] e = cc
total-set_thread f zero v t (u ∷ ts) e = grind arith
total-set_thread f (suc i) v t (u ∷ ts) e = omega (arith, total-set_thread f i v t ts e)

length-set_thread : (i : ℕ) (v : Thread) (ts : List Thread) → length (set_thread i v ts) ≡ length ts
length-set_thread i v [] = refl
length-set_thread zero v (t ∷ ts) = refl
length-set_thread (suc i) v (t ∷ ts) = ap suc (length-set_thread i v ts)

-- A task is run or being run once if it was claimed, and its count is the number of claims.
pub record Inv (n : ℕ) (p : Pool) : Type 0 where
  pub threads_kept : length p.threads ≡ n
  pub counts : (k : ℕ) → p.count k ≡ total (claimed k) p.threads
  pub once : (k : ℕ) → p.runs k + total (at_work k) p.threads ≡ (if p.count k == 0 then 0 else 1)

abbrev next_place : Bool → ℕ → Thread
next_place first k = if first then running k else looking (suc k)

claimed-next :
    (b : Bool) (q k : ℕ)
    → claimed q (next_place b k) ≡ claimed q (looking k) + (if q == k then 1 else 0)
claimed-next true q k = ground arith
claimed-next false q k = ground arith

bump-count : (k q : ℕ) (f : ℕ → ℕ) → bump k f q ≡ f q + (if q == k then 1 else 0)
bump-count k q f = ground arith

at_work-next :
    (b : Bool) (q k : ℕ) → at_work q (next_place b k) ≡ (if b then if k == q then 1 else 0 else 0)
at_work-next true q k = refl
at_work-next false q k = refl

if-same : (b : Bool) → ◌≡◌ {A = ℕ} (if b then 0 else 0) 0
if-same true = refl
if-same false = refl

once-same :
    (c runs others : ℕ)
    → runs + others ≡ (if c == 0 then 0 else 1)
    → runs + (others + (if c == 0 then 1 else 0)) ≡ 1
once-same c runs others h = elim (Bool-cases (c == 0)) [
  | inl z ↦ rw z (ground (arith, h, z))
  | inr nz ↦ rw nz (ground (arith, h, nz))
]

-- The claim of `k` makes a thread run it if its count was 0.
once-next :
    (k q runs others : ℕ) (count : ℕ → ℕ)
    → runs + others ≡ (if count q == 0 then 0 else 1)
    → runs + (others + (if count k == 0 then if k == q then 1 else 0 else 0))
      ≡ (if bump k count q == 0 then 0 else 1)
once-next k q runs others count h = elim (Bool-cases (q == k)) [
  | inl same ↦
      let e : q ≡ k = ground (arith, same) in
      let here : (k == q) ≡ true = ground (arith, same) in
      let c : count q ≡ count k = ap count e in
      let positive : (suc (count q) == 0) ≡ false = ground arith in
      rw (same, here, positive)
        (once-same (count k) runs others (h ∙ ap (λ n. if n == 0 then 0 else 1) c))
  | inr other ↦
      let apart : (k == q) ≡ false = ground (arith, other) in
      let none = if-same (count k == 0) in
      rw (other, apart) (ap (λ n. runs + n) (omega (arith, none)) ∙ h)
]

claim-Inv :
    (n i k : ℕ) (p : Pool)
    → get_elem? p.threads i ≡ some (looking k)
    → Inv n p
    → Inv n (claim i k p)
unfolding claim
claim-Inv n i k p at inv =
    let v = next_place (p.count k == 0) k in
    record {
      threads_kept = length-set_thread i v p.threads ∙ inv.threads_kept;
      counts = λ q. omega (
        arith,
        bump-count k q p.count,
        inv.counts q,
        claimed-next (p.count k == 0) q k,
        total-set_thread (claimed q) i v (looking k) p.threads at,
      );
      once = λ q.
          let sum = total-set_thread (at_work q) i v (looking k) p.threads at in
          let here = at_work-next (p.count k == 0) q k in
          ap (λ n. p.runs q + n) (omega (arith, sum, here))
          ∙ once-next k q (p.runs q) (total (at_work q) p.threads) p.count (inv.once q);
    }

finish_run-Inv :
    (n i k : ℕ) (p : Pool)
    → get_elem? p.threads i ≡ some (running k)
    → Inv n p
    → Inv n (finish_run i k p)
unfolding finish_run
finish_run-Inv n i k p at inv = record {
  threads_kept = length-set_thread i (looking (suc k)) p.threads ∙ inv.threads_kept;
  counts = λ q. ground (
    arith,
    inv.counts q,
    total-set_thread (claimed q) i (looking (suc k)) (running k) p.threads at,
  );
  once = λ q. ground (
    arith,
    inv.once q,
    total-set_thread (at_work q) i (looking (suc k)) (running k) p.threads at,
  );
}

total-replicate : (f : Thread → ℕ) (k : ℕ) (t : Thread) → f t ≡ 0 → total f (replicate k t) ≡ 0
total-replicate f zero t e = refl
total-replicate f (suc k) t e = omega (arith, e, total-replicate f k t e)

length-replicate : (k : ℕ) (t : Thread) → length (replicate k t) ≡ k
length-replicate zero t = refl
length-replicate (suc k) t = ap suc (length-replicate k t)

start_pool-Inv : (size n : ℕ) → Inv n (start_pool size n)
unfolding start_pool
start_pool-Inv size n = record {
  threads_kept = length-replicate n (looking 0);
  counts = λ k. sym (total-replicate (claimed k) n (looking 0) (ground arith));
  once = λ k. omega (arith, total-replicate (at_work k) n (looking 0) refl);
}

Reach-Inv : {size n : ℕ} {p : Pool} → Reach size n p → Inv n p
Reach-Inv {size} {n} start = start_pool-Inv size n
Reach-Inv {size} {n} (then_step reach (claim_step i k p at inside)) =
    claim-Inv n i k p at (Reach-Inv reach)
Reach-Inv {size} {n} (then_step reach (run_step i k p at)) =
    finish_run-Inv n i k p at (Reach-Inv reach)

if-bound : (b : Bool) → (if b then 0 else 1) ≤ 1
if-bound true = omega arith
if-bound false = omega arith

-- In every state that the steps reach no task has been run twice, or is being run by two threads,
-- or is being run behind its end.
pub runs-bound :
    {size n : ℕ} {p : Pool} → Reach size n p → (k : ℕ) → p.runs k + total (at_work k) p.threads ≤ 1
runs-bound {size} {n} {p} reach k =
    omega (arith, (Reach-Inv reach).once k, if-bound (p.count k == 0))

abbrev pub IsPast : ℕ → Thread → Type 0
IsPast size t = t ≡ looking size

abbrev task_of : Thread → ℕ
task_of (looking q) = q
task_of (running q) = q
