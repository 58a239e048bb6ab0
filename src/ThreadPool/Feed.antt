-- ===== src/ThreadPool/Feed.antt =====
-- `main` of ev_thread_pool.cc: which task it gives to which thread.
use native.Mathlib.Nat.{mul-add-mod_self_right, zero-mul, suc-mul, mod-eq_of_lt}
use ryze.Base.{
  ℕ, zero, suc, ◌+◌, ◌-◌, ◌*◌, ◌%◌, ◌≤◌, ◌<◌, ◌≡◌, refl, ap, ◌∙◌, inl, inr, ◌==◌, if◌then◌else◌,
  Bool-cases, List, [], ◌∷◌, Run, ok, out_of_fuel, ◌>>=◌, arith,
}

-- The number of file names.
abbrev pub len : ℕ
len = 4

-- The place of the thread and the place of the file name of each call of `ev_task_info_add`, in
-- order, in a pool of `n` threads. Behind the last thread comes the first, at most 16 times.
unfoldable pub feed : (fuel n thread_info index count : ℕ) → Run (List (ℕ × ℕ))
feed zero n thread_info index count = out_of_fuel
feed (suc fuel) n thread_info index count =
    let task : ℕ × ℕ = (thread_info, index % len) in
    let next = feed fuel n (suc thread_info) (suc index) count >>= λ (rest : List (ℕ × ℕ)).
    ok (task ∷ rest) in
    let again =
      feed fuel n 0 (suc index) (suc count) >>= λ (rest : List (ℕ × ℕ)). ok (task ∷ rest) in
    if suc thread_info == n then if suc count == 16 then ok (task ∷ []) else again else next

-- The calls from number `k` on, `m` of them: the threads take turns, and so do the file names.
abbrev pub turns : (n k m : ℕ) → List (ℕ × ℕ)
turns n k zero = []
turns n k (suc m) = (k % n, k % len) ∷ turns n (suc k) m

mod_of_place : (n t c : ℕ) → t < n → (c * n + t) % n ≡ t
mod_of_place n t c lt = mul-add-mod_self_right c n t ∙ mod-eq_of_lt lt

-- In round `c` of 16, with `d` behind it and `m` calls left.
feed-from :
    (fuel n t k c d m : ℕ)
    → t < n
    → c + d ≡ 15
    → k ≡ c * n + t
    → m + t ≡ d * n + n
    → m ≤ fuel
    → feed fuel n t k c ≡ ok (turns n k m)
unfolding feed
feed-from fuel n t k c d zero lt rounds at end enough = absurd (omega arith)
feed-from zero n t k c d (suc m) lt rounds at end enough = absurd (omega arith)
feed-from (suc fuel) n t k c d (suc m) lt rounds at end enough =
    let place : k % n ≡ t = rw at (mod_of_place n t c lt) in
    elim (Bool-cases (suc t == n)) [
      | inr inner ↦
          let rest =
            feed-from fuel n (suc t) (suc k) c d m (ground arith) rounds (omega arith) (omega arith)
              (omega arith) in
          rw (inner, rest, place) refl
      | inl wrap ↦ elim (Bool-cases (suc c == 16)) [
        | inl over ↦
            let none : d ≡ 0 = ground arith in
            let size : d * n ≡ 0 = rw none (zero-mul n) in
            let back : suc t ≡ n = ground arith in
            let behind : m ≡ 0 = omega arith in rw (wrap, over, place, behind) refl
        | inr more ↦
            let back : suc t ≡ n = ground arith in
            let some_round : d ≡ suc (d - 1) = ground arith in
            let size : d * n ≡ (d - 1) * n + n = ap (λ x. x * n) some_round ∙ suc-mul (d - 1) n in
            let rest =
              feed-from fuel n 0 (suc k) (suc c) (d - 1) m (omega arith) (omega arith)
                (omega (arith, suc-mul c n)) (omega arith) (omega arith) in
            rw (wrap, more, rest, place) refl
      ]
    ]

-- With at least one thread, 16 * n rounds of the loop are enough: call number k is for thread k % n,
-- with file name k % 4.
pub feed-turns : (fuel n : ℕ) → 0 < n → 16 * n ≤ fuel → feed fuel n 0 0 0 ≡ ok (turns n 0 (16 * n))
feed-turns fuel n some_thread enough =
    feed-from fuel n 0 0 0 15 (16 * n) some_thread refl (omega arith) (omega arith) enough
