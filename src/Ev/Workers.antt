-- ===== src/Ev/Workers.antt =====
-- Where the threads of `ev_work` of xxx/ev/ev.c stand, and how many of them stand where.
use ryze.Base.{
  ℕ, zero, suc, ◌+◌, ◌<◌, ◌==◌, if◌then◌else◌, ◌≡◌, refl, ap, sym, ◌⊎◌, inl, inr, some, List, [],
  ◌∷◌, get_elem?, arith,
}

-- `locking`: on the way into `lock[0]`; `waiting`: in EV_WAIT; `woken`: on the way out of it, for
-- `lock[0]`; `working`: with a request; `posting`: the same behind `work`, on the way into
-- `lock[1]`; `ended`: behind the `return`.
pub data Worker : Type 0 where
  locking waiting woken ended : Worker
  working posting : (req : ℕ) → Worker

abbrev pub set_worker : ℕ → Worker → List Worker → List Worker
set_worker i v [] = []
set_worker zero v (w ∷ ws) = v ∷ ws
set_worker (suc i) v (w ∷ ws) = w ∷ set_worker i v ws

abbrev signalled : Worker → Worker
signalled waiting = woken
signalled locking = locking
signalled woken = woken
signalled ended = ended
signalled (working r) = working r
signalled (posting r) = posting r

-- pthread_cond_signal, where the system has chosen thread `j`.
abbrev pub wake : ℕ → List Worker → List Worker
wake j [] = []
wake zero (w ∷ ws) = signalled w ∷ ws
wake (suc j) (w ∷ ws) = w ∷ wake j ws

abbrev pub total : (Worker → ℕ) → List Worker → ℕ
total f [] = 0
total f (w ∷ ws) = f w + total f ws

-- In EV_WAIT and not signalled.
abbrev pub asleep : Worker → ℕ
asleep w = elim w [ waiting ↦ 1 | _ ↦ 0 ]

-- Counted by `wait_threads`.
abbrev pub in_wait : Worker → ℕ
in_wait w = elim w [ waiting ↦ 1 | woken ↦ 1 | _ ↦ 0 ]

-- About to look at the queue.
abbrev pub seeking : Worker → ℕ
seeking w = elim w [ locking ↦ 1 | woken ↦ 1 | _ ↦ 0 ]

-- Counted by `alive_threads`.
abbrev pub alive : Worker → ℕ
alive w = elim w [ ended ↦ 0 | _ ↦ 1 ]

abbrev pub count : ℕ → List ℕ → ℕ
count r [] = 0
count r (q ∷ qs) = (if q == r then 1 else 0) + count r qs

-- With the request `r`.
abbrev pub holding : ℕ → Worker → ℕ
holding r w = elim w [ working q ↦ count r (q ∷ []) | posting q ↦ count r (q ∷ []) | _ ↦ 0 ]

-- A signal goes to a thread that waits, if there is one.
abbrev pub IsChoice : ℕ → List Worker → Type 0
IsChoice j ws = (get_elem? ws j ≡ some waiting) ⊎ (total asleep ws ≡ 0)

module _ (f : Worker → ℕ) where
  pub total-set_worker :
      (i : ℕ) (v w : Worker) (ws : List Worker)
      → get_elem? ws i ≡ some w
      → total f (set_worker i v ws) + f w ≡ total f ws + f v
  total-set_worker i v w [] e = cc
  total-set_worker zero v w (w' ∷ ws) e = grind arith
  total-set_worker (suc i) v w (w' ∷ ws) e = omega (arith, total-set_worker i v w ws e)

  total-signalled : (w : Worker) → f waiting ≡ f woken → f (signalled w) ≡ f w
  total-signalled waiting same = sym same
  total-signalled locking same = refl
  total-signalled woken same = refl
  total-signalled ended same = refl
  total-signalled (working r) same = refl
  total-signalled (posting r) same = refl

  pub total-wake :
      (j : ℕ) (ws : List Worker) → f waiting ≡ f woken → total f (wake j ws) ≡ total f ws
  total-wake j [] same = refl
  total-wake zero (w ∷ ws) same = omega (arith, total-signalled w same)
  total-wake (suc j) (w ∷ ws) same = omega (arith, total-wake j ws same)

-- A signal to a sleeping thread makes it look at the queue.
wake-seeking :
    (j : ℕ) (ws : List Worker) → get_elem? ws j ≡ some waiting → 0 < total seeking (wake j ws)
wake-seeking j [] e = cc
wake-seeking zero (waiting ∷ ws) e = omega arith
wake-seeking zero (locking ∷ ws) e = cc
wake-seeking zero (woken ∷ ws) e = cc
wake-seeking zero (ended ∷ ws) e = cc
wake-seeking zero (working r ∷ ws) e = cc
wake-seeking zero (posting r ∷ ws) e = cc
wake-seeking (suc j) (w ∷ ws) e = omega (arith, wake-seeking j ws e)

wake-asleep : (j : ℕ) (ws : List Worker) → total asleep ws ≡ 0 → total asleep (wake j ws) ≡ 0
wake-asleep j [] e = refl
wake-asleep zero (waiting ∷ ws) e = absurd (omega arith)
wake-asleep zero (locking ∷ ws) e = e
wake-asleep zero (woken ∷ ws) e = e
wake-asleep zero (ended ∷ ws) e = e
wake-asleep zero (working r ∷ ws) e = e
wake-asleep zero (posting r ∷ ws) e = e
wake-asleep (suc j) (w ∷ ws) e = omega (arith, wake-asleep j ws (omega arith))

-- After a signal no thread is asleep, or one is about to look at the queue.
pub wake-IsChoice :
    (j : ℕ) (ws : List Worker)
    → IsChoice j ws
    → (total asleep (wake j ws) ≡ 0) ⊎ (0 < total seeking (wake j ws))
wake-IsChoice j ws (inl e) = inr (wake-seeking j ws e)
wake-IsChoice j ws (inr e) = inl (wake-asleep j ws e)

-- A thread that is not asleep may move without the choice of a signal being lost.
get_elem?-set_worker :
    (j i : ℕ) (v w : Worker) (ws : List Worker)
    → get_elem? ws j ≡ some waiting
    → get_elem? ws i ≡ some w
    → asleep w ≡ 0
    → get_elem? (set_worker i v ws) j ≡ some waiting
get_elem?-set_worker j i v w [] e h up = cc
get_elem?-set_worker zero zero v w (w' ∷ ws) e h up = absurd (grind arith)
get_elem?-set_worker zero (suc i) v w (w' ∷ ws) e h up = e
get_elem?-set_worker (suc j) zero v w (w' ∷ ws) e h up = e
get_elem?-set_worker (suc j) (suc i) v w (w' ∷ ws) e h up = get_elem?-set_worker j i v w ws e h up

pub set_worker-IsChoice :
    (j i : ℕ) (v w : Worker) (ws : List Worker)
    → get_elem? ws i ≡ some w
    → asleep w ≡ 0
    → asleep v ≡ 0
    → IsChoice j ws
    → IsChoice j (set_worker i v ws)
set_worker-IsChoice j i v w ws h up up' (inl e) = inl (get_elem?-set_worker j i v w ws e h up)
set_worker-IsChoice j i v w ws h up up' (inr e) =
    inr (omega (arith, total-set_worker asleep i v w ws h))

pub set_worker-set_worker :
    (i : ℕ) (v w : Worker) (ws : List Worker)
    → set_worker i v (set_worker i w ws) ≡ set_worker i v ws
set_worker-set_worker i v w [] = refl
set_worker-set_worker zero v w (w' ∷ ws) = refl
set_worker-set_worker (suc i) v w (w' ∷ ws) = ap (◌∷◌ w') (set_worker-set_worker i v w ws)

pub get_elem?_of_set_worker :
    (i : ℕ) (v w : Worker) (ws : List Worker)
    → get_elem? ws i ≡ some w
    → get_elem? (set_worker i v ws) i ≡ some v
get_elem?_of_set_worker i v w [] e = cc
get_elem?_of_set_worker zero v w (w' ∷ ws) e = refl
get_elem?_of_set_worker (suc i) v w (w' ∷ ws) e = get_elem?_of_set_worker i v w ws e
