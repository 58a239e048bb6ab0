-- ===== src/Etp.antt =====
-- xxx/main22.c: threads that work off a list of requests and end, and the loop that takes the
-- results.
pub mod Delivery
use ryze.Base.{ℕ, Bool, true, false, ◌≡◌, some, List, [], ◌∷◌, ◌++◌, replicate, get_elem?}
use ryze.Ev.Workers.{Worker, locking, ended, working, posting, set_worker}

-- `struct ev_loop_t`, with the lists as queues of requests. `event` is true if the counter of the
-- eventfd is not 0, and `polling` while `main` is in `epoll_wait`, else it is on the way into
-- `mutex[1]`. `freed` is a history of the requests that `process_work` has destroyed and freed.
pub record Loop : Type 0 where
  pub head0 : List ℕ
  pub head1 : List ℕ
  pub workers : List Worker
  pub event : Bool
  pub polling : Bool
  pub freed : List ℕ

-- `ev_loop_init`, and `main` up to its loop: the requests are added before `n` threads are started.
unfoldable pub start_loop : (n : ℕ) → List ℕ → Loop
start_loop n reqs = record {
  head0 = reqs;
  head1 = [];
  workers = replicate n locking;
  event = false;
  polling = true;
  freed = [];
}

-- The first stretch of `etp_work` under a lock, for the entries of `head[0]`: a thread that finds
-- none ends.
unfoldable pub take_entry : List ℕ → ℕ → Loop → Loop
take_entry [] i l = record l { workers = set_worker i ended l.workers }
take_entry (r ∷ rest) i l = record l { head0 = rest; workers = set_worker i (working r) l.workers }

-- The second stretch under a lock.
unfoldable pub add_result : ℕ → ℕ → Loop → Loop
add_result i r l = record l {
  head1 = l.head1 ++ (r ∷ []);
  event = true;
  workers = set_worker i locking l.workers;
}

-- The loop of `process_work`, under `mutex[1]` up to its end.
unfoldable pub free_entries : List ℕ → List ℕ → List ℕ
free_entries [] freed = freed
free_entries (r ∷ rest) freed = free_entries rest (freed ++ (r ∷ []))

unfoldable pub process_work : Loop → Loop
unfolding free_entries
process_work l = record l { head1 = []; freed = free_entries l.head1 l.freed; polling = true }

pub data Step : Loop → Loop → Type 0 where
  take : (i : ℕ) (l : Loop) → get_elem? l.workers i ≡ some locking → Step l (take_entry l.head0 i l)
  work :
      (i r : ℕ) (l : Loop)
      → get_elem? l.workers i ≡ some (working r)
      → Step l (record l { workers = set_worker i (posting r) l.workers })
  post : (i r : ℕ) (l : Loop) → get_elem? l.workers i ≡ some (posting r) → Step l (add_result i r l)
  poll :
      (l : Loop)
      → l.polling ≡ true
      → l.event ≡ true
      → Step l (record l { polling = false; event = false })
  process : (l : Loop) → l.polling ≡ false → Step l (process_work l)

pub data Reach (n : ℕ) (reqs : List ℕ) : Loop → Type 0 where
  start : Reach n reqs (start_loop n reqs)
  then_step : {l l' : Loop} → Reach n reqs l → Step l l' → Reach n reqs l'
