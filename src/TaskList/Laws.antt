-- ===== src/TaskList/Laws.antt =====
-- The list of epoll2.cc is a stack: what was added last is removed first.
use ryze.Base.{ℕ, ◌≡◌, ◌≢◌, refl, none, some, List, [], ◌∷◌, All, ok, arith}
use ryze.Links.{update}
use ryze.ThreadPool.Queue.Laws.{IsNot, Chain, end_of, Chain-update, end_of-ne, nonzero}
use ryze.TaskList.{Items, list_init, new_item, list_add, list_remove}

-- The pointers `next` lead from each item to the one above it.
abbrev pub Back : (ℕ → ℕ) → ℕ → List ℕ → Type 0
Back next above [] = Unit
Back next above (x ∷ xs) = (next x ≡ above) × Back next x xs

-- The items from the tail to the head.
pub record IsStack (xs : List ℕ) (li : Items) : Type 0 where
  pub down : Chain li.prev li.tail xs
  pub up : Back li.next 0 xs
  pub bottom : li.head ≡ end_of 0 xs

Back-update :
    (t v : ℕ) (next : ℕ → ℕ) (above : ℕ) (xs : List ℕ)
    → All (IsNot t) xs
    → Back next above xs
    → Back (update next t v) above xs
Back-update t v next above [] out b = tt
Back-update t v next above (x ∷ xs) out b =
    (let ne = out.0 in let e = b.0 in ground arith, Back-update t v next x xs out.1 b.1)

pub list_init-IsStack : (prev next task : ℕ → ℕ) → IsStack [] (list_init prev next task)
unfolding list_init
list_init-IsStack prev next task = record { down = refl; up = tt; bottom = refl }

-- An item that is not NULL and not in the list comes on top, with its task.
pub list_add-IsStack :
    (it task : ℕ) (xs : List ℕ) (li : Items)
    → IsStack xs li
    → it ≢ 0
    → All (IsNot it) xs
    → (l : Items) × (list_add it task li ≡ ok l) × IsStack (it ∷ xs) l × (l.task it ≡ task)
unfolding list_add
list_add-IsStack it task [] li h pos new =
    let empty : li.head ≡ 0 = h.bottom in
    let p : update li.prev it 0 it ≡ 0 = ground arith in
    let n : update li.next it 0 it ≡ 0 = ground arith in
    let t : update li.task it task it ≡ task = ground arith in
    (
      record (new_item it task li) { head = it; tail = it },
      ground arith,
      record { down = (refl, pos, tt, p); up = (n, tt); bottom = refl },
      t,
    )
list_add-IsStack it task (x ∷ xs) li h pos new =
    let (e, ne, apart, c) = h.down in
    let bottom : li.head ≡ end_of x xs = h.bottom in
    let some_head : end_of x xs ≢ 0 = end_of-ne 0 x xs ne (nonzero li.prev (li.prev x) xs c) in
    let p : update (update li.prev it 0) it x it ≡ x = ground arith in
    let n : update (update li.next it 0) x it it ≡ 0 = let o = new.0 in ground arith in
    let nx : update (update li.next it 0) x it x ≡ it = ground arith in
    let t : update li.task it task it ≡ task = ground arith in
    let fields = new_item it task li in
    (
      record fields { next = update fields.next x it; prev = update fields.prev it x; tail = it },
      ground arith,
      record {
        down = (
          refl,
          pos,
          new,
          rw p (
              Chain-update it x (update li.prev it 0) x (x ∷ xs) new
                (Chain-update it 0 li.prev x (x ∷ xs) new (refl, ne, apart, c))),
        );
        up = (
          n,
          (
            nx,
            Back-update x it (update li.next it 0) x xs apart
                (Back-update it 0 li.next x xs new.1 h.up.1),
          ),
        );
        bottom = bottom;
      },
      t,
    )

pub list_remove-empty : (li : Items) → IsStack [] li → list_remove li ≡ ok (none, li)
unfolding list_remove
list_remove-empty li h = let empty : li.tail ≡ 0 = h.down in ground arith

-- The top item comes off; the tasks stay as they are.
pub list_remove-IsStack :
    (x : ℕ) (xs : List ℕ) (li : Items)
    → IsStack (x ∷ xs) li
    → (l : Items) × (list_remove li ≡ ok (some x, l)) × IsStack xs l × (l.task ≡ li.task)
unfolding list_remove
list_remove-IsStack x [] li h =
    let (e, ne, apart, c) = h.down in
    let bottom : li.head ≡ x = h.bottom in
    (
      record li { head = 0; tail = 0 },
      ground arith,
      record { down = refl; up = tt; bottom = refl },
      refl,
    )
list_remove-IsStack x (y ∷ ys) li h =
    let (e, ne, apart, c) = h.down in
    let below : li.prev x ≡ y = c.0 in
    let pos : y ≢ 0 = c.1 in
    let bottom : li.head ≡ end_of y ys = h.bottom in
    let far : end_of y ys ≢ x = end_of-ne x y ys apart.0 apart.1 in
    let n : update li.next y 0 y ≡ 0 = ground arith in
    (
      record li { tail = y; next = update li.next y 0; prev = update li.prev x 0 },
      ground arith,
      record {
        down = Chain-update x 0 li.prev y (y ∷ ys) apart (refl, c.1, c.2, c.3);
        up = (n, Back-update y 0 li.next y ys c.2 h.up.1.1);
        bottom = bottom;
      },
      refl,
    )
