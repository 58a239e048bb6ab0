-- ===== src/TaskList.antt =====
-- epoll2.cc: a list of tasks that a thread fills and the event loop takes from. A pointer is a
-- number, and NULL is 0; `malloc` is taken to succeed, and gives a pointer that is passed on.
pub mod Laws
pub mod Program
use ryze.Base.{ℕ, ◌==◌, if◌then◌else◌, Option, none, some, Run, ok, fault}
use ryze.Links.{update}

-- `struct list`, and the fields of every `struct item`. A list is accessed under its mutex, by one
-- thread at a time.
pub record Items : Type 0 where
  pub head : ℕ
  pub tail : ℕ
  pub prev : ℕ → ℕ
  pub next : ℕ → ℕ
  pub task : ℕ → ℕ

-- The items are as `malloc` leaves them.
unfoldable pub list_init : (prev next task : ℕ → ℕ) → Items
list_init prev next task = record { head = 0; tail = 0; prev = prev; next = next; task = task }

-- The struct of the new item `it`.
unfoldable pub new_item : (it task : ℕ) → Items → Items
new_item it task li = record li {
  prev = update li.prev it 0;
  next = update li.next it 0;
  task = update li.task it task;
}

unfoldable pub list_add : (it task : ℕ) → Items → Run Items
unfolding new_item
list_add it task li =
    let l : Items = new_item it task li in
    if l.head == 0
    then ok (record l { head = it; tail = it })
    else if l.tail == 0
    then fault
    else ok (record l { next = update l.next l.tail it; prev = update l.prev it l.tail; tail = it })

-- The item, or `none` for NULL, and the list behind.
unfoldable pub list_remove : Items → Run (Option ℕ × Items)
list_remove li =
    if li.tail == 0
    then ok (none, li)
    else if li.head == li.tail
    then ok (some li.tail, record li { head = 0; tail = 0 })
    else if li.prev li.tail == 0
    then fault
    else ok (
      some li.tail,
      record li {
        tail = li.prev li.tail;
        next = update li.next (li.prev li.tail) 0;
        prev = update li.prev li.tail 0;
      },
    )
