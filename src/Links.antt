-- ===== src/Links.antt =====
-- The macros of include/list.h on the links of entries. A pointer is a number, NULL is 0, and every
-- access through NULL is a fault; other pointers are taken to be valid.
pub mod Ring
pub mod Delete
pub mod Inline
use ryze.Base.{ℕ, Bool, true, false, ◌==◌, if◌then◌else◌, Run, ok, fault}

-- The fields of every `struct list_head`.
pub record Links : Type 0 where
  pub prev : ℕ → ℕ
  pub next : ℕ → ℕ

abbrev pub update : (ℕ → ℕ) → ℕ → ℕ → ℕ → ℕ
update f p v q = if q == p then v else f q

abbrev pub set_prev : ℕ → ℕ → Links → Links
set_prev p v l = record l { prev = update l.prev p v }

abbrev pub set_next : ℕ → ℕ → Links → Links
set_next p v l = record l { next = update l.next p v }

-- LIST_INIT(head)
unfoldable pub list_init : ℕ → Links → Run Links
list_init head l = if head == 0 then fault else ok (set_next head head (set_prev head head l))

-- LIST_ADD(head, entry)
unfoldable pub list_add : (head entry : ℕ) → Links → Run Links
list_add head entry l =
    if head == 0
    then fault
    else if entry == 0
    then fault
    else let l1 = set_prev entry head l in
      let l2 = set_next entry (l1.next head) l1 in
      if l2.next head == 0
      then fault
      else let l3 = set_prev (l2.next head) entry l2 in ok (set_next head entry l3)

-- LIST_ADD_TAIL(head, entry)
unfoldable pub list_add_tail : (head entry : ℕ) → Links → Run Links
list_add_tail head entry l =
    if head == 0
    then fault
    else if entry == 0
    then fault
    else let l1 = set_prev entry (l.prev head) l in
      let l2 = set_next entry head l1 in
      if l2.prev head == 0
      then fault
      else let l3 = set_next (l2.prev head) entry l2 in ok (set_prev head entry l3)

-- LIST_DEL(entry)
unfoldable pub list_del : ℕ → Links → Run Links
list_del entry l =
    if entry == 0
    then fault
    else if l.prev entry == 0
    then fault
    else let l1 = set_next (l.prev entry) (l.next entry) l in
      if l1.next entry == 0
      then fault
      else let l2 = set_prev (l1.next entry) (l1.prev entry) l1 in
        ok (set_next entry 0 (set_prev entry 0 l2))

-- LIST_EMPTY(head)
unfoldable pub list_empty : ℕ → Links → Bool
list_empty head l = l.next head == head
