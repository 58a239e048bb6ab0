-- ===== src/Links/Inline.antt =====
-- The functions of list.h, which do inline what the macros of include/list.h do.
pub mod Laws
use ryze.Base.{ℕ, Bool, true, false, ◌==◌, if◌then◌else◌, Option, none, some, Run, ok, fault, ◌>>=◌}
use ryze.Links.{Links, set_prev, set_next}

-- list_init(list)
unfoldable pub list_init : ℕ → Links → Run Links
list_init list l = if list == 0 then fault else ok (set_prev list list (set_next list list l))

-- __list_add(list, prev, next)
unfoldable pub list_insert : (list prev next : ℕ) → Links → Run Links
list_insert list prev next l =
    if next == 0
    then fault
    else if list == 0
    then fault
    else if prev == 0
    then fault
    else ok (set_next prev list (set_prev list prev (set_next list next (set_prev next list l))))

-- list_add(list, head)
unfoldable pub list_add : (list head : ℕ) → Links → Run Links
unfolding list_insert
list_add list head l = if head == 0 then fault else list_insert list head (l.next head) l

-- list_add_tail(list, head)
unfoldable pub list_add_tail : (list head : ℕ) → Links → Run Links
unfolding list_insert
list_add_tail list head l = if head == 0 then fault else list_insert list (l.prev head) head l

-- __list_del(prev, next)
unfoldable pub list_join : (prev next : ℕ) → Links → Run Links
list_join prev next l =
    if next == 0
    then fault
    else if prev == 0
    then fault
    else ok (set_next prev next (set_prev next prev l))

-- list_del(entry)
unfoldable pub list_del : ℕ → Links → Run Links
unfolding list_join
list_del entry l = if entry == 0 then fault else do
  l' ← list_join (l.prev entry) (l.next entry) l
  ok (set_prev entry 0 (set_next entry 0 l'))

-- list_empty(head)
unfoldable pub list_empty : ℕ → Links → Bool
list_empty head l = l.next head == head

-- list_remove(head): the entry, or `none` for NULL, and the links behind.
unfoldable pub list_remove : ℕ → Links → Run (Option ℕ × Links)
unfolding list_del list_empty
list_remove head l =
    if head == 0
    then fault
    else if list_empty head l
    then ok (none, l)
    else do l' ← list_del (l.next head) l; ok (some (l.next head), l')

-- list_remove_tail(head)
unfoldable pub list_remove_tail : ℕ → Links → Run (Option ℕ × Links)
unfolding list_del list_empty
list_remove_tail head l =
    if head == 0
    then fault
    else if list_empty head l
    then ok (none, l)
    else do l' ← list_del (l.prev head) l; ok (some (l.prev head), l')
