-- ===== src/Links/Inline/Laws.antt =====
-- On a ring the functions of list.h do what the macros of include/list.h do, and take entries off.
use mathlib.Core.Path.{fun_ext}
use mathlib.Core.List.{append-nil}
use ryze.Base.{
  ℕ, true, false, ◌==◌, ◌≡◌, ◌≢◌, refl, sym, ap, ◌∙◌, Option, none, some, List, [], ◌∷◌, ◌++◌, Run,
  ok, arith,
}
use ryze.Links.{Links, update}
use ryze.Links.{list_init, list_add, list_add_tail, list_del}
use ryze.Links.Ring.{
  mem, mem-append, mem-last, mem-first, last_of, first_of, Seg-first, Seg-last, IsRing, link,
  list_add-link, list_add_tail-link,
}
use ryze.Links.Delete.{Seg-left, Seg-right, mem-delete, list_del-unlink, list_del-IsRing}
use ryze.Links.Inline

-- `list_init` of list.h stores what LIST_INIT of include/list.h stores.
list_init-same : (l : Links) (head : ℕ) → Inline.list_init head l ≡ list_init head l
unfolding Inline.list_init list_init
list_init-same l head = refl

-- Two stores at different places may change places.
update-update :
    (f : ℕ → ℕ) (p q v w : ℕ)
    → (p == q) ≡ false
    → update (update f p v) q w ≡ update (update f q w) p v
update-update f p q v w apart = fun_ext (λ r. ground (arith, apart))

module _ (l : Links) (head : ℕ) (xs : List ℕ) (e : ℕ) (ring : IsRing l head xs)
    (fresh : mem e (head ∷ xs) ≡ false) (nonzero : e ≢ 0) where
  insert-link :
      (m n : ℕ)
      → (m == 0) ≡ false
      → (n == 0) ≡ false
      → (n == e) ≡ false
      → Inline.list_insert e m n l ≡ ok (link m e n l)
  unfolding Inline.list_insert
  insert-link m n mz nz ne =
      let ez : (e == 0) ≡ false = ground (arith, nonzero) in
      rw (nz, ez, mz)
        (ap (λ f. ok (record { prev = f; next = update (update l.next e n) m e }))
          (update-update l.prev n e e m ne))

  -- For an entry that is not NULL and not in the ring, `list_add` of list.h stores what LIST_ADD of
  -- include/list.h stores.
  pub list_add-same : Inline.list_add e head l ≡ list_add head e l
  unfolding Inline.list_add
  list_add-same =
      let hz : (head == 0) ≡ false = ground (arith, ring.valid) in
      let opened : Inline.list_add e head l ≡ Inline.list_insert e head (l.next head) l =
        rw hz refl in
      opened
      ∙ ap (λ n. Inline.list_insert e head n l) (Seg-first l head xs head ring.links)
      ∙ insert-link head (first_of xs head) hz (mem-first head xs 0 ring.valid)
          (mem-first head xs e fresh)
      ∙ sym (list_add-link l head xs e ring fresh (ground (arith, nonzero)))

  -- For an entry that is not NULL and not in the ring, `list_add_tail` of list.h stores what
  -- LIST_ADD_TAIL of include/list.h stores.
  pub list_add_tail-same : Inline.list_add_tail e head l ≡ list_add_tail head e l
  unfolding Inline.list_add_tail
  list_add_tail-same =
      let hz : (head == 0) ≡ false = ground (arith, ring.valid) in
      let he : (head == e) ≡ false = ground (arith, fresh) in
      let opened : Inline.list_add_tail e head l ≡ Inline.list_insert e (l.prev head) head l =
        rw hz refl in
      opened
      ∙ ap (λ m. Inline.list_insert e m head l) (Seg-last l head xs head ring.links)
      ∙ insert-link (last_of head xs) head (mem-last head xs 0 ring.valid) hz he
      ∙ sym (list_add_tail-link l head xs e ring fresh (ground (arith, nonzero)))

module _ (l : Links) (head : ℕ) (ys zs : List ℕ) (e : ℕ)
    (ring : IsRing l head (ys ++ (e ∷ zs))) where
  -- For an entry of a ring, `list_del` of list.h stores what LIST_DEL of include/list.h stores.
  pub list_del-same : Inline.list_del e l ≡ list_del e l
  unfolding Inline.list_del Inline.list_join
  list_del-same =
      let ez : (e == 0) ≡ false = ground (arith, ring.valid, mem-append 0 ys (e ∷ zs)) in
      let before = Seg-last l head ys e (Seg-left l head ys zs head e ring.links) in
      let after = Seg-first l e zs head (Seg-right l head ys zs head e ring.links) in
      let outside : mem 0 (head ∷ (ys ++ zs)) ≡ false =
        ground (arith, ring.valid, mem-delete 0 ys zs e) in
      let mz = mem-last head ys 0 (ground (arith, outside, mem-append 0 ys zs)) in
      let nz = mem-first head zs 0 (ground (arith, outside, mem-append 0 ys zs)) in
      rw (ez, before, after, mz, nz) refl ∙ sym (list_del-unlink l head ys zs e ring)

-- What is left of a ring, with the entry that was taken off it.
abbrev pub Removed : Run (Option ℕ × Links) → Option ℕ → ℕ → List ℕ → Type 0
Removed m taken head xs = (l' : Links) × (m ≡ ok (taken, l')) × IsRing l' head xs

abbrev pub head_of : List ℕ → Option ℕ
head_of [] = none
head_of (x ∷ xs) = some x

abbrev pub tail_of : List ℕ → List ℕ
tail_of [] = []
tail_of (x ∷ xs) = xs

-- `list_remove` takes the first entry of a ring off, and answers NULL for an empty one.
pub list_remove-IsRing :
    (l : Links) (head : ℕ) (xs : List ℕ)
    → IsRing l head xs
    → Removed (Inline.list_remove head l) (head_of xs) head (tail_of xs)
unfolding Inline.list_remove Inline.list_empty
list_remove-IsRing l head [] ring =
    let hz : (head == 0) ≡ false = ground (arith, ring.valid) in
    let empty : (l.next head == head) ≡ true = ground (arith, ring.links.0) in
    (l, rw (hz, empty) refl, ring)
list_remove-IsRing l head (x ∷ xs) ring =
    let hz : (head == 0) ≡ false = ground (arith, ring.valid) in
    let first : l.next head ≡ x = ring.links.0 in
    let full : (x == head) ≡ false = ground (arith, ring.distinct.0) in
    let (l', same, ring', unset, unset') = list_del-IsRing l head [] xs x ring in
    (l', rw (hz, first, full, list_del-same l head [] xs x ring, same) refl, ring')

last_of-append : (a : ℕ) (xs : List ℕ) (e : ℕ) → last_of a (xs ++ (e ∷ [])) ≡ e
last_of-append a [] e = refl
last_of-append a (x ∷ xs) e = last_of-append x xs e

first_of-apart :
    (head : ℕ) (xs : List ℕ) (e : ℕ)
    → mem head (xs ++ (e ∷ [])) ≡ false
    → (first_of (xs ++ (e ∷ [])) head == head) ≡ false
first_of-apart head [] e h = ground (arith, h)
first_of-apart head (x ∷ xs) e h = ground (arith, h)

-- `list_remove_tail` takes the last entry of a ring off.
pub list_remove_tail-IsRing :
    (l : Links) (head : ℕ) (xs : List ℕ) (e : ℕ)
    → IsRing l head (xs ++ (e ∷ []))
    → Removed (Inline.list_remove_tail head l) (some e) head xs
unfolding Inline.list_remove_tail Inline.list_empty
list_remove_tail-IsRing l head xs e ring =
    let hz : (head == 0) ≡ false = ground (arith, ring.valid) in
    let last : l.prev head ≡ e =
      Seg-last l head (xs ++ (e ∷ [])) head ring.links ∙ last_of-append head xs e in
    let full : (l.next head == head) ≡ false =
      rw (Seg-first l head (xs ++ (e ∷ [])) head ring.links)
        (first_of-apart head xs e ring.distinct.0) in
    let (l', same, ring', unset, unset') = list_del-IsRing l head xs [] e ring in
    (
      l',
      rw (hz, full, last, list_del-same l head xs [] e ring, same) refl,
      rw (sym (append-nil xs)) ring',
    )
