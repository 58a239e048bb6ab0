-- ===== src/Links/Ring.antt =====
-- The macros of include/list.h keep rings of entries: a head and a queue behind it.
use mathlib.Core.List.{append-nil}
use ryze.Base.{
  ℕ, Bool, true, false, ◌||◌, ◌==◌, ◌≡◌, ◌≢◌, ◌↔◌, refl, ◌∙◌, List, [], ◌∷◌, ◌++◌, ok, arith,
}
use ryze.Links.{Links, set_prev, set_next, list_init, list_add, list_add_tail, list_empty}

abbrev pub mem : ℕ → List ℕ → Bool
mem p [] = false
mem p (x ∷ xs) = x == p || mem p xs

abbrev pub IsDistinct : List ℕ → Type 0
IsDistinct [] = Unit
IsDistinct (x ∷ xs) = (mem x xs ≡ false) × IsDistinct xs

-- From `a` through the entries to `b`, with the links in both directions.
abbrev pub Seg : Links → ℕ → List ℕ → ℕ → Type 0
Seg l a [] b = (l.next a ≡ b) × (l.prev b ≡ a)
Seg l a (x ∷ xs) b = (l.next a ≡ x) × (l.prev x ≡ a) × Seg l x xs b

abbrev pub last_of : ℕ → List ℕ → ℕ
last_of a [] = a
last_of a (x ∷ xs) = last_of x xs

abbrev pub first_of : List ℕ → ℕ → ℕ
first_of [] b = b
first_of (x ∷ xs) b = x

Seg-frame :
    (l l' : Links) (a : ℕ) (xs : List ℕ) (b : ℕ)
    → ((p : ℕ) → mem p (a ∷ xs) ≡ true → l'.next p ≡ l.next p)
    → ((p : ℕ) → mem p xs ≡ true → l'.prev p ≡ l.prev p)
    → l'.prev b ≡ l.prev b
    → Seg l a xs b
    → Seg l' a xs b
Seg-frame l l' a [] b n p pb s = (n a (ground arith) ∙ s.0, pb ∙ s.1)
Seg-frame l l' a (x ∷ xs) b n p pb (s, s', rest) = (
  n a (ground arith) ∙ s,
  p x (ground arith) ∙ s',
  Seg-frame l l' x xs b (λ q m. n q (ground (arith, m))) (λ q m. p q (ground (arith, m))) pb rest,
)

pub Seg-last : (l : Links) (a : ℕ) (xs : List ℕ) (b : ℕ) → Seg l a xs b → l.prev b ≡ last_of a xs
Seg-last l a [] b s = s.1
Seg-last l a (x ∷ xs) b (s, s', rest) = Seg-last l x xs b rest

pub Seg-first : (l : Links) (a : ℕ) (xs : List ℕ) (b : ℕ) → Seg l a xs b → l.next a ≡ first_of xs b
Seg-first l a [] b s = s.0
Seg-first l a (x ∷ xs) b s = s.0

-- The four stores of LIST_ADD and LIST_ADD_TAIL, between `m` and `n`.
abbrev pub link : (m e n : ℕ) → Links → Links
link m e n l = set_next m e (set_prev n e (set_next e n (set_prev e m l)))

pub mem-append : (p : ℕ) (xs ys : List ℕ) → mem p (xs ++ ys) ≡ mem p xs || mem p ys
mem-append p [] ys = refl
mem-append p (x ∷ xs) ys = ground (arith, mem-append p xs ys)

not_last : (a y : ℕ) (ys zs : List ℕ) → mem a (y ∷ (ys ++ zs)) ≡ false → (a == last_of y ys) ≡ false
not_last a y [] zs h = ground (arith, h)
not_last a y (x ∷ ys) zs h = not_last a x ys zs (ground (arith, h))

not_first :
    (y : ℕ) (ys zs : List ℕ) (b : ℕ)
    → mem y (ys ++ zs) ≡ false
    → (b == y) ≡ false
    → (y == first_of zs b) ≡ false
not_first y ys [] b h ne = ground (arith, ne)
not_first y ys (z ∷ zs) b h ne = ground (arith, h, mem-append y ys (z ∷ zs))

Seg-link :
    (l : Links) (a : ℕ) (ys zs : List ℕ) (b e : ℕ)
    → Seg l a (ys ++ zs) b
    → IsDistinct (a ∷ (ys ++ zs))
    → mem b (ys ++ zs) ≡ false
    → mem e (a ∷ (ys ++ zs)) ≡ false
    → (b == e) ≡ false
    → Seg (link (last_of a ys) e (first_of zs b) l) a (ys ++ (e ∷ zs)) b
Seg-link l a [] [] b e s d nb ne be =
    (ground arith, ground (arith, ne, be), (ground (arith, ne), ground arith))
Seg-link l a [] (z ∷ zs) b e (s, s', rest) d nb ne be = (
  ground arith,
  ground (arith, ne),
  (
    ground (arith, ne),
    ground arith,
    Seg-frame l (link a e z l) z zs b (λ p m. ground (arith, m, ne, d.0))
        (λ p m. ground (arith, m, ne, d.1.0)) (ground (arith, be, nb)) rest,
  ),
)
Seg-link l a (y ∷ ys) zs b e (s, s', rest) d nb ne be = (
  ground (arith, s, ne, not_last a y ys zs d.0),
  ground (arith, s', ne, not_first y ys zs b d.1.0 (ground (arith, nb))),
  Seg-link l y ys zs b e rest d.1 (ground (arith, nb)) (ground (arith, ne)) be,
)

-- The entries behind `head`, in order, with no entry twice and none NULL.
pub record IsRing (l : Links) (head : ℕ) (xs : List ℕ) : Type 0 where
  pub links : Seg l head xs head
  pub distinct : IsDistinct (head ∷ xs)
  pub valid : mem 0 (head ∷ xs) ≡ false

pub mem-last : (a : ℕ) (xs : List ℕ) (p : ℕ) → mem p (a ∷ xs) ≡ false → (last_of a xs == p) ≡ false
mem-last a [] p h = ground (arith, h)
mem-last a (x ∷ xs) p h = mem-last x xs p (ground (arith, h))

pub mem-first :
    (a : ℕ) (xs : List ℕ) (p : ℕ) → mem p (a ∷ xs) ≡ false → (first_of xs a == p) ≡ false
mem-first a [] p h = ground (arith, h)
mem-first a (x ∷ xs) p h = ground (arith, h)

module _ (l : Links) (head : ℕ) (xs : List ℕ) (e : ℕ) (ring : IsRing l head xs) where
  pub list_add-link :
      mem e (head ∷ xs) ≡ false
      → (e == 0) ≡ false
      → list_add head e l ≡ ok (link head e (first_of xs head) l)
  unfolding list_add
  list_add-link fresh ez =
      let hz : (head == 0) ≡ false = ground (arith, ring.valid) in
      let he : (head == e) ≡ false = ground (arith, fresh) in
      let first = Seg-first l head xs head ring.links in
      let nz = mem-first head xs 0 ring.valid in rw (hz, ez, he, first, nz) refl

  pub list_add_tail-link :
      mem e (head ∷ xs) ≡ false
      → (e == 0) ≡ false
      → list_add_tail head e l ≡ ok (link (last_of head xs) e head l)
  unfolding list_add_tail
  list_add_tail-link fresh ez =
      let hz : (head == 0) ≡ false = ground (arith, ring.valid) in
      let he : (head == e) ≡ false = ground (arith, fresh) in
      let last = Seg-last l head xs head ring.links in
      let nz = mem-last head xs 0 ring.valid in rw (hz, ez, he, last, nz) refl

IsDistinct-append :
    (xs : List ℕ) (e : ℕ) → IsDistinct xs → mem e xs ≡ false → IsDistinct (xs ++ (e ∷ []))
IsDistinct-append [] e d h = (refl, tt)
IsDistinct-append (x ∷ xs) e d h = (
  ground (arith, mem-append x xs (e ∷ []), d.0, h),
  IsDistinct-append xs e d.1 (ground (arith, h)),
)

-- LIST_ADD puts an entry that is not NULL and not in the ring in front of the queue.
pub list_add-IsRing :
    (l : Links) (head : ℕ) (xs : List ℕ) (e : ℕ)
    → IsRing l head xs
    → mem e (head ∷ xs) ≡ false
    → e ≢ 0
    → (l' : Links) × (list_add head e l ≡ ok l') × IsRing l' head (e ∷ xs)
list_add-IsRing l head xs e ring fresh ne =
    let ez : (e == 0) ≡ false = ground (arith, ne) in
    let he : (head == e) ≡ false = ground (arith, fresh) in
    (
      link head e (first_of xs head) l,
      list_add-link l head xs e ring fresh ez,
      record {
        links = Seg-link l head [] xs head e ring.links ring.distinct ring.distinct.0 fresh he;
        distinct = (ground (arith, ring.distinct.0, he), (ground (arith, fresh), ring.distinct.1));
        valid = ground (arith, ring.valid, ez);
      },
    )

-- LIST_ADD_TAIL puts an entry that is not NULL and not in the ring at the end of the queue.
pub list_add_tail-IsRing :
    (l : Links) (head : ℕ) (xs : List ℕ) (e : ℕ)
    → IsRing l head xs
    → mem e (head ∷ xs) ≡ false
    → e ≢ 0
    → (l' : Links) × (list_add_tail head e l ≡ ok l') × IsRing l' head (xs ++ (e ∷ []))
list_add_tail-IsRing l head xs e ring fresh ne =
    let ez : (e == 0) ≡ false = ground (arith, ne) in
    let he : (head == e) ≡ false = ground (arith, fresh) in
    let nil : xs ++ [] ≡ xs = append-nil xs in
    (
      link (last_of head xs) e head l,
      list_add_tail-link l head xs e ring fresh ez,
      record {
        links =
            Seg-link l head xs [] head e (rw nil ring.links) (rw nil ring.distinct)
              (rw nil ring.distinct.0) (rw nil fresh) he;
        distinct = (
          ground (arith, mem-append head xs (e ∷ []), ring.distinct.0, he),
          IsDistinct-append xs e ring.distinct.1 (ground (arith, fresh)),
        );
        valid = ground (arith, mem-append 0 xs (e ∷ []), ring.valid, ez);
      },
    )

-- LIST_EMPTY tells whether the queue is empty.
pub list_empty-IsRing :
    (l : Links) (head : ℕ) (xs : List ℕ) → IsRing l head xs → (list_empty head l ≡ true) ↔ (xs ≡ [])
unfolding list_empty
list_empty-IsRing l head [] ring = (λ _. refl, λ _. ground (arith, ring.links.0))
list_empty-IsRing l head (x ∷ xs) ring =
    (λ e. absurd (ground (arith, e, ring.links.0, ring.distinct.0)), λ e. absurd (cc))

-- The four stores of LIST_DEL, between `m` and `n`.
abbrev pub unlink : (m e n : ℕ) → Links → Links
unlink m e n l = set_next e 0 (set_prev e 0 (set_prev n m (set_next m n l)))

pub Seg-unlink :
    (l : Links) (a : ℕ) (ys zs : List ℕ) (b e : ℕ)
    → Seg l a (ys ++ (e ∷ zs)) b
    → IsDistinct (a ∷ (ys ++ (e ∷ zs)))
    → mem b (ys ++ (e ∷ zs)) ≡ false
    → Seg (unlink (last_of a ys) e (first_of zs b) l) a (ys ++ zs) b
Seg-unlink l a [] [] b e s d nb = (ground (arith, d.0), ground (arith, nb))
Seg-unlink l a [] (z ∷ zs) b e (s, s', (t, t', rest)) d nb = (
  ground (arith, d.0),
  ground (arith, d.1.0),
  Seg-frame l (unlink a e z l) z zs b (λ p m. ground (arith, m, d.0, d.1.0))
      (λ p m. ground (arith, m, d.1.0, d.1.1.0)) (ground (arith, nb)) rest,
)
Seg-unlink l a (y ∷ ys) zs b e (s, s', rest) d nb =
    let behind : mem y zs ≡ false = ground (arith, d.1.0, mem-append y ys (e ∷ zs)) in
    (
      ground (arith, s, not_last a y ys (e ∷ zs) d.0, mem-append a ys (e ∷ zs), d.0),
      ground (
        arith,
        s',
        not_first y [] zs b behind (ground (arith, nb)),
        d.1.0,
        mem-append y ys (e ∷ zs),
      ),
      Seg-unlink l y ys zs b e rest d.1 (ground (arith, nb)),
    )

-- LIST_INIT makes a ring with an empty queue.
pub list_init-IsRing :
    (l : Links) (head : ℕ)
    → head ≢ 0
    → (l' : Links) × (list_init head l ≡ ok l') × IsRing l' head []
unfolding list_init
list_init-IsRing l head ne =
    let hz : (head == 0) ≡ false = ground (arith, ne) in
    (
      set_next head head (set_prev head head l),
      rw hz refl,
      record {
        links = (ground arith, ground arith);
        distinct = (refl, tt);
        valid = ground (arith, hz);
      },
    )
