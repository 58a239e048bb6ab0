-- ===== src/Links/Delete.antt =====
-- LIST_DEL of include/list.h takes an entry out of a ring, wherever it stands.
use ryze.Base.{ℕ, false, ◌==◌, if◌then◌else◌, ◌≡◌, refl, List, [], ◌∷◌, ◌++◌, ok, arith}
use ryze.Links.{Links, list_del}
use ryze.Links.Ring.{
  mem, mem-append, mem-last, mem-first, IsDistinct, Seg, Seg-first, Seg-last, last_of, first_of,
  IsRing, unlink, Seg-unlink,
}

pub Seg-left :
    (l : Links) (a : ℕ) (ys zs : List ℕ) (b e : ℕ) → Seg l a (ys ++ (e ∷ zs)) b → Seg l a ys e
Seg-left l a [] zs b e (s, s', rest) = (s, s')
Seg-left l a (y ∷ ys) zs b e (s, s', rest) = (s, s', Seg-left l y ys zs b e rest)

pub Seg-right :
    (l : Links) (a : ℕ) (ys zs : List ℕ) (b e : ℕ) → Seg l a (ys ++ (e ∷ zs)) b → Seg l e zs b
Seg-right l a [] zs b e (s, s', rest) = rest
Seg-right l a (y ∷ ys) zs b e (s, s', rest) = Seg-right l y ys zs b e rest

pub mem-delete :
    (p : ℕ) (ys zs : List ℕ) (e : ℕ) → mem p (ys ++ (e ∷ zs)) ≡ false → mem p (ys ++ zs) ≡ false
mem-delete p ys zs e h = ground (arith, h, mem-append p ys (e ∷ zs), mem-append p ys zs)

IsDistinct-delete : (ys zs : List ℕ) (e : ℕ) → IsDistinct (ys ++ (e ∷ zs)) → IsDistinct (ys ++ zs)
IsDistinct-delete [] zs e d = d.1
IsDistinct-delete (y ∷ ys) zs e d = (mem-delete y ys zs e d.0, IsDistinct-delete ys zs e d.1)

module _ (l : Links) (head : ℕ) (ys zs : List ℕ) (e : ℕ)
    (ring : IsRing l head (ys ++ (e ∷ zs))) where
  pub list_del-unlink : list_del e l ≡ ok (unlink (last_of head ys) e (first_of zs head) l)
  unfolding list_del
  list_del-unlink =
      let ez : (e == 0) ≡ false = ground (arith, ring.valid, mem-append 0 ys (e ∷ zs)) in
      let before = Seg-last l head ys e (Seg-left l head ys zs head e ring.links) in
      let after = Seg-first l e zs head (Seg-right l head ys zs head e ring.links) in
      let outside : mem 0 (head ∷ (ys ++ zs)) ≡ false =
        ground (arith, ring.valid, mem-delete 0 ys zs e) in
      let mz = mem-last head ys 0 (ground (arith, outside, mem-append 0 ys zs)) in
      let nz = mem-first head zs 0 (ground (arith, outside, mem-append 0 ys zs)) in
      let stay : (if e == last_of head ys then l.next e else l.next e) ≡ l.next e = ground arith in
      rw (ez, before, mz, stay, after, nz) refl

  -- LIST_DEL takes an entry out of the ring, wherever it stands: the others keep their order, and
  -- the links of the entry are NULL.
  pub list_del-IsRing :
      (l' : Links) × (list_del e l ≡ ok l')
      × IsRing l' head (ys ++ zs)
      × (l'.prev e ≡ 0)
      × (l'.next e ≡ 0)
  list_del-IsRing = (
    unlink (last_of head ys) e (first_of zs head) l,
    list_del-unlink,
    record {
      links = Seg-unlink l head ys zs head e ring.links ring.distinct ring.distinct.0;
      distinct =
          (mem-delete head ys zs e ring.distinct.0, IsDistinct-delete ys zs e ring.distinct.1);
      valid = ground (arith, ring.valid, mem-delete 0 ys zs e);
    },
    ground arith,
    ground arith,
  )
