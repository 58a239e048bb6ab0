-- ===== src/Tests/Links.antt =====
-- A ring of two entries at 2 and 3 behind the head at 1.
use ryze.Base.{ℕ, true, ◌==◌, if◌then◌else◌, ◌≡◌, ◌↔◌, refl, some, List, [], ◌∷◌, ok, arith}
use ryze.Links.{Links, list_add, list_add_tail, list_del, list_empty}
use ryze.Links.Ring.{IsRing, list_add-IsRing, list_add_tail-IsRing, list_empty-IsRing}
use ryze.Links.Delete.{list_del-IsRing}
use ryze.Links.Inline.{list_remove, list_remove_tail}
use ryze.Links.Inline.Laws.{Removed, list_remove-IsRing, list_remove_tail-IsRing}

abbrev two : Links
two = record {
  next = λ p. if p == 1 then 2 else if p == 2 then 3 else 1;
  prev = λ p. if p == 1 then 3 else if p == 2 then 1 else 2;
}

two-IsRing : IsRing two 1 (2 ∷ 3 ∷ [])
two-IsRing = record {
  links = (refl, refl, (refl, refl, (refl, refl)));
  distinct = (refl, (refl, (refl, tt)));
  valid = refl;
}

list_add-IsRing_example : (l' : Links) × (list_add 1 4 two ≡ ok l') × IsRing l' 1 (4 ∷ 2 ∷ 3 ∷ [])
list_add-IsRing_example = list_add-IsRing two 1 (2 ∷ 3 ∷ []) 4 two-IsRing refl (omega arith)

list_add_tail-IsRing_example :
    (l' : Links) × (list_add_tail 1 4 two ≡ ok l') × IsRing l' 1 (2 ∷ 3 ∷ 4 ∷ [])
list_add_tail-IsRing_example =
    list_add_tail-IsRing two 1 (2 ∷ 3 ∷ []) 4 two-IsRing refl (omega arith)

list_empty-IsRing_example : (list_empty 1 two ≡ true) ↔ (◌≡◌ {A = List ℕ} (2 ∷ 3 ∷ []) [])
list_empty-IsRing_example = list_empty-IsRing two 1 (2 ∷ 3 ∷ []) two-IsRing

list_del-IsRing_example :
    (l' : Links) × (list_del 3 two ≡ ok l')
    × IsRing l' 1 (2 ∷ [])
    × (l'.prev 3 ≡ 0)
    × (l'.next 3 ≡ 0)
list_del-IsRing_example = list_del-IsRing two 1 (2 ∷ []) [] 3 two-IsRing

list_remove-IsRing_example : Removed (list_remove 1 two) (some 2) 1 (3 ∷ [])
list_remove-IsRing_example = list_remove-IsRing two 1 (2 ∷ 3 ∷ []) two-IsRing

list_remove_tail-IsRing_example : Removed (list_remove_tail 1 two) (some 3) 1 (2 ∷ [])
list_remove_tail-IsRing_example = list_remove_tail-IsRing two 1 (2 ∷ []) 3 two-IsRing
