-- ===== src/Util/Parent/Laws.antt =====
-- What `dirname` of src/util/test.c gives of a path.
use ryze.Base.{
  ℕ, zero, suc, ◌+◌, ◌<◌, true, false, ◌==◌, ◌≡◌, refl, ap, ◌∙◌, some, [], ◌∷◌, ◌++◌, length,
  replicate, length-append, take-append, arith,
}
use ryze.Http.Chars.{Bytes}
use ryze.Util.Strings.{Lacks, byte}
use ryze.Util.Parent.{is_cut, find_cut, parent_of, dirname}

-- Places that are no cut are passed over.
find_cut-skip :
    (str : Bytes) (k m : ℕ)
    → ((j : ℕ) → j < m → is_cut str (k + j) ≡ false)
    → find_cut str (k + m) ≡ find_cut str k
unfolding find_cut
find_cut-skip str k zero h = ap (find_cut str) (omega arith)
find_cut-skip str k (suc m) h =
    let step : k + suc m ≡ suc (k + m) = omega arith in
    rw (step, h m (omega arith), find_cut) (find_cut-skip str k m (λ j less. h j (omega arith)))

is_cut-cons : (c : ℕ) (s : Bytes) (j : ℕ) → is_cut (c ∷ s) (suc j) ≡ is_cut s j
unfolding is_cut
is_cut-cons c s j = ground arith

is_cut-append : (xs ys : Bytes) (i : ℕ) → is_cut (xs ++ ys) (length xs + i) ≡ is_cut ys i
is_cut-append [] ys i = ap (is_cut ys) (omega arith)
is_cut-append (x ∷ xs) ys i =
    ap (is_cut (x ∷ (xs ++ ys))) (omega arith)
    ∙ is_cut-cons x (xs ++ ys) (length xs + i)
    ∙ is_cut-append xs ys i

-- Behind a name there is no cut, only slashes up to the end.
is_cut-tail :
    (name : Bytes) (n j : ℕ) → Lacks b'/' name → is_cut (name ++ replicate n b'/') j ≡ false
unfolding is_cut
is_cut-tail [] zero zero h = refl
is_cut-tail [] zero (suc j) h = refl
is_cut-tail [] (suc zero) zero h = refl
is_cut-tail [] (suc (suc n)) zero h = ground arith
is_cut-tail [] (suc n) (suc j) h = is_cut-cons b'/' (replicate n b'/') j ∙ is_cut-tail [] n j h
is_cut-tail (c ∷ name) n zero h = ground (arith, h.0)
is_cut-tail (c ∷ name) n (suc j) h =
    is_cut-cons c (name ++ replicate n b'/') j ∙ is_cut-tail name n j h.1

is_cut-first : (c : ℕ) (s : Bytes) → (b'/' == c) ≡ false → is_cut (b'/' ∷ c ∷ s) 0 ≡ true
unfolding is_cut
is_cut-first c s h = ground (arith, h)

-- A path with no slash in front of its name, with any slashes behind it, is in ".": that of slashes
-- alone too.
pub dirname-dot :
    (name : Bytes) (n : ℕ) → Lacks b'/' name → dirname (name ++ replicate n b'/') ≡ byte b'.'
unfolding dirname find_cut
dirname-dot name n h =
    let str : Bytes = name ++ replicate n b'/' in
    ap (parent_of str) (
      ap (find_cut str) (omega arith)
      ∙ find_cut-skip str 0 (length str)
          (λ j less. ap (is_cut str) (omega arith) ∙ is_cut-tail name n j h))

abbrev pub or_root : Bytes → Bytes
or_root [] = byte b'/'
or_root (c ∷ s) = c ∷ s

parent_of-part : (dir tail : Bytes) → parent_of (dir ++ tail) (some (length dir)) ≡ or_root dir
parent_of-part [] tail = refl
parent_of-part (c ∷ s) tail = take-append (suc (length s)) (c ∷ s) tail refl

-- The directory of a path with a last name, which holds no slash, and any slashes behind the name is
-- what stands in front of the slash before it, or "/" if nothing does.
pub dirname-parent :
    (dir : Bytes) (c : ℕ) (name : Bytes) (n : ℕ)
    → Lacks b'/' (c ∷ name)
    → dirname (dir ++ (b'/' ∷ ((c ∷ name) ++ replicate n b'/'))) ≡ or_root dir
unfolding dirname find_cut
dirname-parent dir c name n h =
    let tail : Bytes = (c ∷ name) ++ replicate n b'/' in
    let str : Bytes = dir ++ (b'/' ∷ tail) in
    let here : is_cut str (length dir) ≡ true =
      ap (is_cut str) (omega arith)
      ∙ is_cut-append dir (b'/' ∷ tail) 0
      ∙ is_cut-first c (name ++ replicate n b'/') h.0 in
    let found : find_cut str (suc (length dir)) ≡ some (length dir) = rw (here, find_cut) refl in
    ap (parent_of str) (
      ap (find_cut str) (omega (arith, length-append dir (b'/' ∷ tail)))
      ∙ find_cut-skip str (suc (length dir)) (length tail) (λ j less.
        ap (is_cut str) (omega arith)
        ∙ is_cut-append dir (b'/' ∷ tail) (suc j)
        ∙ is_cut-cons b'/' tail j
        ∙ is_cut-tail (c ∷ name) n j h)
      ∙ found)
    ∙ parent_of-part dir (b'/' ∷ tail)
