-- ===== src/Util/Dirname/Laws.antt =====
-- What `dirname` of src/util/util.c gives on paths with and without a '/'.
use mathlib.Core.List.{append_assoc}
use mathlib.Core.Path.{subst}
use ryze.Base.{
  ℕ, zero, suc, ◌+◌, ◌-◌, ◌≤◌, ◌<◌, Bool, true, false, not, ◌&&◌, ◌==◌, ltb, if◌then◌else◌, ◌≡◌,
  ◌≢◌, refl, ◌∙◌, inl, inr, some, [], ◌∷◌, ◌++◌, All, length, take, get_elem?, length-append,
  take-append, get_elem?-append, Bool-cases, ok, fault, arith,
}
use ryze.Http.Chars.{Bytes, read}
use ryze.Util.Strings.{starts_with}
use ryze.Util.Dirname.{http_prefix, start_of, find_slash, dirname}

abbrev pub IsPlain : ℕ → Type 0
IsPlain c = (c == b'/') ≡ false

-- The byte at `k` does not stop the loop: it is the last one, or no '/'.
PassesBy : Bytes → ℕ → Type 0
PassesBy path k =
    (c : ℕ) × (get_elem? path k ≡ some c) × ((c == b'/' && not (k + 1 == length path)) ≡ false)

find_slash-hit :
    (path : Bytes) (start j i : ℕ)
    → start ≤ j
    → j ≤ i
    → get_elem? path j ≡ some b'/'
    → j + 1 ≢ length path
    → ((k : ℕ) → j < k → k ≤ i → PassesBy path k)
    → find_slash path (length path) start i ≡ ok j
unfolding find_slash read PassesBy
find_slash-hit path start zero zero lo le at inner pass = ground (arith, at)
find_slash-hit path start (suc j) zero lo le at inner pass = absurd (omega arith)
find_slash-hit path start zero (suc i) lo le at inner pass =
    let (c, at', by) = pass (suc i) (omega arith) (omega arith) in
    let rest =
      find_slash-hit path start zero i lo (omega arith) at inner
        (λ k a b. pass k a (omega arith)) in
    ground (arith, at', by, rest)
find_slash-hit path start (suc j) (suc i) lo le at inner pass = elim (Bool-cases (j == i)) [
  | inl e ↦ let same : i ≡ j = ground (arith, e) in rw same (ground (arith, at, inner))
  | inr e ↦
      let (c, at', by) = pass (suc i) (ground (arith, e)) (omega arith) in
      let rest =
        find_slash-hit path start (suc j) i lo (ground (arith, e)) at inner
          (λ k a b. pass k a (omega arith)) in
      ground (arith, at', by, rest)
]

-- A loop that no byte stops: it ends below `start`, or reads outside the string if `start` is 0.
find_slash-miss :
    (path : Bytes) (start i : ℕ)
    → start ≤ i + 1
    → ((k : ℕ) → start ≤ k → k ≤ i → PassesBy path k)
    → find_slash path (length path) start i ≡ (if start == 0 then fault else ok (start - 1))
unfolding find_slash read PassesBy
find_slash-miss path start zero le pass = elim (Bool-cases (start == 0)) [
  | inl e ↦ let (c, at, by) = pass 0 (ground (arith, e)) (omega arith) in ground (arith, at, by, e)
  | inr e ↦ ground (arith, e)
]
find_slash-miss path start (suc i) le pass = elim (Bool-cases (start == suc (suc i))) [
  | inl e ↦ ground (arith, e)
  | inr e ↦
      let (c, at, by) = pass (suc i) (ground (arith, e)) (omega arith) in
      let rest =
        find_slash-miss path start i (ground (arith, e)) (λ k a b. pass k a (omega arith)) in
      ground (arith, at, by, rest)
]

get_elem?-skip :
    (d ys : Bytes) (q m : ℕ) → q ≡ length d + m → get_elem? (d ++ ys) q ≡ get_elem? ys m
get_elem?-skip [] ys q m e = let same : q ≡ m = omega arith in rw same refl
get_elem?-skip (x ∷ d) ys zero m e = absurd (omega arith)
get_elem?-skip (x ∷ d) ys (suc q) m e = get_elem?-skip d ys q m (omega arith)

IsPlain-at :
    (b t : Bytes) (m : ℕ)
    → m < length b
    → All IsPlain b
    → (c : ℕ) × (get_elem? (b ++ t) m ≡ some c) × IsPlain c
IsPlain-at [] t m small plain = absurd (omega arith)
IsPlain-at (c ∷ b) t zero small plain = (c, refl, plain.0)
IsPlain-at (c ∷ b) t (suc m) small plain = IsPlain-at b t m (omega arith) plain.1

-- What may stand behind the last part of a path: a '/' or nothing.
abbrev pub ending : Bool → Bytes
ending true = b'/' ∷ []
ending false = []

-- Behind the directory and its '/' no byte stops the loop.
part-PassesBy :
    (pre b : Bytes) (slash : Bool) (k : ℕ)
    → All IsPlain b
    → length pre ≤ k
    → k < length (pre ++ (b ++ ending slash))
    → PassesBy (pre ++ (b ++ ending slash)) k
unfolding PassesBy
part-PassesBy pre b slash k plain lo hi = elim (Bool-cases (ltb (k - length pre) (length b))) [
  | inl e ↦
      let (c, at, ne) = IsPlain-at b (ending slash) (k - length pre) (ground (arith, e)) plain in
      (
        c,
        get_elem?-skip pre (b ++ ending slash) k (k - length pre) (omega arith) ∙ at,
        ground (arith, ne),
      )
  | inr e ↦ last slash hi e
]
  where
    last :
        (slash : Bool)
        → k < length (pre ++ (b ++ ending slash))
        → ltb (k - length pre) (length b) ≡ false
        → PassesBy (pre ++ (b ++ ending slash)) k
    last false hi e = absurd (ground (arith, e, length-append pre (b ++ []), length-append b []))
    last true hi e =
        let sizes : length (pre ++ (b ++ (b'/' ∷ []))) ≡ length pre + (length b + 1) =
          omega (arith, length-append pre (b ++ (b'/' ∷ [])), length-append b (b'/' ∷ [])) in
        let here : k ≡ length pre + length b = ground (arith, e, sizes) in
        (
          b'/',
          get_elem?-skip pre (b ++ (b'/' ∷ [])) k (length b) here
              ∙ get_elem?-append (length b) b b'/' [] refl,
          ground (arith, here, sizes),
        )

-- A path made of a directory, a '/' and a last part that is not empty and holds no '/', with or
-- without a '/' behind it: the directory is given, if it is not empty, and longer than the "https://"
-- or "http://" that the path may begin with.
pub dirname-append :
    (d b : Bytes) (slash : Bool)
    → All IsPlain b
    → b ≢ []
    → start_of (d ++ (b'/' ∷ (b ++ ending slash))) < length d
    → dirname (d ++ (b'/' ∷ (b ++ ending slash))) ≡ ok d
unfolding dirname
dirname-append d b slash plain ne short =
    let path : Bytes = d ++ (b'/' ∷ (b ++ ending slash)) in
    let pre : Bytes = d ++ (b'/' ∷ []) in
    let same : pre ++ (b ++ ending slash) ≡ path = append_assoc d (b'/' ∷ []) (b ++ ending slash) in
    let some_part : 0 < length b = nonempty b ne in
    let sizes : length path ≡ length d + (1 + (length b + length (ending slash))) =
      omega (arith, length-append d (b'/' ∷ (b ++ ending slash)), length-append b (ending slash)) in
    let found : find_slash path (length path) (start_of path) (length path - 1) ≡ ok (length d) =
      find_slash-hit path (start_of path) (length d) (length path - 1) (omega arith)
        (omega (arith, sizes)) (get_elem?-append (length d) d b'/' (b ++ ending slash) refl)
        (omega (arith, sizes, some_part))
        (λ k lo hi.
          subst (λ q. PassesBy q k) same
            (part-PassesBy pre b slash k plain (omega (arith, lo, length-append d (b'/' ∷ [])))
              (rw same (omega (arith, hi, sizes))))) in
    let longer : (length path == 0) ≡ false = ground (arith, sizes) in
    let inner : (length d == start_of path) ≡ false = ground (arith, short) in
    rw (longer, found, inner, take-append (length d) d (b'/' ∷ (b ++ ending slash)) refl) refl
  where
    nonempty : (s : Bytes) → s ≢ [] → 0 < length s
    nonempty [] h = absurd (h refl)
    nonempty (c ∷ s) h = omega arith

-- A local path with no '/' but a last one makes `dirname` read outside the string: the index runs
-- below 0, and the answer "." is never given.
pub dirname-fault :
    (b : Bytes) (slash : Bool)
    → All IsPlain b
    → start_of (b ++ ending slash) ≡ 0
    → dirname (b ++ ending slash) ≡ fault
unfolding dirname
dirname-fault b slash plain local = elim (Bool-cases (length (b ++ ending slash) == 0)) [
  | inl e ↦ rw e refl
  | inr e ↦
      let path : Bytes = b ++ ending slash in
      let lost : find_slash path (length path) 0 (length path - 1) ≡ fault =
        find_slash-miss path 0 (length path - 1) (omega arith)
          (λ k lo hi. part-PassesBy [] b slash k plain (omega arith) (ground (arith, e, hi))) in
      rw (e, local, lost) refl
]

-- Of an "http://" address that has no path `dirname` gives "http:/": the loop ends one below its
-- start, and that is taken for the place of a '/'.
pub dirname-host :
    (host : Bytes) (slash : Bool)
    → All IsPlain host
    → dirname (http_prefix ++ (host ++ ending slash)) ≡ ok (take 6 http_prefix)
unfolding dirname start_of starts_with
dirname-host host slash plain =
    let path : Bytes = http_prefix ++ (host ++ ending slash) in
    let missed : find_slash path (length path) 7 (length path - 1) ≡ ok 6 =
      find_slash-miss path 7 (length path - 1) (omega arith)
        (λ k lo hi. part-PassesBy http_prefix host slash k plain lo (omega (arith, hi))) in
    let longer : (length path == 0) ≡ false = ground arith in rw (longer, missed) refl
