-- ===== src/Modules/Upwards.antt =====
-- What `NormalizePath` of xxx/main.cc makes of an import that goes upwards.
use mathlib.Core.Path.{subst}
use mathlib.Core.List.{
  reverse, reverse-cons, reverse-append, reverse-reverse, append_assoc, append-nil,
}
use ryze.Base.{
  ℕ, zero, suc, false, ◌≡◌, refl, sym, ap, ◌∙◌, ◌==◌, List, [], ◌∷◌, ◌++◌, All, All-append, All-map,
  replicate, length, length-append, arith,
}
use ryze.Http.Chars.{Bytes}
use ryze.Util.Strings.{byte, Lacks}
use ryze.Util.Url.{str_same}
use ryze.Util.Normalize.{dots}
use ryze.Util.Split.{join, join-append}
use ryze.Util.Resolve.Parts.{IsFilled}
use ryze.Modules.{
  get_segments, enter_segment, walk_segments, join_segments, absolute_path, normalize_path,
}

-- A segment that is kept.
abbrev pub IsName : Bytes → Type 0
IsName s = Lacks b'/' s × (str_same s dots ≡ false) × (str_same s (byte b'.') ≡ false)

get_segments-plain :
    (segment s text : Bytes)
    → Lacks b'/' s
    → get_segments segment (s ++ text) ≡ get_segments (segment ++ s) text
unfolding get_segments
get_segments-plain segment [] text h = ap (λ t. get_segments t text) (sym (append-nil segment))
get_segments-plain segment (c ∷ s) text h =
    let rest = get_segments-plain (segment ++ (c ∷ [])) s text h.1 in
    let other : (c == b'/') ≡ false = let e = h.0 in ground arith in
    rw other (rest ∙ ap (λ t. get_segments t text) (append_assoc segment (c ∷ []) s))

get_segments-join :
    (s : Bytes) (ss : List Bytes)
    → Lacks b'/' s
    → All (Lacks b'/') ss
    → IsFilled s ss
    → get_segments [] (join b'/' s ss) ≡ s ∷ ss
unfolding join get_segments
get_segments-join [] [] h hs full = absurd full
get_segments-join (c ∷ s) [] h hs full =
    ap (get_segments []) (sym (append-nil (c ∷ s))) ∙ get_segments-plain [] (c ∷ s) [] h ∙ refl
get_segments-join s (t ∷ ts) h hs full =
    get_segments-plain [] s (b'/' ∷ join b'/' t ts) h
    ∙ ap (◌∷◌ s) (get_segments-join t ts hs.0 hs.1 full)

enter_segment-name : (s : Bytes) (stack : List Bytes) → IsName s → enter_segment s stack ≡ s ∷ stack
unfolding enter_segment
enter_segment-name s stack h = rw (h.1, h.2, enter_segment) refl

walk_segments-names :
    (names rest stack : List Bytes)
    → All IsName names
    → walk_segments (names ++ rest) stack ≡ walk_segments rest (reverse names ++ stack)
unfolding walk_segments
walk_segments-names [] rest stack h = refl
walk_segments-names (s ∷ names) rest stack h =
    ap (walk_segments (names ++ rest)) (enter_segment-name s stack h.0)
    ∙ walk_segments-names names rest (s ∷ stack) h.1
    ∙ ap (walk_segments rest) (
        sym (append_assoc (reverse names) (s ∷ []) stack)
        ∙ ap (λ l. l ++ stack) (sym (reverse-cons s names)))

-- As many ".." as there are segments on top take these off.
walk_segments-dots :
    (top rest stack : List Bytes)
    → walk_segments (replicate (length top) dots ++ rest) (top ++ stack) ≡ walk_segments rest stack
unfolding walk_segments enter_segment str_same
walk_segments-dots [] rest stack = refl
walk_segments-dots (s ∷ top) rest stack = walk_segments-dots top rest stack

walk_nil : (stack : List Bytes) → walk_segments [] stack ≡ stack
unfolding walk_segments
walk_nil stack = refl

length-reverse : (ss : List Bytes) → length (reverse ss) ≡ length ss
length-reverse [] = refl
length-reverse (s ∷ ss) =
    ap length (reverse-cons s ss)
    ∙ length-append (reverse ss) (s ∷ [])
    ∙ omega (arith, length-reverse ss)

-- Over the directories `pre` and `post`, which the ".." take off, and the names behind them.
walk_segments-upwards :
    (pre post names : List Bytes)
    → All IsName pre
    → All IsName post
    → All IsName names
    → reverse (walk_segments (pre ++ (post ++ (replicate (length post) dots ++ names))) [])
      ≡ pre ++ names
walk_segments-upwards pre post names h h' h'' =
    let dirs = walk_segments-names pre (post ++ (replicate (length post) dots ++ names)) [] h in
    let more =
      walk_segments-names post (replicate (length post) dots ++ names) (reverse pre ++ []) h' in
    let count : replicate (length post) dots ≡ replicate (length (reverse post)) dots =
      ap (λ n. replicate n dots) (sym (length-reverse post)) in
    let up =
      ap (λ l. walk_segments (l ++ names) (reverse post ++ (reverse pre ++ []))) count
      ∙ walk_segments-dots (reverse post) names (reverse pre ++ []) in
    let last =
      ap (λ l. walk_segments l (reverse pre ++ [])) (sym (append-nil names))
      ∙ walk_segments-names names [] (reverse pre ++ []) h'' in
    ap reverse (dirs ∙ more ∙ up ∙ last ∙ walk_nil (reverse names ++ (reverse pre ++ [])))
    ∙ reverse-append (reverse names) (reverse pre ++ [])
    ∙ simp (append-nil, reverse-reverse)

-- A path of segments, with a '/' between two of them.
abbrev pub path_text : List Bytes → Bytes
path_text [] = []
path_text (s ∷ ss) = join b'/' s ss

abbrev IsRelative : List Bytes → Type 0
IsRelative [] = ⊥
IsRelative ([] ∷ ss) = ⊥
IsRelative ((c ∷ s) ∷ ss) = (c == b'/') ≡ false

absolute_path-relative :
    (dir : Bytes) (parts : List Bytes)
    → IsRelative parts
    → absolute_path (path_text parts) dir ≡ dir ++ (b'/' ∷ path_text parts)
unfolding absolute_path join
absolute_path-relative dir [] h = absurd h
absolute_path-relative dir ([] ∷ ss) h = absurd h
absolute_path-relative dir ((c ∷ s) ∷ []) h = rw h refl
absolute_path-relative dir ((c ∷ s) ∷ t ∷ ts) h = rw h refl

IsFilled-append :
    (s : Bytes) (xs : List Bytes) (t : Bytes) (ts : List Bytes)
    → IsFilled t ts
    → IsFilled s (xs ++ (t ∷ ts))
IsFilled-append [] [] t ts h = h
IsFilled-append (c ∷ s) [] t ts h = h
IsFilled-append [] (x ∷ xs) t ts h = IsFilled-append x xs t ts h
IsFilled-append (c ∷ s) (x ∷ xs) t ts h = IsFilled-append x xs t ts h

join-path :
    (dirs parts : List Bytes) (t : Bytes) (ts : List Bytes)
    → join b'/' [] dirs ++ (b'/' ∷ path_text (parts ++ (t ∷ ts)))
      ≡ join b'/' [] (dirs ++ (parts ++ (t ∷ ts)))
join-path dirs [] t ts = join-append b'/' [] dirs t ts
join-path dirs (u ∷ us) t ts = join-append b'/' [] dirs u (us ++ (t ∷ ts))

-- The segments of a relative path behind a directory.
get_segments-relative :
    (dirs parts : List Bytes) (t : Bytes) (ts : List Bytes)
    → All (Lacks b'/') dirs
    → All (Lacks b'/') (parts ++ (t ∷ ts))
    → IsRelative (parts ++ (t ∷ ts))
    → IsFilled t ts
    → get_segments [] (absolute_path (path_text (parts ++ (t ∷ ts))) (join b'/' [] dirs))
      ≡ [] ∷ (dirs ++ (parts ++ (t ∷ ts)))
get_segments-relative dirs parts t ts plain plain' relative full =
    ap (get_segments []) (
      absolute_path-relative (join b'/' [] dirs) (parts ++ (t ∷ ts)) relative
      ∙ join-path dirs parts t ts)
    ∙ get_segments-join [] (dirs ++ (parts ++ (t ∷ ts))) tt
        (All-append (Lacks b'/') dirs (parts ++ (t ∷ ts)) plain plain')
        (subst (IsFilled []) (append_assoc dirs parts (t ∷ ts))
          (IsFilled-append [] (dirs ++ parts) t ts full))

plain_names : (names : List Bytes) → All IsName names → All (Lacks b'/') names
plain_names names h = All-map IsName (Lacks b'/') names (λ s h'. h'.0) h

plain_dots : (k : ℕ) → All (Lacks b'/') (replicate k dots)
plain_dots zero = tt
plain_dots (suc k) = ((refl, (refl, tt)), plain_dots k)

join_segments-root :
    (pre : List Bytes) (n : Bytes) (ns : List Bytes)
    → join_segments ([] ∷ (pre ++ (n ∷ ns))) ≡ join b'/' [] (pre ++ (n ∷ ns))
unfolding join_segments
join_segments-root [] n ns = refl
join_segments-root (p ∷ pre) n ns = refl

upwards-IsRelative :
    (k : ℕ) (c : ℕ) (s : Bytes) (ns : List Bytes)
    → IsName (c ∷ s)
    → IsRelative (replicate k dots ++ ((c ∷ s) ∷ ns))
upwards-IsRelative zero c s ns h = let e = h.0.0 in ground arith
upwards-IsRelative (suc k) c s ns h = refl

module _ (pre post : List Bytes) (c : ℕ) (s : Bytes) (ns : List Bytes) (dirs : All IsName pre)
    (off : All IsName post) (names : All IsName ((c ∷ s) ∷ ns)) (full : IsFilled (c ∷ s) ns) where
  -- An import of a module of the directory "/pre/post" that begins with a ".." for each segment of
  -- `post` and goes on with the names `(c ∷ s) ∷ ns` leads to "/pre" and these names, if no segment
  -- is "." or ".." and the last is not empty.
  pub normalize_path-upwards :
      normalize_path
        (path_text (replicate (length post) dots ++ ((c ∷ s) ∷ ns)))
        (join b'/' [] (pre ++ post))
      ≡ join b'/' [] (pre ++ ((c ∷ s) ∷ ns))
  unfolding normalize_path
  normalize_path-upwards =
      let up = replicate (length post) dots in
      let plain = All-append (Lacks b'/') pre post (plain_names pre dirs) (plain_names post off) in
      let plain' =
        All-append (Lacks b'/') up ((c ∷ s) ∷ ns) (plain_dots (length post))
          (plain_names ((c ∷ s) ∷ ns) names) in
      let segments =
        get_segments-relative (pre ++ post) up (c ∷ s) ns plain plain'
          (upwards-IsRelative (length post) c s ns names.0) full in
      ap (λ l. join_segments (reverse (walk_segments l [])))
        (segments ∙ ap (◌∷◌ []) (append_assoc pre post (up ++ ((c ∷ s) ∷ ns))))
      ∙ ap join_segments
          (walk_segments-upwards ([] ∷ pre) post ((c ∷ s) ∷ ns) ((tt, refl, refl), dirs) off names)
      ∙ join_segments-root pre (c ∷ s) ns

-- An import of at least two names, from a directory of names, with one ".." too many leads to a path
-- that does not begin with a '/': the names alone. No name has a '/' or is "." or "..", and the first
-- and the last of the import are not empty.
pub normalize_path-above :
    (post : List Bytes) (c : ℕ) (s t : Bytes) (ts : List Bytes)
    → All IsName post
    → All IsName ((c ∷ s) ∷ t ∷ ts)
    → IsFilled t ts
    → normalize_path
        (path_text (replicate (suc (length post)) dots ++ ((c ∷ s) ∷ t ∷ ts)))
        (join b'/' [] post)
      ≡ join b'/' (c ∷ s) (t ∷ ts)
unfolding normalize_path
normalize_path-above post c s t ts off names full =
    let up = replicate (suc (length post)) dots in
    let plain' =
      All-append (Lacks b'/') up ((c ∷ s) ∷ t ∷ ts) (plain_dots (suc (length post)))
        (plain_names ((c ∷ s) ∷ t ∷ ts) names) in
    let segments =
      get_segments-relative post up (c ∷ s) (t ∷ ts) (plain_names post off) plain'
        (upwards-IsRelative (suc (length post)) c s (t ∷ ts) names.0) full in
    ap (λ l. join_segments (reverse (walk_segments l []))) segments
    ∙ ap join_segments
        (walk_segments-upwards [] ([] ∷ post) ((c ∷ s) ∷ t ∷ ts) tt ((tt, refl, refl), off) names)
