-- ===== src/Util/Resolve/Laws.antt =====
-- What `normalize_path` of src/util/util.c makes of a path with no ".." in it.
use mathlib.Core.List.{append_assoc, reverse, reverse_aux-reverse_aux-nil}
use ryze.Base.{
  ℕ, suc, ◌+◌, ◌-◌, ◌%◌, ◌^◌, ◌<◌, true, false, ltb, leb, ◌≡◌, refl, sym, ap, ◌∙◌, List, [], ◌∷◌,
  ◌++◌, All, All-append, All-map, length, take, drop, length-append, drop-append, take-append,
  take-all, Run, ok, ◌>>=◌, arith,
}
use ryze.Http.Chars.{Bytes}
use ryze.Util.Strings.{Lacks, byte}
use ryze.Util.Dirname.{is_absolute_path}
use ryze.Util.Split.{join, print_parts, join-append, length-print_parts}
use ryze.Util.Normalize.{level, first_string}
use ryze.Util.Resolve.{cut, str_split, root_of, Walk, walk, parts_of, put_text, normalize_path}
use ryze.Util.Resolve.Parts.{
  IsFilled, cut-join, undotted, IsForward, walk-join, last_prev, enter_parts-forward,
  length-undotted,
}

IsFilled-append :
    (s : Bytes) (ss : List Bytes) (t : Bytes) (ts : List Bytes)
    → IsFilled t ts
    → IsFilled s (ss ++ (t ∷ ts))
IsFilled-append [] [] t ts h = h
IsFilled-append (c ∷ s) [] t ts h = h
IsFilled-append [] (u ∷ us) t ts h = IsFilled-append u us t ts h
IsFilled-append (c ∷ s) (u ∷ us) t ts h = IsFilled-append u us t ts h

put_text-exact :
    (total : ℕ) (text : Bytes)
    → total ≡ length text
    → total < 2 ^ 63
    → put_text total text ≡ ok (text, 0)
unfolding put_text
put_text-exact total text e small =
    let given : leb (2 ^ 63) total ≡ false = ground arith in
    let fits : ltb (total + 1) (length text) ≡ false = ground arith in
    let rest : total - length text ≡ 0 = omega arith in
    rw (given, fits, rest, take-all total text (omega arith)) refl

-- `normalize_path` behind its walk.
abbrev finish : (root : ℕ) → Bytes → Walk → Run (Bytes × ℕ)
finish root basedir w =
    put_text ((w.total + root) % 2 ^ 64) (take root basedir ++ print_parts (parts_of w.stack))

-- `normalize_path` behind `str_split`.
abbrev behind_split : (root : ℕ) → Bytes → Bytes × ℕ → Run (Bytes × ℕ)
behind_split root basedir split =
    walk split.1 split.0 0 (record { stack = level []; total = 0; prev = first_string split.0 })
    >>= finish root basedir

module _ (pre b : Bytes) (bs : List Bytes) (p : Bytes) (ps : List Bytes)
    (hb : Lacks b'/' b × Lacks 0 b) (hbs : All (λ s. Lacks b'/' s × Lacks 0 s) bs)
    (hp : Lacks b'/' p × Lacks 0 p) (hps : All (λ s. Lacks b'/' s × Lacks 0 s) ps) where
  abbrev basedir : Bytes
  basedir = pre ++ (b'/' ∷ join b'/' b bs)

  abbrev path : Bytes
  path = join b'/' p ps

  abbrev parts : List Bytes
  parts = b ∷ (bs ++ (p ∷ ps))

  basedir-drop : drop (length pre + 1) basedir ≡ join b'/' b bs
  basedir-drop =
      ap (drop (length pre + 1)) (sym (append_assoc pre (byte b'/') (join b'/' b bs)))
      ∙ drop-append (length pre + 1) (pre ++ byte b'/') (join b'/' b bs)
          (sym (length-append pre (byte b'/')))

  split-parts :
      IsFilled p ps
      → str_split (drop (length pre + 1) basedir ++ (b'/' ∷ path)) b'/'
        ≡ (join 0 b (bs ++ (p ∷ ps)), suc (length (bs ++ (p ∷ ps))))
  unfolding str_split
  split-parts filled =
      let clean = All-append _ bs (p ∷ ps) hbs (hp, hps) in
      ap (λ u. cut b'/' (u ++ (b'/' ∷ path)) 1) basedir-drop
      ∙ ap (λ u. cut b'/' u 1) (join-append b'/' b bs p ps)
      ∙ cut-join b'/' b (bs ++ (p ∷ ps)) 1 hb.0
          (All-map _ (Lacks b'/') (bs ++ (p ∷ ps)) (λ x h. h.0) clean)
          (IsFilled-append b bs p ps filled)
      ∙ ap (λ n. (join 0 b (bs ++ (p ∷ ps)), n)) (omega arith)

  behind_split-parts :
      (root : ℕ)
      → root ≡ length pre
      → All IsForward parts
      → length basedir + length path < 2 ^ 62
      → behind_split root basedir (join 0 b (bs ++ (p ∷ ps)), suc (length (bs ++ (p ∷ ps))))
        ≡ ok (pre ++ print_parts (undotted parts), 0)
  unfolding put_text
  behind_split-parts root same forward small =
      let clean = All-append _ bs (p ∷ ps) hbs (hp, hps) in
      let size : length (print_parts parts) ≡ suc (length (join b'/' b bs) + suc (length path)) =
        length-print_parts b (bs ++ (p ∷ ps))
        ∙ ap (λ u. suc (length u)) (sym (join-append b'/' b bs p ps))
        ∙ ap suc (length-append (join b'/' b bs) (b'/' ∷ path)) in
      let bound : length (print_parts (undotted parts)) < 2 ^ 62 + 2 ^ 62 =
        omega
          (arith, length-undotted parts, size, small, length-append pre (b'/' ∷ join b'/' b bs)) in
      let before = length-append pre (b'/' ∷ join b'/' b bs) in
      let turned : reverse (reverse (undotted parts)) ≡ undotted parts =
        reverse_aux-reverse_aux-nil (undotted parts) [] in
      let w : Walk = record {
        stack = level (reverse (undotted parts));
        total = 0 + length (print_parts (undotted parts));
        prev = last_prev (first_string (join 0 b (bs ++ (p ∷ ps)))) parts;
      } in
      let walked : walk (suc (length (bs ++ (p ∷ ps)))) (join 0 b (bs ++ (p ∷ ps))) 0 (record {
        stack = level [];
        total = 0;
        prev = first_string (join 0 b (bs ++ (p ∷ ps)));
      })
          ≡ ok w =
        walk-join (join 0 b (bs ++ (p ∷ ps))) 0 [] b (bs ++ (p ∷ ps)) _ refl refl hb.1
          (All-map _ (Lacks 0) (bs ++ (p ∷ ps)) (λ x h. h.1) clean)
        ∙ enter_parts-forward parts [] 0 (first_string (join 0 b (bs ++ (p ∷ ps)))) forward
            (omega (arith, bound)) in
      let text : take root basedir ++ print_parts (reverse (reverse (undotted parts)))
          ≡ pre ++ print_parts (undotted parts) =
        ap (λ u. u ++ print_parts (reverse (reverse (undotted parts))))
          (take-append root pre (b'/' ∷ join b'/' b bs) same)
        ∙ ap (λ u. pre ++ print_parts u) turned in
      let total : (0 + length (print_parts (undotted parts)) + root) % 2 ^ 64
          ≡ length (pre ++ print_parts (undotted parts)) =
        omega
          (arith, same, bound, before, small, length-append pre (print_parts (undotted parts))) in
      ap (λ m. m >>= finish root basedir) walked
      ∙ ap (put_text ((0 + length (print_parts (undotted parts)) + root) % 2 ^ 64)) text
      ∙ put_text-exact _ (pre ++ print_parts (undotted parts)) total (
          omega (
            arith,
            total,
            size,
            length-undotted parts,
            before,
            small,
            length-append pre (print_parts (undotted parts)),
          ))

  -- A relative path and a base directory that has a '/' at its root, both with no ".." among their
  -- parts and no NUL, give the root of the directory and the parts of both that are not ".", in a
  -- block of just that size, if the path is not empty and does not end in '/', and both together are
  -- shorter than 2 ^ 62 bytes.
  pub normalize_path-forward :
      is_absolute_path path ≡ false
      → root_of basedir ≡ length pre
      → IsFilled p ps
      → All IsForward parts
      → length basedir + length path < 2 ^ 62
      → normalize_path path basedir ≡ ok (pre ++ print_parts (undotted parts), 0)
  unfolding normalize_path
  normalize_path-forward relative root filled forward small =
      let inside : ltb (root_of basedir) (length basedir) ≡ true =
        ground (arith, root, length-append pre (b'/' ∷ join b'/' b bs)) in
      let opened : normalize_path path basedir
          ≡ behind_split (root_of basedir) basedir
              (str_split (drop (root_of basedir + 1) basedir ++ (b'/' ∷ path)) b'/') =
        rw (relative, inside) refl in
      opened
      ∙ ap
          (λ n.
            behind_split (root_of basedir) basedir
              (str_split (drop (n + 1) basedir ++ (b'/' ∷ path)) b'/'))
          root
      ∙ ap (behind_split (root_of basedir) basedir) (split-parts filled)
      ∙ behind_split-parts (root_of basedir) root forward small
