-- ===== src/Util/Resolve.antt =====
-- `str_split` and `normalize_path` of src/util/util.c. A block of 2 ^ 63 bytes or more is one
-- that `malloc` does not give, and smaller ones are taken to be given.
pub mod Parts
pub mod Laws
use mathlib.Core.List.{reverse}
use ryze.Base.{
  ℕ, zero, suc, ◌+◌, ◌-◌, ◌%◌, ◌^◌, Bool, true, false, ◌==◌, ltb, leb, if◌then◌else◌, List, [], ◌∷◌,
  ◌++◌, length, take, drop, Run, ok, fault, ◌>>=◌,
}
use ryze.Http.Chars.{Bytes}
use ryze.Util.Strings.{byte}
use ryze.Util.Url.{str_same}
use ryze.Util.Split.{print_parts}
use ryze.Util.Dirname.{is_absolute_path, start_of}
use ryze.Util.Normalize.{Stack, level, below, same_dots, pop, push, first_string}

-- The text with a NUL for each `delim`, and `count`, which leaves out a part behind a `delim` at
-- the end; `last` is not used by any caller.
unfoldable pub cut : ℕ → Bytes → (count : ℕ) → Bytes × ℕ
cut delim [] count = ([], count)
cut delim (c ∷ []) count = ((if c == delim then 0 else c) ∷ [], count)
cut delim (c ∷ d ∷ s) count =
    let here = cut delim (d ∷ s) (count + 1) in
    let on = cut delim (d ∷ s) count in
    if c == delim then (0 ∷ here.0, here.1) else (c ∷ on.0, on.1)

unfoldable pub str_split : Bytes → ℕ → Bytes × ℕ
unfolding cut
str_split str delim = cut delim str 1

-- for(i = start; i < len; i++) if(basedir[i] == '/') start = i
unfoldable pub find_root : Bytes → (i start : ℕ) → ℕ
find_root [] i start = start
find_root (c ∷ s) i start = let rest = find_root s (i + 1) start in if c == b'/' then i else rest

unfoldable pub root_of : Bytes → ℕ
unfolding start_of find_root
root_of basedir = find_root (drop (start_of basedir) basedir) (start_of basedir) (start_of basedir)

-- The variables of the loop over the parts.
pub record Walk : Type 0 where
  pub stack : Stack
  pub total : ℕ
  pub prev : Bytes

unfoldable pub enter_part : Bytes → Walk → Run Walk
unfolding str_same
enter_part part w =
    if same_dots part
    then ok (record {
      stack = pop w.stack;
      total = (w.total + 2 ^ 64 - (length w.prev + 1)) % 2 ^ 64;
      prev = part;
    })
    else if str_same part (byte b'.')
    then ok (record w { prev = part })
    else do
      stack ← push part w.stack
      ok (record { stack = stack; total = (w.total + (length part + 1)) % 2 ^ 64; prev = part })

-- The loop over `count` parts from `p` on.
unfoldable pub walk : (count : ℕ) → Bytes → (p : ℕ) → Walk → Run Walk
unfolding enter_part
walk zero str p w = ok w
walk (suc count) str p w = if ltb (length str) p then fault else do
  w' ← enter_part (first_string (drop p str)) w
  walk count str (p + length (first_string (drop p str)) + 1) w'

abbrev pub parts_of : Stack → List Bytes
parts_of (level parts) = reverse parts
parts_of (below n) = []

-- The block of `total + 1` bytes behind the writes, up to its NUL: the bytes written, and the
-- number of bytes between them and the NUL that are not set.
unfoldable pub put_text : (total : ℕ) → Bytes → Run (Bytes × ℕ)
put_text total text =
    if leb (2 ^ 63) total
    then fault
    else if ltb (total + 1) (length text)
    then fault
    else ok (take total text, total - length text)

unfoldable pub normalize_path : (path basedir : Bytes) → Run (Bytes × ℕ)
unfolding is_absolute_path root_of str_split walk put_text
normalize_path path basedir =
    if is_absolute_path path
    then ok (path, 0)
    else if ltb (root_of basedir) (length basedir)
    then (do
      let split = str_split (drop (root_of basedir + 1) basedir ++ (b'/' ∷ path)) b'/'
      w ←
          walk split.1 split.0 0
            (record { stack = level []; total = 0; prev = first_string split.0 })
      put_text ((w.total + root_of basedir) % 2 ^ 64)
          (take (root_of basedir) basedir ++ print_parts (parts_of w.stack)))
    else fault
