-- ===== src/Util/Normalize.antt =====
-- `normalize_path` of src/util/test.c, for paths of which the number of parts is an `int`.
pub mod Walk
pub mod Resolve
pub mod Laws
use mathlib.Core.List.{reverse}
use ryze.Base.{
  ℕ, zero, suc, ◌+◌, ◌-◌, Bool, true, false, ◌||◌, ◌==◌, ltb, leb, if◌then◌else◌, Option, none,
  some, List, [], ◌∷◌, ◌++◌, length, drop, Run, ok, fault, out_of_fuel, ◌>>=◌,
}
use ryze.Http.Chars.{Bytes}
use ryze.Util.Strings.{byte}
use ryze.Util.Url.{str_same}
use ryze.Util.Split.{str_split}

-- `stack` below `index`, its top first, or an `index` of - (n + 1).
pub data Stack : Type 0 where
  level : List Bytes → Stack
  below : ℕ → Stack

abbrev pub dots : Bytes
dots = b'.' ∷ b'.' ∷ []

abbrev pub same_dots : Bytes → Bool
same_dots part = str_same part dots

abbrev pub is_skipped : Bytes → Bool
is_skipped part = str_same part [] || str_same part (byte b'.')

-- index--
abbrev pub pop : Stack → Stack
pop (level []) = below 0
pop (level (part ∷ parts)) = level parts
pop (below n) = below (suc n)

-- stack[index++] = p; below 0 it writes in front of the block.
abbrev pub push : Bytes → Stack → Run Stack
push part (level parts) = ok (level (part ∷ parts))
push part (below n) = fault

unfoldable pub enter_part : Bytes → Stack → Run Stack
unfolding str_same
enter_part part stack =
    if same_dots part then ok (pop stack) else if is_skipped part then ok stack else push part stack

-- The string at the begin of a text with NULs in it.
abbrev pub first_string : Bytes → Bytes
first_string [] = []
first_string (c ∷ s) = let rest = first_string s in if c == 0 then [] else c ∷ rest

-- The loop over the strings from `p` to `last`.
unfoldable pub walk : ℕ → Bytes → (last p : ℕ) → Stack → Run Stack
unfolding enter_part
walk zero text last p stack = out_of_fuel
walk (suc n) text last p stack = if ltb (length text) p then fault else do
  let part = first_string (drop p text)
  stack' ← enter_part part stack
  elim (p == last) [ true ↦ ok stack' | false ↦ walk n text last (p + length part + 1) stack' ]

-- The loop that writes `result`, with `room` bytes left; `strcpy` writes the NUL too.
unfoldable pub put_parts : ℕ → List Bytes → Run Bytes
put_parts room [] = ok []
put_parts room (part ∷ parts) =
    if leb (length part + 2) room
    then (do rest ← put_parts (room - (length part + 1)) parts; ok (b'/' ∷ part ++ rest))
    else fault

-- `none`: with no part on the stack nothing is written, and `result` is what `malloc` gives.
unfoldable pub put_result : ℕ → Stack → Run (Option Bytes)
unfolding put_parts
put_result room (level []) = ok none
put_result room (level (part ∷ parts)) = do
  result ← put_parts room (reverse (part ∷ parts))
  ok (some result)
put_result room (below n) = ok none

unfoldable pub normalize_path : (basedir path : Bytes) → Run (Option Bytes)
unfolding str_split walk put_result
normalize_path basedir path = do
  split ← str_split (basedir ++ (b'/' ∷ path)) (byte b'/')
  stack ← walk (suc (length split.0)) split.0 split.1 0 (level [])
  put_result (length basedir + length path + 2) stack
