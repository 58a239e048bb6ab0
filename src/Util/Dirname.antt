-- ===== src/Util/Dirname.antt =====
-- `is_http_path`, `is_absolute_path` and `dirname` of src/util/util.c. A string is its bytes without
-- the NUL behind them, and `malloc` is taken to succeed.
pub mod Laws
use ryze.Base.{
  ℕ, zero, suc, ◌+◌, ◌-◌, Bool, true, false, not, ◌&&◌, ◌||◌, ◌==◌, ltb, leb, if◌then◌else◌, List,
  [], ◌∷◌, length, take, drop, Run, ok, fault, ◌>>=◌,
}
use ryze.Http.Chars.{Bytes, read}
use ryze.Util.Strings.{starts_with}

abbrev pub https_prefix : Bytes
https_prefix = b'h' ∷ b't' ∷ b't' ∷ b'p' ∷ b's' ∷ b':' ∷ b'/' ∷ b'/' ∷ []

abbrev pub http_prefix : Bytes
http_prefix = b'h' ∷ b't' ∷ b't' ∷ b'p' ∷ b':' ∷ b'/' ∷ b'/' ∷ []

unfoldable pub is_http_path : Bytes → Bool
unfolding starts_with
is_http_path path = starts_with https_prefix path || starts_with http_prefix path

-- path[0] of an empty string is its NUL.
unfoldable pub is_absolute_path : Bytes → Bool
unfolding is_http_path
is_absolute_path [] = false
is_absolute_path (c ∷ rest) = c == b'/' || is_http_path (c ∷ rest)

-- The `start` of `dirname`, 0 where `is_http` becomes 0.
unfoldable pub start_of : Bytes → ℕ
unfolding starts_with
start_of path =
    if starts_with https_prefix path then 8 else if starts_with http_prefix path then 7 else 0

-- for(i = len - 1; i >= start; i--), from `i` on. An `i` below 0 is 2 ^ 64 - 1, which is not below
-- `start`, so that path[2 ^ 64 - 1] is read.
unfoldable pub find_slash : Bytes → (len start i : ℕ) → Run ℕ
unfolding read
find_slash path len start zero =
    if ltb 0 start
    then ok 0
    else do c ← read path 0; if c == b'/' && not (1 == len) then ok 0 else fault
find_slash path len start (suc i) =
    let rest = find_slash path len start i in
    if ltb (suc i) start then ok (suc i) else do
      c ← read path (suc i)
      if c == b'/' && not (suc (suc i) == len) then ok (suc i) else rest

-- The first '/' or '?' in the host and what follows, or the end.
unfoldable pub host_end : Bytes → ℕ → ℕ
host_end [] i = i
host_end (c ∷ s) i = let rest = host_end s (i + 1) in if c == b'/' || c == b'?' then i else rest

unfoldable pub dirname : Bytes → Run Bytes
unfolding start_of find_slash host_end read
dirname path = if length path == 0 then fault else do
  i ← find_slash path (length path) (start_of path) (length path - 1)
  if i == start_of path
      then (if 0 == start_of path
          then (do c ← read path i; ok ((if c == b'/' then b'/' else b'.') ∷ []))
          else ok (take (host_end (drop (start_of path) path) (start_of path)) path))
      else ok (take i path)
