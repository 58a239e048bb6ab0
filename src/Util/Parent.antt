-- ===== src/Util/Parent.antt =====
-- `dirname` of src/util/test.c, for a path of less than 2 ^ 63 bytes.
pub mod Laws
use ryze.Base.{
  ℕ, zero, suc, Bool, true, false, not, ◌&&◌, ◌||◌, ◌==◌, if◌then◌else◌, Option, none, some, List,
  [], ◌∷◌, length, take, get_or,
}
use ryze.Http.Chars.{Bytes}
use ryze.Util.Strings.{byte}

-- A '/' that neither ends the path nor has another one behind it; str[len] is the NUL.
unfoldable pub is_cut : Bytes → ℕ → Bool
is_cut str i = get_or str i 0 == b'/' && not (suc i == length str || get_or str (suc i) 0 == b'/')

-- for(i = len - 1; i >= 0; i--), for the `n` places below `len`; `none` for -1.
unfoldable pub find_cut : Bytes → (n : ℕ) → Option ℕ
unfolding is_cut
find_cut str zero = none
find_cut str (suc i) = let rest = find_cut str i in if is_cut str i then some i else rest

abbrev pub parent_of : Bytes → Option ℕ → Bytes
parent_of str none = byte b'.'
parent_of str (some zero) = byte b'/'
parent_of str (some (suc i)) = take (suc i) str

unfoldable pub dirname : Bytes → Bytes
unfolding find_cut
dirname str = parent_of str (find_cut str (length str))
