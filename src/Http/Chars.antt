-- ===== src/Http/Chars.antt =====
-- The bytes of a request and the token table of server/http_parser.c, which src/http/http_parser.c
-- repeats. A buffer is the list of the bytes that may be read from `data` on, and a `char *` into
-- it is its offset from `data`.
use ryze.Base.{
  ℕ, Bool, true, false, ◌||◌, ◌==◌, if◌then◌else◌, List, [], ◌∷◌, ◌++◌, none, some, get_elem?,
  get_or, take, drop, replicate, Run, ok, fault,
}

abbrev pub Bytes : Type 0
Bytes = List ℕ

abbrev pub cr : ℕ
cr = b'\r'

abbrev pub lf : ℕ
lf = b'\n'

-- The eight rows of `token_char_map`; the bytes from 128 on are no token characters.
abbrev row_punctuation : List ℕ
row_punctuation =
    0 ∷ 1 ∷ 0 ∷ 1 ∷ 1 ∷ 1 ∷ 1 ∷ 1 ∷ 0 ∷ 0 ∷ 1 ∷ 1 ∷ 0 ∷ 1 ∷ 1 ∷ 0 ∷ 1 ∷ 1 ∷ 1 ∷ 1 ∷ 1 ∷ 1 ∷ 1 ∷ 1
    ∷ 1 ∷ 1 ∷ 0 ∷ 0 ∷ 0 ∷ 0 ∷ 0 ∷ 0 ∷ []

abbrev row_upper : List ℕ
row_upper = (0 ∷ []) ++ (replicate 26 1 ++ (0 ∷ 0 ∷ 0 ∷ 1 ∷ 1 ∷ []))

abbrev row_lower : List ℕ
row_lower = replicate 27 1 ++ (0 ∷ 1 ∷ 0 ∷ 1 ∷ 0 ∷ [])

unfoldable pub token_char_map : List ℕ
token_char_map =
    replicate 32 0 ++ (row_punctuation ++ (row_upper ++ (row_lower ++ replicate 128 0)))

-- `token_char_map[(unsigned char) c] != 0`
unfoldable pub is_token_char : ℕ → Bool
unfolding token_char_map
is_token_char c = if get_or token_char_map c 0 == 0 then false else true

-- `c == ' ' || c == '\t'`
abbrev pub is_blank : ℕ → Bool
is_blank c = c == b' ' || c == b'\t'

-- `*p` for the offset `p`: reading outside the buffer is undefined.
unfoldable pub read : Bytes → ℕ → Run ℕ
read mem p = elim (get_elem? mem p) [ none ↦ fault | some c ↦ ok c ]

-- The text of the span that starts at `start` and is `len` long.
abbrev pub slice : Bytes → ℕ → ℕ → Bytes
slice mem start len = take len (drop start mem)
