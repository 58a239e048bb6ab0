-- ===== src/Server/Chunked.antt =====
-- `str_parse_hex` and `http_decode_chunked` of src/http/http_parser.c.
pub mod Sound
use ryze.Base.{
  ℕ, zero, suc, ◌+◌, ◌*◌, ◌%◌, ◌^◌, ◌≤◌, ◌<◌, Bool, true, false, not, ◌&&◌, ◌==◌, ltb,
  if◌then◌else◌, ◌≡◌, ◌≢◌, refl, Option, none, some, List, [], ◌∷◌, ◌++◌, All, take, length,
  Bool-cases, Option-cases, inl, inr, take-append, Run, ok, fault, ◌>>=◌, arith,
}
use ryze.Http.Chars.{Bytes, cr}
use ryze.Http.Chunked.{hex_digit}

-- The loop of `str_parse_hex`, where `result` is an `int`: a shift by 32 or more is undefined, and
-- so is a shift or a sum past the largest `int`. `none` stands for -1.
unfoldable pub add_digits : Bytes → (base result : ℕ) → Run (Option ℕ)
unfolding hex_digit
add_digits [] base result = ok (some result)
add_digits (c ∷ s) base result = elim (hex_digit c) [
  | none ↦ ok none
  | some n ↦
      let rest = add_digits s (base + 4) (result + n * 2 ^ base) in
      if ltb base 32 && ltb (n * 2 ^ base) (2 ^ 31) && ltb (result + n * 2 ^ base) (2 ^ 31)
      then rest
      else fault
]

-- The loop of `http_decode_chunked` up to the first '\r', or to `end`. The place of a ';' is
-- stored, and never used.
unfoldable pub find_cr : ℕ → Bytes → ℕ → Run (Option ℕ)
find_cr e [] p = if p == e then ok none else fault
find_cr e (c ∷ s) p =
    let rest = find_cr e s (p + 1) in
    if p == e then ok none else if c == cr then ok (some p) else rest

-- The branch of a '\r' at `p`. The distance from `p1` is an `int`.
unfoldable pub decode_size : Bytes → ℕ → Run (Option (ℕ × ℕ))
unfolding add_digits
decode_size mem p =
    if ltb 0 (p % 2 ^ 32) && ltb (p % 2 ^ 32) (2 ^ 31)
    then (do
      r ← add_digits (take (p % 2 ^ 32) mem) 0 0
      elim r [ none ↦ ok none | some n ↦ if n == 0 then ok none else ok (some (n, p + 2)) ])
    else ok none

-- The size of the chunk and `*offset`, or `none` for -1.
unfoldable pub http_decode_chunked : Bytes → ℕ → Run (Option (ℕ × ℕ))
unfolding find_cr decode_size
http_decode_chunked mem data_len = do
  end ← find_cr data_len mem 0
  elim end [ none ↦ ok none | some p ↦ decode_size mem p ]
