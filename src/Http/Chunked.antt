-- ===== src/Http/Chunked.antt =====
-- `str_parse_hex` and `http_parse_chunked` of server/http_parser.c. The bodies of the chunks are
-- moved together at the front of the buffer.
pub mod Hex
use ryze.Base.{
  ℕ, zero, suc, ◌+◌, ◌-◌, ◌*◌, ◌%◌, ◌^◌, Bool, true, false, not, ◌&&◌, ◌||◌, ◌==◌, ltb, leb,
  if◌then◌else◌, List, [], ◌∷◌, ◌++◌, Option, none, some, length, take, drop, Run, ok, fault,
  out_of_fuel, ◌>>=◌,
}
use ryze.Http.Chars.{Bytes, cr, lf, read, slice}
use ryze.Http.RequestLine.{Status, complete, partial, invalid}
use ryze.Http.Header.{size_mod, memmove}

-- The value of a hexadecimal digit.
unfoldable pub hex_digit : ℕ → Option ℕ
hex_digit c =
    if leb b'0' c && leb c b'9'
    then some (c - b'0')
    else if leb b'a' c && leb c b'f'
    then some (c - b'a' + 10)
    else if leb b'A' c && leb c b'F'
    then some (c - b'A' + 10)
    else none

-- The loop of `str_parse_hex`. `n << base` is computed in `int`: a shift by 32 or more, or past the
-- largest `int`, is undefined.
unfoldable pub parse_digits : Bytes → (base result : ℕ) → Run (Option ℕ)
parse_digits [] base result = ok (some result)
parse_digits (c ∷ s) base result = elim (hex_digit c) [
  | none ↦ ok none
  | some n ↦
      if ltb base 32 && ltb (n * 2 ^ base) (2 ^ 31)
      then parse_digits s (base + 4) ((result + n * 2 ^ base) % size_mod)
      else fault
]

-- `none` stands for the return value -1.
unfoldable pub str_parse_hex : Bytes → Run (Option ℕ)
unfolding hex_digit parse_digits
str_parse_hex s = parse_digits s 0 0

-- The variables of the loop; `p2` is the ';' of the chunk extension, if one was read.
pub record ChunkState : Type 0 where
  pub i : ℕ
  pub p1 : ℕ
  pub p2 : Option ℕ
  pub body_len : ℕ
  pub read_len : ℕ
  pub mem : Bytes

-- `*body` is always `data`.
pub record ChunkResult : Type 0 where
  pub status : Status
  pub body_len : ℕ
  pub read_len : ℕ
  pub mem : Bytes

pub data ChunkStep : Type 0 where
  next : ChunkState → ChunkStep
  finished : ChunkResult → ChunkStep

abbrev pub result_of : Status → ChunkState → ChunkResult
result_of status s = record {
  status = status;
  body_len = s.body_len;
  read_len = s.read_len;
  mem = s.mem;
}

-- (p2 ? p2 : data + i) - p1, stored in an `int`
abbrev pub size_end : Option ℕ → ℕ → ℕ
size_end none i = i
size_end (some p2) i = p2

-- A chunk of `n` bytes whose size line ends at `i`. The step `i++` of the loop is made here.
unfoldable pub take_chunk : ℕ → ℕ → ChunkState → Run ChunkStep
unfolding memmove
take_chunk e n st =
    let s : ℕ = (st.i + 2 + n + 2) % size_mod in
    if not (leb s e)
    then ok (finished (result_of partial st))
    else if n == 0
    then ok (finished (record (result_of complete st) { read_len = st.i + 2 }))
    else do
      mem' ← memmove st.mem st.body_len (st.i + 2) n
      ok (
          next (record {
            i = s + 1;
            p1 = s;
            p2 = none;
            body_len = st.body_len + n;
            read_len = s;
            mem = mem';
          }))

-- The branch of a '\r'.
unfoldable pub end_size : ℕ → ChunkState → Run ChunkStep
unfolding str_parse_hex take_chunk
end_size e st =
    let d : ℕ = (size_end st.p2 st.i - st.p1) % 2 ^ 32 in
    if ltb 0 d && ltb d (2 ^ 31)
    then (do
      n ← str_parse_hex (slice st.mem st.p1 d)
      elim n [ none ↦ ok (finished (result_of invalid st)) | some n ↦ take_chunk e n st ])
    else ok (finished (result_of invalid st))

-- One round of the loop.
unfoldable pub chunk_byte : ℕ → ChunkState → Run ChunkStep
unfolding read end_size
chunk_byte e st = do
  c ← read st.mem st.i
  if c == b';'
      then ok (next (record st { p2 = some st.i; i = st.i + 1 }))
      else if c == cr
      then end_size e st
      else ok (next (record st { i = st.i + 1 }))

-- for(size_t i = 0; i < data_len; i++)
unfoldable pub chunk_loop : ℕ → ℕ → ChunkState → Run ChunkResult
unfolding chunk_byte
chunk_loop zero e st = out_of_fuel
chunk_loop (suc k) e st =
    let run =
      chunk_byte e st >>= (λ r. elim r [ finished x ↦ ok x | next st' ↦ chunk_loop k e st' ]) in
    if ltb st.i e then run else ok (result_of complete st)

-- Every round raises `i`, so that `data_len` rounds and the last test are enough.
unfoldable pub http_parse_chunked : Bytes → (data_len : ℕ) → Run ChunkResult
unfolding chunk_loop
http_parse_chunked mem data_len =
    chunk_loop (data_len + 1) data_len
      (record { i = 0; p1 = 0; p2 = none; body_len = 0; read_len = 0; mem = mem })
