-- ===== src/Http/Header.antt =====
-- `http_parse_header` of server/http_parser.c. The bytes may change: a folded line is moved.
pub mod Field
pub mod Lines
pub mod Bounds
pub mod RoundTrip
use ryze.Base.{
  ℕ, zero, suc, ◌+◌, ◌-◌, ◌%◌, ◌^◌, Bool, true, false, not, ◌&&◌, ◌||◌, ◌==◌, ltb, leb,
  if◌then◌else◌, List, [], ◌∷◌, ◌++◌, Option, none, some, length, take, drop, Run, ok, fault,
  out_of_fuel, ◌>>=◌,
}
use ryze.Http.Chars.{Bytes, cr, lf, is_blank, read, slice}
use ryze.Http.Scan.{find_colon, find_crlf, skip_blanks, trim_blanks}
use ryze.Http.RequestLine.{Status, complete, partial}

-- `struct http_header`: the pointers are offsets from `data`, the lengths are of type `size_t`.
pub record HttpHeader : Type 0 where
  pub name : ℕ
  pub name_len : ℕ
  pub value : ℕ
  pub value_len : ℕ

-- The variables that a round of the loop leaves to the next one. `headers` are the entries stored
-- so far, so that `i` and `*nheader` are its length.
pub record State : Type 0 where
  pub p : ℕ
  pub p1 : ℕ
  pub headers : List HttpHeader
  pub read_len : ℕ
  pub mem : Bytes

pub record HeaderResult : Type 0 where
  pub status : Status
  pub headers : List HttpHeader
  pub read_len : ℕ
  pub mem : Bytes

pub data Step : Type 0 where
  next : State → Step
  finished : HeaderResult → Step

-- Pointers and `size_t` wrap around at 2 ^ 64.
abbrev pub size_mod : ℕ
size_mod = 2 ^ 64

-- memmove(mem + dst, mem + src, len)
unfoldable pub memmove : Bytes → (dst src len : ℕ) → Run Bytes
memmove mem dst src len =
    if leb (dst + len) (length mem) && leb (src + len) (length mem)
    then ok (take dst mem ++ (slice mem src len ++ drop (dst + len) mem))
    else fault

-- The branch of a line that begins a header, for `*p1` neither ' ' nor '\t'.
unfoldable pub add_header : ℕ → Bool → (p2 p3 : ℕ) → State → Run State
unfolding skip_blanks trim_blanks
add_header max is_token p2 p3 s =
    if is_token && ltb (length s.headers) max
    then (do
      value ← skip_blanks (drop (p2 + 1) s.mem) (p2 + 1)
      t ← trim_blanks s.mem (p3 - 2)
      ok (record s {
        headers =
            s.headers
            ++ ((record {
              name = s.p1;
              name_len = p2 - s.p1;
              value = value;
              value_len = (t + 1 + size_mod - value) % size_mod;
            })
                ∷ []);
      }))
    else ok s

-- h = &headers[i - 1]: moves the text of the line behind the last value, and counts it there.
unfoldable pub fold_into : Bytes → (t len : ℕ) → List HttpHeader → Run (Bytes × List HttpHeader)
unfolding memmove
fold_into mem t len [] = ok (mem, [])
fold_into mem t len (h ∷ []) = do
  mem' ← memmove mem ((h.value + h.value_len) % size_mod) t len
  ok (mem', (record h { value_len = (h.value_len + len) % size_mod }) ∷ [])
fold_into mem t len (h ∷ h' ∷ hs) = do
  (mem', hs') ← fold_into mem t len (h' ∷ hs)
  ok (mem', h ∷ hs')

-- The branch of a folded line, `else if(i > 0)`. The difference is stored in an `int`.
unfoldable pub fold_line : ℕ → State → Run State
unfolding fold_into
fold_line p3 s =
    let len = (p3 - (s.p1 + 1) - 1) % 2 ^ 32 in
    if ltb 0 len && ltb len (2 ^ 31)
    then (do
      (mem', hs) ← fold_into s.mem (s.p1 + 1) len s.headers
      ok (record s { mem = mem'; headers = hs }))
    else ok s

-- The end of a round, from `t = ++p` on, with `t` the offset behind the "\r\n" of the line.
unfoldable pub end_line : ℕ → ℕ → State → Run Step
unfolding read
end_line e t s = if t == e then ok (next (record s { p = t; read_len = t })) else do
  c ← read s.mem t
  if not (c == cr)
      then ok (next (record s { p = t; p1 = t; read_len = t }))
      else if t + 1 == e
      then ok (next (record s { p = t + 1; p1 = t; read_len = t }))
      else do
        d ← read s.mem (t + 1)
        ok (
            if d == lf
            then finished
                (record { status = complete; headers = s.headers; read_len = t + 2; mem = s.mem })
            else next (record s { p = t + 1; p1 = t; read_len = t }))

-- One round of the loop. `p3` is always found or the scan leaves the buffer, so that the branch
-- which returns -1 is never taken.
unfoldable pub header_line : ℕ → ℕ → State → Run Step
unfolding find_colon find_crlf read add_header fold_line end_line
header_line e max s = do
  (p2, is_token) ← find_colon (drop s.p1 s.mem) s.p1 true
  p3 ← find_crlf e (drop p2 s.mem) p2
  first ← read s.mem s.p1
  s' ← (if not (is_blank first) then add_header max is_token p2 p3 s else fold_line p3 s)
  end_line e (p3 + 1) s'

-- for(; p != end;)
unfoldable pub parse_lines : ℕ → ℕ → ℕ → State → Run HeaderResult
unfolding header_line
parse_lines zero e max s = out_of_fuel
parse_lines (suc k) e max s =
    let run =
      header_line e max s
      >>= (λ r. elim r [ finished x ↦ ok x | next s' ↦ parse_lines k e max s' ]) in
    if s.p == e
    then ok (record { status = partial; headers = s.headers; read_len = s.read_len; mem = s.mem })
    else run

-- Every round moves `p1` on, so that one round for each byte is enough.
unfoldable pub http_parse_header : Bytes → (data_len max_header : ℕ) → Run HeaderResult
unfolding parse_lines
http_parse_header mem data_len max_header =
    parse_lines (length mem + 1) data_len max_header
      (record { p = 0; p1 = 0; headers = []; read_len = 0; mem = mem })
