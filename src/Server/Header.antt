-- ===== src/Server/Header.antt =====
-- `http_parse_header` of src/http/http_parser.c. It finds lines and stores headers as the function of
-- server/http_parser.c does, but gives one number and leaves the bytes where they are.
pub mod RoundTrip
use ryze.Base.{
  ℕ, zero, suc, ◌+◌, ◌-◌, ◌%◌, ◌^◌, Bool, true, false, not, ◌&&◌, ◌==◌, ltb, if◌then◌else◌, List,
  [], ◌∷◌, drop, length, Run, ok, fault, out_of_fuel, ◌>>=◌,
}
use ryze.Http.Chars.{Bytes, cr, lf, is_blank, read}
use ryze.Http.Scan.{find_colon, find_crlf}
use ryze.Http.Header.{HttpHeader, State, size_mod, add_header}

-- The headers stored, and the return value, an `int`: 2 ^ 32 - n stands for -n.
pub record Answer : Type 0 where
  pub headers : List HttpHeader
  pub value : ℕ

-- What a round leaves: `leave` where the loop is left by its `break`.
pub data Round : Type 0 where
  go leave : State → Round

-- headers[i - 1].value_len += len
unfoldable pub lengthen_last : ℕ → List HttpHeader → List HttpHeader
lengthen_last len [] = []
lengthen_last len (h ∷ []) = (record h { value_len = (h.value_len + len) % size_mod }) ∷ []
lengthen_last len (h ∷ h' ∷ hs) = h ∷ lengthen_last len (h' ∷ hs)

-- The branch of a folded line; the difference is stored in an `int`.
unfoldable pub fold_line : ℕ → State → State
unfolding lengthen_last
fold_line p3 s =
    let len = (p3 + 2 ^ 32 - s.p1 - 1) % 2 ^ 32 in
    if ltb 0 len && ltb len (2 ^ 31) then record s { headers = lengthen_last len s.headers } else s

-- The end of a round, from `t = ++p` on, with `t` the offset behind the "\r\n" of the line.
unfoldable pub end_line : ℕ → ℕ → State → Run Round
unfolding read
end_line e t s = if t == e then ok (go (record s { p = t; read_len = t % 2 ^ 32 })) else do
  c ← read s.mem t
  if not (c == cr)
      then ok (go (record s { p = t; p1 = t; read_len = t % 2 ^ 32 }))
      else if t + 1 == e
      then ok (go (record s { p = t + 1; p1 = t; read_len = t % 2 ^ 32 }))
      else do
        d ← read s.mem (t + 1)
        ok (
            if d == lf
            then leave (record s { p = t + 1; read_len = t % 2 ^ 32 })
            else go (record s { p = t + 1; p1 = t; read_len = t % 2 ^ 32 }))

-- One round of the loop. `p3` is always found or the scan leaves the buffer, so that the branch
-- which returns -1 is never taken.
unfoldable pub header_line : ℕ → ℕ → State → Run Round
unfolding find_colon find_crlf read add_header fold_line end_line
header_line e max s = do
  (p2, is_token) ← find_colon (drop s.p1 s.mem) s.p1 true
  p3 ← find_crlf e (drop p2 s.mem) p2
  first ← read s.mem s.p1
  s' ← (if not (is_blank first) then add_header max is_token p2 p3 s else ok (fold_line p3 s))
  end_line e (p3 + 1) s'

abbrev pub answer : State → Answer
answer s = record { headers = s.headers; value = s.read_len }

-- for(; p != end;)
unfoldable pub parse_lines : ℕ → ℕ → ℕ → State → Run Answer
unfolding header_line
parse_lines zero e max s = out_of_fuel
parse_lines (suc k) e max s =
    let run =
      header_line e max s
      >>= (λ r. elim r [ leave s' ↦ ok (answer s') | go s' ↦ parse_lines k e max s' ]) in
    if s.p == e then ok (answer s) else run

unfoldable pub http_parse_header : Bytes → (data_len max_header : ℕ) → Run Answer
unfolding parse_lines
http_parse_header mem data_len max_header =
    parse_lines (length mem + 1) data_len max_header
      (record { p = 0; p1 = 0; headers = []; read_len = 2 ^ 32 - 2; mem = mem })
