-- ===== src/Server/RequestLine.antt =====
-- `http_parse_request_line` of src/http/http_parser.c. It gives one number where the function of
-- server/http_parser.c gives a status and a length.
use ryze.Base.{
  ℕ, ◌+◌, ◌-◌, ◌%◌, ◌^◌, not, ◌==◌, if◌then◌else◌, ◌≡◌, refl, List, [], ◌∷◌, Option, none, some,
  drop, Run, ok, fault, out_of_fuel, ◌>>=◌, arith,
}
use ryze.Http.Chars.{Bytes, read}
use ryze.Http.Scan.{scan_spaces, scan_crlf}
use ryze.Http.RequestLine
use ryze.Http.RequestLine.{
  RequestLine, LineResult, line, stop, Status, complete, partial, invalid, expect, add_position,
}

-- The return value, an `int`: 2 ^ 32 - n stands for -n. The out-parameters are stored only if the
-- line is complete; `read_len` is no out-parameter here, and 0 in the record.
pub record Answer : Type 0 where
  pub value : ℕ
  pub stored : Option RequestLine

abbrev pub refuse : ℕ → Answer
refuse n = record { value = 2 ^ 32 - n; stored = none }

-- The part under `if(i == 3)`. The differences of pointers that are returned become `int`s.
unfoldable pub check_line : Bytes → (p0 p1 p2 : ℕ) → Run Answer
unfolding expect read
check_line mem p0 p1 p2 = if not (p2 - p1 == 10) then ok (refuse 1) else do
  (same, p) ← expect mem p1 (b'H' ∷ b'T' ∷ b'T' ∷ b'P' ∷ b'/' ∷ b'1' ∷ b'.' ∷ [])
  if not same then ok (refuse 1) else do
    v ← read mem (p + 1)
    ok (record {
      value = (p2 + 1) % 2 ^ 32;
      stored = some (record {
        method = 0;
        method_len = p0;
        path = p0 + 1;
        path_len = p1 - (p0 + 1);
        version_byte = v;
        read_len = 0;
      });
    })

unfoldable pub answer_positions : Bytes → List ℕ → Run Answer
unfolding check_line
answer_positions mem (p0 ∷ p1 ∷ p2 ∷ []) = check_line mem p0 p1 p2
answer_positions mem _ = ok (refuse 2)

unfoldable pub http_parse_request_line : Bytes → ℕ → Run Answer
unfolding scan_spaces scan_crlf answer_positions
http_parse_request_line mem data_len = do
  (pos, p) ← scan_spaces data_len mem 0 []
  end ← scan_crlf data_len (drop p mem) p
  answer_positions mem (add_position pos end)

-- What the answer must be, by the result of the function of server/http_parser.c.
abbrev pub answer_of : LineResult → Answer
answer_of (line r) = record {
  value = r.read_len % 2 ^ 32;
  stored = some (record r { read_len = 0 });
}
answer_of (stop complete) = refuse 2
answer_of (stop partial) = refuse 2
answer_of (stop invalid) = refuse 1

abbrev pub map_run : {A B : Type 0} → (A → B) → Run A → Run B
map_run f m = m >>= (λ a. ok (f a))

check_line-check_version :
    (mem : Bytes) (p0 p1 p2 : ℕ)
    → check_line mem p0 p1 p2 ≡ map_run answer_of (RequestLine.check_version mem p0 p1 p2)
unfolding check_line RequestLine.check_version
check_line-check_version mem p0 p1 p2 = ground arith

answer_positions-with_positions :
    (mem : Bytes) (pos : List ℕ)
    → answer_positions mem pos ≡ map_run answer_of (RequestLine.with_positions mem pos)
unfolding answer_positions RequestLine.with_positions
answer_positions-with_positions mem [] = refl
answer_positions-with_positions mem (p0 ∷ []) = refl
answer_positions-with_positions mem (p0 ∷ p1 ∷ []) = refl
answer_positions-with_positions mem (p0 ∷ p1 ∷ p2 ∷ []) = check_line-check_version mem p0 p1 p2
answer_positions-with_positions mem (p0 ∷ p1 ∷ p2 ∷ p3 ∷ ps) = refl

-- The function of src/http/http_parser.c answers what the function of server/http_parser.c gives on
-- the same data: the length of the line as an `int` with the same positions stored, -1 where that
-- says "invalid" and -2 where it says "partial"; and it reads outside the data where that does.
pub http_parse_request_line-answer :
    (mem : Bytes) (data_len : ℕ)
    → http_parse_request_line mem data_len
      ≡ map_run answer_of (RequestLine.http_parse_request_line mem data_len)
unfolding http_parse_request_line RequestLine.http_parse_request_line
http_parse_request_line-answer mem data_len = go (scan_spaces data_len mem 0 [])
  where
    after :
        (pos : List ℕ) (r : Run (Option ℕ))
        → (r >>= (λ end. answer_positions mem (add_position pos end)))
          ≡ map_run answer_of (r >>= (λ end. RequestLine.with_positions mem (add_position pos end)))
    after pos fault = refl
    after pos out_of_fuel = refl
    after pos (ok end) = answer_positions-with_positions mem (add_position pos end)

    go :
        (r : Run (List ℕ × ℕ))
        → (r >>= (λ x.
            scan_crlf data_len (drop x.1 mem) x.1
            >>= (λ end. answer_positions mem (add_position x.0 end))))
          ≡ map_run answer_of (
              r >>= (λ x.
                scan_crlf data_len (drop x.1 mem) x.1
                >>= (λ end. RequestLine.with_positions mem (add_position x.0 end))))
    go fault = refl
    go out_of_fuel = refl
    go (ok x) = after x.0 (scan_crlf data_len (drop x.1 mem) x.1)
