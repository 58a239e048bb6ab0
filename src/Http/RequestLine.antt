-- ===== src/Http/RequestLine.antt =====
-- `http_parse_request_line` of server/http_parser.c.
pub mod Partial
pub mod RoundTrip
pub mod Sound
use ryze.Base.{
  ℕ, ◌+◌, ◌-◌, Bool, true, false, not, ◌==◌, if◌then◌else◌, List, [], ◌∷◌, ◌++◌, Option, none, some,
  Run, ok, ◌>>=◌, drop,
}
use ryze.Http.Chars.{Bytes, read}
use ryze.Http.Scan.{scan_spaces, scan_crlf}

-- The return values 0, 1 and -1.
pub data Status : Type 0 where
  complete partial invalid : Status

-- The out-parameters, as offsets and lengths. `minor_version` is the byte less '0', as an `int`:
-- `version_byte` is the byte.
pub record RequestLine : Type 0 where
  pub method : ℕ
  pub method_len : ℕ
  pub path : ℕ
  pub path_len : ℕ
  pub version_byte : ℕ
  pub read_len : ℕ

-- What a call returns, and what it has stored when it returns 0.
pub data LineResult : Type 0 where
  line : RequestLine → LineResult
  stop : Status → LineResult

-- *++p != 'H' || *++p != 'T' || ...: reads on only while the bytes agree; `p` stands before the next.
unfoldable pub expect : Bytes → ℕ → Bytes → Run (Bool × ℕ)
unfolding read
expect mem p [] = ok (true, p)
expect mem p (w ∷ ws) =
    let rest = expect mem (p + 1) ws in
    do c ← read mem (p + 1); if c == w then rest else ok (false, p + 1)

-- " HTTP/1.1\r\n" behind the second space, and the results.
abbrev version_prefix : Bytes
version_prefix = b'H' ∷ b'T' ∷ b'T' ∷ b'P' ∷ b'/' ∷ b'1' ∷ b'.' ∷ []

-- The part under `if(i == 3)`.
unfoldable pub check_version : Bytes → (p0 p1 p2 : ℕ) → Run LineResult
unfolding expect read
check_version mem p0 p1 p2 = if not (p2 - p1 == 10) then ok (stop invalid) else do
  (same, p) ← expect mem p1 version_prefix
  if not same then ok (stop invalid) else do
    v ← read mem (p + 1)
    ok (
        line (record {
          method = 0;
          method_len = p0;
          path = p0 + 1;
          path_len = p1 - (p0 + 1);
          version_byte = v;
          read_len = p2 + 1;
        }))

unfoldable pub with_positions : Bytes → List ℕ → Run LineResult
unfolding check_version
with_positions mem (p0 ∷ p1 ∷ p2 ∷ []) = check_version mem p0 p1 p2
with_positions mem _ = ok (stop partial)

abbrev pub add_position : List ℕ → Option ℕ → List ℕ
add_position pos none = pos
add_position pos (some p) = pos ++ (p ∷ [])

unfoldable pub http_parse_request_line : Bytes → ℕ → Run LineResult
unfolding scan_spaces scan_crlf with_positions
http_parse_request_line mem data_len = do
  (pos, p) ← scan_spaces data_len mem 0 []
  end ← scan_crlf data_len (drop p mem) p
  with_positions mem (add_position pos end)
