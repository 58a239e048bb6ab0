-- ===== src/Tests/Http.antt =====
-- Requests in the form that server/test.c sends them, through the parsers of server/http_parser.c.
use Prim.Native.Char.{code}
use Prim.Native.String.{String}
use ryze.Base.{
  ℕ, ◌+◌, ◌≤◌, ◌≡◌, refl, List, [], ◌∷◌, ◌++◌, some, map, length, Run, ok, fault, out_of_fuel,
  Option, none, Ensures, arith,
}
use ryze.Http.Chars.{Bytes, slice, is_token_char}
use ryze.Http.RequestLine.{RequestLine, complete, partial, line, stop, http_parse_request_line}
use ryze.Http.RequestLine.RoundTrip.{http_parse_request_line-print}
use ryze.Http.RequestLine.Partial.{http_parse_request_line-partial, http_parse_request_line-overrun}
use ryze.Http.RequestLine.Sound.{Accepts, http_parse_request_line-Accepts}
use ryze.Http.Header.{HeaderResult, http_parse_header}
use ryze.Http.Header.Lines.{Field, IsField}
use ryze.Http.Header.RoundTrip.{texts, field_texts, http_parse_header-print}
use ryze.Http.Header.Bounds.{http_parse_header-Ensures}
use ryze.Http.Chunked.{ChunkResult, hex_digit, str_parse_hex, http_parse_chunked}
use ryze.Http.Chunked.Hex.{str_parse_hex-reverse}

-- Code points; every literal below is ASCII.
abbrev codes : String → Bytes
codes String.[] = []
codes (String.◌∷◌ c s) = code c ∷ codes s

abbrev request : Bytes
request = codes "GET /cookies HTTP/1.1\r\nHost: a\r\n\r\n"

abbrev found : RequestLine
found = record {
  method = 0;
  method_len = 3;
  path = 4;
  path_len = 8;
  version_byte = 49;
  read_len = 23;
}

request_line : http_parse_request_line request 34 ≡ ok (line found)
unfolding http_parse_request_line
request_line = refl

http_parse_request_line-print_example :
    (r : RequestLine) × (http_parse_request_line request 34 ≡ ok (line r))
    × (slice request r.method r.method_len ≡ codes "GET")
    × (slice request r.path r.path_len ≡ codes "/cookies")
    × (r.version_byte ≡ 49)
    × (r.read_len + 11 ≡ length request)
http_parse_request_line-print_example =
    http_parse_request_line-print (codes "GET") (codes "/cookies") 49 (codes "Host: a\r\n\r\n") 34
      (omega arith) (omega arith) (omega arith) (omega arith)

http_parse_request_line-Accepts_example : Accepts request found
http_parse_request_line-Accepts_example = http_parse_request_line-Accepts request 34 request_line

http_parse_request_line-partial_example :
    http_parse_request_line (codes "GET / HT" ++ codes "\r\n") 8 ≡ ok (stop partial)
http_parse_request_line-partial_example =
    http_parse_request_line-partial (codes "GET / HT") (codes "\r\n") (omega arith)

http_parse_request_line-overrun_example :
    http_parse_request_line (codes "GET / HTTP/1.1\r") 15 ≡ fault
http_parse_request_line-overrun_example =
    http_parse_request_line-overrun (codes "GET") (codes "/") (codes "HTTP/1.1") (omega arith)
      (omega arith) (omega arith)

abbrev host : Field
host = record { name = codes "Host"; lead = codes " "; value = codes "a b"; trail = codes "\t" }

host-IsField : IsField host
unfolding is_token_char
host-IsField = record {
  token = (refl, (refl, (refl, (refl, tt))));
  lead_blank = (refl, tt);
  trail_blank = (refl, tt);
  plain = omega arith;
  first = b'a';
  others = codes " b";
  starts = refl;
  first_plain = refl;
  front = codes "a ";
  last = b'b';
  ends = refl;
  last_plain = refl;
}

abbrev accept : Field
accept = record { name = codes "X"; lead = []; value = codes "y:z"; trail = [] }

accept-IsField : IsField accept
unfolding is_token_char
accept-IsField = record {
  token = (refl, tt);
  lead_blank = tt;
  trail_blank = tt;
  plain = omega arith;
  first = b'y';
  others = codes ":z";
  starts = refl;
  first_plain = refl;
  front = codes "y:";
  last = b'z';
  ends = refl;
  last_plain = refl;
}

abbrev block : Bytes
block = codes "Host: a b\t\r\nX:y:z\r\n\r\nbody"

http_parse_header-print_example :
    (r : HeaderResult) × (http_parse_header block 25 8 ≡ ok r)
    × (r.status ≡ complete)
    × (map (texts r.mem) r.headers ≡ map field_texts (host ∷ accept ∷ []))
    × (r.read_len ≡ 21)
    × (r.mem ≡ block)
http_parse_header-print_example =
    http_parse_header-print host (accept ∷ []) (codes "body") 25 8 host-IsField (accept-IsField, tt)
      (omega arith) (omega arith) (omega arith)

http_parse_header-Ensures_example :
    Ensures (λ r. (length r.mem ≡ 25) × (length r.headers ≤ 1)) (http_parse_header block 25 1)
http_parse_header-Ensures_example = http_parse_header-Ensures block 25 1

-- The entries of a result, as texts, and the lengths of their values.
abbrev entries : Run HeaderResult → List (Bytes × Bytes)
entries (ok r) = map (texts r.mem) r.headers
entries fault = []
entries out_of_fuel = []

abbrev value_lens : Run HeaderResult → List ℕ
value_lens (ok r) = map (λ h. h.value_len) r.headers
value_lens fault = []
value_lens out_of_fuel = []

-- A value of blanks alone has the length 2 ^ 64 - 1.
header_blank_value :
    value_lens (http_parse_header (codes "A: \r\n\r\n") 7 8) ≡ 0xffff_ffff_ffff_ffff ∷ []
unfolding http_parse_header is_token_char
header_blank_value = refl

-- A folded line is moved behind the value before it. With no ':' in it, it takes in the next line.
header_fold :
    (entries (http_parse_header (codes "A: x\r\n y:\r\nB: z\r\n\r\n") 20 8)
      ≡ (codes "A", codes "xy:") ∷ (codes "B", codes "z") ∷ [])
    × (entries (http_parse_header (codes "A: x\r\n y\r\nB: z\r\n\r\n") 19 8)
        ≡ (codes "A", codes "xy\r\nB: z") ∷ [])
unfolding http_parse_header is_token_char
header_fold = (refl, refl)

str_parse_hex-reverse_example : str_parse_hex (codes "1a") ≡ ok (some 161)
unfolding hex_digit
str_parse_hex-reverse_example = str_parse_hex-reverse (codes "1a") (1 ∷ 10 ∷ []) refl (omega arith)

abbrev decoded : Run ChunkResult → Option (Bytes × ℕ)
decoded (ok r) = some (slice r.mem 0 r.body_len, r.read_len)
decoded fault = none
decoded out_of_fuel = none

-- Chunks of three and two bytes, the second with an extension.
chunked :
    decoded (http_parse_chunked (codes "3\r\nabc\r\n2;x\r\nde\r\n0\r\n\r\n") 22)
    ≡ some (codes "abcde", 20)
unfolding http_parse_chunked str_parse_hex
chunked = refl
