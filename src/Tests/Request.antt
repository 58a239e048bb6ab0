-- ===== src/Tests/Request.antt =====
-- A request with a body, through `http_parse_request` of server/test.c.
use Prim.Native.Char.{code}
use Prim.Native.String.{String}
use ryze.Base.{◌+◌, ◌≡◌, refl, [], ◌∷◌, map, some, ok, arith}
use ryze.Http.Chars.{Bytes, is_token_char}
use ryze.Http.RequestLine.{RequestLine}
use ryze.Http.Header.Lines.{Field, IsField}
use ryze.Http.Header.RoundTrip.{texts, field_texts}
use ryze.Http.Request.{Request, http_parse_request}
use ryze.Http.Request.RoundTrip.{http_parse_request-print}

abbrev codes : String → Bytes
codes String.[] = []
codes (String.◌∷◌ c s) = code c ∷ codes s

abbrev accept : Field
accept = record { name = codes "X"; lead = []; value = codes "y:z"; trail = [] }

accept-IsField : IsField accept
unfolding is_token_char
accept-IsField = record {
  token = (refl, tt);
  lead_blank = tt;
  trail_blank = tt;
  plain = omega arith;
  first = b'y';
  others = codes ":z";
  starts = refl;
  first_plain = refl;
  front = codes "y:";
  last = b'z';
  ends = refl;
  last_plain = refl;
}

abbrev request : Bytes
request = codes "PUT /c HTTP/1.1\r\nX:y:z\r\n\r\nbody"

abbrev request_line : RequestLine
request_line = record {
  method = 0;
  method_len = 3;
  path = 4;
  path_len = 2;
  version_byte = 49;
  read_len = 17;
}

http_parse_request-print_example :
    (q : Request) × (http_parse_request request 30 8 ≡ ok (some q))
    × (q.request_line ≡ request_line)
    × (map (texts (codes "X:y:z\r\n\r\nbody")) q.headers ≡ map field_texts (accept ∷ []))
    × (q.body ≡ some q.read_len)
    × (q.read_len + 4 ≡ 30)
    × (q.body_len ≡ 4)
http_parse_request-print_example =
    http_parse_request-print (codes "PUT") (codes "/c") 49 accept [] (codes "body") 8 (omega arith)
      (omega arith) (omega arith) accept-IsField tt (omega arith) (omega arith) (omega arith)
