-- ===== src/Tests/Header.antt =====
-- A header block for `http_parse_header` of src/http/http_parser.c, and one with a folded line.
use Prim.Native.Char.{code}
use Prim.Native.String.{String}
use ryze.Base.{◌-◌, ◌≡◌, refl, [], ◌∷◌, ok, arith}
use ryze.Http.Chars.{Bytes, is_token_char}
use ryze.Http.Header
use ryze.Http.Header.{HeaderResult}
use ryze.Http.Header.Lines.{Field, IsField}
use ryze.Server.Header.{http_parse_header}
use ryze.Server.Header.RoundTrip.{http_parse_header-same}

abbrev codes : String → Bytes
codes String.[] = []
codes (String.◌∷◌ c s) = code c ∷ codes s

abbrev accept : Field
accept = record { name = codes "X"; lead = []; value = codes "y:z"; trail = [] }

accept-IsField : IsField accept
unfolding is_token_char
accept-IsField = record {
  token = (refl, tt);
  lead_blank = tt;
  trail_blank = tt;
  plain = omega arith;
  first = b'y';
  others = codes ":z";
  starts = refl;
  first_plain = refl;
  front = codes "y:";
  last = b'z';
  ends = refl;
  last_plain = refl;
}

http_parse_header-same_example :
    (r : HeaderResult) × (Header.http_parse_header (codes "X:y:z\r\n\r\nbody") 13 8 ≡ ok r)
    × (http_parse_header (codes "X:y:z\r\n\r\nbody") 13 8
        ≡ ok (record { headers = r.headers; value = r.read_len - 2 }))
http_parse_header-same_example =
    http_parse_header-same accept [] (codes "body") 13 8 accept-IsField tt (omega arith)
      (omega arith) (omega arith)

-- The value goes on over the line end, and ends two bytes in front of the end of the folded text.
folded :
    http_parse_header (codes "X:y\r\n z:\r\n\r\n") 12 8
    ≡ ok (record {
      headers = (record { name = 0; name_len = 1; value = 2; value_len = 4 }) ∷ [];
      value = 10;
    })
unfolding http_parse_header is_token_char
folded = refl
