-- ===== src/Http/Request.antt =====
-- `http_parse_request` of server/test.c: the request line, the header, and what follows it.
pub mod RoundTrip
use ryze.Base.{
  ℕ, ◌+◌, ◌-◌, ◌%◌, ◌^◌, Bool, true, false, ltb, if◌then◌else◌, List, [], ◌∷◌, Option, none, some,
  drop, Run, ok, ◌>>=◌,
}
use ryze.Http.Chars.{Bytes}
use ryze.Http.RequestLine.{
  RequestLine, line, stop, complete, partial, invalid, http_parse_request_line,
}
use ryze.Http.Header.{HttpHeader, HeaderResult, http_parse_header}

-- The out-parameters; the offsets in `headers` are from the end of the request line, and `body` is
-- `none` where `*body` is not stored.
pub record Request : Type 0 where
  pub request_line : RequestLine
  pub headers : List HttpHeader
  pub body : Option ℕ
  pub body_len : ℕ
  pub read_len : ℕ

-- From the second `assert` on, for a `read_len` behind the header.
unfoldable pub with_body : (data_len read_len : ℕ) → RequestLine → List HttpHeader → Request
with_body data_len read_len r hs = record {
  request_line = r;
  headers = hs;
  body = if ltb read_len data_len then some read_len else none;
  body_len = if ltb read_len data_len then data_len - read_len else 0;
  read_len = read_len;
}

-- `none` where an `assert` ends the program.
unfoldable pub http_parse_request : Bytes → (data_len max_header : ℕ) → Run (Option Request)
unfolding http_parse_request_line http_parse_header with_body
http_parse_request mem data_len max_header = do
  found ← http_parse_request_line mem data_len
  elim found [
    | stop status ↦ ok none
    | line r ↦ do
      h ←
          http_parse_header (drop r.read_len mem) ((data_len + 2 ^ 64 - r.read_len) % 2 ^ 64)
            max_header
      elim h.status [
        | complete ↦ ok (some (with_body data_len (r.read_len + h.read_len) r h.headers))
        | partial ↦ ok none
        | invalid ↦ ok none
      ]
  ]
