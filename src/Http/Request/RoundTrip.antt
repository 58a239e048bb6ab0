-- ===== src/Http/Request/RoundTrip.antt =====
-- A request as a client writes it is read back whole by `http_parse_request` of server/test.c.
use ryze.Base.{
  ℕ, ◌+◌, ◌-◌, ◌%◌, ◌^◌, ◌≡◌, ◌≢◌, ◌≤◌, ◌<◌, true, ltb, refl, sym, ap, ◌∙◌, List, [], ◌∷◌, ◌++◌,
  map, All, length, drop, length-append, drop-add, some, ok, arith,
}
use ryze.Http.Chars.{Bytes, cr, lf}
use ryze.Http.Scan.Laws.{Without}
use ryze.Http.RequestLine.{line, complete, http_parse_request_line}
use ryze.Http.RequestLine.RoundTrip.{
  print_request_line, tail_of, drop-p1, parsed, http_parse_request_line-ok,
}
use ryze.Http.Header.{HeaderResult, http_parse_header}
use ryze.Http.Header.Lines.{Field, IsField, print_fields}
use ryze.Http.Header.RoundTrip.{texts, field_texts, length-print_fields, http_parse_header-print}
use ryze.Http.Request.{Request, with_body, http_parse_request}

module _ (m p : Bytes) (v : ℕ) (f : Field) (fs : List Field) (body : Bytes) where
  -- "METHOD path HTTP/1.v\r\n", the header lines, "\r\n" and the body.
  abbrev pub print_request : Bytes
  print_request = print_request_line m p v (print_fields (f ∷ fs) body)

  abbrev line_len : ℕ
  line_len = length m + 1 + length p + 11

  abbrev block : Bytes
  block = print_fields (f ∷ fs) body

  drop-line : drop line_len print_request ≡ block
  drop-line =
      drop-add (length m + 1 + length p) line_len print_request
        (b' ' ∷ b'H' ∷ b'T' ∷ b'T' ∷ b'P' ∷ b'/' ∷ b'1' ∷ b'.' ∷ v ∷ cr ∷ lf ∷ [])
        (drop-p1 m p v block) refl

  length-print_request : length print_request ≡ line_len + length block
  length-print_request =
      omega
        (arith, length-append m (b' ' ∷ (p ++ tail_of v block)), length-append p (tail_of v block))

  http_parse_request-parts :
      (max : ℕ) (r : HeaderResult)
      → http_parse_request_line print_request (length print_request)
        ≡ ok (line (parsed m p v block))
      → http_parse_header block ((length print_request + 2 ^ 64 - line_len) % 2 ^ 64) max ≡ ok r
      → r.status ≡ complete
      → http_parse_request print_request (length print_request) max
        ≡ ok (
            some (
              with_body
                (length print_request)
                (line_len + r.read_len)
                (parsed m p v block)
                r.headers))
  unfolding http_parse_request
  http_parse_request-parts max r start ran done = rw (start, drop-line, ran, done) refl

  -- A request with one or more header lines and a body that is not empty is read back whole: its
  -- line, its headers and its body. Its method and path have no space, the byte behind "HTTP/1." is
  -- no '\r', the names of its headers are tokens, and their values are not empty, hold no '\r' and
  -- neither begin nor end with a blank; it is shorter than 2 ^ 64 bytes, and `max_header` is the
  -- number of its header lines at least.
  pub http_parse_request-print :
      (max : ℕ)
      → Without b' ' m
      → Without b' ' p
      → v ≢ cr
      → IsField f
      → All IsField fs
      → length print_request < 2 ^ 64
      → length (f ∷ fs) ≤ max
      → 0 < length body
      → (q : Request) × (http_parse_request print_request (length print_request) max ≡ ok (some q))
        × (q.request_line ≡ parsed m p v (print_fields (f ∷ fs) body))
        × (map (texts (print_fields (f ∷ fs) body)) q.headers ≡ map field_texts (f ∷ fs))
        × (q.body ≡ some q.read_len)
        × (q.read_len + length body ≡ length print_request)
        × (q.body_len ≡ length body)
  unfolding http_parse_request with_body
  http_parse_request-print max no_space no_space' ne g gs small few some_body =
      let e : ℕ = length print_request in
      let rest : ℕ = (e + 2 ^ 64 - line_len) % 2 ^ 64 in
      let size = length-print_request in
      let whole : rest ≡ length block = omega (arith, size, small) in
      let parts = length-print_fields (f ∷ fs) body in
      let bare = length-print_fields (f ∷ fs) [] in
      let (r, ran, done, same, len, kept) =
        http_parse_header-print f fs body rest max g gs (omega (arith, whole, parts, bare))
          (omega (arith, whole, size, small)) few in
      let start =
        http_parse_request_line-ok m p v block e no_space no_space' ne (omega (arith, size)) in
      let before : ltb (line_len + r.read_len) e ≡ true =
        ground (arith, size, parts, len, bare, some_body) in
      (
        with_body e (line_len + r.read_len) (parsed m p v block) r.headers,
        http_parse_request-parts max r start ran done,
        refl,
        ap (λ t. map (texts t) r.headers) (sym kept) ∙ same,
        rw before refl,
        omega (arith, size, parts, len, bare),
        rw before (omega (arith, size, parts, len, bare)),
      )
