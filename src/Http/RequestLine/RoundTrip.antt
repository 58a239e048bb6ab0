-- ===== src/Http/RequestLine/RoundTrip.antt =====
-- Every request line that is written out is read back, for `http_parse_request_line` of
-- server/http_parser.c.
use ryze.Base.{
  ℕ, ◌+◌, ◌≤◌, ◌≡◌, ◌≢◌, refl, ◌∙◌, true, [], ◌∷◌, ◌++◌, some, length, drop, get_elem?_of_drop,
  drop-append, take-append, drop-add, length-append, ok, arith,
}
use ryze.Http.Chars.{Bytes, cr, lf, slice, read}
use ryze.Http.Scan.{scan_spaces, scan_crlf}
use ryze.Http.Scan.Laws.{Without, scan_spaces-skip, scan_crlf-skip, scan_crlf-hit}
use ryze.Http.RequestLine.{
  RequestLine, line, expect, version_prefix, check_version, with_positions, http_parse_request_line,
}

-- "METHOD path HTTP/1.v\r\n", and what may follow it in the buffer.
abbrev pub tail_of : ℕ → Bytes → Bytes
tail_of v rest = b' ' ∷ b'H' ∷ b'T' ∷ b'T' ∷ b'P' ∷ b'/' ∷ b'1' ∷ b'.' ∷ v ∷ cr ∷ lf ∷ rest

abbrev pub print_request_line : Bytes → Bytes → ℕ → Bytes → Bytes
print_request_line m p v rest = m ++ (b' ' ∷ (p ++ tail_of v rest))

expect-hit :
    (mem : Bytes) (p q : ℕ) (c : ℕ) (ws s : Bytes)
    → drop p mem ≡ c ∷ (ws ++ s)
    → q ≡ p + length ws
    → expect mem p ws ≡ ok (true, q)
unfolding expect
expect-hit mem p q c [] s d eq = let same : q ≡ p = omega arith in rw same
expect-hit mem p q c (w ∷ ws) s d eq =
    let d' : drop (p + 1) mem ≡ w ∷ (ws ++ s) = drop-add p (p + 1) mem (c ∷ []) d refl in
    ground (arith, get_elem?_of_drop (p + 1) mem d', expect-hit mem (p + 1) q w ws s d')

module _ (m p : Bytes) (v : ℕ) (rest : Bytes) where
  abbrev pub mem : Bytes
  mem = print_request_line m p v rest

  abbrev pub p1 : ℕ
  p1 = length m + 1 + length p

  abbrev pub parsed : RequestLine
  parsed = record {
    method = 0;
    method_len = length m;
    path = length m + 1;
    path_len = length p;
    version_byte = v;
    read_len = p1 + 11;
  }

  drop-path : drop (length m + 1) mem ≡ p ++ tail_of v rest
  drop-path =
      drop-add (length m) (length m + 1) mem (b' ' ∷ []) (drop-append (length m) m _ refl) refl

  pub drop-p1 : drop p1 mem ≡ tail_of v rest
  drop-p1 = drop-add (length m + 1) p1 mem p drop-path refl

  check_version-hit : check_version mem (length m) p1 (p1 + 10) ≡ ok (line parsed)
  unfolding check_version read
  check_version-hit = ground (
    arith,
    expect-hit mem p1 (p1 + 7) b' ' version_prefix (v ∷ cr ∷ lf ∷ rest) drop-p1,
    get_elem?_of_drop (p1 + 8) mem (drop-add p1 (p1 + 8) mem (b' ' ∷ version_prefix) drop-p1 refl),
  )

  module _ (e : ℕ) (no_space : Without b' ' m) (no_space' : Without b' ' p) (ne : v ≢ cr)
      (fits : p1 + 11 ≤ e) where
    scan_spaces-print : scan_spaces e mem 0 [] ≡ ok (length m ∷ p1 ∷ [], p1)
    unfolding scan_spaces
    scan_spaces-print =
        scan_spaces-skip e m _ 0 (length m) [] no_space (omega arith) (omega arith)
        ∙ ground (
          arith,
          scan_spaces-skip e p (tail_of v rest) (length m + 1) p1 (length m ∷ []) no_space',
        )

    scan_crlf-print : scan_crlf e (drop p1 mem) p1 ≡ ok (some (p1 + 10))
    scan_crlf-print = rw drop-p1 (
        scan_crlf-skip e (b' ' ∷ (version_prefix ++ (v ∷ []))) (cr ∷ lf ∷ rest) p1 (p1 + 9)
          (ground arith) (omega arith) (omega arith)
        ∙ ground (arith, scan_crlf-hit e rest (p1 + 9)))

    pub http_parse_request_line-ok : http_parse_request_line mem e ≡ ok (line parsed)
    unfolding http_parse_request_line with_positions
    http_parse_request_line-ok = rw (scan_spaces-print, scan_crlf-print) check_version-hit

    -- A request line with neither spaces in its method and path nor a '\r' for its minor version is
    -- read back whole, if `data_len` reaches its end: the spans hold the method and the path, and
    -- `read_len` is the length of the line.
    pub http_parse_request_line-print :
        (r : RequestLine) × (http_parse_request_line mem e ≡ ok (line r))
        × (slice mem r.method r.method_len ≡ m)
        × (slice mem r.path r.path_len ≡ p)
        × (r.version_byte ≡ v)
        × (r.read_len + length rest ≡ length mem)
    http_parse_request_line-print = (
      parsed,
      http_parse_request_line-ok,
      take-append (length m) m _ refl,
      rw drop-path (take-append (length p) p _ refl),
      refl,
      omega
          (arith, length-append m (b' ' ∷ (p ++ tail_of v rest)), length-append p (tail_of v rest)),
    )
