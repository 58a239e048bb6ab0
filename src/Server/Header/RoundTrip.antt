-- ===== src/Server/Header/RoundTrip.antt =====
-- On header lines that are not folded the two versions of `http_parse_header` agree.
use mathlib.Core.List.{append_assoc}
use ryze.Base.{
  ℕ, zero, suc, ◌+◌, ◌-◌, ◌%◌, ◌^◌, ◌≡◌, ◌≢◌, ◌≤◌, ◌<◌, refl, ap, ◌∙◌, false, ◌==◌, List, [], ◌∷◌,
  ◌++◌, length, length-append, drop, drop-add, All, ok, arith,
}
use ryze.Http.Chars.{Bytes, cr, lf}
use ryze.Http.Scan.Laws.{read-ok}
use ryze.Http.Header.{HttpHeader, HeaderResult, State, size_mod}
use ryze.Http.Header
use ryze.Http.Header.Field.{
  line_end, find_colon-field, find_crlf-field, first_plain, add_header-field, at_rest,
}
use ryze.Http.Header.Lines.{
  Field, IsField, print_field, print_fields, size, header_at, print_field-first,
}
use ryze.Http.RequestLine.{complete}
use ryze.Http.Header.RoundTrip
use ryze.Http.Header.RoundTrip.{
  length-print_fields, length-le-sizes, sizes, headers_at, texts, field_texts,
  http_parse_header-print,
}
use ryze.Server.Header.{go, leave, end_line, header_line, parse_lines, http_parse_header}

end_line-go :
    (e : ℕ) (t : ℕ) (s : State) (f : Field) (rest : Bytes)
    → IsField f
    → drop t s.mem ≡ print_field f rest
    → t ≢ e
    → end_line e t s ≡ ok (go (record s { p = t; p1 = t; read_len = t % 2 ^ 32 }))
unfolding end_line
end_line-go e t s f rest g at ne =
    let (c, tail, eq, plain, ne') = print_field-first f rest g.token in
    ground (arith, read-ok s.mem t c tail (at ∙ eq))

end_line-leave :
    (e t : ℕ) (s : State) (rest : Bytes)
    → drop t s.mem ≡ cr ∷ lf ∷ rest
    → t + 2 ≤ e
    → end_line e t s ≡ ok (leave (record s { p = t + 1; read_len = t % 2 ^ 32 }))
unfolding end_line
end_line-leave e t s rest at fits = ground (
  arith,
  read-ok s.mem t cr (lf ∷ rest) at,
  read-ok s.mem (t + 1) lf rest (drop-add t (t + 1) s.mem (cr ∷ []) at refl),
)

module _ (f : Field) (g : IsField f) (rest : Bytes) (e : ℕ) (s : State)
    (at : drop s.p1 s.mem ≡ print_field f rest) (fits : s.p1 + size f ≤ e) where
  header_line-stores :
      (max : ℕ)
      → length s.headers < max
      → e < size_mod
      → header_line e max s
        ≡ end_line e (s.p1 + size f) (record s { headers = s.headers ++ (header_at s.p1 f ∷ []) })
  unfolding header_line
  header_line-stores max few small =
      let (c, here, plain) = first_plain f g rest e s at fits in
      let place : line_end f g rest e s at fits + 1 + 1 ≡ s.p1 + size f = omega arith in
      rw
        (
          find_colon-field f g rest e s at fits,
          find_crlf-field f g rest e s at fits,
          here,
          plain,
          add_header-field f g rest e s at fits max few small,
          place,
        )
        refl

parse_lines-fields :
    (f : Field) (fs : List Field) (rest : Bytes) (k e max : ℕ) (s : State)
    → IsField f
    → All IsField fs
    → drop s.p1 s.mem ≡ print_fields (f ∷ fs) rest
    → s.p ≡ s.p1
    → s.p1 + sizes (f ∷ fs) + 2 ≤ e
    → length s.headers + length (f ∷ fs) ≤ max
    → e < size_mod
    → length (f ∷ fs) ≤ k
    → parse_lines k e max s
      ≡ ok (record {
        headers = s.headers ++ headers_at s.p1 (f ∷ fs);
        value = (s.p1 + sizes (f ∷ fs)) % 2 ^ 32;
      })
unfolding parse_lines
parse_lines-fields f fs rest zero e max s g gs at same fits few small fuel = absurd (omega arith)
parse_lines-fields f [] rest (suc k) e max s g gs at same fits few small fuel =
    let t : ℕ = s.p1 + size f in
    let later : drop t s.mem ≡ cr ∷ lf ∷ rest =
      at_rest f g (print_fields [] rest) e s at (omega arith) in
    let s' : State = record s { headers = s.headers ++ (header_at s.p1 f ∷ []) } in
    let open' : (s.p == e) ≡ false = ground arith in
    rw
      (
        open',
        header_line-stores f g (print_fields [] rest) e s at (omega arith) max (omega arith) small,
        end_line-leave e t s' rest later (omega arith),
      )
      (ap (λ n. ok (record { headers = s'.headers; value = n % 2 ^ 32 })) (omega arith))
parse_lines-fields f (f' ∷ fs) rest (suc k) e max s g (g', gs) at same fits few small fuel =
    let t : ℕ = s.p1 + size f in
    let behind : Bytes = print_fields (f' ∷ fs) rest in
    let later : drop t s.mem ≡ behind = at_rest f g behind e s at (omega arith) in
    let s' : State = record s { headers = s.headers ++ (header_at s.p1 f ∷ []) } in
    let open' : (s.p == e) ≡ false = ground arith in
    rw
      (
        open',
        header_line-stores f g behind e s at (omega arith) max (omega arith) small,
        end_line-go e t s' f' (print_fields fs rest) g' later (omega arith),
      )
      (parse_lines-fields f' fs rest k e max (record s' { p = t; p1 = t; read_len = t % 2 ^ 32 }) g'
          gs later refl (omega arith)
          (omega (arith, length-append s.headers (header_at s.p1 f ∷ []))) small (omega arith)
        ∙ rw append_assoc (
            ap
              (λ n. ok (record {
                headers = s.headers ++ headers_at s.p1 (f ∷ f' ∷ fs);
                value = n % 2 ^ 32;
              }))
              (omega arith)))

-- A complete block of one or more header lines, with the empty line at its end, whose names are
-- tokens and whose values are not empty, hold no '\r' and neither begin nor end with a blank, where
-- `data_len` reaches the end of the block and is below 2 ^ 31, and `max_header` is the number of lines
-- at least: the parser of src/http stores the headers that the one of server stores, and gives the length
-- without the last "\r\n", which the one of server counts too.
pub http_parse_header-same :
    (f : Field) (fs : List Field) (rest : Bytes) (e max : ℕ)
    → IsField f
    → All IsField fs
    → length (print_fields (f ∷ fs) []) ≤ e
    → e < 2 ^ 31
    → length (f ∷ fs) ≤ max
    → (r : HeaderResult) × (Header.http_parse_header (print_fields (f ∷ fs) rest) e max ≡ ok r)
      × (http_parse_header (print_fields (f ∷ fs) rest) e max
          ≡ ok (record { headers = r.headers; value = r.read_len - 2 }))
unfolding http_parse_header Header.http_parse_header
http_parse_header-same f fs rest e max g gs fits small few =
    let mem : Bytes = print_fields (f ∷ fs) rest in
    let first : State = record { p = 0; p1 = 0; headers = []; read_len = 0; mem = mem } in
    let total : length (print_fields (f ∷ fs) []) ≡ 0 + sizes (f ∷ fs) + 2 =
      omega (arith, length-print_fields (f ∷ fs) []) in
    let rounds : length (f ∷ fs) ≤ length mem + 1 =
      omega (arith, length-print_fields (f ∷ fs) rest, length-le-sizes (f ∷ fs)) in
    (
      record {
        status = complete;
        headers = headers_at 0 (f ∷ fs);
        read_len = 0 + sizes (f ∷ fs) + 2;
        mem = mem;
      },
      RoundTrip.parse_lines-fields f fs rest (length mem + 1) e max first g gs refl refl
          (omega (arith, total)) (omega arith) (omega (arith, small)) rounds,
      parse_lines-fields f fs rest (length mem + 1) e max (record first { read_len = 2 ^ 32 - 2 }) g
            gs refl refl (omega (arith, total)) (omega arith) (omega (arith, small)) rounds
          ∙ ap (λ n. ok (record { headers = headers_at 0 (f ∷ fs); value = n }))
              (omega (arith, total, fits, small)),
    )
