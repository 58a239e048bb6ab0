-- ===== src/Http/Header/RoundTrip.antt =====
-- A header block that a client writes is read back whole by `http_parse_header`.
use mathlib.Core.List.{append_assoc}
use ryze.Base.{
  ℕ, zero, suc, ◌+◌, ◌≡◌, ◌≢◌, ◌≤◌, ◌<◌, refl, sym, ap, ◌∙◌, false, ◌==◌, List, [], ◌∷◌, ◌++◌, map,
  length, length-append, take-append, drop, drop-add, All, ok, arith,
}
use ryze.Http.Chars.{Bytes, cr, lf, slice}
use ryze.Http.Scan.Laws.{read-ok}
use ryze.Http.RequestLine.{complete}
use ryze.Http.Header.{
  HttpHeader, HeaderResult, State, next, finished, size_mod, end_line, parse_lines,
  http_parse_header,
}
use ryze.Http.Header.Field.{header_line-field, at_rest}
use ryze.Http.Header.Lines.{
  Field, IsField, print_field, print_fields, size, header_at, print_field-first,
}

abbrev pub sizes : List Field → ℕ
sizes [] = 0
sizes (f ∷ fs) = size f + sizes fs

abbrev pub headers_at : ℕ → List Field → List HttpHeader
headers_at p [] = []
headers_at p (f ∷ fs) = header_at p f ∷ headers_at (p + size f) fs

end_line-next :
    (e : ℕ) (t : ℕ) (s : State) (f : Field) (rest : Bytes)
    → IsField f
    → drop t s.mem ≡ print_field f rest
    → t ≢ e
    → end_line e t s ≡ ok (next (record s { p = t; p1 = t; read_len = t }))
unfolding end_line
end_line-next e t s f rest g at ne =
    let (c, tail, eq, plain, ne') = print_field-first f rest g.token in
    ground (arith, read-ok s.mem t c tail (at ∙ eq))

end_line-done :
    (e t : ℕ) (s : State) (rest : Bytes)
    → drop t s.mem ≡ cr ∷ lf ∷ rest
    → t + 2 ≤ e
    → end_line e t s
      ≡ ok (
          finished
            (record { status = complete; headers = s.headers; read_len = t + 2; mem = s.mem }))
unfolding end_line
end_line-done e t s rest at fits = ground (
  arith,
  read-ok s.mem t cr (lf ∷ rest) at,
  read-ok s.mem (t + 1) lf rest (drop-add t (t + 1) s.mem (cr ∷ []) at refl),
)

pub parse_lines-fields :
    (f : Field) (fs : List Field) (rest : Bytes) (k e max : ℕ) (s : State)
    → IsField f
    → All IsField fs
    → drop s.p1 s.mem ≡ print_fields (f ∷ fs) rest
    → s.p ≡ s.p1
    → s.p1 + sizes (f ∷ fs) + 2 ≤ e
    → length s.headers + length (f ∷ fs) ≤ max
    → e < size_mod
    → length (f ∷ fs) ≤ k
    → parse_lines k e max s
      ≡ ok (record {
        status = complete;
        headers = s.headers ++ headers_at s.p1 (f ∷ fs);
        read_len = s.p1 + sizes (f ∷ fs) + 2;
        mem = s.mem;
      })
unfolding parse_lines
parse_lines-fields f fs rest zero e max s g gs at same fits few small fuel = absurd (omega arith)
parse_lines-fields f [] rest (suc k) e max s g gs at same fits few small fuel =
    let t : ℕ = s.p1 + size f in
    let later : drop t s.mem ≡ cr ∷ lf ∷ rest =
      at_rest f g (print_fields [] rest) e s at (omega arith) in
    let s' : State = record s { headers = s.headers ++ (header_at s.p1 f ∷ []) } in
    let open' : (s.p == e) ≡ false = ground arith in
    rw
      (
        open',
        header_line-field f g (print_fields [] rest) e s at (omega arith) max (omega arith) small,
        end_line-done e t s' rest later (omega arith),
      )
      (ap (λ n. ok (record { status = complete; headers = s'.headers; read_len = n; mem = s.mem }))
        (omega arith))
parse_lines-fields f (f' ∷ fs) rest (suc k) e max s g (g', gs) at same fits few small fuel =
    let t : ℕ = s.p1 + size f in
    let behind : Bytes = print_fields (f' ∷ fs) rest in
    let later : drop t s.mem ≡ behind = at_rest f g behind e s at (omega arith) in
    let s' : State = record s { headers = s.headers ++ (header_at s.p1 f ∷ []) } in
    let open' : (s.p == e) ≡ false = ground arith in
    rw
      (
        open',
        header_line-field f g behind e s at (omega arith) max (omega arith) small,
        end_line-next e t s' f' (print_fields fs rest) g' later (omega arith),
      )
      (parse_lines-fields f' fs rest k e max (record s' { p = t; p1 = t; read_len = t }) g' gs later
          refl (omega arith) (omega (arith, length-append s.headers (header_at s.p1 f ∷ []))) small
          (omega arith)
        ∙ rw append_assoc (
            ap
              (λ n. ok (record {
                status = complete;
                headers = s.headers ++ headers_at s.p1 (f ∷ f' ∷ fs);
                read_len = n;
                mem = s.mem;
              }))
              (omega arith)))

-- The texts that an entry points to, and those of a field.
abbrev pub texts : Bytes → HttpHeader → Bytes × Bytes
texts mem h = (slice mem h.name h.name_len, slice mem h.value h.value_len)

abbrev pub field_texts : Field → Bytes × Bytes
field_texts f = (f.name, f.value)

texts-headers_at :
    (mem : Bytes) (fs : List Field) (rest : Bytes) (p : ℕ)
    → drop p mem ≡ print_fields fs rest
    → map (texts mem) (headers_at p fs) ≡ map field_texts fs
texts-headers_at mem [] rest p at = refl
texts-headers_at mem (f ∷ fs) rest p at =
    let behind : Bytes = print_fields fs rest in
    let trailer : Bytes = f.trail ++ (cr ∷ lf ∷ behind) in
    let v : ℕ = p + length f.name + 1 + length f.lead in
    let at_colon = drop-add p (p + length f.name) mem f.name at refl in
    let at_value : drop v mem ≡ f.value ++ trailer =
      drop-add (p + length f.name) v mem (b':' ∷ f.lead) at_colon (omega arith) in
    let at_end = drop-add v (v + length f.value) mem f.value at_value refl in
    let at_cr =
      drop-add (v + length f.value) (v + length f.value + length f.trail) mem f.trail at_end refl in
    let name : slice mem p (length f.name) ≡ f.name =
      rw at (take-append (length f.name) f.name _ refl) in
    let value : slice mem v (length f.value) ≡ f.value =
      rw at_value (take-append (length f.value) f.value trailer refl) in
    rw (
      name,
      value,
      texts-headers_at mem fs rest (p + size f) (
          drop-add (v + length f.value + length f.trail) (p + size f) mem (cr ∷ lf ∷ []) at_cr
            (omega arith)),
    )

pub length-print_fields :
    (fs : List Field) (rest : Bytes) → length (print_fields fs rest) ≡ sizes fs + 2 + length rest
length-print_fields [] rest = omega arith
length-print_fields (f ∷ fs) rest =
    let behind : Bytes = print_fields fs rest in
    omega (
      arith,
      length-print_fields fs rest,
      length-append f.trail (cr ∷ lf ∷ behind),
      length-append f.value (f.trail ++ (cr ∷ lf ∷ behind)),
      length-append f.lead (f.value ++ (f.trail ++ (cr ∷ lf ∷ behind))),
      length-append f.name (b':' ∷ (f.lead ++ (f.value ++ (f.trail ++ (cr ∷ lf ∷ behind))))),
    )

pub length-le-sizes : (fs : List Field) → length fs ≤ sizes fs
length-le-sizes [] = omega arith
length-le-sizes (f ∷ fs) = omega (arith, length-le-sizes fs)

-- A block of one or more header lines, whose names are tokens and whose values are not empty, hold no
-- '\r' and neither begin nor end with a blank, is read back whole, with any bytes behind it, if
-- `data_len` reaches its end and is below 2 ^ 64, and `max_header` is the number of lines at least.
-- The parser returns 0, the entries point to the names and the
-- values without the blanks around them, `read_len` is the length of the block, and no byte has
-- changed.
pub http_parse_header-print :
    (f : Field) (fs : List Field) (rest : Bytes) (e max : ℕ)
    → IsField f
    → All IsField fs
    → length (print_fields (f ∷ fs) []) ≤ e
    → e < size_mod
    → length (f ∷ fs) ≤ max
    → (r : HeaderResult) × (http_parse_header (print_fields (f ∷ fs) rest) e max ≡ ok r)
      × (r.status ≡ complete)
      × (map (texts r.mem) r.headers ≡ map field_texts (f ∷ fs))
      × (r.read_len ≡ length (print_fields (f ∷ fs) []))
      × (r.mem ≡ print_fields (f ∷ fs) rest)
unfolding http_parse_header
http_parse_header-print f fs rest e max g gs fits small few =
    let mem : Bytes = print_fields (f ∷ fs) rest in
    let size : length (print_fields (f ∷ fs) []) ≡ 0 + sizes (f ∷ fs) + 2 =
      omega (arith, length-print_fields (f ∷ fs) []) in
    (
      record {
        status = complete;
        headers = headers_at 0 (f ∷ fs);
        read_len = 0 + sizes (f ∷ fs) + 2;
        mem = mem;
      },
      parse_lines-fields f fs rest (length mem + 1) e max
          (record { p = 0; p1 = 0; headers = []; read_len = 0; mem = mem }) g gs refl refl
          (omega (arith, size)) (omega arith) small
          (omega (arith, length-print_fields (f ∷ fs) rest, length-le-sizes (f ∷ fs))),
      refl,
      texts-headers_at mem (f ∷ fs) rest 0 refl,
      sym size,
      refl,
    )
