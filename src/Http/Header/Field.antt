-- ===== src/Http/Header/Field.antt =====
-- One round of the loop of `http_parse_header` on a header line as a client writes it.
use mathlib.Core.List.{append_assoc}
use ryze.Base.{
  ℕ, ◌+◌, ◌-◌, ◌≡◌, ◌≤◌, ◌<◌, refl, ap, ◌∙◌, false, true, [], ◌∷◌, ◌++◌, length, length-append,
  drop, drop-add, get_elem?_of_drop, ok, arith,
}
use ryze.Http.Chars.{Bytes, cr, lf, is_blank, read}
use ryze.Http.Scan.{find_colon, find_crlf, skip_blanks, trim_blanks}
use ryze.Http.Scan.Laws.{
  IsBlanks-Without, find_colon-skip, find_crlf-skip, find_crlf-hit, skip_blanks-skip,
  trim_blanks-skip, trim_blanks-stop, read-ok,
}
use ryze.Http.Header.{State, size_mod, add_header, end_line, header_line}
use ryze.Http.Header.Lines.{Field, IsField, print_field, size, header_at, print_field-first}

module _ (f : Field) (g : IsField f) (rest : Bytes) (e : ℕ) (s : State)
    (at : drop s.p1 s.mem ≡ print_field f rest) (fits : s.p1 + size f ≤ e) where
  -- The offsets of the ':', of the value, of what follows it, and of the '\r'.
  abbrev pub p2 : ℕ
  p2 = s.p1 + length f.name

  abbrev pub value : ℕ
  value = p2 + 1 + length f.lead

  abbrev pub value_end : ℕ
  value_end = value + length f.value

  abbrev pub line_end : ℕ
  line_end = value_end + length f.trail

  abbrev trailer : Bytes
  trailer = f.trail ++ (cr ∷ lf ∷ rest)

  at_colon : drop p2 s.mem ≡ b':' ∷ (f.lead ++ (f.value ++ trailer))
  at_colon = drop-add s.p1 p2 s.mem f.name at refl

  at_lead : drop (p2 + 1) s.mem ≡ f.lead ++ (f.value ++ trailer)
  at_lead = drop-add p2 (p2 + 1) s.mem (b':' ∷ []) at_colon refl

  at_value : drop value s.mem ≡ f.value ++ trailer
  at_value = drop-add (p2 + 1) value s.mem f.lead at_lead refl

  at_trail : drop value_end s.mem ≡ trailer
  at_trail = drop-add value value_end s.mem f.value at_value refl

  pub at_rest : drop (s.p1 + size f) s.mem ≡ rest
  at_rest =
      drop-add line_end (s.p1 + size f) s.mem (cr ∷ lf ∷ [])
        (drop-add value_end line_end s.mem f.trail at_trail refl) (omega arith)

  pub find_colon-field : find_colon (drop s.p1 s.mem) s.p1 true ≡ ok (p2, true)
  find_colon-field = rw at (find_colon-skip f.name _ s.p1 p2 g.token refl)

  pub find_crlf-field : find_crlf e (drop p2 s.mem) p2 ≡ ok (line_end + 1)
  find_crlf-field = rw at_colon (
      find_crlf-skip e (b':' ∷ f.lead) (f.value ++ trailer) p2 value
        (omega arith, IsBlanks-Without f.lead g.lead_blank) (omega arith)
      ∙ find_crlf-skip e f.value trailer value value_end g.plain refl
      ∙ find_crlf-skip e f.trail (cr ∷ lf ∷ rest) value_end line_end
          (IsBlanks-Without f.trail g.trail_blank) refl
      ∙ find_crlf-hit e rest line_end (omega arith))

  skip_blanks-field : skip_blanks (drop (p2 + 1) s.mem) (p2 + 1) ≡ ok value
  skip_blanks-field =
      rw (at_lead, g.starts)
        (skip_blanks-skip f.lead g.first (g.others ++ trailer) (p2 + 1) value g.lead_blank
          g.first_plain refl)

  -- The offset of the last byte of the value.
  abbrev last : ℕ
  last = value + length g.front

  value_end-last : value_end ≡ last + 1
  value_end-last = omega (arith, ap length g.ends, length-append g.front (g.last ∷ []))

  at_last : drop last s.mem ≡ g.last ∷ trailer
  at_last =
      drop-add value last s.mem g.front
        (at_value
          ∙ ap (λ (x : Bytes). x ++ trailer) g.ends
          ∙ append_assoc g.front (g.last ∷ []) trailer)
        refl

  trim_blanks-field : trim_blanks s.mem (line_end + 1 - 2) ≡ ok last
  trim_blanks-field =
      trim_blanks-skip s.mem f.trail (cr ∷ lf ∷ rest) last (line_end + 1 - 2)
        (rw (← value_end-last) at_trail) g.trail_blank (omega (arith, value_end-last))
      ∙ trim_blanks-stop s.mem last g.last (get_elem?_of_drop last s.mem at_last) g.last_plain

  pub add_header-field :
      (max : ℕ)
      → length s.headers < max
      → e < size_mod
      → add_header max true p2 (line_end + 1) s
        ≡ ok (record s { headers = s.headers ++ (header_at s.p1 f ∷ []) })
  unfolding add_header
  add_header-field max few small =
      rw (skip_blanks-field, trim_blanks-field) (ground (arith, value_end-last))

  pub first_plain : (c : ℕ) × (read s.mem s.p1 ≡ ok c) × (is_blank c ≡ false)
  first_plain =
      let (c, tail, eq, plain, ne) = print_field-first f rest g.token in
      (c, read-ok s.mem s.p1 c tail (at ∙ eq), plain)

  -- The round stores the entry of the line, and goes on behind it.
  pub header_line-field :
      (max : ℕ)
      → length s.headers < max
      → e < size_mod
      → header_line e max s
        ≡ end_line e (s.p1 + size f) (record s { headers = s.headers ++ (header_at s.p1 f ∷ []) })
  unfolding header_line
  header_line-field max few small =
      let (c, here, plain) = first_plain in
      let place : line_end + 1 + 1 ≡ s.p1 + size f = omega arith in
      rw (find_colon-field, find_crlf-field, here, plain, add_header-field max few small, place)
