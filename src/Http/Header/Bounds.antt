-- ===== src/Http/Header/Bounds.antt =====
-- `http_parse_header` ends on every input, and stays within `headers` and the size of the buffer.
use ryze.Base.{
  ℕ, zero, suc, ◌+◌, ◌-◌, ◌%◌, ◌^◌, ◌≤◌, ◌<◌, ◌≡◌, ◌≢◌, refl, ap, ◌∙◌, ◌⊎◌, Bool, true, not, ◌&&◌,
  ◌==◌, leb, ltb, if◌then◌else◌, Bool-cases, inl, inr, List, [], ◌∷◌, ◌++◌, take, drop, length,
  length-append, length-drop, length-take, ok, Ensures, Ensures-bind, arith,
}
use ryze.Http.Chars.{Bytes, cr, lf, is_blank, read, slice}
use ryze.Http.Scan.{find_colon, find_crlf, skip_blanks, trim_blanks}
use ryze.Http.Scan.Bounds.{
  find_colon-Ensures, find_crlf-Ensures, skip_blanks-Ensures, read-Ensures, trim_blanks-Ensures,
}
use ryze.Http.Header.{
  HttpHeader, State, Step, next, finished, size_mod, memmove, add_header, fold_into, fold_line,
  end_line, header_line, parse_lines, http_parse_header,
}

length-splice :
    (mem : Bytes) (dst src len : ℕ)
    → dst + len ≤ length mem
    → src + len ≤ length mem
    → length (take dst mem ++ (slice mem src len ++ drop (dst + len) mem)) ≡ length mem
length-splice mem dst src len first second = omega (
  arith,
  length-append (take dst mem) (slice mem src len ++ drop (dst + len) mem),
  length-append (slice mem src len) (drop (dst + len) mem),
  length-take dst mem (omega arith),
  length-take len (drop src mem) (omega (arith, length-drop src mem)),
  length-drop (dst + len) mem,
)

pub length-memmove :
    (mem : Bytes) (dst src len : ℕ)
    → Ensures (λ mem'. length mem' ≡ length mem) (memmove mem dst src len)
unfolding memmove
length-memmove mem dst src len =
    elim (Bool-cases (leb (dst + len) (length mem) && leb (src + len) (length mem))) [
      | inl inside ↦ rw inside (length-splice mem dst src len (ground arith) (ground arith))
      | inr outside ↦ rw outside tt
    ]

length-fold_into :
    (mem : Bytes) (t len : ℕ) (hs : List HttpHeader)
    → Ensures (λ r. (length r.0 ≡ length mem) × (length r.1 ≡ length hs)) (fold_into mem t len hs)
unfolding fold_into
length-fold_into mem t len [] = (refl, refl)
length-fold_into mem t len (h ∷ []) =
    Ensures-bind _ _ (memmove mem ((h.value + h.value_len) % size_mod) t len) _
      (length-memmove mem ((h.value + h.value_len) % size_mod) t len) λ mem' same. (same, refl)
length-fold_into mem t len (h ∷ h' ∷ hs) =
    Ensures-bind _ _ (fold_into mem t len (h' ∷ hs)) _ (length-fold_into mem t len (h' ∷ hs))
      λ r same. (same.0, ap suc same.1)

length-concat-le :
    {max : ℕ} (hs : List HttpHeader) (h : HttpHeader)
    → length hs < max
    → length (hs ++ (h ∷ [])) ≤ max
length-concat-le hs h lt = omega (arith, length-append hs (h ∷ []))

module _ (n e max : ℕ) where
  -- What every round keeps: the size of the buffer, room in `headers`, and the place of the line.
  record Keeps (at : ℕ) (s : State) : Type 0 where
    mem : length s.mem ≡ n
    headers : length s.headers ≤ max
    p1 : s.p1 ≡ at

  add_header-Keeps :
      (tok : Bool) (p2 p3 : ℕ) {at : ℕ} (s : State)
      → Keeps at s
      → Ensures (Keeps at) (add_header max tok p2 p3 s)
  unfolding add_header
  add_header-Keeps tok p2 p3 {at} s k = elim (Bool-cases (tok && ltb (length s.headers) max)) [
    | inr full ↦ rw full k
    | inl room ↦
        let lt : length s.headers < max = ground arith in
        rw room (
          Ensures-bind (λ q. (p2 + 1 ≤ q) × (q < p2 + 1 + length (drop (p2 + 1) s.mem))) (Keeps at)
            (skip_blanks (drop (p2 + 1) s.mem) (p2 + 1)) _
            (skip_blanks-Ensures (drop (p2 + 1) s.mem) (p2 + 1))
            λ v hv.
              Ensures-bind (λ _. Unit {0}) (Keeps at) (trim_blanks s.mem (p3 - 2)) _
                (trim_blanks-Ensures s.mem (p3 - 2))
                λ t ht. record {
                  mem = k.mem;
                  headers = length-concat-le s.headers _ lt;
                  p1 = k.p1;
                })
  ]

  fold_line-Keeps : (p3 : ℕ) {at : ℕ} (s : State) → Keeps at s → Ensures (Keeps at) (fold_line p3 s)
  unfolding fold_line
  fold_line-Keeps p3 {at} s k =
      let len : ℕ = (p3 - (s.p1 + 1) - 1) % 2 ^ 32 in
      elim (Bool-cases (ltb 0 len && ltb len (2 ^ 31))) [
        | inr none_left ↦ rw none_left k
        | inl some_left ↦ rw some_left (
            Ensures-bind (λ r. (length r.0 ≡ length s.mem) × (length r.1 ≡ length s.headers))
              (Keeps at) (fold_into s.mem (s.p1 + 1) len s.headers) _
              (length-fold_into s.mem (s.p1 + 1) len s.headers)
              λ r same. record { mem = same.0 ∙ k.mem; headers = rw same.1 k.headers; p1 = k.p1 })
      ]

  -- A round leaves a line further on, or the end of the data, or the result.
  record Goes (at : ℕ) (s : State) : Type 0 where
    keeps : Keeps s.p1 s
    further : ((s.p ≡ e) × (at < n)) ⊎ ((at < s.p1) × (s.p1 ≤ n))

  abbrev Further : ℕ → Step → Type 0
  Further at (next s) = Goes at s
  Further at (finished r) = (length r.mem ≡ n) × (length r.headers ≤ max)

  end_line-Further :
      (t : ℕ) {at : ℕ} (s : State)
      → Keeps at s
      → at < t
      → t ≤ n
      → Ensures (Further at) (end_line e t s)
  unfolding end_line
  end_line-Further t {at} s k lt le = elim (Bool-cases (t == e)) [
    | inl end ↦ rw end (record {
      keeps = record { mem = k.mem; headers = k.headers; p1 = refl };
      further = inl (ground arith, omega arith);
    })
    | inr on ↦ rw on (
        Ensures-bind (λ _. Unit {0}) (Further at) (read s.mem t) _ (read-Ensures s.mem t)
          λ c hc. elim (Bool-cases (c == cr)) [
            | inr other ↦ rw other (moved t)
            | inl ret ↦ rw ret (elim (Bool-cases (t + 1 == e)) [
              | inl end ↦ rw end (moved (t + 1))
              | inr on' ↦ rw on' (
                  Ensures-bind (λ _. Unit {0}) (Further at) (read s.mem (t + 1)) _
                    (read-Ensures s.mem (t + 1))
                    λ d hd. elim (Bool-cases (d == lf)) [
                      | inl done ↦ rw done (k.mem, k.headers)
                      | inr again ↦ rw again (moved (t + 1))
                    ])
            ])
          ])
  ]
    where
      moved : (p : ℕ) → Goes at (record s { p = p; p1 = t; read_len = t })
      moved p = record {
        keeps = record { mem = k.mem; headers = k.headers; p1 = refl };
        further = inr (lt, le);
      }

  header_line-Further : (s : State) → Keeps s.p1 s → Ensures (Further s.p1) (header_line e max s)
  unfolding header_line
  header_line-Further s k =
      Ensures-bind (λ r. (s.p1 ≤ r.0) × (r.0 < s.p1 + length (drop s.p1 s.mem))) (Further s.p1)
        (find_colon (drop s.p1 s.mem) s.p1 true) _ (find_colon-Ensures (drop s.p1 s.mem) s.p1 true)
        λ c hc.
          Ensures-bind (λ q. (c.0 + 1 ≤ q) × (q < c.0 + length (drop c.0 s.mem))) (Further s.p1)
            (find_crlf e (drop c.0 s.mem) c.0) _ (find_crlf-Ensures e (drop c.0 s.mem) c.0)
            λ p3 h3.
              Ensures-bind (λ _. Unit {0}) (Further s.p1) (read s.mem s.p1) _
                (read-Ensures s.mem s.p1)
                λ first hf.
                  Ensures-bind (Keeps s.p1) (Further s.p1)
                    (if not (is_blank first) then add_header max c.1 c.0 p3 s else fold_line p3 s) _
                    (branch c p3 first)
                    λ s' k'.
                      end_line-Further (p3 + 1) s' k' (omega arith)
                        (omega (arith, length-drop c.0 s.mem, k.mem))
    where
      branch :
          (c : ℕ × Bool) (p3 first : ℕ)
          → Ensures
              (Keeps s.p1)
              (if not (is_blank first) then add_header max c.1 c.0 p3 s else fold_line p3 s)
      branch c p3 first = elim (Bool-cases (is_blank first)) [
        | inl blank ↦ rw blank (fold_line-Keeps p3 s k)
        | inr plain ↦ rw plain (add_header-Keeps c.1 c.0 p3 s k)
      ]

  -- The loop is over, or there is a round for every byte from the line on.
  abbrev Enough : ℕ → State → Type 0
  Enough k s = ((s.p ≡ e) × (0 < k)) ⊎ ((n < k + s.p1) × (s.p1 ≤ n))

  enough : (k : ℕ) (s s' : State) → Enough (suc k) s → s.p ≢ e → Goes s.p1 s' → Enough k s'
  enough k s s' (inl stopped) ne g = absurd (ne stopped.0)
  enough k s s' (inr left) ne g = Enough-of g.further
    where
      Enough-of : ((s'.p ≡ e) × (s.p1 < n)) ⊎ ((s.p1 < s'.p1) × (s'.p1 ≤ n)) → Enough k s'
      Enough-of (inl stop) = inl (stop.0, omega arith)
      Enough-of (inr on) = inr (omega arith, on.1)

  parse_lines-Ensures :
      (k : ℕ) (s : State)
      → Keeps s.p1 s
      → Enough k s
      → Ensures (λ r. (length r.mem ≡ n) × (length r.headers ≤ max)) (parse_lines k e max s)
  unfolding parse_lines
  parse_lines-Ensures zero s keeps (inl left) = absurd (omega arith)
  parse_lines-Ensures zero s keeps (inr left) = absurd (omega arith)
  parse_lines-Ensures (suc k) s keeps left = elim (Bool-cases (s.p == e)) [
    | inl done ↦ rw done (keeps.mem, keeps.headers)
    | inr on ↦ rw on (
        Ensures-bind (Further s.p1) (λ r. (length r.mem ≡ n) × (length r.headers ≤ max))
          (header_line e max s) _ (header_line-Further s keeps)
          (step
            (λ s' keeps' g. parse_lines-Ensures k s' keeps' (enough k s s' left (ground arith) g))))
  ]
    where
      step :
          ((s' : State)
            → Keeps s'.p1 s'
            → Goes s.p1 s'
            → Ensures (λ r. (length r.mem ≡ n) × (length r.headers ≤ max)) (parse_lines k e max s'))
          → (r : Step) → Further s.p1 r
          → Ensures
              (λ r. (length r.mem ≡ n) × (length r.headers ≤ max))
              (elim r [ finished x ↦ ok x | next s' ↦ parse_lines k e max s' ])
      step go (next s') g = go s' g.keeps g
      step go (finished x) g = g

-- On every buffer and for every `data_len` and `max_header` the parser returns or leaves the
-- buffer, and does not go on for ever: one round for each byte is fuel enough. When it returns, no
-- more than `max_header` entries are stored, and the buffer has kept its size.
pub http_parse_header-Ensures :
    (mem : Bytes) (e max : ℕ)
    → Ensures
        (λ r. (length r.mem ≡ length mem) × (length r.headers ≤ max))
        (http_parse_header mem e max)
unfolding http_parse_header
http_parse_header-Ensures mem e max =
    parse_lines-Ensures (length mem) e max (length mem + 1)
      (record { p = 0; p1 = 0; headers = []; read_len = 0; mem = mem })
      (record { mem = refl; headers = omega arith; p1 = refl }) (inr (omega arith, omega arith))
