-- ===== src/Http/RequestLine/Partial.antt =====
-- `http_parse_request_line` of server/http_parser.c on data that is not yet complete.
use ryze.Base.{
  ℕ, ◌+◌, ◌≤◌, ◌<◌, ◌≡◌, refl, ap, ◌∙◌, List, [], ◌∷◌, ◌++◌, none, length, drop, drop-append,
  drop-add, length-append, All-right, ok, fault, arith, ◌==◌, Bool-cases, inl, inr,
}
use mathlib.Core.List.{append_assoc}
use ryze.Http.Chars.{Bytes, cr}
use ryze.Http.Scan.{scan_spaces, scan_crlf}
use ryze.Http.Scan.Laws.{Without, scan_spaces-skip, scan_crlf-skip}
use ryze.Http.RequestLine.{partial, stop, with_positions, http_parse_request_line}

-- Inside the data the first loop stops at a pointer between the two parts `before` and `after`.
record Stops (e : ℕ) (m rest : Bytes) (p : ℕ) (pos : List ℕ) : Type 0 where
  found : List ℕ
  before : Bytes
  after : Bytes
  splits : m ≡ before ++ after
  few : length found ≤ 2
  runs : scan_spaces e (m ++ rest) p pos ≡ ok (found, p + length before)

Stops-cons :
    (e : ℕ) (c : ℕ) (m rest : Bytes) (p : ℕ) (pos pos' : List ℕ)
    → scan_spaces e (c ∷ (m ++ rest)) p pos ≡ scan_spaces e (m ++ rest) (p + 1) pos'
    → Stops e m rest (p + 1) pos'
    → Stops e (c ∷ m) rest p pos
Stops-cons e c m rest p pos pos' same s = record {
  found = s.found;
  before = c ∷ s.before;
  after = s.after;
  splits = ap (◌∷◌ c) s.splits;
  few = s.few;
  runs = same ∙ s.runs ∙ ap (λ n. ok (s.found, n)) (omega arith);
}

scan_spaces-end :
    (e : ℕ) (s : Bytes) (p : ℕ) (pos : List ℕ) → p ≡ e → scan_spaces e s p pos ≡ ok (pos, p)
unfolding scan_spaces
scan_spaces-end e [] p pos h = ground arith
scan_spaces-end e (c ∷ s) p pos h = ground arith

scan_spaces-Stops :
    (e : ℕ) (m rest : Bytes) (p : ℕ) (pos : List ℕ)
    → e ≡ p + length m
    → length pos < 2
    → Stops e m rest p pos
unfolding scan_spaces
scan_spaces-Stops e [] rest p pos eq few = record {
  found = pos;
  before = [];
  after = [];
  splits = refl;
  few = omega arith;
  runs = scan_spaces-end e rest p pos (omega arith) ∙ ap (λ n. ok (pos, n)) (omega arith);
}
scan_spaces-Stops e (c ∷ m) rest p pos eq few = elim (Bool-cases (c == b' ')) [
  | inr other ↦
      Stops-cons e c m rest p pos pos (rw other (ground arith))
        (scan_spaces-Stops e m rest (p + 1) pos (omega arith) few)
  | inl space ↦ elim (Bool-cases (length (pos ++ (p ∷ [])) == 2)) [
    | inl full ↦ record {
      found = pos ++ (p ∷ []);
      before = [];
      after = c ∷ m;
      splits = refl;
      few = ground arith;
      runs = rw (space, full) (ground arith);
    }
    | inr more ↦ Stops-cons e c m rest p pos (pos ++ (p ∷ [])) (rw (space, more) (ground arith)) (
        scan_spaces-Stops e m rest (p + 1) (pos ++ (p ∷ [])) (omega arith)
          (ground (arith, length-append pos (p ∷ []))))
  ]
]

scan_crlf-end : (e : ℕ) (s : Bytes) (p : ℕ) → p ≡ e → scan_crlf e s p ≡ ok none
unfolding scan_crlf
scan_crlf-end e [] p h = ground arith
scan_crlf-end e (c ∷ s) p h = ground arith

with_positions-few :
    (mem : Bytes) (pos : List ℕ) → length pos ≤ 2 → with_positions mem pos ≡ ok (stop partial)
unfolding with_positions
with_positions-few mem [] few = refl
with_positions-few mem (a ∷ []) few = refl
with_positions-few mem (a ∷ b ∷ []) few = refl
with_positions-few mem (a ∷ b ∷ c ∷ r) few = absurd (omega arith)

-- Data that holds no '\r' is answered "partial", whatever stands behind it in memory: the loops
-- read nothing outside it.
pub http_parse_request_line-partial :
    (m rest : Bytes)
    → Without cr m
    → http_parse_request_line (m ++ rest) (length m) ≡ ok (stop partial)
unfolding http_parse_request_line
http_parse_request_line-partial m rest w =
    let s = scan_spaces-Stops (length m) m rest 0 [] (omega arith) (omega arith) in
    let after = All-right _ s.before s.after (rw s.splits at w) in
    let whole : m ++ rest ≡ s.before ++ (s.after ++ rest) =
      ap (λ (x : Bytes). x ++ rest) s.splits ∙ append_assoc s.before s.after rest in
    let dropped : drop (0 + length s.before) (m ++ rest) ≡ s.after ++ rest =
      ap (drop (0 + length s.before)) whole
      ∙ drop-append (0 + length s.before) s.before (s.after ++ rest) (omega arith) in
    let len : length m ≡ length s.before + length s.after =
      ap length s.splits ∙ length-append s.before s.after in
    rw
      (
        s.runs,
        dropped,
        scan_crlf-skip (length m) s.after rest (0 + length s.before) (length m) after (omega arith)
            (omega arith),
        scan_crlf-end (length m) rest (length m) refl,
      )
      (with_positions-few _ s.found s.few)

-- Two parts that end in a space, and a third that ends in '\r'.
abbrev pub unterminated : Bytes → Bytes → Bytes → Bytes
unterminated a b d = a ++ (b' ' ∷ (b ++ (b' ' ∷ (d ++ (cr ∷ [])))))

-- Data with two spaces whose only '\r' behind the second one is its last byte is overrun: the
-- pointer steps over `end`, and the loop reads outside a buffer that ends with the data.
pub http_parse_request_line-overrun :
    (a b d : Bytes)
    → Without b' ' a
    → Without b' ' b
    → Without cr d
    → http_parse_request_line (unterminated a b d) (length (unterminated a b d)) ≡ fault
unfolding http_parse_request_line scan_spaces scan_crlf
http_parse_request_line-overrun a b d wa wb wd =
    let last : Bytes = b' ' ∷ (d ++ (cr ∷ [])) in
    let mem : Bytes = a ++ (b' ' ∷ (b ++ last)) in
    let e : ℕ = length mem in
    let p1 : ℕ = length a + 1 + length b in
    let len : e ≡ p1 + length d + 2 = omega (
      arith,
      length-append a (b' ' ∷ (b ++ last)),
      length-append b last,
      length-append d (cr ∷ []),
    ) in
    let at_path =
      drop-add (length a) (length a + 1) mem (b' ' ∷ []) (drop-append (length a) a _ refl) refl in
    let dropped : drop p1 mem ≡ last = drop-add (length a + 1) p1 mem b at_path refl in
    let spaces : scan_spaces e mem 0 [] ≡ ok (length a ∷ p1 ∷ [], p1) =
      scan_spaces-skip e a _ 0 (length a) [] wa (omega arith) (omega arith)
      ∙ ground (arith, scan_spaces-skip e b last (length a + 1) p1 (length a ∷ []) wb) in
    rw
      (
        spaces,
        dropped,
        scan_crlf-skip e (b' ' ∷ d) (cr ∷ []) p1 (p1 + 1 + length d) (ground arith, wd)
            (omega arith) (omega arith),
      )
      (ground arith)
