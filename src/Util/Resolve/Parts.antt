-- ===== src/Util/Resolve/Parts.antt =====
-- What `str_split` and the walk of `normalize_path` of src/util/util.c make of parts with no "..".
use mathlib.Core.List.{append_assoc, reverse_aux}
use ryze.Base.{
  ℕ, suc, ◌+◌, ◌%◌, ◌^◌, ◌≤◌, ◌<◌, Bool, true, false, ◌==◌, ltb, ◌≡◌, refl, sym, ap, ◌∙◌, inl, inr,
  List, [], ◌∷◌, ◌++◌, All, length, drop, length-append, drop-append, Bool-cases, Run, ok, ◌>>=◌,
  bind-cong, arith,
}
use ryze.Http.Chars.{Bytes}
use ryze.Util.Strings.{Lacks, byte}
use ryze.Util.Url.{str_same}
use ryze.Util.Split.{join, print_parts}
use ryze.Util.Normalize.{level, same_dots, first_string}
use ryze.Util.Normalize.Walk.{first_string-end, first_string-append}
use ryze.Util.Resolve.{cut, Walk, enter_part, walk}

-- The last part is not empty.
abbrev pub IsFilled : Bytes → List Bytes → Type 0
IsFilled [] [] = ⊥
IsFilled (c ∷ s) [] = Unit
IsFilled s (t ∷ ts) = IsFilled t ts

filled-join :
    (c : ℕ) (s : Bytes) (ss : List Bytes)
    → IsFilled s ss
    → (d : ℕ) × (rest : Bytes) × (join c s ss ≡ d ∷ rest)
unfolding join
filled-join c [] [] h = absurd h
filled-join c (d ∷ s) [] h = (d, s, refl)
filled-join c [] (t ∷ ts) h = (c, join c t ts, refl)
filled-join c (d ∷ s) (t ∷ ts) h = (d, s ++ (c ∷ join c t ts), refl)

cut-delim :
    (delim : ℕ) (rest : Bytes) (count : ℕ) (r : Bytes × ℕ)
    → ((d : ℕ) × (tail : Bytes) × (rest ≡ d ∷ tail))
    → cut delim rest (count + 1) ≡ r
    → cut delim (delim ∷ rest) count ≡ (0 ∷ r.0, r.1)
unfolding cut
cut-delim delim [] count r (d, tail, e) h = cc
cut-delim delim (d ∷ rest) count r some_byte h =
    let here : (delim == delim) ≡ true = ground arith in rw (here, h) refl

cut-other :
    (delim c : ℕ) (rest : Bytes) (count : ℕ) (r : Bytes × ℕ)
    → (c == delim) ≡ false
    → cut delim rest count ≡ r
    → cut delim (c ∷ rest) count ≡ (c ∷ r.0, r.1)
unfolding cut
cut-other delim c [] count r other h = rw (other, sym h) refl
cut-other delim c (d ∷ rest) count r other h = rw (other, h) refl

cut-plain : (c : ℕ) (s : Bytes) (count : ℕ) → Lacks c s → cut c s count ≡ (s, count)
unfolding cut
cut-plain c [] count h = refl
cut-plain c (d ∷ s) count h =
    cut-other c d s count (s, count) (ground (arith, h.0)) (cut-plain c s count h.1)

pub cut-join :
    (c : ℕ) (s : Bytes) (ss : List Bytes) (count : ℕ)
    → Lacks c s
    → All (Lacks c) ss
    → IsFilled s ss
    → cut c (join c s ss) count ≡ (join 0 s ss, count + length ss)
unfolding join cut
cut-join c [] [] count h hs fill = absurd fill
cut-join c (d ∷ s) [] count h hs fill =
    cut-plain c (d ∷ s) count h ∙ ap (λ n. (d ∷ s, n)) (omega arith)
cut-join c [] (t ∷ ts) count h hs fill =
    cut-delim c (join c t ts) count (join 0 t ts, count + 1 + length ts) (filled-join c t ts fill)
      (cut-join c t ts (count + 1) hs.0 hs.1 fill)
    ∙ ap (λ n. (0 ∷ join 0 t ts, n)) (omega arith)
cut-join c (d ∷ s) (t ∷ ts) count h hs fill =
    cut-other c d (s ++ (c ∷ join c t ts)) count (s ++ (0 ∷ join 0 t ts), count + length (t ∷ ts))
      (ground (arith, h.0)) (cut-join c s (t ∷ ts) count h.1 hs fill)

-- The parts but for those that are ".".
abbrev pub keep : Bool → Bytes → List Bytes → List Bytes
keep true part parts = parts
keep false part parts = part ∷ parts

abbrev pub undotted : List Bytes → List Bytes
undotted [] = []
undotted (part ∷ parts) = keep (str_same part (byte b'.')) part (undotted parts)

abbrev pub IsForward : Bytes → Type 0
IsForward part = same_dots part ≡ false

-- The parts, one after the other.
unfoldable pub enter_parts : List Bytes → Walk → Run Walk
enter_parts [] w = ok w
enter_parts (part ∷ parts) w = enter_part part w >>= enter_parts parts

pub walk-join :
    (text : Bytes) (p : ℕ) (pre s : Bytes) (ss : List Bytes) (w : Walk)
    → text ≡ pre ++ join 0 s ss
    → p ≡ length pre
    → Lacks 0 s
    → All (Lacks 0) ss
    → walk (suc (length ss)) text p w ≡ enter_parts (s ∷ ss) w
unfolding walk enter_parts join
walk-join text p pre s [] w e place h hs =
    let within : ltb (length text) p ≡ false = rw e (ground (arith, length-append pre s, place)) in
    let part : first_string (drop p text) ≡ s =
      ap first_string (ap (drop p) e ∙ drop-append p pre s place) ∙ first_string-end s h in
    rw (within, part, walk) refl
walk-join text p pre s (t ∷ ts) w e place h hs =
    let within : ltb (length text) p ≡ false =
      rw e (ground (arith, length-append pre (s ++ (0 ∷ join 0 t ts)), place)) in
    let part : first_string (drop p text) ≡ s =
      ap first_string (ap (drop p) e ∙ drop-append p pre (s ++ (0 ∷ join 0 t ts)) place)
      ∙ first_string-append s (join 0 t ts) h in
    rw (within, walk)
      (ap (λ u. enter_part u w >>= λ a. walk (suc (length ts)) text (p + length u + 1) a) part
        ∙ bind-cong (enter_part s w) (λ a. walk (suc (length ts)) text (p + length s + 1) a)
            (enter_parts (t ∷ ts))
            (λ a.
              walk-join text (p + length s + 1) (pre ++ (s ++ byte 0)) t ts a
                (e ∙ simp append_assoc)
                (omega (arith, length-append pre (s ++ byte 0), length-append s (byte 0), place))
                hs.0 hs.1))

abbrev pub last_prev : Bytes → List Bytes → Bytes
last_prev prev [] = prev
last_prev prev (part ∷ parts) = last_prev part parts

length-keep :
    (dot : Bool) (part : Bytes) (parts : List Bytes)
    → length (print_parts parts) ≤ length (print_parts (keep dot part parts))
length-keep true part parts = omega arith
length-keep false part parts = omega (arith, length-append part (print_parts parts))

pub enter_parts-forward :
    (parts stack : List Bytes) (total : ℕ) (prev : Bytes)
    → All IsForward parts
    → total + length (print_parts (undotted parts)) < 2 ^ 64
    → enter_parts parts (record { stack = level stack; total = total; prev = prev })
      ≡ ok (record {
        stack = level (reverse_aux (undotted parts) stack);
        total = total + length (print_parts (undotted parts));
        prev = last_prev prev parts;
      })
unfolding enter_parts enter_part
enter_parts-forward [] stack total prev h small =
    ap (λ n. ok (record { stack = level stack; total = n; prev = prev })) (omega arith)
enter_parts-forward (part ∷ parts) stack total prev h small =
    elim (Bool-cases (str_same part (byte b'.'))) [
      | inl dot ↦
          let kept : undotted (part ∷ parts) ≡ undotted parts =
            ap (λ b. keep b part (undotted parts)) dot in
          rw (h.0, dot, enter_part)
            (enter_parts-forward parts stack total part h.1
              (omega (arith, small, ap (λ u. length (print_parts u)) kept)))
      | inr name ↦
          let kept : undotted (part ∷ parts) ≡ part ∷ undotted parts =
            ap (λ b. keep b part (undotted parts)) name in
          let sum : length (print_parts (undotted (part ∷ parts)))
              ≡ suc (length part + length (print_parts (undotted parts))) =
            ap (λ u. length (print_parts u)) kept
            ∙ ap suc (length-append part (print_parts (undotted parts))) in
          let fits : (total + (length part + 1)) % 2 ^ 64 ≡ total + (length part + 1) =
            omega (arith, sum, small) in
          rw (h.0, name, enter_part, fits)
            (enter_parts-forward parts (part ∷ stack) (total + (length part + 1)) part h.1
                (omega (arith, sum, small))
              ∙ ap
                  (λ n. ok (record {
                    stack = level (reverse_aux (undotted parts) (part ∷ stack));
                    total = n;
                    prev = last_prev part parts;
                  }))
                  (omega (arith, length-append part (print_parts (undotted parts)))))
    ]

pub length-undotted :
    (parts : List Bytes) → length (print_parts (undotted parts)) ≤ length (print_parts parts)
length-undotted [] = omega arith
length-undotted (part ∷ parts) = elim (Bool-cases (str_same part (byte b'.'))) [
  | inl dot ↦ rw dot (omega (arith, length-undotted parts, length-append part (print_parts parts)))
  | inr name ↦ rw name (
      omega (
        arith,
        length-undotted parts,
        length-append part (print_parts parts),
        length-append part (print_parts (undotted parts)),
      ))
]
