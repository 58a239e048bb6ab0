-- ===== src/Util/Normalize/Walk.antt =====
-- The walk of `normalize_path` of src/util/test.c over the parts, against a reading from the right.
use mathlib.Core.List.{append_assoc}
use ryze.Base.{
  ℕ, zero, suc, ◌+◌, ◌≤◌, ◌<◌, true, false, ◌==◌, ltb, ◌≡◌, refl, ap, ◌∙◌, List, [], ◌∷◌, ◌++◌, All,
  length, drop, length-append, drop-append, Run, ok, ◌>>=◌, bind-cong, arith,
}
use ryze.Http.Chars.{Bytes}
use ryze.Util.Strings.{Lacks, byte}
use ryze.Util.Split.{join, last_part}
use ryze.Util.Normalize.{Stack, enter_part, first_string, walk}

pub first_string-end : (s : Bytes) → Lacks 0 s → first_string s ≡ s
first_string-end [] h = refl
first_string-end (c ∷ s) h = ground (arith, first_string-end s h.1, h.0)

pub first_string-append : (s t : Bytes) → Lacks 0 s → first_string (s ++ (0 ∷ t)) ≡ s
first_string-append [] t h = refl
first_string-append (c ∷ s) t h = ground (arith, first_string-append s t h.1, h.0)

last_part-past : (p : ℕ) (s : Bytes) (ss : List Bytes) → p ≤ last_part p s ss
last_part-past p s [] = omega arith
last_part-past p s (t ∷ ts) = omega (arith, last_part-past (p + length s + 1) t ts)

-- The parts, one after the other.
unfoldable pub enter_parts : List Bytes → Stack → Run Stack
enter_parts [] stack = ok stack
enter_parts (part ∷ parts) stack = enter_part part stack >>= enter_parts parts

-- The walk enters each part, and its rounds are enough.
pub walk-join :
    (n : ℕ) (text : Bytes) (p : ℕ) (pre s : Bytes) (ss : List Bytes) (stack : Stack)
    → text ≡ pre ++ join 0 s ss
    → p ≡ length pre
    → Lacks 0 s
    → All (Lacks 0) ss
    → length ss < n
    → walk n text (last_part p s ss) p stack ≡ enter_parts (s ∷ ss) stack
unfolding walk enter_parts join
walk-join zero text p pre s ss stack e place h hs fuel = absurd (omega arith)
walk-join (suc n) text p pre s [] stack e place h hs fuel =
    let within : ltb (length text) p ≡ false = rw e (ground (arith, length-append pre s, place)) in
    let here : (p == p) ≡ true = ground arith in
    let dropped : drop p text ≡ s = rw e (drop-append p pre s place) in
    rw (within, dropped, first_string-end s h, here, walk) refl
walk-join (suc n) text p pre s (t ∷ ts) stack e place h hs fuel =
    let within : ltb (length text) p ≡ false =
      rw e (ground (arith, length-append pre (s ++ (0 ∷ join 0 t ts)), place)) in
    let later : (p == last_part (p + length s + 1) t ts) ≡ false =
      ground (arith, last_part-past (p + length s + 1) t ts) in
    let part : first_string (drop p text) ≡ s =
      ap first_string (ap (drop p) e ∙ drop-append p pre (s ++ (0 ∷ join 0 t ts)) place)
      ∙ first_string-append s (join 0 t ts) h in
    rw (within, part, later, walk)
      (bind-cong (enter_part s stack)
        (λ a.
          walk n text (last_part (p + length s + 1) t ts)
            (p + length (first_string (drop p text)) + 1) a)
        (enter_parts (t ∷ ts))
        (λ a.
          ap (λ u. walk n text (last_part (p + length s + 1) t ts) (p + length u + 1) a) part
          ∙ walk-join n text (p + length s + 1) (pre ++ (s ++ byte 0)) t ts a
              (e ∙ simp append_assoc)
              (omega (arith, length-append pre (s ++ byte 0), length-append s (byte 0), place)) hs.0
              hs.1 (omega arith)))
