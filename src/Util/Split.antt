-- ===== src/Util/Split.antt =====
-- `str_split` of src/util/test.c, which cuts a text at each place of `delim`.
use mathlib.Core.List.{append_assoc}
use ryze.Base.{
  ℕ, zero, suc, ◌+◌, ◌≤◌, ◌<◌, ◌≡◌, refl, sym, ap, ◌∙◌, none, some, List, [], ◌∷◌, ◌++◌, All,
  length, take, drop, length-append, drop-append, take-append, Run, ok, out_of_fuel, ◌>>=◌, arith,
}
use ryze.Http.Chars.{Bytes}
use ryze.Util.Strings.{strstr, byte, Lacks, strstr-first, strstr-none}

-- The loop, for the text from `index` on: the text with a NUL at each place found, and `last`. The
-- rest of a longer `delim` stays behind the NUL.
unfoldable split_loop : ℕ → (delim text : Bytes) → (index last : ℕ) → Run (Bytes × ℕ)
unfolding strstr
split_loop zero delim text index last = out_of_fuel
split_loop (suc n) delim text index last = elim (strstr delim text) [
  | none ↦ ok (text, last)
  | some i ↦ do
    let next = index + i + length delim
    rest ← split_loop n delim (drop (i + length delim) text) next next
    ok (take i text ++ (0 ∷ drop 1 delim ++ rest.0), rest.1)
]

unfoldable pub str_split : (text delim : Bytes) → Run (Bytes × ℕ)
unfolding split_loop
str_split text delim = split_loop (suc (length text)) delim text 0 0

-- The text with the parts `s` and those of `ss`, and `c` between two of them.
unfoldable pub join : ℕ → Bytes → List Bytes → Bytes
join c s [] = s
join c s (t ∷ ts) = s ++ (c ∷ join c t ts)

-- Where the last part stands, for parts that begin at `index`.
abbrev pub last_part : ℕ → Bytes → List Bytes → ℕ
last_part index s [] = index
last_part index s (t ∷ ts) = last_part (index + length s + 1) t ts

pub length-join : (c : ℕ) (s : Bytes) (ss : List Bytes) → length ss ≤ length (join c s ss)
unfolding join
length-join c s [] = omega arith
length-join c s (t ∷ ts) = omega (arith, length-append s (c ∷ join c t ts), length-join c t ts)

split_loop-join :
    (c : ℕ) (s : Bytes) (ss : List Bytes) (n index : ℕ)
    → Lacks c s
    → All (Lacks c) ss
    → length ss < n
    → split_loop n (byte c) (join c s ss) index index ≡ ok (join 0 s ss, last_part index s ss)
unfolding split_loop join
split_loop-join c s ss zero index h hs fuel = absurd (omega arith)
split_loop-join c s [] (suc n) index h hs fuel = rw (strstr-none c s h, split_loop) refl
split_loop-join c s (t ∷ ts) (suc n) index h hs fuel =
    let rest = split_loop-join c t ts n (index + length s + 1) hs.0 hs.1 (omega arith) in
    let dropped : drop (length s + 1) (s ++ (c ∷ join c t ts)) ≡ join c t ts =
      ap (λ u. drop (length s + 1) u) (sym (append_assoc s (byte c) (join c t ts)))
      ∙ drop-append (length s + 1) (s ++ byte c) (join c t ts) (sym (length-append s (byte c))) in
    rw
      (
        strstr-first c s (join c t ts) h,
        split_loop,
        dropped,
        rest,
        take-append (length s) s (c ∷ join c t ts) refl,
      )
      refl

-- Cutting puts a NUL between the parts and finds the last one, and its rounds are enough.
pub str_split-join :
    (c : ℕ) (s : Bytes) (ss : List Bytes)
    → Lacks c s
    → All (Lacks c) ss
    → str_split (join c s ss) (byte c) ≡ ok (join 0 s ss, last_part 0 s ss)
unfolding str_split
str_split-join c s ss h hs =
    split_loop-join c s ss (suc (length (join c s ss))) 0 h hs (omega (arith, length-join c s ss))

-- The parts, each behind a '/'.
abbrev pub print_parts : List Bytes → Bytes
print_parts [] = []
print_parts (part ∷ parts) = b'/' ∷ part ++ print_parts parts

pub join-append :
    (c : ℕ) (s : Bytes) (ss : List Bytes) (t : Bytes) (ts : List Bytes)
    → join c s ss ++ (c ∷ join c t ts) ≡ join c s (ss ++ (t ∷ ts))
unfolding join
join-append c s [] t ts = refl
join-append c s (u ∷ us) t ts =
    append_assoc s (c ∷ join c u us) (c ∷ join c t ts)
    ∙ ap (λ v. s ++ (c ∷ v)) (join-append c u us t ts)

pub length-print_parts :
    (s : Bytes) (ss : List Bytes) → length (print_parts (s ∷ ss)) ≡ suc (length (join b'/' s ss))
unfolding join
length-print_parts s [] = omega (arith, length-append s [])
length-print_parts s (t ∷ ts) = omega (
  arith,
  length-append s (print_parts (t ∷ ts)),
  length-append s (b'/' ∷ join b'/' t ts),
  length-print_parts t ts,
)
