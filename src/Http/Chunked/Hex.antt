-- ===== src/Http/Chunked/Hex.antt =====
-- What `str_parse_hex` of server/http_parser.c computes.
use native.Mathlib.Numerals.{towards_suc}
use mathlib.Core.List.{reverse, reverse-append, map}
use ryze.Base.{
  ℕ, zero, suc, ◌+◌, ◌*◌, ◌%◌, ◌^◌, ◌≤◌, ◌<◌, ◌≡◌, refl, List, [], ◌∷◌, ◌++◌, some, length, ok,
  arith, ap, ◌∙◌,
}
use ryze.Http.Chars.{Bytes}
use ryze.Http.Header.{size_mod}
use ryze.Http.Chunked.{hex_digit, parse_digits, str_parse_hex}

-- The number that digits stand for, the first one being the highest: the meaning of a chunk size.
abbrev pub high_value : ℕ → List ℕ → ℕ
high_value acc [] = acc
high_value acc (d ∷ ds) = high_value (acc * 16 + d) ds

-- The same with the first digit being the lowest.
abbrev pub low_value : List ℕ → ℕ
low_value [] = 0
low_value (d ∷ ds) = d + 16 * low_value ds

high_value-append :
    (ds : List ℕ) (acc d : ℕ) → high_value acc (ds ++ (d ∷ [])) ≡ high_value acc ds * 16 + d
high_value-append [] acc d = refl
high_value-append (x ∷ ds) acc d = high_value-append ds (acc * 16 + x) d

pub high_value-reverse : (ds : List ℕ) → high_value 0 (reverse ds) ≡ low_value ds
high_value-reverse [] = refl
high_value-reverse (d ∷ ds) =
    ap (high_value 0) (reverse-append (d ∷ []) ds)
    ∙ high_value-append (reverse ds) 0 d
    ∙ omega (arith, high_value-reverse ds)

hex_digit-lt : (c : ℕ) {n : ℕ} → hex_digit c ≡ some n → n < 16
unfolding hex_digit
hex_digit-lt c h = ground arith

pub pow-four : (b : ℕ) → 2 ^ (b + 4) ≡ 16 * 2 ^ b
pow-four b = simp towards_suc (omega arith)

abbrev sixteens : ℕ → ℕ
sixteens zero = 1
sixteens (suc k) = 16 * sixteens k

sixteens_pos : (k : ℕ) → 1 ≤ sixteens k
sixteens_pos zero = omega arith
sixteens_pos (suc k) = omega (arith, sixteens_pos k)

sixteens_mono : (j k : ℕ) → k ≤ j → sixteens k ≤ sixteens j
sixteens_mono j zero h = sixteens_pos j
sixteens_mono zero (suc k) h = absurd (omega arith)
sixteens_mono (suc j) (suc k) h = omega (arith, sixteens_mono j k)

scaled : (w d : ℕ) → d < 16 → d * w ≤ 15 * w
scaled w d h = grind arith

unscaled : (w c : ℕ) → 1 ≤ c → w * (16 * c) ≤ 2 ^ 28 → 16 * w ≤ 2 ^ 28
unscaled w c h k = let m : w * 16 * 1 ≤ w * 16 * c = grind arith in omega arith

-- One digit more: its shifted value and the new result are in range.
digit_fits :
    (w d c result : ℕ)
    → d < 16
    → 1 ≤ c
    → w * (16 * c) ≤ 2 ^ 28
    → result < w
    → (d * w < 2 ^ 31) × (result + d * w < 16 * w) × (16 * w ≤ 2 ^ 28)
digit_fits w d c result small pos fits lt =
    let room : 16 * w ≤ 2 ^ 28 = unscaled w c pos fits in
    let shifted : d * w ≤ 15 * w = scaled w d small in (omega arith, omega arith, room)

parse_digits-cons :
    (c d : ℕ) (s : Bytes) (base result : ℕ)
    → hex_digit c ≡ some d
    → base < 32
    → d * 2 ^ base < 2 ^ 31
    → parse_digits (c ∷ s) base result
      ≡ parse_digits s (base + 4) ((result + d * 2 ^ base) % size_mod)
unfolding parse_digits
parse_digits-cons c d s base result digit low fits = ground arith

parse_digits-low :
    (s ds : List ℕ) (base result : ℕ)
    → map hex_digit s ≡ map some ds
    → base + 4 * length s ≤ 28
    → 2 ^ base * sixteens (length s) ≤ 2 ^ 28
    → result < 2 ^ base
    → parse_digits s base result ≡ ok (some (result + 2 ^ base * low_value ds))
unfolding parse_digits
parse_digits-low [] [] base result h few small lt = ap (λ n. ok (some n)) (omega arith)
parse_digits-low [] (d ∷ ds) base result h few small lt = cc
parse_digits-low (c ∷ s) [] base result h few small lt = cc
parse_digits-low (c ∷ s) (d ∷ ds) base result h few small lt =
    let digit : hex_digit c ≡ some d = cc in
    let w : ℕ = 2 ^ base in
    let (shift, sum, room) =
      digit_fits w d (sixteens (length s)) result (hex_digit-lt c digit) (sixteens_pos (length s))
        small lt in
    let whole : (result + d * w) % size_mod ≡ result + d * w = omega arith in
    let next : 2 ^ (base + 4) ≡ 16 * w = pow-four base in
    let times = λ (x : ℕ). ap (λ (t : ℕ). t * x) next in
    let room' : 2 ^ (base + 4) * sixteens (length s) ≤ 2 ^ 28 =
      omega (arith, times (sixteens (length s))) in
    let value : result + d * w + 2 ^ (base + 4) * low_value ds ≡ result + w * low_value (d ∷ ds) =
      omega (arith, times (low_value ds)) in
    parse_digits-cons c d s base result digit (omega arith) shift
    ∙ ap (parse_digits s (base + 4)) whole
    ∙ parse_digits-low s ds (base + 4) (result + d * w) (cc) (omega arith) room' (omega arith)
    ∙ ap (λ n. ok (some n)) value

-- A text of at most seven hexadecimal digits is read from its wrong end: the result is the number
-- that the reversed digits stand for.
pub str_parse_hex-reverse :
    (s ds : List ℕ)
    → map hex_digit s ≡ map some ds
    → length s ≤ 7
    → str_parse_hex s ≡ ok (some (high_value 0 (reverse ds)))
unfolding str_parse_hex
str_parse_hex-reverse s ds h few =
    parse_digits-low s ds 0 0 h (omega arith) (omega (arith, sixteens_mono 7 (length s)))
      (omega arith)
    ∙ ap (λ n. ok (some n)) (omega (arith, high_value-reverse ds))
