-- ===== src/Server/Chunked/Sound.antt =====
-- What `http_decode_chunked` of src/http/http_parser.c accepts.
use mathlib.Core.List.{reverse, map}
use ryze.Base.{
  ℕ, ◌+◌, ◌*◌, ◌%◌, ◌^◌, ◌<◌, ◌==◌, ◌≡◌, ◌≢◌, refl, ap, ◌∙◌, some, List, [], ◌∷◌, ◌++◌, take,
  length, Bool-cases, Option-cases, inl, inr, take-append, length-append, bind_inv, ok, arith,
}
use ryze.Http.Chars.{Bytes, cr}
use ryze.Http.Chunked.{hex_digit}
use ryze.Http.Chunked.Hex.{high_value, low_value, high_value-reverse, pow-four}
use ryze.Server.Chunked.{add_digits, find_cr, decode_size, http_decode_chunked}

regroup : (w d l r : ℕ) → r + d * w + 16 * w * l ≡ r + w * (d + 16 * l)
regroup w d l r = grind arith

add_digits_inv :
    (s : Bytes) (base result n : ℕ)
    → add_digits s base result ≡ ok (some n)
    → (vs : List ℕ) × (map hex_digit s ≡ map some vs) × (n ≡ result + 2 ^ base * low_value vs)
unfolding add_digits
add_digits_inv [] base result n e = ([], refl, ground (arith, e))
add_digits_inv (c ∷ s) base result n e = elim (Option-cases (hex_digit c)) [
  | inl none_at ↦ absurd (ground (arith, e, none_at))
  | inr (d, at) ↦
      let later : add_digits s (base + 4) (result + d * 2 ^ base) ≡ ok (some n) =
        ground (arith, e, at) in
      let (vs, same, sum) = add_digits_inv s (base + 4) (result + d * 2 ^ base) n later in
      (
        d ∷ vs,
        rw (at, same) refl,
        sum
            ∙ ap (λ w. result + d * 2 ^ base + w * low_value vs) (pow-four base)
            ∙ regroup (2 ^ base) d (low_value vs) result,
      )
]

find_cr_inv :
    (e : ℕ) (s : Bytes) (p q : ℕ)
    → find_cr e s p ≡ ok (some q)
    → (pre rest : Bytes) × (s ≡ pre ++ (cr ∷ rest)) × (q ≡ p + length pre)
unfolding find_cr
find_cr_inv e [] p q h = absurd (ground (arith, h))
find_cr_inv e (c ∷ s) p q h = elim (Bool-cases (c == cr)) [
  | inl hit ↦ ([], s, ground (arith, h, hit), ground (arith, h, hit))
  | inr other ↦
      let later : find_cr e s (p + 1) ≡ ok (some q) = ground (arith, h, other) in
      let (pre, rest, same, at) = find_cr_inv e s (p + 1) q later in
      (c ∷ pre, rest, ap (◌∷◌ c) same, omega (arith, at))
]

decode_size_inv :
    (mem : Bytes) (p n offset : ℕ)
    → p < 2 ^ 31
    → decode_size mem p ≡ ok (some (n, offset))
    → (add_digits (take p mem) 0 0 ≡ ok (some n)) × (n ≢ 0) × (offset ≡ p + 2)
unfolding decode_size
decode_size_inv mem p n offset small h =
    let same : p % 2 ^ 32 ≡ p = omega arith in ground (arith, same, h)

-- Hexadecimal digits and a '\r' stand at the begin of the data; `n` is the number of the digits in
-- reverse order.
pub record Decodes (mem : Bytes) (n offset : ℕ) : Type 0 where
  pub digits : Bytes
  pub rest : Bytes
  pub values : List ℕ
  pub begins : mem ≡ digits ++ (cr ∷ rest)
  pub are_digits : map hex_digit digits ≡ map some values
  pub size : n ≡ high_value 0 (reverse values)
  pub not_last : n ≢ 0
  pub behind : offset ≡ length digits + 2

found-Decodes :
    (mem : Bytes) (data_len n offset p : ℕ)
    → length mem < 2 ^ 31
    → find_cr data_len mem 0 ≡ ok (some p)
    → decode_size mem p ≡ ok (some (n, offset))
    → Decodes mem n offset
found-Decodes mem data_len n offset p small found h =
    let (ds, rest, same, at) = find_cr_inv data_len mem 0 p found in
    let short : p < 2 ^ 31 =
      omega (arith, at, small, ap length same, length-append ds (cr ∷ rest)) in
    let (added, not_last, off) = decode_size_inv mem p n offset short h in
    let before : take p mem ≡ ds =
      ap (take p) same ∙ take-append p ds (cr ∷ rest) (omega (arith, at)) in
    let (vs, are_digits, sum) = add_digits_inv ds 0 0 n (rw before at added) in
    record {
      digits = ds;
      rest = rest;
      values = vs;
      begins = same;
      are_digits = are_digits;
      size = omega (arith, sum, high_value-reverse vs);
      not_last = not_last;
      behind = omega (arith, off, at);
    }

-- A chunk size is accepted only where one or more hexadecimal digits stand at the begin of the data
-- and a '\r' behind them, so never with an extension: the size is then not 0 and is the number that
-- the digits stand for in reverse order, and the offset points behind the byte that follows the
-- '\r'. The data are shorter than 2 ^ 31.
pub http_decode_chunked-Decodes :
    (mem : Bytes) (data_len n offset : ℕ)
    → length mem < 2 ^ 31
    → http_decode_chunked mem data_len ≡ ok (some (n, offset))
    → Decodes mem n offset
unfolding http_decode_chunked
http_decode_chunked-Decodes mem data_len n offset small h =
    let (end, found, e) = bind_inv (find_cr data_len mem 0) _ h in
    elim (Option-cases end) [
      | inl none_at ↦ absurd (ground (arith, none_at, e))
      | inr (p, at) ↦
          found-Decodes mem data_len n offset p small (rw at at found) (ground (arith, at, e))
    ]
