-- ===== src/Http/Scan/Bounds.antt =====
-- The scanning loops stop inside the bytes that they walk, or leave the buffer: they never go on
-- for ever.
use ryze.Base.{
  ℕ, zero, suc, ◌+◌, ◌≤◌, ◌<◌, Bool, not, ◌&&◌, ◌==◌, Bool-cases, inl, inr, [], ◌∷◌, Option, none,
  some, length, get_elem?, ok, fault, Ensures, Ensures-bind, Ensures-mono, arith,
}
use ryze.Http.Chars.{Bytes, cr, lf, is_token_char, is_blank, read}
use ryze.Http.Scan.{find_colon, find_crlf, find_after_cr, skip_blanks, trim_blanks}

abbrev Within : ℕ → Bytes → ℕ → Type 0
Within t s q = (t ≤ q) × (q < t + length s)

pub find_colon-Ensures :
    (s : Bytes) (t : ℕ) (tok : Bool)
    → Ensures (λ r. (t ≤ r.0) × (r.0 < t + length s)) (find_colon s t tok)
unfolding find_colon
find_colon-Ensures [] t tok = tt
find_colon-Ensures (c ∷ s) t tok = elim (Bool-cases (not (is_token_char c) && c == b':')) [
  | inl stop ↦ rw stop (omega arith)
  | inr on ↦ rw on (
      Ensures-mono _ _ (find_colon s (t + 1) (tok && is_token_char c))
        (find_colon-Ensures s (t + 1) (tok && is_token_char c)) (λ a h. omega arith))
]

mutual
  unfolding find_crlf

  pub find_crlf-Ensures :
      (e : ℕ) (s : Bytes) (t : ℕ)
      → Ensures (λ q. (t + 1 ≤ q) × (q < t + length s)) (find_crlf e s t)
  find_crlf-Ensures e [] t = tt
  find_crlf-Ensures e (c ∷ s) t = elim (Bool-cases (c == cr)) [
    | inl hit ↦ rw hit (
        Ensures-mono _ _ (find_after_cr e s (t + 1)) (find_after_cr-Ensures e s (t + 1))
          (λ a h. omega arith))
    | inr miss ↦ rw miss (
        Ensures-mono _ _ (find_crlf e s (t + 1)) (find_crlf-Ensures e s (t + 1))
          (λ a h. omega arith))
  ]

  pub find_after_cr-Ensures :
      (e : ℕ) (s : Bytes) (t : ℕ)
      → Ensures (λ q. (t ≤ q) × (q < t + length s)) (find_after_cr e s t)
  find_after_cr-Ensures e [] t = tt
  find_after_cr-Ensures e (d ∷ s) t = elim (Bool-cases (not (t == e) && d == lf)) [
    | inl hit ↦ rw hit (omega arith)
    | inr skip ↦ rw skip (
        Ensures-mono _ _ (find_crlf e s (t + 1)) (find_crlf-Ensures e s (t + 1))
          (λ a h. omega arith))
  ]

pub skip_blanks-Ensures :
    (s : Bytes) (t : ℕ) → Ensures (λ q. (t ≤ q) × (q < t + length s)) (skip_blanks s t)
unfolding skip_blanks
skip_blanks-Ensures [] t = tt
skip_blanks-Ensures (c ∷ s) t = elim (Bool-cases (is_blank c)) [
  | inl blank ↦ rw blank (
      Ensures-mono _ _ (skip_blanks s (t + 1)) (skip_blanks-Ensures s (t + 1)) (λ a h. omega arith))
  | inr plain ↦ rw plain (omega arith)
]

pub read-Ensures : (mem : Bytes) (p : ℕ) → Ensures (λ _. Unit {0}) (read mem p)
unfolding read
read-Ensures mem p = read_option (get_elem? mem p)
  where
    read_option : (o : Option ℕ) → Ensures (λ _. Unit {0}) (elim o [ none ↦ fault | some c ↦ ok c ])
    read_option none = tt
    read_option (some c) = tt

pub trim_blanks-Ensures : (mem : Bytes) (t : ℕ) → Ensures (λ _. Unit {0}) (trim_blanks mem t)
unfolding trim_blanks
trim_blanks-Ensures mem zero =
    Ensures-bind _ _ (read mem zero) _ (read-Ensures mem zero)
      λ c h. elim (Bool-cases (is_blank c)) [ inl blank ↦ rw blank tt | inr plain ↦ rw plain tt ]
trim_blanks-Ensures mem (suc t) =
    let before = trim_blanks-Ensures mem t in
    Ensures-bind _ _ (read mem (suc t)) _ (read-Ensures mem (suc t)) λ c h.
      elim (Bool-cases (is_blank c)) [ inl blank ↦ rw blank before | inr plain ↦ rw plain tt ]
