-- ===== src/Http/Scan/Laws.antt =====
-- What the scanning loops do with a run of bytes that does not stop them, for any bytes behind it.
use ryze.Base.{
  ℕ, zero, suc, ◌+◌, ◌≤◌, ◌<◌, ◌≡◌, ◌≢◌, refl, ap, ◌∙◌, true, false, List, [], ◌∷◌, ◌++◌, some,
  length, get_elem?, get_elem?_of_drop, drop, drop-add, All, ok, arith,
}
use ryze.Http.Chars.{Bytes, cr, lf, is_token_char, is_blank, read}
use ryze.Http.Scan.{scan_spaces, scan_crlf, find_colon, find_crlf, skip_blanks, trim_blanks}

-- The byte `x` does not occur.
abbrev pub Without : ℕ → Bytes → Type 0
Without x m = All (λ c. c ≢ x) m

abbrev pub IsToken : Bytes → Type 0
IsToken m = All (λ c. is_token_char c ≡ true) m

pub scan_spaces-skip :
    (e : ℕ) (m s : Bytes) (p q : ℕ) (pos : List ℕ)
    → Without b' ' m
    → q ≡ p + length m
    → q ≤ e
    → scan_spaces e (m ++ s) p pos ≡ scan_spaces e s q pos
unfolding scan_spaces
scan_spaces-skip e [] s p q pos w eq le = let same : p ≡ q = omega arith in rw same
scan_spaces-skip e (c ∷ m) s p q pos (ne, w) eq le =
    ground (arith, scan_spaces-skip e m s (p + 1) q pos w)

pub scan_crlf-skip :
    (e : ℕ) (m s : Bytes) (p q : ℕ)
    → Without cr m
    → q ≡ p + length m
    → q ≤ e
    → scan_crlf e (m ++ s) p ≡ scan_crlf e s q
unfolding scan_crlf
scan_crlf-skip e [] s p q w eq le = let same : p ≡ q = omega arith in rw same
scan_crlf-skip e (c ∷ m) s p q (ne, w) eq le = ground (arith, scan_crlf-skip e m s (p + 1) q w)

pub scan_crlf-hit :
    (e : ℕ) (s : Bytes) (p : ℕ) → p + 1 < e → scan_crlf e (cr ∷ lf ∷ s) p ≡ ok (some (p + 1))
unfolding scan_crlf
scan_crlf-hit e s p lt = ground arith

pub find_colon-skip :
    (m s : Bytes) (p q : ℕ)
    → IsToken m
    → q ≡ p + length m
    → find_colon (m ++ b':' ∷ s) p true ≡ ok (q, true)
unfolding find_colon is_token_char
find_colon-skip [] s p q w eq = let same : p ≡ q = omega arith in rw same
find_colon-skip (c ∷ m) s p q (t, w) eq = rw t (find_colon-skip m s (p + 1) q w (omega arith))

pub find_crlf-skip :
    (e : ℕ) (m s : Bytes) (p q : ℕ)
    → Without cr m
    → q ≡ p + length m
    → find_crlf e (m ++ s) p ≡ find_crlf e s q
unfolding find_crlf
find_crlf-skip e [] s p q w eq = let same : p ≡ q = omega arith in rw same
find_crlf-skip e (c ∷ m) s p q (ne, w) eq = ground (arith, find_crlf-skip e m s (p + 1) q w)

pub find_crlf-hit :
    (e : ℕ) (s : Bytes) (p : ℕ) → p + 1 ≢ e → find_crlf e (cr ∷ lf ∷ s) p ≡ ok (p + 1)
unfolding find_crlf
find_crlf-hit e s p ne = ground arith

abbrev pub IsBlanks : Bytes → Type 0
IsBlanks m = All (λ c. is_blank c ≡ true) m

pub skip_blanks-skip :
    (m : Bytes) (c : ℕ) (s : Bytes) (p q : ℕ)
    → IsBlanks m
    → is_blank c ≡ false
    → q ≡ p + length m
    → skip_blanks (m ++ c ∷ s) p ≡ ok q
unfolding skip_blanks
skip_blanks-skip [] c s p q w plain eq = rw plain (ap ok (omega arith))
skip_blanks-skip (b ∷ m) c s p q (blank, w) plain eq =
    rw blank (skip_blanks-skip m c s (p + 1) q w plain (omega arith))

pub trim_blanks-stop :
    (mem : Bytes) (t c : ℕ)
    → get_elem? mem t ≡ some c
    → is_blank c ≡ false
    → trim_blanks mem t ≡ ok t
unfolding trim_blanks
trim_blanks-stop mem zero c at plain = ground arith
trim_blanks-stop mem (suc t) c at plain = ground arith

trim_blanks-step :
    (mem : Bytes) (t t' c : ℕ)
    → t' ≡ t + 1
    → get_elem? mem t' ≡ some c
    → is_blank c ≡ true
    → trim_blanks mem t' ≡ trim_blanks mem t
unfolding trim_blanks
trim_blanks-step mem t zero c eq at blank = absurd (omega arith)
trim_blanks-step mem t (suc t') c eq at blank =
    let same : t' ≡ t = omega arith in rw (← same) (ground arith)

-- Back over the blanks `m` that stand behind the byte at `l`.
pub trim_blanks-skip :
    (mem m s : Bytes) (l t : ℕ)
    → drop (l + 1) mem ≡ m ++ s
    → IsBlanks m
    → t ≡ l + length m
    → trim_blanks mem t ≡ trim_blanks mem l
trim_blanks-skip mem [] s l t d w eq = let same : t ≡ l = omega arith in rw same
trim_blanks-skip mem (b ∷ m) s l t d (blank, w) eq =
    trim_blanks-skip mem m s (l + 1) t (drop-add (l + 1) (l + 1 + 1) mem (b ∷ []) d refl) w
      (omega arith)
    ∙ trim_blanks-step mem l (l + 1) b refl (get_elem?_of_drop (l + 1) mem d) blank

token-ne : (c x : ℕ) → is_token_char c ≡ true → is_token_char x ≡ false → c ≢ x
token-ne c x t f e = cc (rw e at t)

unblank : (c : ℕ) → c ≢ b' ' → c ≢ b'\t' → is_blank c ≡ false
unblank c n m = ground arith

pub token-not_blank : (c : ℕ) → is_token_char c ≡ true → is_blank c ≡ false
unfolding is_token_char
token-not_blank c t = unblank c (token-ne c b' ' t refl) (token-ne c b'\t' t refl)

pub token-ne-cr : (c : ℕ) → is_token_char c ≡ true → c ≢ cr
unfolding is_token_char
token-ne-cr c t = token-ne c cr t refl

pub IsBlanks-Without : (m : Bytes) → IsBlanks m → Without cr m
IsBlanks-Without [] w = tt
IsBlanks-Without (c ∷ m) (b, w) = (ground arith, IsBlanks-Without m w)

pub read-ok : (mem : Bytes) (p c : ℕ) (s : Bytes) → drop p mem ≡ c ∷ s → read mem p ≡ ok c
unfolding read
read-ok mem p c s d = ground (arith, get_elem?_of_drop p mem d)
