-- ===== src/Http/Header/Lines.antt =====
-- Header lines as a client writes them, and where the parser finds them.
use ryze.Base.{ℕ, ◌+◌, ◌≡◌, ◌≢◌, refl, false, List, [], ◌∷◌, ◌++◌, length, arith}
use ryze.Http.Header.{HttpHeader}
use ryze.Http.Chars.{Bytes, cr, lf, is_blank}
use ryze.Http.Scan.Laws.{Without, IsToken, IsBlanks, token-not_blank, token-ne-cr}

pub record Field : Type 0 where
  pub name : Bytes
  pub lead : Bytes
  pub value : Bytes
  pub trail : Bytes

-- A token, and a value that is not empty, with no '\r', that neither begins nor ends with a blank.
pub record IsField (f : Field) : Type 0 where
  pub token : IsToken f.name
  pub lead_blank : IsBlanks f.lead
  pub trail_blank : IsBlanks f.trail
  pub plain : Without cr f.value
  pub first : ℕ
  pub others : Bytes
  pub starts : f.value ≡ first ∷ others
  pub first_plain : is_blank first ≡ false
  pub front : Bytes
  pub last : ℕ
  pub ends : f.value ≡ front ++ (last ∷ [])
  pub last_plain : is_blank last ≡ false

-- "name:", the value between blanks, "\r\n", and what follows.
abbrev pub print_field : Field → Bytes → Bytes
print_field f rest = f.name ++ (b':' ∷ (f.lead ++ (f.value ++ (f.trail ++ (cr ∷ lf ∷ rest)))))

abbrev pub print_fields : List Field → Bytes → Bytes
print_fields [] rest = cr ∷ lf ∷ rest
print_fields (f ∷ fs) rest = print_field f (print_fields fs rest)

-- The length of a line, with its "\r\n".
abbrev pub size : Field → ℕ
size f = length f.name + 1 + length f.lead + length f.value + length f.trail + 2

-- The entry for a line that begins at the offset `p`.
abbrev pub header_at : ℕ → Field → HttpHeader
header_at p f = record {
  name = p;
  name_len = length f.name;
  value = p + length f.name + 1 + length f.lead;
  value_len = length f.value;
}

-- A line begins with no blank and no '\r'.
pub print_field-first :
    (f : Field) (rest : Bytes)
    → IsToken f.name
    → (c : ℕ) × (tail : Bytes) × (print_field f rest ≡ c ∷ tail) × (is_blank c ≡ false) × (c ≢ cr)
print_field-first f rest tok = begins f.name _ tok
  where
    begins :
        (name s : Bytes)
        → IsToken name
        → (c : ℕ) × (tail : Bytes) × (name ++ (b':' ∷ s) ≡ c ∷ tail)
          × (is_blank c ≡ false)
          × (c ≢ cr)
    begins [] s tok = (b':', s, refl, refl, omega arith)
    begins (c ∷ cs) s (t, tok) = (c, cs ++ (b':' ∷ s), refl, token-not_blank c t, token-ne-cr c t)
