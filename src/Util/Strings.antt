-- ===== src/Util/Strings.antt =====
-- What src/util calls of the C library on strings. A string is its bytes without the NUL behind
-- them, and `malloc` is taken to succeed.
use ryze.Base.{
  ℕ, suc, ◌+◌, ◌-◌, ◌*◌, ◌%◌, ◌^◌, Bool, true, false, ◌&&◌, ◌||◌, ◌==◌, ltb, leb, if◌then◌else◌,
  ◌≡◌, refl, Option, none, some, [], ◌∷◌, ◌++◌, All, length, Run, ok, fault, arith,
}
use ryze.Http.Chars.{Bytes}

-- strstr(text, prefix) == text
unfoldable pub starts_with : Bytes → Bytes → Bool
starts_with [] path = true
starts_with (c ∷ prefix) [] = false
starts_with (c ∷ prefix) (d ∷ path) =
    let rest = starts_with prefix path in if c == d then rest else false

abbrev pub shift : Option ℕ → Option ℕ
shift none = none
shift (some i) = some (suc i)

-- strstr(text, part) - text, or `none` for NULL; `part` is not empty.
unfoldable pub strstr : Bytes → Bytes → Option ℕ
unfolding starts_with
strstr part [] = none
strstr part (c ∷ text) =
    let rest = shift (strstr part text) in if starts_with part (c ∷ text) then some 0 else rest

abbrev is_space : ℕ → Bool
is_space c = c == b' ' || leb 9 c && leb c 13

abbrev pub is_digit : ℕ → Bool
is_digit c = leb b'0' c && leb c b'9'

-- The digits at the begin of a text, as a number behind the digits of `acc`.
unfoldable pub digits_value : ℕ → Bytes → ℕ
digits_value acc [] = acc
digits_value acc (c ∷ s) =
    let rest = digits_value (acc * 10 + (c - b'0')) s in if is_digit c then rest else acc

abbrev signed : Bytes → Bool × Bytes
signed [] = (false, [])
signed (c ∷ s) = if c == b'-' then (true, s) else if c == b'+' then (false, s) else (false, c ∷ s)

unfoldable pub skip_spaces : Bytes → Bytes
skip_spaces [] = []
skip_spaces (c ∷ s) = let rest = skip_spaces s in if is_space c then rest else c ∷ s

-- atoi(text); -n is 2 ^ 32 - n, and a number out of the range of an `int` is undefined.
unfoldable pub atoi : Bytes → Run ℕ
unfolding digits_value skip_spaces
atoi s =
    let (negative, rest) = signed (skip_spaces s) in
    let n = digits_value 0 rest in
    if negative
    then if leb n (2 ^ 31) then ok ((2 ^ 32 - n) % 2 ^ 32) else fault
    else if ltb n (2 ^ 31)
    then ok n
    else fault

-- A byte that a text does not hold.
abbrev pub Lacks : ℕ → Bytes → Type 0
Lacks c s = All (λ d. (c == d) ≡ false) s

abbrev pub byte : ℕ → Bytes
byte c = c ∷ []

pub strstr-first :
    (c : ℕ) (a b : Bytes) → Lacks c a → strstr (byte c) (a ++ (c ∷ b)) ≡ some (length a)
unfolding strstr
strstr-first c [] b h = ground arith
strstr-first c (d ∷ a) b h = ground (arith, strstr-first c a b h.1, h.0)

pub strstr-none : (c : ℕ) (a : Bytes) → Lacks c a → strstr (byte c) a ≡ none
unfolding strstr
strstr-none c [] h = refl
strstr-none c (d ∷ a) h = ground (arith, strstr-none c a h.1, h.0)

pub Lacks-append : (c : ℕ) (a b : Bytes) → Lacks c a → Lacks c b → Lacks c (a ++ b)
Lacks-append c [] b ha hb = hb
Lacks-append c (d ∷ a) b ha hb = (ha.0, Lacks-append c a b ha.1 hb)
