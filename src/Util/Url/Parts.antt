-- ===== src/Util/Url/Parts.antt =====
-- The parts of an address, and its text.
use mathlib.Core.List.{append_assoc, append-nil}
use ryze.Base.{
  ℕ, ◌+◌, ◌-◌, true, leb, if◌then◌else◌, ◌≡◌, refl, sym, ap, Option, none, some, [], ◌∷◌, ◌++◌,
  length, take, drop, length-append, drop-append, take-append, Run, ok, arith,
}
use ryze.Http.Chars.{Bytes}
use ryze.Util.Strings.{starts_with, strstr, atoi, Lacks, byte, strstr-first, strstr-none}
use ryze.Util.Url.{copy_str, or_else, str_same, http_protocol}

pub copy_str-part :
    (s a b c : Bytes) (first stop : ℕ)
    → s ≡ a ++ (b ++ c)
    → first ≡ length a
    → stop ≡ length a + length b
    → copy_str s first stop ≡ ok b
unfolding copy_str
copy_str-part s a b c first stop e f g =
    let size : length s ≡ length a + (length b + length c) =
      omega (arith, ap length e, length-append a (b ++ c), length-append b c) in
    let kept : take (stop - first) (drop first s) ≡ b =
      rw e (rw (drop-append first a (b ++ c) f) (take-append (stop - first) b c (omega arith))) in
    let inside : leb first stop ≡ true = ground arith in
    let below : leb stop (length s) ≡ true = ground (arith, size) in rw (inside, below, kept) refl

pub drop-past : (a m b : Bytes) (n : ℕ) → n ≡ length a + length m → drop n (a ++ (m ++ b)) ≡ b
drop-past a m b n e =
    rw (sym (append_assoc a m b)) (drop-append n (a ++ m) b (omega (arith, e, length-append a m)))

-- A text that begins with the mark `c`, or nothing.
abbrev pub mark : ℕ → Option Bytes → Bytes
mark c none = []
mark c (some s) = c ∷ s

pub or_else-mark :
    (c : ℕ) (a : Bytes) (t : Option Bytes)
    → Lacks c a
    → or_else (strstr (byte c) (a ++ mark c t)) (length (a ++ mark c t)) ≡ length a
or_else-mark c a none h = rw (append-nil a, strstr-none c a h) refl
or_else-mark c a (some s) h = rw (strstr-first c a s h) refl

pub strstr-slashes :
    (a b : Bytes)
    → Lacks b'/' a
    → strstr (b'/' ∷ b'/' ∷ []) (a ++ (b'/' ∷ b'/' ∷ b)) ≡ some (length a)
unfolding strstr starts_with
strstr-slashes [] b h = refl
strstr-slashes (d ∷ a) b h = ground (arith, strstr-slashes a b h.1, h.0)

-- The text with its mark, or NULL.
abbrev pub marked : ℕ → Option Bytes → Option Bytes
marked c none = none
marked c (some s) = some (c ∷ s)

-- The parts of an address, without the marks before them.
pub record Parts : Type 0 where
  pub protocol : Bytes
  pub hostname : Bytes
  pub port : Option Bytes
  pub rest : Bytes
  pub query : Option Bytes
  pub fragment : Option Bytes

abbrev pub host_text : Parts → Bytes
host_text u = u.hostname ++ mark b':' u.port

abbrev pub path_text : Parts → Bytes
path_text u = b'/' ∷ u.rest

abbrev pub print_url : Parts → Bytes
print_url u =
    u.protocol
    ++ (b'/' ∷ b'/' ∷ (host_text u ++ (path_text u ++ (mark b'?' u.query ++ mark b'#' u.fragment))))

abbrev pub InText : (Bytes → Type 0) → Option Bytes → Type 0
InText P none = Unit
InText P (some s) = P s

-- No part holds the marks that end it.
pub record IsAddress (u : Parts) : Type 0 where
  pub protocol_slash : Lacks b'/' u.protocol
  pub protocol_query : Lacks b'?' u.protocol
  pub protocol_hash : Lacks b'#' u.protocol
  pub host_colon : Lacks b':' u.hostname
  pub host_slash : Lacks b'/' (host_text u)
  pub host_query : Lacks b'?' (host_text u)
  pub host_hash : Lacks b'#' (host_text u)
  pub rest_query : Lacks b'?' u.rest
  pub rest_hash : Lacks b'#' u.rest
  pub query_hash : Lacks b'#' (mark b'?' u.query)

-- The port of the text behind the ':', or that of the protocol.
abbrev pub port_value : Parts → Run ℕ
port_value u = elim u.port [
  | none ↦ ok (if str_same u.protocol http_protocol then 80 else 443)
  | some s ↦ atoi s
]
