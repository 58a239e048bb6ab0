-- ===== src/Util/Url.antt =====
-- `url_parse` of src/util/test.c, for an address shorter than 2 ^ 31, so that no `int` overflows.
pub mod Parts
pub mod Pieces
pub mod RoundTrip
use ryze.Base.{
  ℕ, ◌+◌, ◌-◌, Bool, true, false, ◌&&◌, ◌==◌, ltb, leb, if◌then◌else◌, Option, none, some, List, [],
  ◌∷◌, length, take, drop, Run, ok, fault, ◌>>=◌,
}
use ryze.Http.Chars.{Bytes, read}
use ryze.Util.Strings.{strstr, atoi, byte}

-- `struct url_struct`; `search` and `hash` may be NULL.
pub record Url : Type 0 where
  pub protocol : Bytes
  pub host : Bytes
  pub hostname : Bytes
  pub port : ℕ
  pub path : Bytes
  pub pathname : Bytes
  pub search : Option Bytes
  pub hash : Option Bytes

-- RYZE_URL_COPY_STR from `first` up to `stop`: a negative length is a huge one for `memcpy`.
unfoldable pub copy_str : Bytes → (first stop : ℕ) → Run Bytes
copy_str s first stop =
    if leb first stop && leb stop (length s) then ok (take (stop - first) (drop first s)) else fault

-- A place that `strstr` gives, or the one that stands for NULL.
abbrev pub or_else : Option ℕ → ℕ → ℕ
or_else none i = i
or_else (some p) i = p

-- `end`: the first '/' behind `start`, else the first '?' of all, else the first '#', else `len`.
unfoldable pub end_of_host : Bytes → ℕ → ℕ
unfolding strstr
end_of_host url start = elim (strstr (byte b'/') (drop start url)) [
  | some i ↦ start + i
  | none ↦ or_else (strstr (byte b'?') url) (or_else (strstr (byte b'#') url) (length url))
]

-- strcmp(a, b) == 0
unfoldable pub str_same : Bytes → Bytes → Bool
str_same [] [] = true
str_same [] (d ∷ t) = false
str_same (c ∷ s) [] = false
str_same (c ∷ s) (d ∷ t) = let rest = str_same s t in if c == d then rest else false

abbrev pub http_protocol : Bytes
http_protocol = b'h' ∷ b't' ∷ b't' ∷ b'p' ∷ b':' ∷ []

unfoldable pub port_of : (protocol host : Bytes) → Run ℕ
unfolding strstr atoi str_same
port_of protocol host = elim (strstr (byte b':') host) [
  | some p ↦ atoi (drop (p + 1) host)
  | none ↦ ok (if str_same protocol http_protocol then 80 else 443)
]

-- The path from `end` on; where no '/' stands there, one is put in front.
unfoldable pub path_of : Bytes → (end : ℕ) → Run Bytes
unfolding strstr read copy_str
path_of url end =
    if ltb end (length url)
    then (do
      c ← read url end
      part ← copy_str url end (or_else (strstr (byte b'#') url) (length url))
      ok (if c == b'/' then part else b'/' ∷ part))
    else ok (byte b'/')

unfoldable pub search_of : Bytes → Run (Option Bytes)
unfolding strstr copy_str
search_of url = elim (strstr (byte b'?') url) [
  | none ↦ ok none
  | some q ↦ do s ← copy_str url q (or_else (strstr (byte b'#') url) (length url)); ok (some s)
]

unfoldable pub hash_of : Bytes → Option Bytes
unfolding strstr
hash_of url = elim (strstr (byte b'#') url) [ none ↦ none | some h ↦ some (drop h url) ]

-- An address with no "//" makes the code compute with NULL.
unfoldable pub url_parse : Bytes → Run Url
unfolding strstr copy_str end_of_host port_of path_of search_of hash_of
url_parse url = elim (strstr (b'/' ∷ b'/' ∷ []) url) [
  | none ↦ fault
  | some p ↦ do
    protocol ← copy_str url 0 p
    host ← copy_str url (p + 2) (end_of_host url (p + 2))
    hostname ← copy_str host 0 (or_else (strstr (byte b':') host) (length host))
    port ← port_of protocol host
    path ← path_of url (end_of_host url (p + 2))
    pathname ← copy_str path 0 (or_else (strstr (byte b'?') path) (length path))
    search ← search_of url
    ok (record {
      protocol = protocol;
      host = host;
      hostname = hostname;
      port = port;
      path = path;
      pathname = pathname;
      search = search;
      hash = hash_of url;
    })
]
