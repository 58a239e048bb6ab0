-- ===== src/Util/Client.antt =====
-- `http_get` of src/util/test.c over a network that is a parameter. What it prints is left out.
pub mod Laws
use ryze.Base.{
  ℕ, zero, suc, ◌+◌, ◌-◌, ◌%◌, ◌^◌, Bool, true, false, ◌==◌, ltb, leb, if◌then◌else◌, Option, none,
  some, List, [], ◌∷◌, ◌++◌, length, drop, Run, ok, fault, ◌>>=◌,
}
use ryze.Http.Chars.{Bytes}
use ryze.Util.Strings.{starts_with}
use ryze.Util.Url.{Url, url_parse}

-- What the system answers: whether `gethostbyname` knows the host, what `socket` and `connect` give
-- (`none` and `false` for an error), and what each `recv` in turn puts into the buffer. It gives
-- nothing behind the last one, or fails.
pub record Network : Type 0 where
  pub knows : Bytes → Bool
  pub socket : Option ℕ
  pub connect : (port : ℕ) → Bool
  pub packets : List Bytes

-- What is left of a call: the string returned, the data sent, the descriptors opened and closed.
pub record Exchange : Type 0 where
  pub result : Option Bytes
  pub sent : List Bytes
  pub opened : List ℕ
  pub closed : List ℕ

abbrev pub crlf : Bytes
crlf = b'\r' ∷ b'\n' ∷ []

abbrev pub blank_line : Bytes
blank_line = crlf ++ crlf

abbrev get : Bytes
get = b'G' ∷ b'E' ∷ b'T' ∷ b' ' ∷ []

abbrev version : Bytes
version = b' ' ∷ b'H' ∷ b'T' ∷ b'T' ∷ b'P' ∷ b'/' ∷ b'1' ∷ b'.' ∷ b'1' ∷ crlf

abbrev host_name : Bytes
host_name = b'H' ∷ b'o' ∷ b's' ∷ b't' ∷ b':' ∷ b' ' ∷ []

abbrev connection : Bytes
connection =
    b'C' ∷ b'o' ∷ b'n' ∷ b'n' ∷ b'e' ∷ b'c' ∷ b't' ∷ b'i' ∷ b'o' ∷ b'n' ∷ b':' ∷ b' ' ∷ b'c' ∷ b'l'
    ∷ b'o' ∷ b's' ∷ b'e' ∷ crlf

-- The text that `sprintf` puts into `headers`, for a `header` that is "" for NULL too.
unfoldable pub print_headers : Url → Bytes → Bytes
print_headers u header =
    get ++ u.path ++ version ++ host_name ++ u.host ++ crlf ++ connection ++ header ++ crlf

-- The loop of `recv`: `body` has `len` bytes, and a packet may be of 1024.
unfoldable pub receive : (nread len : ℕ) → List Bytes → Run Bytes
receive nread len [] = ok []
receive nread len ([] ∷ packets) = ok []
receive nread len ((c ∷ packet) ∷ packets) =
    if leb (nread + length (c ∷ packet)) len
    then (do
      rest ← receive (nread + length (c ∷ packet)) (len + 1024) packets
      ok ((c ∷ packet) ++ rest))
    else fault

-- The loop that looks for the blank line, from `i` on up to `limit`, for the bytes received from
-- there on. The bytes behind them are not set.
unfoldable pub find_body : (limit : ℕ) → Bytes → (i : ℕ) → Run ℕ
unfolding starts_with
find_body limit [] i = if ltb i limit then fault else ok 0
find_body limit (c ∷ body) i =
    let rest = find_body limit body (i + 1) in
    if ltb i limit then if starts_with blank_line (c ∷ body) then ok (i + 4) else rest else ok 0

-- From the loop of `recv` on; `nread - 4` is a `size_t`.
unfoldable pub read_body : List Bytes → Run Bytes
unfolding receive find_body
read_body packets = do
  body ← receive 0 1024 packets
  start ← find_body ((length body + 2 ^ 64 - 4) % 2 ^ 64) body 0
  ok (drop start body)

unfoldable pub connected : Network → (headers : Bytes) → (port fd : ℕ) → Run Exchange
unfolding read_body
connected net headers port fd =
    if net.connect port
    then (do
      buf ← read_body net.packets
      ok (record { result = some buf; sent = headers ∷ []; opened = fd ∷ []; closed = fd ∷ [] }))
    else ok (record { result = none; sent = []; opened = fd ∷ []; closed = fd ∷ [] })

abbrev pub unanswered : Exchange
unanswered = record { result = none; sent = []; opened = []; closed = [] }

-- From `socket` on.
unfoldable pub with_socket : Network → (headers : Bytes) → (port : ℕ) → Option ℕ → Run Exchange
unfolding connected
with_socket net headers port none = ok unanswered
with_socket net headers port (some fd) = connected net headers port fd

unfoldable pub http_get : Network → (url header : Bytes) → Run Exchange
unfolding url_parse print_headers with_socket
http_get net url header = do
  u ← url_parse url
  if net.knows u.hostname
      then with_socket net (print_headers u header) (u.port % 2 ^ 16) net.socket
      else ok unanswered
