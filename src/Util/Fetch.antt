-- ===== src/Util/Fetch.antt =====
-- `http_get` of src/util/util.c over a network that is a parameter. What it prints is left out, and
-- `malloc` and `realloc` are taken to succeed.
pub mod Laws
use Prim.Native.Char.{code}
use Prim.Native.String.{String}
use ryze.Base.{
  ℕ, zero, suc, ◌+◌, ◌-◌, ◌%◌, ◌^◌, Bool, true, false, ◌&&◌, ◌==◌, ltb, leb, if◌then◌else◌, Option,
  none, some, List, [], ◌∷◌, ◌++◌, length, take, drop, Run, ok, fault, ◌>>=◌,
}
use ryze.Http.Chars.{Bytes}
use ryze.Util.Strings.{strstr, starts_with, is_digit, digits_value, skip_spaces, atoi, byte}
use ryze.Util.Dirname.{https_prefix, http_prefix}
use ryze.Util.Url.{or_else}
use ryze.Util.Normalize.{first_string}
use ryze.Util.Client.{crlf, blank_line}
use ryze.Util.Resolve.{str_split}

abbrev pub codes : String → Bytes
codes String.[] = []
codes (String.◌∷◌ c s) = code c ∷ codes s

-- What the system answers: whether `gethostbyname` knows a host, the socket, what each `recv` in
-- turn has to give (nothing for an error), and what the block of 1025 bytes that `malloc` gives for
-- `buf` holds. The results of `connect` and `send` are not looked at.
pub record Answers : Type 0 where
  pub knows : Bytes → Bool
  pub socket : Option ℕ
  pub packets : List Bytes
  pub block : Bytes

-- What is left of a call: the string returned with the number of bytes in front of its NUL that are
-- not set, the address, the port and the text of the request, and whether the socket was closed.
pub record Reply : Type 0 where
  pub result : Option (Bytes × ℕ)
  pub address : Bytes
  pub port : ℕ
  pub request : Bytes
  pub closed : Option ℕ

-- `start` and the port of the scheme.
unfoldable pub scheme_of : Bytes → Option (ℕ × ℕ)
unfolding starts_with
scheme_of url =
    if starts_with https_prefix url
    then some (8, 443)
    else if starts_with http_prefix url
    then some (7, 80)
    else none

-- The host from `start` up to the first '/', and what follows it.
unfoldable pub split_host : Bytes → Bytes × Bytes
split_host [] = ([], [])
split_host (c ∷ s) =
    let rest = split_host s in if c == b'/' then ([], c ∷ s) else (c ∷ rest.0, rest.1)

unfoldable pub print_request : (suffix host : Bytes) → Bytes
print_request suffix host =
    codes "GET "
    ++ suffix
    ++ codes " HTTP/1.1"
    ++ crlf
    ++ codes "Host: "
    ++ host
    ++ crlf
    ++ codes "Accept: */*"
    ++ crlf
    ++ codes "Cache-Control: no-cache"
    ++ crlf
    ++ codes "Pragma: no-cache"
    ++ crlf
    ++ codes "Connection: close"
    ++ crlf
    ++ codes "User-Agent: Mozilla/5.0 (Windows NT 10.0; Win64; x64) "
    ++ codes "AppleWebKit/537.36 (KHTML, like Gecko) "
    ++ codes "Chrome/99.0.4844.82 Safari/537.36"
    ++ crlf
    ++ crlf

-- The port behind the first ':' of the host, else that of the scheme.
unfoldable pub host_port : (port : ℕ) → Bytes → Run ℕ
unfolding atoi
host_port port [] = ok port
host_port port (c ∷ s) = elim (c == b':') [ true ↦ atoi s | false ↦ host_port port s ]

-- The address that `inet_addr` is given. A `struct hostent` is not from `malloc`, so that its `free`
-- is undefined.
unfoldable pub address_of : (Bytes → Bool) → Bytes → Run Bytes
unfolding str_split
address_of knows host = if knows host then fault else ok (first_string (str_split host b':').0)

-- atol(text), where a number below 0 makes `result` a block that cannot be written.
unfoldable pub content_length : Bytes → Run ℕ
unfolding digits_value skip_spaces
content_length text = elim (skip_spaces text) [
  | [] ↦ ok 0
  | c ∷ s ↦
      let n = digits_value 0 (if c == b'-' then s else if c == b'+' then s else c ∷ s) in
      if ltb (if c == b'-' then 0 else 2 ^ 63 - 1) n then fault else ok n
]

-- The loop of `recv` behind the header, with `room` bytes to go. It ends when `recv` has nothing to
-- give or is asked for nothing.
unfoldable pub receive_rest : (room : ℕ) → List Bytes → Bytes
receive_rest room [] = []
receive_rest room ([] ∷ packets) = []
receive_rest room ((c ∷ packet) ∷ packets) =
    let rest = receive_rest (room - length (c ∷ packet)) packets in
    if room == 0 then [] else take room (c ∷ packet) ++ rest

-- The loop that puts a NUL for the first '\r' of a line end.
unfoldable pub cut_line : Bytes → Bytes
cut_line [] = []
cut_line (c ∷ []) = c ∷ []
cut_line (c ∷ d ∷ s) =
    let rest = cut_line (d ∷ s) in if c == b'\r' && d == b'\n' then 0 ∷ d ∷ s else c ∷ rest

-- `result`, a block of `n` + 1 bytes, for what stands behind the header in the first packet. If that
-- fills the block, the size that `recv` is asked for wraps around.
unfoldable pub fill_result : (n : ℕ) → Bytes → List Bytes → Run (Option (Bytes × ℕ))
unfolding receive_rest
fill_result n first packets =
    let body = first ++ receive_rest (n - length first) packets in
    if leb (length first) n
    then ok (some (body, n - length body))
    else if length first == n + 1
    then elim (receive_rest (2 ^ 63) packets) [ [] ↦ ok (some (take n first, 0)) | _ ∷ _ ↦ fault ]
    else fault

-- Where the header ends at `end` and its length stands at `start`, in a buffer with `len` bytes
-- received.
unfoldable pub read_content : (start end len : ℕ) → Bytes → List Bytes → Run (Option (Bytes × ℕ))
unfolding content_length fill_result cut_line
read_content start end len buf packets =
    let cut = take start buf ++ cut_line (drop start buf) in
    do
      n ← content_length (first_string (drop start cut))
      fill_result n (take (len - end) (drop end cut)) packets

-- What the first `recv` gives of what there is, and what there is for the later ones.
abbrev pub first_packet : List Bytes → Bytes × List Bytes
first_packet [] = ([], [])
first_packet (packet ∷ packets) = (take 1024 packet, packets)

-- The loop of `recv`. In its second round `buf[buf_size]` is behind the block of `realloc`.
unfoldable pub read_response : Bytes → List Bytes → Run (Option (Bytes × ℕ))
unfolding strstr read_content
read_response block packets =
    let (packet, later) = first_packet packets in
    let buf = packet ++ take (1024 - length packet) (drop (length packet) block) in
    elim (strstr blank_line (first_string buf)) [
      | none ↦ elim packet [ [] ↦ ok none | _ ∷ _ ↦ fault ]
      | some p ↦ elim (strstr (codes "Content-Length: ") (first_string buf)) [
        | none ↦ ok none
        | some q ↦ read_content (q + 16) (p + 4) (length packet) buf later
      ]
    ]

-- An address of another scheme is answered NULL, with nothing sent.
unfoldable pub http_get : Answers → Bytes → Run (Option Reply)
unfolding scheme_of split_host print_request host_port address_of read_response
http_get sys url = elim (scheme_of url) [
  | none ↦ ok none
  | some (start, scheme_port) ↦ do
    let (host, suffix) = split_host (drop start url)
    port ← host_port scheme_port host
    address ← address_of sys.knows host
    result ← read_response sys.block sys.packets
    ok (
        some (record {
          result = result;
          address = address;
          port = port % 2 ^ 16;
          request = print_request suffix host;
          closed = sys.socket;
        }))
]
