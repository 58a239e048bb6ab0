-- ===== src/Util/Client/Laws.antt =====
-- What `http_get` of src/util/test.c returns of a response.
use ryze.Base.{
  ℕ, suc, ◌+◌, ◌-◌, ◌≤◌, ◌<◌, ◌%◌, ◌^◌, Bool, true, false, ◌==◌, ltb, leb, if◌then◌else◌, ◌≡◌, refl,
  sym, ap, ◌∙◌, inl, inr, Option, none, some, List, [], ◌∷◌, ◌++◌, All, length, drop, Bool-cases,
  Run, ok, fault, ◌>>=◌, out_of_fuel, arith,
}
use ryze.Http.Chars.{Bytes}
use ryze.Util.Strings.{starts_with, shift, strstr}
use ryze.Util.Url.{Url, url_parse}
use ryze.Util.Client.{
  Network, Exchange, blank_line, print_headers, receive, find_body, read_body, connected,
  with_socket, http_get,
}

-- A packet is not empty and fits into what `recv` is asked for.
abbrev pub IsPacket : Bytes → Type 0
IsPacket packet = (0 < length packet) × (length packet ≤ 1024)

unfoldable pub concat : List Bytes → Bytes
concat [] = []
concat (packet ∷ packets) = packet ++ concat packets

-- The buffer grows by as much as a packet may bring.
receive-concat :
    (packets : List Bytes) (nread len : ℕ)
    → All IsPacket packets
    → nread + 1024 ≤ len
    → receive nread len packets ≡ ok (concat packets)
unfolding receive concat
receive-concat [] nread len h room = refl
receive-concat ([] ∷ packets) nread len h room = absurd (omega (arith, h.0.0))
receive-concat ((c ∷ packet) ∷ packets) nread len h room =
    let fits : leb (nread + length (c ∷ packet)) len ≡ true = ground (arith, h.0.1) in
    rw
      (
        fits,
        receive-concat packets (nread + length (c ∷ packet)) (len + 1024) h.1
            (omega (arith, h.0.1)),
        receive,
      )
      refl

-- Where the body begins, for the place of the first blank line: at 0 if nothing follows it.
unfoldable pub start_at : Option ℕ → ℕ → ℕ → ℕ
start_at none len i = 0
start_at (some j) len i = if ltb (j + 4) len then i + (j + 4) else 0

start_at-short : (o : Option ℕ) (len i : ℕ) → len ≤ 4 → start_at o len i ≡ 0
unfolding start_at
start_at-short none len i h = refl
start_at-short (some j) len i h = ground arith

start_at-shift :
    (o : Option ℕ) (len i : ℕ) → start_at o len (i + 1) ≡ start_at (shift o) (suc len) i
unfolding start_at
start_at-shift none len i = refl
start_at-shift (some j) len i = ground arith

find_body-strstr :
    (s : Bytes) (limit i : ℕ)
    → limit + 4 ≡ i + length s
    → find_body limit s i ≡ ok (start_at (strstr blank_line s) (length s) i)
unfolding find_body strstr start_at
find_body-strstr [] limit i e = ground arith
find_body-strstr (c ∷ s) limit i e = elim (Bool-cases (ltb i limit)) [
  | inr past ↦
      rw (past, find_body)
        (ap ok (sym (start_at-short (strstr blank_line (c ∷ s)) (suc (length s)) i (ground arith))))
  | inl inside ↦ elim (Bool-cases (starts_with blank_line (c ∷ s))) [
    | inl here ↦ rw (inside, here, find_body, strstr) (ap ok (ground arith))
    | inr later ↦
        rw (inside, later, find_body, strstr)
          (find_body-strstr s limit (i + 1) (omega (arith, e))
            ∙ ap ok (start_at-shift (strstr blank_line s) (length s) i))
  ]
]

starts_with-length : (prefix s : Bytes) → starts_with prefix s ≡ true → length prefix ≤ length s
unfolding starts_with
starts_with-length [] s e = omega arith
starts_with-length (c ∷ prefix) [] e = cc
starts_with-length (c ∷ prefix) (d ∷ s) e = elim (Bool-cases (c == d)) [
  | inl same ↦ omega (arith, starts_with-length prefix s (sym (rw (same, starts_with) refl) ∙ e))
  | inr other ↦ absurd (grind (arith, other, e))
]

find_body-short :
    (s : Bytes) (limit i : ℕ) → length s < 4 → i + length s < limit → find_body limit s i ≡ fault
unfolding find_body
find_body-short [] limit i short h = ground arith
find_body-short (c ∷ s) limit i short h = elim (Bool-cases (starts_with blank_line (c ∷ s))) [
  | inl here ↦ absurd (omega (arith, starts_with-length blank_line (c ∷ s) here))
  | inr later ↦
      let inside : ltb i limit ≡ true = ground arith in
      rw (inside, later, find_body) (find_body-short s limit (i + 1) (omega arith) (omega arith))
]

-- What follows the blank line of a response, or all of it if nothing does.
abbrev pub body_of : Bytes → Bytes
body_of response = drop (start_at (strstr blank_line response) (length response) 0) response

read_body-body_of :
    (packets : List Bytes)
    → All IsPacket packets
    → 4 ≤ length (concat packets)
    → length (concat packets) < 2 ^ 64
    → read_body packets ≡ ok (body_of (concat packets))
unfolding read_body
read_body-body_of packets h low high =
    let limit : (length (concat packets) + 2 ^ 64 - 4) % 2 ^ 64 + 4 ≡ 0 + length (concat packets) =
      omega arith in
    rw
      (
        receive-concat packets 0 1024 h (omega arith),
        find_body-strstr (concat packets) ((length (concat packets) + 2 ^ 64 - 4) % 2 ^ 64) 0 limit,
        read_body,
      )
      refl

read_body-short :
    (packets : List Bytes)
    → All IsPacket packets
    → length (concat packets) < 4
    → read_body packets ≡ fault
unfolding read_body
read_body-short packets h short =
    let past : 0 + length (concat packets) < (length (concat packets) + 2 ^ 64 - 4) % 2 ^ 64 =
      omega arith in
    rw
      (
        receive-concat packets 0 1024 h (omega arith),
        find_body-short (concat packets) ((length (concat packets) + 2 ^ 64 - 4) % 2 ^ 64) 0 short
            past,
        read_body,
      )
      refl

module _ (net : Network) (url header : Bytes) (u : Url) (fd : ℕ) (parsed : url_parse url ≡ ok u)
    (known : net.knows u.hostname ≡ true) (some_fd : net.socket ≡ some fd)
    (reached : net.connect (u.port % 2 ^ 16) ≡ true) (packets : All IsPacket net.packets) where
  http_get-connected :
      http_get net url header ≡ connected net (print_headers u header) (u.port % 2 ^ 16) fd
  unfolding http_get with_socket
  http_get-connected = rw (parsed, known, some_fd, http_get, with_socket) refl

  -- For an address that is read, of a host that is known, over a connection with packets of 1 to
  -- 1024 bytes: a response of at least four bytes and less than 2 ^ 64 gives what follows its blank line, or the
  -- whole response if nothing follows one; one request is sent, and the socket is closed.
  pub http_get-body_of :
      4 ≤ length (concat net.packets)
      → length (concat net.packets) < 2 ^ 64
      → http_get net url header
        ≡ ok (record {
          result = some (body_of (concat net.packets));
          sent = print_headers u header ∷ [];
          opened = fd ∷ [];
          closed = fd ∷ [];
        })
  unfolding connected
  http_get-body_of low high =
      http_get-connected
      ∙ rw (reached, read_body-body_of net.packets packets low high, connected) refl

  -- A response of less than four bytes makes the search for the blank line read bytes that were not
  -- received.
  pub http_get-fault : length (concat net.packets) < 4 → http_get net url header ≡ fault
  unfolding connected
  http_get-fault short =
      http_get-connected ∙ rw (reached, read_body-short net.packets packets short, connected) refl

-- A run that returns has closed what it opened.
abbrev pub Closing : Run Exchange → Type 0
Closing m = elim m [ ok x ↦ x.closed ≡ x.opened | _ ↦ Unit ]

Closing-bind {ℓ} :
    {A : Type ℓ} (m : Run A) (k : A → Run Exchange) → ((a : A) → Closing (k a)) → Closing (m >>= k)
Closing-bind fault k h = tt
Closing-bind out_of_fuel k h = tt
Closing-bind (ok a) k h = h a

Closing-if :
    (b : Bool) (m m' : Run Exchange) → Closing m → Closing m' → Closing (if b then m else m')
Closing-if true m m' h h' = h
Closing-if false m m' h h' = h'

connected-Closing :
    (net : Network) (headers : Bytes) (port fd : ℕ) → Closing (connected net headers port fd)
unfolding connected
connected-Closing net headers port fd =
    Closing-if (net.connect port) _ _ (Closing-bind (read_body net.packets) _ (λ buf. refl)) refl

with_socket-Closing :
    (net : Network) (headers : Bytes) (port : ℕ) (socket : Option ℕ)
    → Closing (with_socket net headers port socket)
unfolding with_socket
with_socket-Closing net headers port none = refl
with_socket-Closing net headers port (some fd) = connected-Closing net headers port fd

-- Whatever the system answers, a call that returns has closed the socket it opened, if any.
pub http_get-Closing : (net : Network) (url header : Bytes) → Closing (http_get net url header)
unfolding http_get
http_get-Closing net url header = Closing-bind (url_parse url) _ (λ u.
    Closing-if (net.knows u.hostname) _ _
      (with_socket-Closing net (print_headers u header) (u.port % 2 ^ 16) net.socket) refl)
