-- ===== src/Util/Url/Pieces.antt =====
-- Where `url_parse` of src/util/test.c finds the parts of an address that is written from them.
use mathlib.Core.List.{append_assoc, append-nil}
use ryze.Base.{
  ℕ, ◌+◌, true, false, ◌==◌, ltb, if◌then◌else◌, ◌≡◌, refl, ap, ◌∙◌, Option, none, some, [], ◌∷◌,
  ◌++◌, length, drop, length-append, drop-append, ok, arith,
}
use ryze.Http.Chars.{Bytes, read}
use ryze.Http.Scan.Laws.{read-ok}
use ryze.Util.Strings.{strstr, atoi, Lacks, byte, strstr-first, strstr-none, Lacks-append}
use ryze.Util.Url.{copy_str, or_else, end_of_host, str_same, http_protocol, port_of, path_of}
use ryze.Util.Url.Parts.{
  copy_str-part, drop-past, mark, or_else-mark, strstr-slashes, Parts, host_text, path_text,
  print_url, IsAddress, port_value,
}

module _ (u : Parts) (g : IsAddress u) where
  unfoldable pub url : Bytes
  url = print_url u

  -- All before the '?', and all before the '#'.
  unfoldable pub before_query : Bytes
  before_query = u.protocol ++ (b'/' ∷ b'/' ∷ (host_text u ++ path_text u))

  unfoldable pub body : Bytes
  unfolding before_query
  body = before_query ++ mark b'?' u.query

  pub url-body : url ≡ body ++ mark b'#' u.fragment
  unfolding url body before_query
  url-body = simp append_assoc

  pub before-Lacks :
      (c : ℕ)
      → (c == b'/') ≡ false
      → Lacks c u.protocol
      → Lacks c (host_text u)
      → Lacks c u.rest
      → Lacks c before_query
  unfolding before_query
  before-Lacks c ne hp hh hr =
      Lacks-append c u.protocol (b'/' ∷ b'/' ∷ (host_text u ++ path_text u)) hp
        (ne, (ne, Lacks-append c (host_text u) (path_text u) hh (ne, hr)))

  pub hash_at : or_else (strstr (byte b'#') url) (length url) ≡ length body
  unfolding body
  hash_at = rw url-body (
      or_else-mark b'#' body u.fragment (
        Lacks-append b'#' before_query (mark b'?' u.query)
          (before-Lacks b'#' refl g.protocol_hash g.host_hash g.rest_hash) g.query_hash))

  -- All before the path.
  pub front : Bytes
  front = u.protocol ++ (b'/' ∷ b'/' ∷ host_text u)

  length-front : length front ≡ length u.protocol + 2 + length (host_text u)
  unfolding front
  length-front = omega (arith, length-append u.protocol (b'/' ∷ b'/' ∷ host_text u))

  length-body : length body ≡ length front + length (path_text u ++ mark b'?' u.query)
  unfolding body before_query front
  length-body = omega (
    arith,
    length-append before_query (mark b'?' u.query),
    length-append u.protocol (b'/' ∷ b'/' ∷ (host_text u ++ path_text u)),
    length-append u.protocol (b'/' ∷ b'/' ∷ host_text u),
    length-append (host_text u) (path_text u),
    length-append (path_text u) (mark b'?' u.query),
  )

  url-front : url ≡ front ++ ((path_text u ++ mark b'?' u.query) ++ mark b'#' u.fragment)
  unfolding url front
  url-front = simp append_assoc

  pub protocol_at : strstr (b'/' ∷ b'/' ∷ []) url ≡ some (length u.protocol)
  unfolding url
  protocol_at =
      strstr-slashes u.protocol
        (host_text u ++ (path_text u ++ (mark b'?' u.query ++ mark b'#' u.fragment)))
        g.protocol_slash

  pub copy-protocol : copy_str url 0 (length u.protocol) ≡ ok u.protocol
  unfolding url
  copy-protocol =
      copy_str-part url [] u.protocol
        (b'/'
          ∷ b'/'
          ∷ (host_text u ++ (path_text u ++ (mark b'?' u.query ++ mark b'#' u.fragment))))
        0 (length u.protocol) refl refl (omega arith)

  pub end_of_host-url : end_of_host url (length u.protocol + 2) ≡ length front
  unfolding url end_of_host front
  end_of_host-url =
      let behind : Bytes = u.rest ++ (mark b'?' u.query ++ mark b'#' u.fragment) in
      let from_host : drop (length u.protocol + 2) url ≡ host_text u ++ (b'/' ∷ behind) =
        drop-past u.protocol (b'/' ∷ b'/' ∷ []) (host_text u ++ (b'/' ∷ behind))
          (length u.protocol + 2) (omega arith) in
      rw (from_host, strstr-first b'/' (host_text u) behind g.host_slash, end_of_host)
        (omega (arith, length-front))

  pub copy-host : copy_str url (length u.protocol + 2) (length front) ≡ ok (host_text u)
  unfolding url
  copy-host =
      copy_str-part url (u.protocol ++ (b'/' ∷ b'/' ∷ [])) (host_text u)
        (path_text u ++ (mark b'?' u.query ++ mark b'#' u.fragment)) (length u.protocol + 2)
        (length front) (simp append_assoc)
        (omega (arith, length-append u.protocol (b'/' ∷ b'/' ∷ [])))
        (omega (arith, length-front, length-append u.protocol (b'/' ∷ b'/' ∷ [])))

  pub copy-hostname :
      copy_str (host_text u) 0 (or_else (strstr (byte b':') (host_text u)) (length (host_text u)))
      ≡ ok u.hostname
  copy-hostname =
      copy_str-part (host_text u) [] u.hostname (mark b':' u.port) 0 _ refl refl
        (or_else-mark b':' u.hostname u.port g.host_colon ∙ omega arith)

  pub port_of-url : port_of u.protocol (host_text u) ≡ port_value u
  unfolding port_of
  port_of-url = go u.port
    where
      go :
          (t : Option Bytes)
          → port_of u.protocol (u.hostname ++ mark b':' t) ≡ elim t [
            | none ↦ ok (if str_same u.protocol http_protocol then 80 else 443)
            | some s ↦ atoi s
          ]
      go none = rw (append-nil u.hostname, strstr-none b':' u.hostname g.host_colon, port_of) refl
      go (some s) =
          rw (strstr-first b':' u.hostname s g.host_colon, port_of)
            (ap atoi (drop-past u.hostname (b':' ∷ []) s (length u.hostname + 1) (omega arith)))

  pub path_of-url : path_of url (length front) ≡ ok (path_text u ++ mark b'?' u.query)
  unfolding path_of
  path_of-url =
      let after : Bytes = u.rest ++ mark b'?' u.query in
      let size : length url ≡ length front + (1 + length after + length (mark b'#' u.fragment)) =
        omega (
          arith,
          ap length url-front,
          length-append front ((path_text u ++ mark b'?' u.query) ++ mark b'#' u.fragment),
          length-append after (mark b'#' u.fragment),
        ) in
      let inside : ltb (length front) (length url) ≡ true = ground (arith, size) in
      let slash : read url (length front) ≡ ok b'/' =
        read-ok url (length front) b'/' (after ++ mark b'#' u.fragment)
          (rw url-front (drop-append (length front) front _ refl)) in
      let part : copy_str url (length front) (length body) ≡ ok (path_text u ++ mark b'?' u.query) =
        copy_str-part url front (path_text u ++ mark b'?' u.query) (mark b'#' u.fragment)
          (length front) (length body) url-front refl length-body in
      rw (inside, slash, hash_at, part) refl

  pub copy-pathname :
      copy_str (path_text u ++ mark b'?' u.query) 0 (
        or_else
          (strstr (byte b'?') (path_text u ++ mark b'?' u.query))
          (length (path_text u ++ mark b'?' u.query)))
      ≡ ok (path_text u)
  copy-pathname =
      copy_str-part (path_text u ++ mark b'?' u.query) [] (path_text u) (mark b'?' u.query) 0 _ refl
        refl (or_else-mark b'?' (path_text u) u.query (refl, g.rest_query) ∙ omega arith)
