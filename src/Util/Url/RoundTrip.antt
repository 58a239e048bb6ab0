-- ===== src/Util/Url/RoundTrip.antt =====
-- An address that is written from its parts is taken apart again by `url_parse` of src/util/test.c.
use mathlib.Core.List.{append_assoc, append-nil}
use ryze.Base.{
  ℕ, suc, ◌+◌, false, leb, ◌≡◌, refl, sym, ap, ◌∙◌, none, some, ◌∷◌, ◌++◌, length, length-append,
  drop-append, Option-cases, inl, inr, ok, fault, arith,
}
use ryze.Http.Chars.{Bytes}
use ryze.Util.Strings.{strstr, Lacks, byte, strstr-first, strstr-none, Lacks-append}
use ryze.Util.Url.{copy_str, search_of, hash_of, url_parse}
use ryze.Util.Url.Parts.{
  copy_str-part, mark, marked, Parts, host_text, path_text, print_url, IsAddress, port_value,
}
use ryze.Util.Url.Pieces.{
  before_query, body, url-body, before-Lacks, hash_at, protocol_at, copy-protocol, end_of_host-url,
  copy-host, copy-hostname, port_of-url, path_of-url, copy-pathname, url,
}

module _ (u : Parts) (g : IsAddress u) where
  url-query : (url u g) ≡ (before_query u g) ++ (mark b'?' u.query ++ mark b'#' u.fragment)
  unfolding url before_query
  url-query = simp append_assoc

  clear_of_query : Lacks b'?' (before_query u g)
  clear_of_query = (before-Lacks u g) b'?' refl g.protocol_query g.host_query g.rest_query

  clear_of_hash : Lacks b'#' (body u g)
  unfolding body
  clear_of_hash =
      Lacks-append b'#' (before_query u g) (mark b'?' u.query)
        ((before-Lacks u g) b'#' refl g.protocol_hash g.host_hash g.rest_hash) g.query_hash

  search-none : Lacks b'?' (mark b'#' u.fragment) → u.query ≡ none → search_of (url u g) ≡ ok none
  unfolding search_of
  search-none clear e =
      let same : (url u g) ≡ (before_query u g) ++ mark b'#' u.fragment =
        url-query ∙ ap (λ q. (before_query u g) ++ (mark b'?' q ++ mark b'#' u.fragment)) e in
      rw
        (
          same,
          strstr-none b'?' ((before_query u g) ++ mark b'#' u.fragment)
              (Lacks-append b'?' (before_query u g) (mark b'#' u.fragment) clear_of_query clear),
          search_of,
        )
        refl

  search-some : (q : Bytes) → u.query ≡ some q → search_of (url u g) ≡ ok (some (b'?' ∷ q))
  unfolding search_of body
  search-some q e =
      let same : (url u g) ≡ (before_query u g) ++ ((b'?' ∷ q) ++ mark b'#' u.fragment) =
        url-query ∙ ap (λ t. (before_query u g) ++ (mark b'?' t ++ mark b'#' u.fragment)) e in
      let place : strstr (byte b'?') (url u g) ≡ some (length (before_query u g)) =
        rw same (strstr-first b'?' (before_query u g) (q ++ mark b'#' u.fragment) clear_of_query) in
      let stop : length (body u g) ≡ length (before_query u g) + suc (length q) =
        ap (λ t. length ((before_query u g) ++ mark b'?' t)) e
        ∙ length-append (before_query u g) (b'?' ∷ q) in
      rw
        (
          place,
          search_of,
          (hash_at u g),
          copy_str-part (url u g) (before_query u g) (b'?' ∷ q) (mark b'#' u.fragment)
              (length (before_query u g)) (length (body u g)) same refl stop,
        )
        refl

  hash-none : u.fragment ≡ none → hash_of (url u g) ≡ none
  unfolding hash_of
  hash-none e =
      let same : (url u g) ≡ (body u g) =
        (url-body u g) ∙ ap (λ t. (body u g) ++ mark b'#' t) e ∙ append-nil (body u g) in
      rw (same, strstr-none b'#' (body u g) clear_of_hash, hash_of) refl

  hash-some : (f : Bytes) → u.fragment ≡ some f → hash_of (url u g) ≡ some (b'#' ∷ f)
  unfolding hash_of
  hash-some f e =
      let same : (url u g) ≡ (body u g) ++ (b'#' ∷ f) =
        (url-body u g) ∙ ap (λ t. (body u g) ++ mark b'#' t) e in
      let place : strstr (byte b'#') (url u g) ≡ some (length (body u g)) =
        rw same (strstr-first b'#' (body u g) f clear_of_hash) in
      rw (place, hash_of)
        (ap some (rw same (drop-append (length (body u g)) (body u g) (b'#' ∷ f) refl)))

  search_of-url : Lacks b'?' (mark b'#' u.fragment) → search_of (url u g) ≡ ok (marked b'?' u.query)
  search_of-url clear = elim (Option-cases u.query) [
    | inl e ↦ search-none clear e ∙ ap (λ t. ok (marked b'?' t)) (sym e)
    | inr (q, e) ↦ search-some q e ∙ ap (λ t. ok (marked b'?' t)) (sym e)
  ]

  hash_of-url : hash_of (url u g) ≡ marked b'#' u.fragment
  hash_of-url = elim (Option-cases u.fragment) [
    | inl e ↦ hash-none e ∙ ap (marked b'#') (sym e)
    | inr (f, e) ↦ hash-some f e ∙ ap (marked b'#') (sym e)
  ]

  -- An address that is written from its parts, with "//" behind the protocol and a path that begins
  -- with '/', is taken apart into them: the host with its port, the path with the query, and the
  -- search and the hash with their marks. No part holds a mark that ends it, the fragment holds no
  -- '?' either, and the port, if there is one, is a text that `atoi` reads.
  pub url_parse-print_url :
      (n : ℕ)
      → Lacks b'?' (mark b'#' u.fragment)
      → port_value u ≡ ok n
      → url_parse (print_url u)
        ≡ ok (record {
          protocol = u.protocol;
          host = host_text u;
          hostname = u.hostname;
          port = n;
          path = path_text u ++ mark b'?' u.query;
          pathname = path_text u;
          search = marked b'?' u.query;
          hash = marked b'#' u.fragment;
        })
  unfolding url_parse url
  url_parse-print_url n clear value =
      rw
        (
          (protocol_at u g),
          url_parse,
          (copy-protocol u g),
          (end_of_host-url u g),
          (copy-host u g),
          (copy-hostname u g),
          (port_of-url u g),
          value,
          (path_of-url u g),
          (copy-pathname u g),
          search_of-url clear,
          hash_of-url,
        )
        refl

  search-fault :
      (a b : Bytes)
      → u.query ≡ none
      → u.fragment ≡ some (a ++ (b'?' ∷ b))
      → Lacks b'?' a
      → search_of (url u g) ≡ fault
  unfolding search_of copy_str body
  search-fault a b e f clear =
      let pre : Bytes = (before_query u g) ++ (b'#' ∷ a) in
      let same : (url u g) ≡ pre ++ (b'?' ∷ b) =
        url-query
        ∙ ap (λ t. (before_query u g) ++ (mark b'?' t ++ mark b'#' u.fragment)) e
        ∙ ap (λ t. (before_query u g) ++ mark b'#' t) f
        ∙ sym (append_assoc (before_query u g) (b'#' ∷ a) (b'?' ∷ b)) in
      let place : strstr (byte b'?') (url u g) ≡ some (length pre) = rw same (
        strstr-first b'?' pre b
          (Lacks-append b'?' (before_query u g) (b'#' ∷ a) clear_of_query (refl, clear))) in
      let stop : length (body u g) ≡ length (before_query u g) =
        ap (λ t. length ((before_query u g) ++ mark b'?' t)) e
        ∙ ap length (append-nil (before_query u g)) in
      let past : leb (length pre) (length (body u g)) ≡ false =
        ground (arith, stop, length-append (before_query u g) (b'#' ∷ a)) in
      rw (place, search_of, (hash_at u g), past) refl

  -- Where an address has no query and its fragment holds a '?', the code takes what stands from
  -- that '?' to the '#' before it for the search, a text of negative length.
  pub url_parse-fault :
      (n : ℕ) (a b : Bytes)
      → port_value u ≡ ok n
      → u.query ≡ none
      → u.fragment ≡ some (a ++ (b'?' ∷ b))
      → Lacks b'?' a
      → url_parse (print_url u) ≡ fault
  unfolding url_parse url
  url_parse-fault n a b value e f clear =
      rw
        (
          (protocol_at u g),
          url_parse,
          (copy-protocol u g),
          (end_of_host-url u g),
          (copy-host u g),
          (copy-hostname u g),
          (port_of-url u g),
          value,
          (path_of-url u g),
          (copy-pathname u g),
          search-fault a b e f clear,
        )
        refl
