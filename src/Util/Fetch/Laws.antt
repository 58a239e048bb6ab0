-- ===== src/Util/Fetch/Laws.antt =====
-- Where `http_get` of src/util/util.c is undefined, and what it returns of a response.
use ryze.Base.{
  ℕ, ◌+◌, ◌-◌, ◌≤◌, ◌<◌, Bool, true, false, ◌==◌, leb, ◌≡◌, ◌≢◌, refl, ◌⊎◌, inl, inr, Option, none,
  some, List, [], ◌∷◌, ◌++◌, All, length, take, drop, length-append, take-all, Run, ok, fault,
  arith,
}
use ryze.Http.Chars.{Bytes}
use ryze.Util.Strings.{strstr}
use ryze.Util.Normalize.{first_string}
use ryze.Util.Client.{blank_line}
use ryze.Util.Client.Laws.{concat}
use ryze.Util.Fetch.{
  Answers, scheme_of, split_host, host_port, address_of, receive_rest, fill_result, first_packet,
  read_response, http_get,
}

-- Later packets that bring just the rest of the content are all received.
receive_rest-concat :
    (packets : List Bytes) (room : ℕ)
    → All (λ p. 0 < length p) packets
    → length (concat packets) ≤ room
    → receive_rest room packets ≡ concat packets
unfolding receive_rest concat
receive_rest-concat [] room h fits = refl
receive_rest-concat ([] ∷ packets) room h fits = absurd (omega (arith, h.0))
receive_rest-concat ((c ∷ packet) ∷ packets) room h fits =
    let sum = length-append packet (concat packets) in
    let some_room : (room == 0) ≡ false = ground arith in
    let all : take room (c ∷ packet) ≡ c ∷ packet = take-all room (c ∷ packet) (omega arith) in
    rw
      (
        some_room,
        all,
        receive_rest-concat packets (room - length (c ∷ packet)) h.1 (omega arith),
        receive_rest,
      )
      refl

-- Content of the length that the header tells is returned as a whole, in however many packets it
-- comes.
pub fill_result-concat :
    (n : ℕ) (first : Bytes) (packets : List Bytes)
    → All (λ p. 0 < length p) packets
    → length first + length (concat packets) ≡ n
    → fill_result n first packets ≡ ok (some (first ++ concat packets, 0))
unfolding fill_result
fill_result-concat n first packets h size =
    let fits : leb (length first) n ≡ true = ground arith in
    let sum : n - length (first ++ concat packets) ≡ 0 =
      omega (arith, length-append first (concat packets)) in
    rw (fits, receive_rest-concat packets (n - length first) h (omega arith), sum, fill_result) refl

-- The buffer in the first round: what the first `recv` gives, and what the block holds behind it.
abbrev pub first_buffer : Answers → Bytes
first_buffer sys =
    let packet = (first_packet sys.packets).0 in
    packet ++ take (1024 - length packet) (drop (length packet) sys.block)

unless_empty :
    (packet : Bytes)
    → packet ≢ []
    → (elim packet as (λ _. Run (Option (Bytes × ℕ))) [ [] ↦ ok none | _ ∷ _ ↦ fault ]) ≡ fault
unless_empty [] some_packet = absurd (some_packet refl)
unless_empty (c ∷ packet) some_packet = refl

read_response-fault :
    (sys : Answers)
    → (first_packet sys.packets).0 ≢ []
    → strstr blank_line (first_string (first_buffer sys)) ≡ none
    → read_response sys.block sys.packets ≡ fault
unfolding read_response
read_response-fault sys some_packet missing =
    rw (missing, read_response) (unless_empty (first_packet sys.packets).0 some_packet)

address_of-fault :
    (knows : Bytes → Bool) (host : Bytes) → knows host ≡ true → address_of knows host ≡ fault
unfolding address_of
address_of-fault knows host known = rw known refl

-- For an address with a scheme and a readable port the behaviour is undefined if the resolver knows
-- the host, whose `struct hostent` is then freed, or if it does not and the header does not end in
-- the first packet, so that a byte behind the grown buffer is written.
pub http_get-undefined :
    (sys : Answers) (url : Bytes) (start scheme_port port : ℕ)
    → scheme_of url ≡ some (start, scheme_port)
    → host_port scheme_port (split_host (drop start url)).0 ≡ ok port
    → (sys.knows (split_host (drop start url)).0 ≡ true)
      ⊎ ((sys.knows (split_host (drop start url)).0 ≡ false)
          × ((first_packet sys.packets).0 ≢ [])
          × (strstr blank_line (first_string (first_buffer sys)) ≡ none))
    → http_get sys url ≡ fault
unfolding http_get address_of
http_get-undefined sys url start scheme_port port scheme at (inl known) =
    rw (scheme, at, known, http_get, address_of) refl
http_get-undefined sys url start scheme_port port scheme at (inr (unknown, some_packet, missing)) =
    rw (scheme, at, unknown, read_response-fault sys some_packet missing, http_get, address_of) refl
