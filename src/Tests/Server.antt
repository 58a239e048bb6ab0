-- ===== src/Tests/Server.antt =====
-- The server of src/http/http_server.c on a system that grants every call, and its parser.
use Prim.Native.Char.{code}
use Prim.Native.String.{String}
use ryze.Base.{true, false, ◌==◌, if◌then◌else◌, ◌≡◌, refl, some, none, [], ◌∷◌, ok, arith}
use ryze.Http.Chars.{Bytes}
use ryze.Http.RequestLine
use ryze.Server.RequestLine.{
  Answer, answer_of, map_run, http_parse_request_line, http_parse_request_line-answer,
}
use ryze.Server.Chunked.{http_decode_chunked}
use ryze.Server.Chunked.Sound.{Decodes, http_decode_chunked-Decodes}
use ryze.Server.Socket.{
  socket, getfl, inet_pton, System, State, http_server_init, http_server_listen,
}
use ryze.Server.Socket.Descriptors.{Initialised, http_server_init-Initialised}
use ryze.Server.Socket.Listen.{Listening, http_server_listen-Listening, http_server_listen-family}

abbrev codes : String → Bytes
codes String.[] = []
codes (String.◌∷◌ c s) = code c ∷ codes s

abbrev request : Bytes
request = codes "GET / HTTP/1.0\r\n\r\n"

answer_value : map_run (λ (a : Answer). a.value) (http_parse_request_line request 18) ≡ ok 16
unfolding http_parse_request_line
answer_value = refl

http_parse_request_line-answer_example :
    http_parse_request_line request 18
    ≡ map_run answer_of (RequestLine.http_parse_request_line request 18)
http_parse_request_line-answer_example = http_parse_request_line-answer request 18

-- `socket` gives 5, the flags are 2, and 2 and 10 are the families of addresses.
abbrev granting : System (Unit {0})
granting c w = (
  elim c [
    | socket af type ↦ some 5
    | getfl fd ↦ some 2
    | inet_pton af host ↦ if af == 2 then some 1 else if af == 10 then some 1 else none
    | _ ↦ some 0
  ],
  w,
)

-- AF_INET and SOCK_STREAM.
abbrev closed_server : State (Unit {0})
closed_server = record {
  world = tt;
  is_open = λ p. p == 1;
  flags = λ p. 0;
  server = record {
    fd = 0;
    sock_af = 2;
    sock_type = 1;
    backlog = 511;
    reuseaddr = 1;
    reuseport = 1;
    keepalive = 1;
    nodelay = 1;
    port = 8080;
    host = 0;
    request_list = 9 ∷ [];
  };
}

init_works : (http_server_init granting closed_server).0 ≡ true
unfolding http_server_init
init_works = refl

http_server_init-Initialised_example :
    Initialised closed_server.is_open (http_server_init granting closed_server)
http_server_init-Initialised_example =
    http_server_init-Initialised granting closed_server (λ fd e. ground (arith, e))

http_server_listen-Listening_example :
    Listening 0 closed_server.is_open (http_server_listen granting closed_server)
http_server_listen-Listening_example = http_server_listen-Listening granting closed_server

http_server_listen-family_example :
    ((http_server_listen granting closed_server).0 ≡ false)
    × ((http_server_listen granting closed_server).1.is_open 0 ≡ false)
http_server_listen-family_example = http_server_listen-family granting closed_server refl

-- The size 1a is read as 161.
abbrev chunk : Bytes
chunk = codes "1a\r\n"

chunk_size : http_decode_chunked chunk 4 ≡ ok (some (161, 4))
unfolding http_decode_chunked
chunk_size = refl

-- The last chunk is refused, and so is a chunk with an extension.
last_chunk : http_decode_chunked (codes "0\r\n") 3 ≡ ok none
unfolding http_decode_chunked
last_chunk = refl

extended_chunk : http_decode_chunked (codes "5;a\r\n") 5 ≡ ok none
unfolding http_decode_chunked
extended_chunk = refl

http_decode_chunked-Decodes_example : Decodes chunk 161 4
http_decode_chunked-Decodes_example =
    http_decode_chunked-Decodes chunk 4 161 4 (omega arith) chunk_size
