-- ===== src/Tests/Client.antt =====
-- A server of one response, and `http_get` on it.
use Prim.Native.Char.{code}
use Prim.Native.String.{String}
use ryze.Base.{◌≡◌, refl, true, some, none, List, [], ◌∷◌, ◌++◌, ok, fault, arith}
use ryze.Http.Chars.{Bytes}
use ryze.Util.Url.{Url, url_parse}
use ryze.Util.Client.{Network, blank_line, print_headers, http_get}
use ryze.Util.Client.Laws.{
  concat, start_at, Closing, http_get-body_of, http_get-fault, http_get-Closing,
}

abbrev codes : String → Bytes
codes String.[] = []
codes (String.◌∷◌ c s) = code c ∷ codes s

abbrev server : List Bytes → Network
server packets = record {
  knows = λ host. true;
  socket = some 3;
  connect = λ port. true;
  packets = packets;
}

abbrev page : Url
page = record {
  protocol = codes "http:";
  host = codes "b";
  hostname = codes "b";
  port = 80;
  path = codes "/c";
  pathname = codes "/c";
  search = none;
  hash = none;
}

abbrev response : List Bytes
response = (codes "H" ++ blank_line) ∷ codes "ok" ∷ []

http_get-body_of_example :
    http_get (server response) (codes "http://b/c") []
    ≡ ok (record {
      result = some (codes "ok");
      sent = print_headers page [] ∷ [];
      opened = 3 ∷ [];
      closed = 3 ∷ [];
    })
unfolding url_parse concat start_at
http_get-body_of_example =
    http_get-body_of (server response) (codes "http://b/c") [] page 3 refl refl refl refl
      ((omega arith, omega arith), ((omega arith, omega arith), tt)) (omega arith) (omega arith)

http_get-fault_example : http_get (server (codes "H" ∷ [])) (codes "http://b/c") [] ≡ fault
unfolding url_parse concat
http_get-fault_example =
    http_get-fault (server (codes "H" ∷ [])) (codes "http://b/c") [] page 3 refl refl refl refl
      ((omega arith, omega arith), tt) (omega arith)

http_get-Closing_example : Closing (http_get (server response) (codes "http://b/c") [])
http_get-Closing_example = http_get-Closing (server response) (codes "http://b/c") []
