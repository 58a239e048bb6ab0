-- ===== src/Tests/Url.antt =====
-- Addresses in the form of those in `main` of src/util/test.c.
use Prim.Native.Char.{code}
use Prim.Native.String.{String}
use ryze.Base.{◌≡◌, refl, some, none, [], ◌∷◌, ok, fault}
use ryze.Http.Chars.{Bytes}
use ryze.Util.Strings.{atoi}
use ryze.Util.Url.{url_parse}
use ryze.Util.Url.Parts.{Parts, print_url, IsAddress}
use ryze.Util.Url.RoundTrip.{url_parse-print_url, url_parse-fault}

abbrev codes : String → Bytes
codes String.[] = []
codes (String.◌∷◌ c s) = code c ∷ codes s

-- http://b:81/c?d#f
abbrev address : Parts
address = record {
  protocol = codes "http:";
  hostname = codes "b";
  port = some (codes "81");
  rest = codes "c";
  query = some (codes "d");
  fragment = some (codes "f");
}

address-IsAddress : IsAddress address
address-IsAddress = record {
  protocol_slash = (refl, (refl, (refl, (refl, (refl, tt)))));
  protocol_query = (refl, (refl, (refl, (refl, (refl, tt)))));
  protocol_hash = (refl, (refl, (refl, (refl, (refl, tt)))));
  host_colon = (refl, tt);
  host_slash = (refl, (refl, (refl, (refl, tt))));
  host_query = (refl, (refl, (refl, (refl, tt))));
  host_hash = (refl, (refl, (refl, (refl, tt))));
  rest_query = (refl, tt);
  rest_hash = (refl, tt);
  query_hash = (refl, (refl, tt));
}

url_parse-print_url_example :
    url_parse (print_url address)
    ≡ ok (record {
      protocol = codes "http:";
      host = codes "b:81";
      hostname = codes "b";
      port = 81;
      path = codes "/c?d";
      pathname = codes "/c";
      search = some (codes "?d");
      hash = some (codes "#f");
    })
unfolding atoi
url_parse-print_url_example =
    url_parse-print_url address address-IsAddress 81 (refl, (refl, tt)) refl

-- http://b:81/c#f?
abbrev late_mark : Parts
late_mark = record address { query = none; fragment = some (codes "f?") }

late_mark-IsAddress : IsAddress late_mark
late_mark-IsAddress = record {
  protocol_slash = (refl, (refl, (refl, (refl, (refl, tt)))));
  protocol_query = (refl, (refl, (refl, (refl, (refl, tt)))));
  protocol_hash = (refl, (refl, (refl, (refl, (refl, tt)))));
  host_colon = (refl, tt);
  host_slash = (refl, (refl, (refl, (refl, tt))));
  host_query = (refl, (refl, (refl, (refl, tt))));
  host_hash = (refl, (refl, (refl, (refl, tt))));
  rest_query = (refl, tt);
  rest_hash = (refl, tt);
  query_hash = tt;
}

url_parse-fault_example : url_parse (print_url late_mark) ≡ fault
unfolding atoi
url_parse-fault_example =
    url_parse-fault late_mark late_mark-IsAddress 81 (codes "f") [] refl refl refl (refl, tt)
