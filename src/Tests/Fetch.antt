-- ===== src/Tests/Fetch.antt =====
-- `http_get` of src/util/util.c on an address with a port, and on one of a host that is known.
use ryze.Base.{◌≡◌, refl, false, true, some, inl, [], ◌∷◌, ◌++◌, replicate, ok, fault, arith}
use ryze.Util.Client.Laws.{concat}
use ryze.Util.Fetch.{
  codes, Answers, scheme_of, split_host, host_port, fill_result, print_request, http_get,
}
use ryze.Util.Fetch.Laws.{fill_result-concat, http_get-undefined}

abbrev answers : Answers
answers = record {
  knows = λ host. false;
  socket = some 3;
  packets = (codes "Content-Length: 4" ++ (13 ∷ 10 ∷ 13 ∷ 10 ∷ codes "bo")) ∷ codes "dy" ∷ [];
  block = replicate 1025 0;
}

answered :
    http_get answers (codes "http://1.2.3.4:81/c")
    ≡ ok (
        some (record {
          result = some (codes "body", 0);
          address = codes "1.2.3.4";
          port = 81;
          request = print_request (codes "/c") (codes "1.2.3.4:81");
          closed = some 3;
        }))
unfolding http_get
answered = refl

fill_result-concat_example :
    fill_result 4 (codes "bo") (codes "d" ∷ codes "y" ∷ []) ≡ ok (some (codes "body", 0))
unfolding concat
fill_result-concat_example =
    fill_result-concat 4 (codes "bo") (codes "d" ∷ codes "y" ∷ []) (omega arith, (omega arith, tt))
      refl

http_get-undefined_example :
    http_get (record answers { knows = λ host. true }) (codes "http://b/c") ≡ fault
unfolding scheme_of split_host host_port
http_get-undefined_example =
    http_get-undefined (record answers { knows = λ host. true }) (codes "http://b/c") 7 80 80 refl
      refl (inl refl)
