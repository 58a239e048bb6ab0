-- ===== src/Tests/Util.antt =====
-- `dirname` of src/util/util.c on paths like those of its tests.
use Prim.Native.Char.{code}
use Prim.Native.String.{String}
use ryze.Base.{◌≡◌, refl, some, true, false, [], ◌∷◌, take, ok, fault, arith}
use ryze.Http.Chars.{Bytes}
use ryze.Util.Url.{url_parse}
use ryze.Util.Dirname.{http_prefix, is_absolute_path, start_of, dirname}
use ryze.Util.Dirname.Laws.{dirname-append, dirname-fault, dirname-host}

abbrev codes : String → Bytes
codes String.[] = []
codes (String.◌∷◌ c s) = code c ∷ codes s

absolute : is_absolute_path (codes "http://a") ≡ true
unfolding is_absolute_path
absolute = refl

root : dirname (codes "/usr/") ≡ ok (codes "/")
unfolding dirname
root = refl

dirname-append_example : dirname (codes "/usr/local/") ≡ ok (codes "/usr")
unfolding start_of
dirname-append_example =
    dirname-append (codes "/usr") (codes "local") true (refl, (refl, (refl, (refl, (refl, tt)))))
      (λ e. cc) (omega arith)

dirname-fault_example : dirname (codes "usr/") ≡ fault
unfolding start_of
dirname-fault_example = dirname-fault (codes "usr") true (refl, (refl, (refl, tt))) refl

dirname-host_example : dirname (codes "http://a.b") ≡ ok (take 6 http_prefix)
dirname-host_example = dirname-host (codes "a.b") false (refl, (refl, (refl, tt)))

-- The address of the comment in `main` of src/util/test.c.
parsed :
    url_parse (codes "http://a.b:81/c/?d=e#f")
    ≡ ok (record {
      protocol = codes "http:";
      host = codes "a.b:81";
      hostname = codes "a.b";
      port = 81;
      path = codes "/c/?d=e";
      pathname = codes "/c/";
      search = some (codes "?d=e");
      hash = some (codes "#f");
    })
unfolding url_parse
parsed = refl
