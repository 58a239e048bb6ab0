-- ===== src/Tests/Resolve.antt =====
-- Modules that a module of an address or a directory imports, as `normalize_path` of
-- src/util/util.c resolves them.
use Prim.Native.Char.{code}
use Prim.Native.String.{String}
use ryze.Base.{◌≡◌, refl, [], ◌∷◌, ok, arith}
use ryze.Http.Chars.{Bytes}
use ryze.Util.Url.{str_same}
use ryze.Util.Dirname.{is_absolute_path}
use ryze.Util.Split.{join}
use ryze.Util.Resolve.{root_of, normalize_path}
use ryze.Util.Resolve.Laws.{normalize_path-forward}

abbrev codes : String → Bytes
codes String.[] = []
codes (String.◌∷◌ c s) = code c ∷ codes s

upwards : normalize_path (codes "../d") (codes "http://a/b/c") ≡ ok (codes "http://a/b/d", 0)
unfolding normalize_path
upwards = refl

-- The second ".." takes the length of the first one for that of the part it removes: two bytes in
-- front of the NUL are not set, or the text is cut.
two_upwards : normalize_path (codes "../../d") (codes "/abcd/b") ≡ ok (codes "/d", 2)
unfolding normalize_path
two_upwards = refl

two_upwards_short : normalize_path (codes "../../d") (codes "/a/b") ≡ ok (codes "/", 0)
unfolding normalize_path
two_upwards_short = refl

normalize_path-forward_example : normalize_path (codes "./c") (codes "/a") ≡ ok (codes "/a/c", 0)
unfolding join root_of is_absolute_path str_same
normalize_path-forward_example =
    normalize_path-forward [] (codes "a") [] (codes ".") (codes "c" ∷ []) ((refl, tt), (refl, tt))
      tt ((refl, tt), (refl, tt)) (((refl, tt), (refl, tt)), tt) refl refl tt
      (refl, (refl, (refl, tt))) (omega arith)
