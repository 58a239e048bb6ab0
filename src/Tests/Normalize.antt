-- ===== src/Tests/Normalize.antt =====
-- The paths of `main` of src/util/test.c and other ones.
use Prim.Native.Char.{code}
use Prim.Native.String.{String}
use ryze.Base.{◌≡◌, refl, some, none, [], ◌∷◌, ok, fault, Ensures, arith}
use ryze.Http.Chars.{Bytes}
use ryze.Util.Url.{str_same}
use ryze.Util.Split.{join}
use ryze.Util.Parent.{dirname}
use ryze.Util.Parent.Laws.{dirname-parent}
use ryze.Util.Normalize.{normalize_path}
use ryze.Util.Normalize.Laws.{normalize_path-resolve, normalize_path-climb, normalize_path-overflow}

abbrev codes : String → Bytes
codes String.[] = []
codes (String.◌∷◌ c s) = code c ∷ codes s

upwards :
    normalize_path (codes "/a/b/c") (codes "../../e/f/11.js") ≡ ok (some (codes "/a/e/f/11.js"))
unfolding normalize_path
upwards = refl

root : normalize_path (codes "/a") (codes "..") ≡ ok none
unfolding normalize_path
root = refl

above : normalize_path (codes "/a") (codes "../../b") ≡ fault
unfolding normalize_path
above = refl

normalize_path-resolve_example :
    normalize_path (codes "/a/b") (codes "../c") ≡ ok (some (codes "/a/c"))
unfolding join str_same
normalize_path-resolve_example =
    normalize_path-resolve [] (codes "a" ∷ codes "b" ∷ []) (codes "..") (codes "c" ∷ []) (tt, tt)
      (((refl, tt), (refl, tt)), (((refl, tt), (refl, tt)), tt))
      ((refl, (refl, tt)), (refl, (refl, tt))) (((refl, tt), (refl, tt)), tt)
      (codes "a" ∷ codes "c" ∷ []) refl refl

normalize_path-climb_example :
    Ensures (λ r. r ≡ none) (normalize_path (codes "a") (codes "../../b"))
unfolding join str_same
normalize_path-climb_example =
    normalize_path-climb (codes "a") [] (codes "..") (codes ".." ∷ codes "b" ∷ [])
      ((refl, tt), (refl, tt)) tt ((refl, (refl, tt)), (refl, (refl, tt)))
      (((refl, (refl, tt)), (refl, (refl, tt))), (((refl, tt), (refl, tt)), tt)) (omega arith)

normalize_path-overflow_example : normalize_path (codes "a") (codes "b") ≡ fault
unfolding join str_same
normalize_path-overflow_example =
    normalize_path-overflow (codes "a") [] (codes "b") [] ((refl, tt), (refl, tt)) tt
      ((refl, tt), (refl, tt)) tt refl

dirname-parent_example : dirname (codes "/usr/local//") ≡ codes "/usr"
dirname-parent_example =
    dirname-parent (codes "/usr") b'l' (codes "ocal") 2 (refl, (refl, (refl, (refl, (refl, tt)))))

root_parent : dirname (codes "/") ≡ codes "."
unfolding dirname
root_parent = refl
