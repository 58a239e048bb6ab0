-- ===== src/Tests/Modules.antt =====
-- Paths of xxx/main.cc, and an import.
use Prim.Native.Char.{code}
use Prim.Native.String.{String}
use ryze.Base.{◌+◌, ◌≡◌, refl, true, false, some, [], ◌∷◌, ok}
use ryze.Http.Chars.{Bytes}
use ryze.Util.Split.{join}
use ryze.Util.Url.{str_same}
use ryze.Esm.{find}
use ryze.Modules.{normalize_path, World, Loader, specifier_of, init_import_meta_object_callback}
use ryze.Modules.Upwards.{normalize_path-above}

abbrev codes : String → Bytes
codes String.[] = []
codes (String.◌∷◌ c s) = code c ∷ codes s

sibling : normalize_path (codes "./c.js") (codes "/a/b") ≡ codes "/a/b/c.js"
unfolding normalize_path
sibling = refl

absolute : normalize_path (codes "/x/../y") (codes "/a") ≡ codes "/y"
unfolding normalize_path
absolute = refl

root : normalize_path (codes "..") (codes "/a") ≡ codes "/"
unfolding normalize_path
root = refl

normalize_path-above_example : normalize_path (codes "../../b/c") (codes "/a") ≡ codes "b/c"
unfolding join str_same
normalize_path-above_example =
    normalize_path-above (codes "a" ∷ []) b'b' [] (codes "c") [] (((refl, tt), refl, refl), tt)
      (((refl, tt), refl, refl), (((refl, tt), refl, refl), tt)) tt

abbrev world : World
world = record {
  cwd = codes "/home";
  files = λ _. record {
    opened = true;
    size = 2;
    reads = (record { bytes = codes "hi"; failed = false }) ∷ [];
  };
  compile = λ n _ _. some (10 + n);
}

abbrev one_module : Loader
one_module = record { module_specifier_map = (10, codes "/p/q/m.js") ∷ []; calls = 1 }

abbrev two_modules : Loader
two_modules = record {
  module_specifier_map = (11, codes "/p/c") ∷ (10, codes "/p/q/m.js") ∷ [];
  calls = 2;
}

url : init_import_meta_object_callback world 10 one_module ≡ ok (codes "/home//p/q/m.js")
unfolding init_import_meta_object_callback specifier_of find
url = refl
