-- ===== src/Tests/Esm.antt =====
-- A program of two modules, and one that does not link.
use Prim.Native.Char.{code}
use Prim.Native.String.{String}
use ryze.Base.{ℕ, ◌+◌, Bool, true, false, ◌≡◌, refl, none, some, [], ◌∷◌, All, ok, fault}
use ryze.Http.Chars.{Bytes}
use ryze.Esm.{
  World, Loader, update, no_modules, find, content_of, path_from, path_of_module,
  resolve_module_callback, import_meta_obj_callback, entry_path, esm_init, esm_destroy,
}
use ryze.Esm.Owned.{esm_destroy-esm_init}
use ryze.Esm.Twice.{esm_destroy-twice}
use ryze.Esm.Url.{import_meta-resolve}

abbrev codes : String → Bytes
codes String.[] = []
codes (String.◌∷◌ c s) = code c ∷ codes s

-- Every file is the two bytes "hi", and the n-th module has the hash 10 + n.
abbrev linking : Bool → World
linking instantiates = record {
  cwd = codes "/home";
  files = λ _. record {
    opened = true;
    size = 2;
    reads = (record { bytes = codes "hi"; failed = false }) ∷ [];
  };
  net = λ _. record { knows = λ _. false; socket = none; packets = []; block = [] };
  compile = λ n _ _. some (10 + n);
  requests = (codes "./b", 10) ∷ [];
  instantiates = instantiates;
  evaluates = true;
  pending = false;
}

abbrev one_module : Loader
one_module = record {
  module_path_map = (10, 1) ∷ [];
  text = update (λ _. none) 1 (some (codes "/a/m"));
  next = 2;
  calls = 1;
}

abbrev two_modules : Loader
two_modules = record {
  module_path_map = (11, 2) ∷ (10, 1) ∷ [];
  text = update one_module.text 2 (some (codes "/a/b"));
  next = 3;
  calls = 2;
}

linked : esm_init (linking true) (codes "/a/m") no_modules ≡ ok (true, two_modules)
unfolding esm_init
linked = refl

unlinked :
    esm_init (linking false) (codes "/a/m") no_modules
    ≡ ok (false, record two_modules { text = update two_modules.text 1 none })
unfolding esm_init
unlinked = refl

esm_destroy-esm_init_example :
    (s : Loader) × (esm_destroy two_modules ≡ ok s)
    × (s.module_path_map ≡ [])
    × All (λ (entry : ℕ × ℕ). s.text entry.1 ≡ none) two_modules.module_path_map
esm_destroy-esm_init_example = esm_destroy-esm_init (linking true) (codes "/a/m") two_modules linked

entry : entry_path (linking false) (codes "/a/m") ≡ ok (codes "/a/m")
unfolding entry_path
entry = refl

entry_text : content_of (linking false) (codes "/a/m") ≡ ok (codes "hi")
unfolding content_of
entry_text = refl

esm_destroy-twice_example :
    esm_destroy (record two_modules { text = update two_modules.text 1 none }) ≡ fault
esm_destroy-twice_example =
    esm_destroy-twice (linking false) (codes "/a/m") (codes "/a/m") (codes "hi") 10
      (record two_modules { text = update two_modules.text 1 none }) entry entry_text refl unlinked

referer : path_of_module 10 one_module ≡ ok (codes "/a/m")
unfolding path_of_module
referer = refl

sibling : path_from (codes "./b") (codes "/a/m") ≡ ok (codes "/a/b")
unfolding path_from
sibling = refl

resolved :
    resolve_module_callback (linking true) (codes "./b") 10 one_module ≡ ok (some 11, two_modules)
unfolding resolve_module_callback
resolved = refl

new_hash : find 11 one_module.module_path_map ≡ none
unfolding find
new_hash = refl

import_meta-resolve_example : import_meta_obj_callback 11 two_modules ≡ ok (codes "/a/b")
import_meta-resolve_example =
    import_meta-resolve (linking true) (codes "./b") 10 11 (codes "/a/m") (codes "/a/b") one_module
      two_modules referer sibling resolved new_hash
