-- ===== src/Modules.antt =====
-- xxx/main.cc: the module loader of the earlier runtime, whose paths are strings of C++. What V8 and
-- the system answer is a parameter.
pub mod Upwards
pub mod Import
use mathlib.Core.List.{reverse}
use ryze.Base.{
  ℕ, suc, ◌+◌, Bool, true, false, ◌==◌, if◌then◌else◌, Option, none, some, List, [], ◌∷◌, ◌++◌, Run,
  ok, fault, ◌>>=◌,
}
use ryze.Http.Chars.{Bytes}
use ryze.Util.Strings.{byte}
use ryze.Util.Url.{str_same}
use ryze.Util.Normalize.{dots}
use ryze.Util.Split.{join}
use ryze.Util.File.{read_file}
use ryze.Esm.{FileAnswers, find, insert}

-- The segments that getline gives up to each '/', with `segment` read of the first one; there is
-- none behind a '/' at the end.
unfoldable pub get_segments : (segment text : Bytes) → List Bytes
get_segments segment [] = elim segment [ [] ↦ [] | c ∷ s ↦ (c ∷ s) ∷ [] ]
get_segments segment (c ∷ text) =
    let next = segment ∷ get_segments [] text in
    let more = get_segments (segment ++ (c ∷ [])) text in if c == b'/' then next else more

-- The vector `segments` with its last one first.
unfoldable pub pop_back : List Bytes → List Bytes
pop_back [] = []
pop_back (s ∷ segments) = segments

unfoldable pub enter_segment : Bytes → List Bytes → List Bytes
unfolding pop_back
enter_segment segment segments =
    if str_same segment dots
    then pop_back segments
    else if str_same segment (byte b'.')
    then segments
    else segment ∷ segments

unfoldable pub walk_segments : List Bytes → List Bytes → List Bytes
walk_segments [] segments = segments
walk_segments (s ∷ rest) segments = walk_segments rest (enter_segment s segments)

unfoldable pub join_segments : List Bytes → Bytes
unfolding join
join_segments [] = b'/' ∷ []
join_segments (s ∷ []) = b'/' ∷ s
join_segments (s ∷ t ∷ segments) = join b'/' s (t ∷ segments)

unfoldable pub absolute_path : (path dir : Bytes) → Bytes
absolute_path [] dir = dir ++ (b'/' ∷ [])
absolute_path (c ∷ path) dir = if c == b'/' then c ∷ path else dir ++ (b'/' ∷ c ∷ path)

unfoldable pub normalize_path : (path dir : Bytes) → Bytes
unfolding get_segments walk_segments enter_segment join_segments absolute_path str_same
normalize_path path dir =
    join_segments (reverse (walk_segments (get_segments [] (absolute_path path dir)) []))

-- What stands before the last '/', if there is one.
unfoldable pub before_slash : Bytes → Option Bytes
before_slash [] = none
before_slash (c ∷ s) = elim (before_slash s) [
  | some d ↦ some (c ∷ d)
  | none ↦ if c == b'/' then some [] else none
]

unfoldable pub dir_of : Bytes → Bytes
dir_of str = elim (before_slash str) [ none ↦ [] | some d ↦ d ]

-- `compile` is CompileModule for the number of the call, the specifier and the text.
pub record World : Type 0 where
  pub cwd : Bytes
  pub files : Bytes → FileAnswers
  pub compile : ℕ → Bytes → Bytes → Option ℕ

-- `module_specifier_map`, and the number of calls of CompileModule.
pub record Loader : Type 0 where
  pub module_specifier_map : List (ℕ × Bytes)
  pub calls : ℕ

-- `ReadFile` makes its string of all bytes read.
unfoldable pub read_text : World → Bytes → Run (Option Bytes)
unfolding read_file
read_text w path = do
  let file = w.files path
  content ← read_file file.opened file.size file.reads
  ok content.text

-- The specifier of a module, which may not be in the map.
unfoldable pub specifier_of : ℕ → Loader → Run Bytes
specifier_of hash s = elim (find hash s.module_specifier_map) [
  | none ↦ fault
  | some specifier ↦ ok specifier
]

-- `ResolveModuleCallback` behind CompileModule, and behind `ReadFile`.
unfoldable pub put_module : (path : Bytes) → Loader → Option ℕ → Run (Option ℕ × Loader)
put_module path s none = ok (none, record s { calls = suc s.calls })
put_module path s (some hash) = ok (
  some hash,
  record { module_specifier_map = insert hash path s.module_specifier_map; calls = suc s.calls },
)

unfoldable pub compile_text :
    World → (specifier path : Bytes) → Loader → Option Bytes → Run (Option ℕ × Loader)
compile_text w specifier path s none = ok (none, s)
compile_text w specifier path s (some text) = put_module path s (w.compile s.calls specifier text)

unfoldable pub resolve_module_callback :
    World → (specifier : Bytes) → (referer : ℕ) → Loader → Run (Option ℕ × Loader)
resolve_module_callback w specifier referer s = do
  str ← specifier_of referer s
  let path = normalize_path specifier (dir_of str)
  content ← read_text w path
  compile_text w specifier path s content

-- `url` of import.meta, which puts the working directory before an absolute path too.
unfoldable pub init_import_meta_object_callback : World → ℕ → Loader → Run Bytes
init_import_meta_object_callback w hash s = do
  specifier ← specifier_of hash s
  ok (w.cwd ++ (b'/' ∷ specifier))
