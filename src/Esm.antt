-- ===== src/Esm.antt =====
-- src/esm/esm.cc: the modules of the runtime, and the paths that they came from. What V8 and the
-- system answer is a parameter; `malloc` is taken to succeed, and so is making a string of V8.
pub mod Owned
pub mod Twice
pub mod Url
use ryze.Base.{
  ℕ, suc, ◌+◌, Bool, true, false, ◌&&◌, ◌==◌, if◌then◌else◌, Option, none, some, List, [], ◌∷◌, Run,
  ok, fault, out_of_fuel, ◌>>=◌,
}
use ryze.Http.Chars.{Bytes}
use ryze.Util.Dirname.{dirname, is_http_path, is_absolute_path}
use ryze.Util.Normalize.{first_string}
use ryze.Util.Resolve.{normalize_path}
use ryze.Util.Fetch.{Answers, Reply, http_get}
use ryze.Util.File.{Fread, read_file}

-- What `fopen`, `ftell` and `fread` answer for a path.
pub record FileAnswers : Type 0 where
  pub opened : Bool
  pub size : ℕ
  pub reads : List Fread

-- `compile` is CompileModule: the identity hash of the module, or `none`, for the number of the call,
-- the specifier and the text. InstantiateModule asks for `requests`, a specifier and the hash of the
-- module that imports it each, and is true if all are given and `instantiates`. `evaluates` is
-- whether Evaluate gives a promise, and `pending` whether this stays so.
pub record World : Type 0 where
  pub cwd : Bytes
  pub files : Bytes → FileAnswers
  pub net : Bytes → Answers
  pub compile : ℕ → Bytes → Bytes → Option ℕ
  pub requests : List (Bytes × ℕ)
  pub instantiates : Bool
  pub evaluates : Bool
  pub pending : Bool

-- `module_path_map`, with a pointer for each hash; the strings of paths at the pointers, `none` where
-- none is allocated; the next pointer of `malloc`; and the number of calls of CompileModule.
pub record Loader : Type 0 where
  pub module_path_map : List (ℕ × ℕ)
  pub text : ℕ → Option Bytes
  pub next : ℕ
  pub calls : ℕ

abbrev pub update : (ℕ → Option Bytes) → ℕ → Option Bytes → ℕ → Option Bytes
update f p v q = if q == p then v else f q

abbrev pub no_modules : Loader
no_modules = record { module_path_map = []; text = λ _. none; next = 1; calls = 0 }

-- module_path_map.find(hash)
unfoldable pub find {ℓ} : {A : Type ℓ} → ℕ → List (ℕ × A) → Option A
find hash [] = none
find hash ((h, p) ∷ m) = let rest = find hash m in if h == hash then some p else rest

-- module_path_map.insert, which changes nothing if the hash is there.
unfoldable pub insert {ℓ} : {A : Type ℓ} → ℕ → A → List (ℕ × A) → List (ℕ × A)
insert hash p m = elim (find hash m) [ none ↦ (hash, p) ∷ m | some _ ↦ m ]

unfoldable pub free : ℕ → Loader → Run Loader
free p s = elim (s.text p) [ none ↦ fault | some _ ↦ ok (record s { text = update s.text p none }) ]

abbrev pub alloc : Bytes → Loader → Loader
alloc path s = record s { text = update s.text s.next (some path); next = suc s.next }

-- A string that `normalize_path` or `http_get` gives, which is read; bytes that are not set are
-- undefined.
unfoldable pub set_bytes : Bytes × ℕ → Run Bytes
set_bytes (text, unset) = if unset == 0 then ok text else fault

-- The string of NewFromUtf8, which reads through NULL.
unfoldable pub file_text : Option Bytes → Run Bytes
file_text none = fault
file_text (some text) = ok (first_string text)

unfoldable pub reply_text : Option Reply → Run Bytes
unfolding set_bytes
reply_text none = fault
reply_text (some reply) = elim reply.result [
  | none ↦ fault
  | some result ↦ do text ← set_bytes result; ok (first_string text)
]

unfoldable pub content_of : World → Bytes → Run Bytes
unfolding is_http_path http_get read_file file_text reply_text
content_of w path =
    if is_http_path path then (do reply ← http_get (w.net path) path; reply_text reply) else (do
      let file = w.files path
      content ← read_file file.opened file.size file.reads
      file_text content.text)

-- CompileModule and, if it gives a module, the insert.
unfoldable pub compile_module :
    World → (specifier path : Bytes) → (p : ℕ) → Loader → Run (Option ℕ × Loader)
unfolding content_of insert find
compile_module w specifier path p s = do
  text ← content_of w path
  elim (w.compile s.calls specifier text) [
    | none ↦ ok (none, record s { calls = suc s.calls })
    | some hash ↦ ok (
      some hash,
      record s { module_path_map = insert hash p s.module_path_map; calls = suc s.calls },
    )
  ]

-- The path of `resolve_module_callback`.
unfoldable pub path_from : (specifier referer_path : Bytes) → Run Bytes
unfolding dirname normalize_path set_bytes
path_from specifier referer_path = do
  dir ← dirname referer_path
  path ← normalize_path specifier dir
  set_bytes path

-- The path of a module, which may not be in the map.
unfoldable pub path_of_module : ℕ → Loader → Run Bytes
unfolding find
path_of_module hash s = elim (find hash s.module_path_map) [
  | none ↦ fault
  | some p ↦ elim (s.text p) [ none ↦ fault | some path ↦ ok path ]
]

-- The directory is freed before it returns, so that it has no place among the strings.
unfoldable pub resolve_module_callback :
    World → (specifier : Bytes) → (referer : ℕ) → Loader → Run (Option ℕ × Loader)
unfolding path_of_module path_from compile_module
resolve_module_callback w specifier referer s = do
  referer_path ← path_of_module referer s
  path ← path_from specifier referer_path
  compile_module w specifier path s.next (alloc path s)

-- `url` of import.meta
unfoldable pub import_meta_obj_callback : ℕ → Loader → Run Bytes
unfolding path_of_module
import_meta_obj_callback hash s = path_of_module hash s

-- InstantiateModule
unfoldable pub instantiate : World → List (Bytes × ℕ) → Loader → Run (Bool × Loader)
unfolding resolve_module_callback
instantiate w [] s = ok (w.instantiates, s)
instantiate w ((specifier, referer) ∷ requests) s =
    resolve_module_callback w specifier referer s >>= λ (r : Option ℕ × Loader). elim r.0 [
      | none ↦ ok (false, r.1)
      | some _ ↦ instantiate w requests r.1
    ]

-- `path` of `esm_init`
unfoldable pub entry_path : World → Bytes → Run Bytes
unfolding is_absolute_path normalize_path set_bytes
entry_path w file_path =
    if is_absolute_path file_path
    then ok file_path
    else (do path ← normalize_path file_path w.cwd; set_bytes path)

-- Behind InstantiateModule; the `path` at `p` is freed where 0 is returned.
unfoldable pub finish_init : World → (p : ℕ) → Bool × Loader → Run (Bool × Loader)
unfolding free
finish_init w p (linked, s) =
    if linked && w.evaluates
    then (if w.pending then out_of_fuel else ok (true, s))
    else (do s' ← free p s; ok (false, s'))

-- Behind CompileModule.
unfoldable pub link_entry : World → (p : ℕ) → Option ℕ × Loader → Run (Bool × Loader)
unfolding free instantiate finish_init
link_entry w p (none, s) = do s' ← free p s; ok (false, s')
link_entry w p (some _, s) = do r ← instantiate w w.requests s; finish_init w p r

unfoldable pub esm_init : World → Bytes → Loader → Run (Bool × Loader)
unfolding entry_path compile_module link_entry
esm_init w file_path s = do
  path ← entry_path w file_path
  r ← compile_module w path path s.next (alloc path s)
  link_entry w s.next r

-- The loop of `esm_destroy`, over what is left of the map.
unfoldable pub free_paths : List (ℕ × ℕ) → Loader → Run Loader
free_paths [] s = ok (record s { module_path_map = [] })
free_paths ((h, p) ∷ m) s = free p s >>= free_paths m

unfoldable pub esm_destroy : Loader → Run Loader
unfolding free_paths free
esm_destroy s = free_paths s.module_path_map s
