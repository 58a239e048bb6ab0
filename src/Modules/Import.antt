-- ===== src/Modules/Import.antt =====
-- Where the modules of xxx/main.cc that import one another stand.
use ryze.Base.{ℕ, ◌≡◌, Option, none, some}
use ryze.Http.Chars.{Bytes}
use ryze.Esm.{find}
use ryze.Modules.{Loader}

-- Where a module that is given is put, if its hash is new.
abbrev PutAt : Loader → Bytes → Option ℕ × Loader → Type 0
PutAt s path r =
    (hash : ℕ)
    → r.0 ≡ some hash
    → find hash s.module_specifier_map ≡ none
    → find hash r.1.module_specifier_map ≡ some path
