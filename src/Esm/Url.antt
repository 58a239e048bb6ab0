-- ===== src/Esm/Url.antt =====
-- The address that a module of src/esm/esm.cc sees of itself.
use ryze.Base.{ℕ, ◌≡◌, refl, sym, ap, ◌∙◌, inl, inr, Option, none, some, Option-cases, ok, arith}
use ryze.Http.Chars.{Bytes}
use ryze.Esm.{
  World, Loader, find, insert, alloc, content_of, compile_module, path_from, path_of_module,
  resolve_module_callback, import_meta_obj_callback,
}
use ryze.Esm.Owned.{Gives, Gives-bind, Any, Gives-Any, Gives-ok, insert-new}
use ryze.Esm.Twice.{find-cons}

path_of_module-new :
    (hash p : ℕ) (path : Bytes) (s : Loader)
    → find hash s.module_path_map ≡ some p
    → s.text p ≡ some path
    → path_of_module hash s ≡ ok path
unfolding path_of_module
path_of_module-new hash p path s at e = rw (at, path_of_module) (rw e refl)

-- What a module that is given says of itself, if its hash is new.
abbrev Told : Loader → Bytes → Option ℕ × Loader → Type 0
Told s path r =
    (hash : ℕ)
    → r.0 ≡ some hash
    → find hash s.module_path_map ≡ none
    → path_of_module hash r.1 ≡ ok path

compile_module-Told :
    (w : World) (specifier path : Bytes) (s : Loader)
    → Gives (Told s path) (compile_module w specifier path s.next (alloc path s))
unfolding compile_module
compile_module-Told w specifier path s =
    Gives-bind Any (Told s path) (content_of w path) _ (Gives-Any (content_of w path)) (λ text _.
      elim (Option-cases (w.compile s.calls specifier text)) [
        | inl refused ↦ rw refused (λ h e _. absurd (cc))
        | inr (hash, given) ↦ rw given (λ h e new.
            let same : hash ≡ h = cc in
            path_of_module-new h s.next path _
              (ap (λ k. find h (insert k s.next s.module_path_map)) same
                ∙ ap (find h) (insert-new h s.next s.module_path_map new)
                ∙ find-cons h h s.next s.module_path_map
                ∙ ground arith)
              (ground arith))
      ])

-- A module that `resolve_module_callback` gives for an import sees the path that `normalize_path`
-- makes of the specifier and the directory of the module that imports it, if V8 has given it a hash
-- that no module before it has.
pub import_meta-resolve :
    (w : World) (specifier : Bytes) (referer hash : ℕ) (from path : Bytes) (s s' : Loader)
    → path_of_module referer s ≡ ok from
    → path_from specifier from ≡ ok path
    → resolve_module_callback w specifier referer s ≡ ok (some hash, s')
    → find hash s.module_path_map ≡ none
    → import_meta_obj_callback hash s' ≡ ok path
unfolding import_meta_obj_callback resolve_module_callback
import_meta-resolve w specifier referer hash from path s s' at_referer at_path given new =
    let opened : resolve_module_callback w specifier referer s
        ≡ compile_module w specifier path s.next (alloc path s) =
      rw (at_referer, at_path) refl in
    Gives-ok (Told s path) (compile_module w specifier path s.next (alloc path s))
      (compile_module-Told w specifier path s) (sym opened ∙ given) hash refl new
