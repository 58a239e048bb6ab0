-- ===== src/Esm/Twice.antt =====
-- Where `esm_init` of src/esm/esm.cc fails behind CompileModule, its string is freed twice.
use mathlib.Core.Path.{subst}
use ryze.Base.{
  ℕ, Bool, false, ◌&&◌, ◌≡◌, refl, sym, ap, ◌∙◌, inl, inr, ◌==◌, if◌then◌else◌, Bool-cases, none,
  some, Option-cases, List, [], ◌∷◌, Run, ok, fault, ◌>>=◌, arith,
}
use ryze.Http.Chars.{Bytes}
use ryze.Esm.{
  World, Loader, update, no_modules, find, insert, free, alloc, content_of, compile_module,
  path_from, path_of_module, resolve_module_callback, instantiate, entry_path, finish_init,
  link_entry, esm_init, free_paths, esm_destroy,
}
use ryze.Esm.Owned.{Gives, Gives-bind, Any, Gives-Any, Gives-ok, insert-new, insert-old, free-live}

pub find-cons {ℓ} :
    {A : Type ℓ} (h k : ℕ) (q : A) (m : List (ℕ × A))
    → find h ((k, q) ∷ m) ≡ (if k == h then some q else find h m)
unfolding find
find-cons h k q m = refl

find-nil : (h : ℕ) → find {A = ℕ} h [] ≡ none
unfolding find
find-nil h = refl

-- A new module does not take the place of another one.
find-insert : (h p k q : ℕ) (m : List (ℕ × ℕ)) → find h m ≡ some p → find h (insert k q m) ≡ some p
find-insert h p k q m e = elim (Option-cases (find k m)) [
  | inr (q', old) ↦ ap (find h) (insert-old k q m old) ∙ e
  | inl new ↦ elim (Bool-cases (k == h)) [
    | inl same ↦
        let eq : k ≡ h = ground arith in
        let none_there = ap (λ j. find j m) (sym eq) ∙ new in absurd (cc)
    | inr other ↦ ap (find h) (insert-new k q m new) ∙ find-cons h k q m ∙ rw other e
  ]
]

free-gone : (p : ℕ) (s : Loader) → s.text p ≡ none → free p s ≡ fault
unfolding free
free-gone p s e = rw (e, free) refl

module _ (hash p : ℕ) where
  abbrev Has {ℓ} : {A : Type ℓ} → A × Loader → Type 0
  Has r = find hash r.1.module_path_map ≡ some p

  compile_module-Has :
      (w : World) (specifier path : Bytes) (q : ℕ) (s : Loader)
      → find hash s.module_path_map ≡ some p
      → Gives Has (compile_module w specifier path q s)
  unfolding compile_module
  compile_module-Has w specifier path q s has =
      Gives-bind Any Has (content_of w path) _ (Gives-Any (content_of w path)) (λ text _.
        elim (Option-cases (w.compile s.calls specifier text)) [
          | inl refused ↦ rw refused has
          | inr (h, given) ↦ rw given (find-insert hash p h q s.module_path_map has)
        ])

  resolve-Has :
      (w : World) (specifier : Bytes) (referer : ℕ) (s : Loader)
      → find hash s.module_path_map ≡ some p
      → Gives Has (resolve_module_callback w specifier referer s)
  unfolding resolve_module_callback
  resolve-Has w specifier referer s has =
      Gives-bind Any Has (path_of_module referer s) _ (Gives-Any (path_of_module referer s))
        (λ from _.
          Gives-bind Any Has (path_from specifier from) _ (Gives-Any (path_from specifier from))
            (λ path _. compile_module-Has w specifier path s.next (alloc path s) has))

  instantiate-Has :
      (w : World) (requests : List (Bytes × ℕ)) (s : Loader)
      → find hash s.module_path_map ≡ some p
      → Gives Has (instantiate w requests s)
  unfolding instantiate
  instantiate-Has w [] s has = has
  instantiate-Has w ((specifier, referer) ∷ requests) s has =
      Gives-bind Has Has (resolve_module_callback w specifier referer s) _
        (resolve-Has w specifier referer s has)
        (λ r here. elim (Option-cases r.0) [
          | inl refused ↦ rw refused here
          | inr (h, given) ↦ rw given (instantiate-Has w requests r.1 here)
        ])

  -- The string is freed and the module still in the map.
  abbrev Dangles : Bool × Loader → Type 0
  Dangles r = r.0 ≡ false → (find hash r.1.module_path_map ≡ some p) × (r.1.text p ≡ none)

  free_entry-Dangles :
      (s : Loader)
      → find hash s.module_path_map ≡ some p
      → Gives Dangles (free p s >>= λ (s' : Loader). ok (false, s'))
  unfolding free
  free_entry-Dangles s has = elim (Option-cases (s.text p)) [
    | inl gone ↦ rw (gone, free) tt
    | inr (path, e) ↦ rw (e, free) (λ _. (has, ground arith))
  ]

  finish_init-Dangles : (w : World) (r : Bool × Loader) → Has r → Gives Dangles (finish_init w p r)
  unfolding finish_init
  finish_init-Dangles w (linked, s) has = elim (Bool-cases (linked && w.evaluates)) [
    | inl on ↦ elim (Bool-cases w.pending) [
      | inl forever ↦ rw (on, forever) tt
      | inr settled ↦ rw (on, settled) (λ e. absurd (cc))
    ]
    | inr off ↦ rw off (free_entry-Dangles s has)
  ]

  link_entry-Dangles :
      (w : World) (s : Loader)
      → find hash s.module_path_map ≡ some p
      → Gives Dangles (link_entry w p (some hash, s))
  unfolding link_entry
  link_entry-Dangles w s has =
      Gives-bind Has Dangles (instantiate w w.requests s) _ (instantiate-Has w w.requests s has)
        (λ r here. finish_init-Dangles w r here)

  free_paths-fault :
      (m : List (ℕ × ℕ)) (s : Loader)
      → find hash m ≡ some p
      → s.text p ≡ none
      → free_paths m s ≡ fault
  unfolding free_paths
  free_paths-fault [] s has gone = let none_there = find-nil hash in absurd (cc)
  free_paths-fault ((k, q) ∷ m) s has gone = elim (Option-cases (s.text q)) [
    | inl none_there ↦ ap (λ (r : Run Loader). r >>= free_paths m) (free-gone q s none_there)
    | inr (path, e) ↦
        let shown : (if k == hash then some q else find hash m) ≡ some p =
          sym (find-cons hash k q m) ∙ has in
        let later : find hash m ≡ some p = ground arith in
        ap (λ (r : Run Loader). r >>= free_paths m) (free-live q s e)
        ∙ free_paths-fault m (record s { text = update s.text q none }) later (ground arith)
  ]

-- The module of the entry alone.
abbrev entry_loader : ℕ → Bytes → Loader
entry_loader hash path = record {
  module_path_map = (hash, 1) ∷ [];
  text = (alloc path no_modules).text;
  next = 2;
  calls = 1;
}

find-one : (hash : ℕ) → find {A = ℕ} hash ((hash, 1) ∷ []) ≡ some 1
find-one hash = find-cons hash hash 1 [] ∙ ground arith

esm_init-entry :
    (w : World) (file_path path text : Bytes) (hash : ℕ)
    → entry_path w file_path ≡ ok path
    → content_of w path ≡ ok text
    → w.compile 0 path text ≡ some hash
    → esm_init w file_path no_modules ≡ link_entry w 1 (some hash, entry_loader hash path)
unfolding esm_init compile_module
esm_init-entry w file_path path text hash at_path at_text given = rw (at_path, at_text, given) refl

-- If CompileModule gives a module for the text of the path that is asked for, and `esm_init` returns
-- 0 all the same, then `esm_destroy`, which `main` calls next, frees a string that is free.
pub esm_destroy-twice :
    (w : World) (file_path path text : Bytes) (hash : ℕ) (s : Loader)
    → entry_path w file_path ≡ ok path
    → content_of w path ≡ ok text
    → w.compile 0 path text ≡ some hash
    → esm_init w file_path no_modules ≡ ok (false, s)
    → esm_destroy s ≡ fault
unfolding esm_destroy
esm_destroy-twice w file_path path text hash s at_path at_text given failed =
    let opened = esm_init-entry w file_path path text hash at_path at_text given in
    let dangles =
      Gives-ok (Dangles hash 1) (esm_init w file_path no_modules)
        (subst (Gives (Dangles hash 1)) (sym opened)
          (link_entry-Dangles hash 1 w (entry_loader hash path) (find-one hash)))
        failed refl in
    free_paths-fault hash 1 s.module_path_map s dangles.0 dangles.1
