-- ===== src/Esm/Owned.antt =====
-- The strings of the paths in `module_path_map` of src/esm/esm.cc are allocated, each for one
-- module, as long as `esm_init` has not failed.
use mathlib.Core.Path.{subst}
use ryze.Base.{
  ℕ, ◌≤◌, Bool, true, false, ◌&&◌, ◌≡◌, ◌≢◌, refl, sym, ap, ◌∙◌, inl, inr, ◌==◌, Bool-cases, Option,
  none, some, Option-cases, List, [], ◌∷◌, All, Run, ok, fault, out_of_fuel, ◌>>=◌, arith,
}
use ryze.Http.Chars.{Bytes}
use ryze.Esm.{
  World, Loader, update, no_modules, find, insert, free, alloc, content_of, compile_module,
  path_from, path_of_module, resolve_module_callback, instantiate, entry_path, finish_init,
  link_entry, esm_init, free_paths, esm_destroy,
}

-- What a run that returns leaves.
abbrev pub Gives {ℓ} : {A : Type ℓ} → (A → Type 0) → Run A → Type 0
Gives P (ok a) = P a
Gives P fault = Unit
Gives P out_of_fuel = Unit

pub Gives-bind {ℓ κ} :
    {A : Type ℓ} {B : Type κ} (P : A → Type 0) (Q : B → Type 0) (m : Run A) (f : A → Run B)
    → Gives P m
    → ((a : A) → P a → Gives Q (f a))
    → Gives Q (m >>= f)
Gives-bind P Q (ok a) f h next = next a h
Gives-bind P Q fault f h next = tt
Gives-bind P Q out_of_fuel f h next = tt

abbrev pub Any {ℓ} : {A : Type ℓ} → A → Type 0
Any a = Unit

pub Gives-Any {ℓ} : {A : Type ℓ} (m : Run A) → Gives Any m
Gives-Any (ok a) = tt
Gives-Any fault = tt
Gives-Any out_of_fuel = tt

pub Gives-ok {ℓ} : {A : Type ℓ} (P : A → Type 0) (m : Run A) {a : A} → Gives P m → m ≡ ok a → P a
Gives-ok P (ok b) h e = let same : b ≡ _ = cc in subst P same h
Gives-ok P fault h e = absurd (cc)
Gives-ok P out_of_fuel h e = absurd (cc)

abbrev pub IsOther : ℕ → ℕ × ℕ → Type 0
IsOther p entry = entry.1 ≢ p

-- The pointers of a map are allocated and distinct.
abbrev pub Held : (ℕ → Option Bytes) → List (ℕ × ℕ) → Type 0
Held text [] = Unit
Held text ((h, p) ∷ m) = (text p ≢ none) × All (IsOther p) m × Held text m

pub record Owned (s : Loader) : Type 0 where
  pub held : Held s.text s.module_path_map
  pub fresh : (p : ℕ) → s.next ≤ p → s.text p ≡ none

Held-IsOther :
    (text : ℕ → Option Bytes) (q : ℕ) (m : List (ℕ × ℕ))
    → text q ≡ none
    → Held text m
    → All (IsOther q) m
Held-IsOther text q [] e h = tt
Held-IsOther text q ((k, p) ∷ m) e h =
    ((λ same. h.0 (ap text same ∙ e)), Held-IsOther text q m e h.2)

Held-update :
    (text : ℕ → Option Bytes) (q : ℕ) (v : Option Bytes) (m : List (ℕ × ℕ))
    → All (IsOther q) m
    → Held text m
    → Held (update text q v) m
Held-update text q v [] out h = tt
Held-update text q v ((k, p) ∷ m) out h =
    let same : update text q v p ≡ text p = let ne = out.0 in ground arith in
    (rw same h.0, h.1, Held-update text q v m out.1 h.2)

pub insert-new {ℓ} :
    {A : Type ℓ} (hash : ℕ) (p : A) (m : List (ℕ × A))
    → find hash m ≡ none
    → insert hash p m ≡ (hash, p) ∷ m
unfolding insert
insert-new hash p m e = rw (e, insert) refl

pub insert-old :
    (hash p : ℕ) (m : List (ℕ × ℕ)) {q : ℕ} → find hash m ≡ some q → insert hash p m ≡ m
unfolding insert
insert-old hash p m e = rw (e, insert) refl

insert-Held :
    (text : ℕ → Option Bytes) (hash p : ℕ) (m : List (ℕ × ℕ))
    → text p ≢ none
    → All (IsOther p) m
    → Held text m
    → Held text (insert hash p m)
insert-Held text hash p m live out h = elim (Option-cases (find hash m)) [
  | inl none_there ↦ subst (Held text) (sym (insert-new hash p m none_there)) (live, out, h)
  | inr (q, there) ↦ subst (Held text) (sym (insert-old hash p m there)) h
]

-- A new string, which no module has.
module _ (path : Bytes) (s : Loader) (owned : Owned s) where
  pub alloc-Owned : Owned (alloc path s)
  alloc-Owned =
      let out =
        Held-IsOther s.text s.next s.module_path_map (owned.fresh s.next (omega arith))
          owned.held in
      record {
        held = Held-update s.text s.next (some path) s.module_path_map out owned.held;
        fresh = λ p le.
            let old = owned.fresh p (omega arith) in
            let ne : (p == s.next) ≡ false = ground arith in rw ne old;
      }

  pub alloc-live : (alloc path s).text s.next ≡ some path
  alloc-live = ground arith

  pub alloc-IsOther : All (IsOther s.next) s.module_path_map
  alloc-IsOther =
      Held-IsOther s.text s.next s.module_path_map (owned.fresh s.next (omega arith)) owned.held

abbrev pub OwnedIn {ℓ} : {A : Type ℓ} → A × Loader → Type 0
OwnedIn r = Owned r.1

compile_module-Owned :
    (w : World) (specifier path : Bytes) (p : ℕ) (s : Loader)
    → Owned s
    → s.text p ≢ none
    → All (IsOther p) s.module_path_map
    → Gives OwnedIn (compile_module w specifier path p s)
unfolding compile_module
compile_module-Owned w specifier path p s owned live out =
    Gives-bind Any OwnedIn (content_of w path) _ (Gives-Any (content_of w path)) (λ text _.
      elim (Option-cases (w.compile s.calls specifier text)) [
        | inl refused ↦ rw refused (record { held = owned.held; fresh = owned.fresh })
        | inr (hash, given) ↦ rw given (record {
          held = insert-Held s.text hash p s.module_path_map live out owned.held;
          fresh = owned.fresh;
        })
      ])

-- The module at a new string.
pub compile_new-Owned :
    (w : World) (specifier path : Bytes) (s : Loader)
    → Owned s
    → Gives OwnedIn (compile_module w specifier path s.next (alloc path s))
compile_new-Owned w specifier path s owned =
    compile_module-Owned w specifier path s.next (alloc path s) (alloc-Owned path s owned)
      (λ e. let live = alloc-live path s owned in cc) (alloc-IsOther path s owned)

resolve_module_callback-Owned :
    (w : World) (specifier : Bytes) (referer : ℕ) (s : Loader)
    → Owned s
    → Gives OwnedIn (resolve_module_callback w specifier referer s)
unfolding resolve_module_callback
resolve_module_callback-Owned w specifier referer s owned =
    Gives-bind Any OwnedIn (path_of_module referer s) _ (Gives-Any (path_of_module referer s))
      (λ from _.
        Gives-bind Any OwnedIn (path_from specifier from) _ (Gives-Any (path_from specifier from))
          (λ path _. compile_new-Owned w specifier path s owned))

pub instantiate-Owned :
    (w : World) (requests : List (Bytes × ℕ)) (s : Loader)
    → Owned s
    → Gives OwnedIn (instantiate w requests s)
unfolding instantiate
instantiate-Owned w [] s owned = owned
instantiate-Owned w ((specifier, referer) ∷ requests) s owned =
    Gives-bind OwnedIn OwnedIn (resolve_module_callback w specifier referer s) _
      (resolve_module_callback-Owned w specifier referer s owned)
      (λ r here. elim (Option-cases r.0) [
        | inl refused ↦ rw refused here
        | inr (hash, given) ↦ rw given (instantiate-Owned w requests r.1 here)
      ])

-- The strings are kept where 1 is returned.
abbrev InitOwned : Bool × Loader → Type 0
InitOwned r = r.0 ≡ true → Owned r.1

free_path-InitOwned :
    (p : ℕ) (s : Loader) → Gives InitOwned (free p s >>= λ (s' : Loader). ok (false, s'))
free_path-InitOwned p s =
    Gives-bind Any InitOwned (free p s) _ (Gives-Any (free p s)) (λ s' _ e. absurd (cc))

finish_init-Owned :
    (w : World) (p : ℕ) (r : Bool × Loader) → Owned r.1 → Gives InitOwned (finish_init w p r)
unfolding finish_init
finish_init-Owned w p (linked, s) owned = elim (Bool-cases (linked && w.evaluates)) [
  | inl on ↦ elim (Bool-cases w.pending) [
    | inl forever ↦ rw (on, forever) tt
    | inr settled ↦ rw (on, settled) (λ _. owned)
  ]
  | inr off ↦ rw off (free_path-InitOwned p s)
]

link_entry-Owned :
    (w : World) (p : ℕ) (r : Option ℕ × Loader) → Owned r.1 → Gives InitOwned (link_entry w p r)
unfolding link_entry
link_entry-Owned w p (none, s) owned = free_path-InitOwned p s
link_entry-Owned w p (some hash, s) owned =
    Gives-bind OwnedIn InitOwned (instantiate w w.requests s) _
      (instantiate-Owned w w.requests s owned) (λ r here. finish_init-Owned w p r here)

pub esm_init-Owned :
    (w : World) (file_path : Bytes) (s : Loader)
    → Owned s
    → Gives InitOwned (esm_init w file_path s)
unfolding esm_init
esm_init-Owned w file_path s owned =
    Gives-bind Any InitOwned (entry_path w file_path) _ (Gives-Any (entry_path w file_path))
      (λ path _.
        Gives-bind OwnedIn InitOwned (compile_module w path path s.next (alloc path s)) _
          (compile_new-Owned w path path s owned) (λ r here. link_entry-Owned w s.next r here))

pub free-live :
    (p : ℕ) (s : Loader) {path : Bytes}
    → s.text p ≡ some path
    → free p s ≡ ok (record s { text = update s.text p none })
unfolding free
free-live p s e = rw (e, free) refl

-- Every pointer of a map that is held is freed, and no other.
free_paths-Held :
    (m : List (ℕ × ℕ)) (s : Loader)
    → Held s.text m
    → (s' : Loader) × (free_paths m s ≡ ok s')
      × (s'.module_path_map ≡ [])
      × ((q : ℕ) → s.text q ≡ none → s'.text q ≡ none)
      × All (λ (entry : ℕ × ℕ). s'.text entry.1 ≡ none) m
unfolding free_paths
free_paths-Held [] s h = (record s { module_path_map = [] }, refl, refl, λ q e. e, tt)
free_paths-Held ((k, p) ∷ m) s h = elim (Option-cases (s.text p)) [
  | inl e ↦ absurd (h.0 e)
  | inr (path, e) ↦
      let s1 : Loader = record s { text = update s.text p none } in
      let (s', eq, empty, frame, gone) =
        free_paths-Held m s1 (Held-update s.text p none m h.1 h.2) in
      let freed : update s.text p none p ≡ none = ground arith in
      (
        s',
        ap (λ (r : Run Loader). r >>= free_paths m) (free-live p s e) ∙ eq,
        empty,
        λ q e'. frame q (ground arith),
        (frame p freed, gone),
      )
]

empty-Owned : Owned no_modules
empty-Owned = record { held = tt; fresh = λ p le. refl }

-- Where `esm_init` returns 1, `esm_destroy` frees the string of each module once, and leaves no
-- module.
pub esm_destroy-esm_init :
    (w : World) (file_path : Bytes) (s : Loader)
    → esm_init w file_path no_modules ≡ ok (true, s)
    → (s' : Loader) × (esm_destroy s ≡ ok s')
      × (s'.module_path_map ≡ [])
      × All (λ (entry : ℕ × ℕ). s'.text entry.1 ≡ none) s.module_path_map
unfolding esm_destroy
esm_destroy-esm_init w file_path s e =
    let owned : Owned s =
      Gives-ok InitOwned (esm_init w file_path no_modules)
        (esm_init-Owned w file_path no_modules empty-Owned) e refl in
    let (s', eq, empty, _, gone) = free_paths-Held s.module_path_map s owned.held in
    (s', eq, empty, gone)
