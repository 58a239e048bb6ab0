-- ===== src/Util/File.antt =====
-- `read_file` of src/util/util.c over the answers of `fopen` and `fread`, for a size that `ftell`
-- can tell. `malloc` is taken to succeed, and the message on stdout is left out.
use ryze.Base.{
  ℕ, ◌+◌, ◌-◌, ◌≤◌, ◌<◌, Bool, true, false, ltb, if◌then◌else◌, ◌≡◌, refl, sym, ap, ◌∙◌, Option,
  none, some, List, [], ◌∷◌, ◌++◌, All, length, take, length-append, take-all, Bool-cases, inl, inr,
  Run, ok, out_of_fuel, arith,
}
use mathlib.Core.List.{append_assoc, append-nil}
use ryze.Http.Chars.{Bytes}

-- What a call of `fread` has to give, and whether `ferror` is true behind it.
pub record Fread : Type 0 where
  pub bytes : Bytes
  pub failed : Bool

-- The string returned, and whether the file was closed.
pub record Content : Type 0 where
  pub text : Option Bytes
  pub closed : Bool

-- The loop, with `text` read; it does not stop where `fread` has nothing to give.
unfoldable pub read_loop : (size : ℕ) → (text : Bytes) → List Fread → Run Content
read_loop size text [] =
    if ltb (length text) size then out_of_fuel else ok (record { text = some text; closed = true })
read_loop size text (r ∷ rs) =
    let rest = read_loop size (text ++ take (size - length text) r.bytes) rs in
    if ltb (length text) size
    then if r.failed then ok (record { text = none; closed = true }) else rest
    else ok (record { text = some text; closed = true })

unfoldable pub read_file : (opened : Bool) (size : ℕ) → List Fread → Run Content
unfolding read_loop
read_file opened size reads =
    if opened then read_loop size [] reads else ok (record { text = none; closed = false })

abbrev pub IsSound : Fread → Type 0
IsSound r = r.failed ≡ false

unfoldable pub text_of : List Fread → Bytes
text_of [] = []
text_of (r ∷ rs) = r.bytes ++ text_of rs

done :
    (size : ℕ) (text : Bytes) (rs : List Fread)
    → size ≤ length text
    → read_loop size text rs ≡ ok (record { text = some text; closed = true })
unfolding read_loop
done size text [] h = ground arith
done size text (r ∷ rs) h = ground arith

empty : (s : Bytes) → length s ≡ 0 → s ≡ []
empty [] e = refl
empty (c ∷ s) e = absurd (omega (arith, e))

read_loop-text_of :
    (size : ℕ) (text : Bytes) (rs : List Fread)
    → All IsSound rs
    → length text + length (text_of rs) ≡ size
    → read_loop size text rs ≡ ok (record { text = some (text ++ text_of rs); closed = true })
unfolding read_loop text_of
read_loop-text_of size text [] h e =
    done size text [] (omega (arith, e))
    ∙ ap (λ u. ok (record { text = some u; closed = true })) (sym (append-nil text))
read_loop-text_of size text (r ∷ rs) h e =
    let sum = length-append r.bytes (text_of rs) in
    elim (Bool-cases (ltb (length text) size)) [
      | inl inside ↦
          let all : take (size - length text) r.bytes ≡ r.bytes =
            take-all (size - length text) r.bytes (omega (arith, e, sum)) in
          rw (inside, h.0, all, read_loop)
            (read_loop-text_of size (text ++ r.bytes) rs h.1
                (omega (arith, e, sum, length-append text r.bytes))
              ∙ ap (λ u. ok (record { text = some u; closed = true }))
                  (append_assoc text r.bytes (text_of rs)))
      | inr full ↦
          rw (full, read_loop)
            (ap (λ u. ok (record { text = some u; closed = true }))
              (sym (
                ap (λ u. text ++ u) (empty (r.bytes ++ text_of rs) (ground (arith, e, full)))
                ∙ append-nil text)))
    ]

read_loop-endless :
    (size : ℕ) (text : Bytes) (rs : List Fread)
    → All IsSound rs
    → length text + length (text_of rs) < size
    → read_loop size text rs ≡ out_of_fuel
unfolding read_loop text_of
read_loop-endless size text [] h short = ground arith
read_loop-endless size text (r ∷ rs) h short =
    let sum = length-append r.bytes (text_of rs) in
    let inside : ltb (length text) size ≡ true = ground arith in
    let all : take (size - length text) r.bytes ≡ r.bytes =
      take-all (size - length text) r.bytes (omega (arith, short, sum)) in
    rw (inside, h.0, all, read_loop)
      (read_loop-endless size (text ++ r.bytes) rs h.1
        (omega (arith, short, sum, length-append text r.bytes)))

-- A file of which each `fread` succeeds and which has as many bytes as was found is read as a whole,
-- in however many parts it comes, and closed.
pub read_file-text_of :
    (rs : List Fread)
    → All IsSound rs
    → read_file true (length (text_of rs)) rs
      ≡ ok (record { text = some (text_of rs); closed = true })
unfolding read_file
read_file-text_of rs h = read_loop-text_of (length (text_of rs)) [] rs h (omega arith)

-- A file that has become shorter since its size was found is read for ever: no number of calls of
-- `fread` without an error ends the loop.
pub read_file-endless :
    (size : ℕ) (rs : List Fread)
    → All IsSound rs
    → length (text_of rs) < size
    → read_file true size rs ≡ out_of_fuel
unfolding read_file
read_file-endless size rs h short = read_loop-endless size [] rs h (omega (arith, short))
