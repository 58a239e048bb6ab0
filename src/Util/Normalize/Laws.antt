-- ===== src/Util/Normalize/Laws.antt =====
-- What `normalize_path` of src/util/test.c returns.
use mathlib.Core.List.{reverse, reverse_aux, reverse_aux-reverse_aux-nil}
use ryze.Base.{
  ℕ, zero, suc, ◌+◌, ◌-◌, ◌≤◌, ◌<◌, Bool, true, false, leb, ◌≡◌, refl, sym, ap, ◌∙◌, inl, inr,
  Option, none, some, List, [], ◌∷◌, ◌++◌, All, All-append, All-map, length, length-append,
  Bool-cases, ok, fault, ◌>>=◌, Ensures, Ensures-bind, arith,
}
use ryze.Http.Chars.{Bytes}
use ryze.Util.Strings.{Lacks}
use ryze.Util.Url.{str_same}
use ryze.Util.Split.{
  print_parts, join-append, length-print_parts, join, str_split-join, length-join,
}
use ryze.Util.Normalize.{
  Stack, level, below, same_dots, is_skipped, put_parts, put_result, normalize_path,
}
use ryze.Util.Normalize.Resolve.{
  in_front, resolve, reached, IsBelow, enter_parts-level, enter_parts-climb,
}
use ryze.Util.Normalize.Walk.{enter_parts, walk-join}

-- Paths are written as their parts, none of which has a '/' or a NUL in it.
abbrev pub IsPart : Bytes → Type 0
IsPart s = Lacks b'/' s × Lacks 0 s

abbrev pub path_of_parts : Bytes → List Bytes → Bytes
path_of_parts s ss = join b'/' s ss

abbrev pub printed : List Bytes → Option Bytes
printed [] = none
printed (part ∷ parts) = some (print_parts (part ∷ parts))

put_parts-print :
    (parts : List Bytes) (room : ℕ)
    → length (print_parts parts) < room
    → put_parts room parts ≡ ok (print_parts parts)
unfolding put_parts
put_parts-print [] room h = refl
put_parts-print (part ∷ parts) room h =
    let sum = length-append part (print_parts parts) in
    let fits : leb (length part + 2) room ≡ true = ground arith in
    rw (fits, put_parts-print parts (room - (length part + 1)) (omega arith), put_parts) refl

put_parts-fault :
    (part : Bytes) (parts : List Bytes) (room : ℕ)
    → room ≤ length (print_parts (part ∷ parts))
    → put_parts room (part ∷ parts) ≡ fault
unfolding put_parts
put_parts-fault part [] room h =
    let sum = length-append part [] in
    let full : leb (length part + 2) room ≡ false = ground arith in rw (full, put_parts) refl
put_parts-fault part (q ∷ parts) room h =
    let sum = length-append part (print_parts (q ∷ parts)) in
    elim (Bool-cases (leb (length part + 2) room)) [
      | inl e ↦
          rw (e, put_parts-fault q parts (room - (length part + 1)) (omega arith), put_parts) refl
      | inr e ↦ rw (e, put_parts) refl
    ]

length-in_front :
    (up skip : Bool) (part : Bytes) (r : ℕ × List Bytes)
    → length (print_parts (in_front up skip part r).1)
      ≤ suc (length part) + length (print_parts r.1)
length-in_front true skip part (ups, kept) = omega arith
length-in_front false true part (ups, kept) = omega arith
length-in_front false false part (zero, kept) = omega (arith, length-append part (print_parts kept))
length-in_front false false part (suc ups, kept) = omega arith

length-resolve :
    (parts : List Bytes) → length (print_parts (resolve parts).1) ≤ length (print_parts parts)
length-resolve [] = omega arith
length-resolve (part ∷ parts) = omega (
  arith,
  length-in_front (same_dots part) (is_skipped part) part (resolve parts),
  length-resolve parts,
  length-append part (print_parts parts),
)

put_result-below :
    (room : ℕ) (stack : Stack) → IsBelow stack → Ensures (λ r. r ≡ none) (put_result room stack)
unfolding put_result
put_result-below room (level parts) h = absurd h
put_result-below room (below n) h = refl

put_result-reverse :
    (room : ℕ) (parts : List Bytes) (part : Bytes) (stack : List Bytes)
    → put_result room (level (reverse_aux parts (part ∷ stack)))
      ≡ put_parts room (reverse (reverse_aux parts (part ∷ stack))) >>= λ r. ok (some r)
unfolding put_result
put_result-reverse room [] part stack = refl
put_result-reverse room (q ∷ parts) part stack = put_result-reverse room parts q (part ∷ stack)

put_result-parts :
    (room : ℕ) (part : Bytes) (parts : List Bytes)
    → put_result room (level (reverse (part ∷ parts)))
      ≡ put_parts room (part ∷ parts) >>= λ r. ok (some r)
put_result-parts room part parts =
    put_result-reverse room parts part []
    ∙ ap (λ u. put_parts room u >>= λ r. ok (some r))
        (reverse_aux-reverse_aux-nil parts (part ∷ []))

written :
    (room : ℕ) (ks : List Bytes)
    → length (print_parts ks) < room
    → put_result room (level (reverse ks)) ≡ ok (printed ks)
unfolding put_result
written room [] h = refl
written room (part ∷ parts) h =
    put_result-parts room part parts
    ∙ ap (λ m. m >>= λ r. ok (some r)) (put_parts-print (part ∷ parts) room h)

unwritten :
    (room : ℕ) (part : Bytes) (parts : List Bytes)
    → room ≤ length (print_parts (part ∷ parts))
    → put_result room (level (reverse (part ∷ parts))) ≡ fault
unwritten room part parts h =
    put_result-parts room part parts
    ∙ ap (λ m. m >>= λ r. ok (some r)) (put_parts-fault part parts room h)

module _ (b : Bytes) (bs : List Bytes) (p : Bytes) (ps : List Bytes) (hb : IsPart b)
    (hbs : All IsPart bs) (hp : IsPart p) (hps : All IsPart ps) where
  abbrev whole : List Bytes
  whole = bs ++ (p ∷ ps)

  abbrev room : ℕ
  room = length (join b'/' b bs) + length (join b'/' p ps) + 2

  normalize-parts :
      normalize_path (join b'/' b bs) (join b'/' p ps)
      ≡ enter_parts (b ∷ whole) (level []) >>= put_result room
  unfolding normalize_path
  normalize-parts =
      let parts : All IsPart (bs ++ (p ∷ ps)) = All-append IsPart bs (p ∷ ps) hbs (hp, hps) in
      rw
        (
          join-append b'/' b bs p ps,
          str_split-join b'/' b (bs ++ (p ∷ ps)) hb.0
              (All-map IsPart (Lacks b'/') (bs ++ (p ∷ ps)) (λ x h. h.0) parts),
          walk-join (suc (length (join 0 b (bs ++ (p ∷ ps))))) (join 0 b (bs ++ (p ∷ ps))) 0 [] b
              (bs ++ (p ∷ ps)) (level []) refl refl hb.1
              (All-map IsPart (Lacks 0) (bs ++ (p ∷ ps)) (λ x h. h.1) parts)
              (omega (arith, length-join 0 b (bs ++ (p ∷ ps)))),
        )
        refl

  room-print : room ≡ length (print_parts (b ∷ whole))
  room-print =
      let sum : length (join b'/' b bs ++ (b'/' ∷ join b'/' p ps))
          ≡ length (join b'/' b (bs ++ (p ∷ ps))) =
        ap length (join-append b'/' b bs p ps) in
      omega (
        arith,
        sum,
        length-append (join b'/' b bs) (b'/' ∷ join b'/' p ps),
        length-print_parts b (bs ++ (p ∷ ps)),
      )

  -- For a `basedir` that begins with '/' or is empty, and texts with no NUL in them whose parts
  -- together do not lead above their root: the path is that of the parts that a reading from the right
  -- leaves, and there is room for it. If no part is left nothing is written, and what `malloc` gives is
  -- returned.
  pub normalize_path-resolve :
      (ks : List Bytes)
      → b ≡ []
      → resolve (bs ++ (p ∷ ps)) ≡ (zero, ks)
      → normalize_path (join b'/' b bs) (join b'/' p ps) ≡ ok (printed ks)
  unfolding str_same
  normalize_path-resolve ks empty e =
      let same : resolve (b ∷ whole) ≡ (zero, ks) = ap (λ u. resolve (u ∷ whole)) empty ∙ e in
      let fits : length (print_parts ks) < room =
        let inner : length (print_parts ks) ≤ length (print_parts whole) =
          rw (sym (ap (λ r. length (print_parts r.1)) e)) (length-resolve whole) in
        omega (arith, inner, room-print, length-append b (print_parts whole)) in
      normalize-parts
      ∙ ap (λ m. m >>= put_result room)
          (enter_parts-level (b ∷ whole) [] (omega (arith, ap (λ r. r.0) same))
            ∙ ap (λ r. ok (reached r [])) same)
      ∙ written room ks fits

  -- A path whose parts lead above their root is never written: the code returns what `malloc` gives
  -- or writes in front of its stack.
  pub normalize_path-climb :
      0 < (resolve (b ∷ bs ++ (p ∷ ps))).0
      → Ensures (λ r. r ≡ none) (normalize_path (join b'/' b bs) (join b'/' p ps))
  normalize_path-climb h = rw normalize-parts (
      Ensures-bind IsBelow (λ r. r ≡ none) (enter_parts (b ∷ bs ++ (p ∷ ps)) (level []))
        (put_result room) (enter_parts-climb (b ∷ bs ++ (p ∷ ps)) [] h) (put_result-below room))

  -- A path of which every part stays is written past the end of `result`.
  pub normalize_path-overflow :
      resolve (b ∷ bs ++ (p ∷ ps)) ≡ (zero, b ∷ bs ++ (p ∷ ps))
      → normalize_path (join b'/' b bs) (join b'/' p ps) ≡ fault
  normalize_path-overflow e =
      normalize-parts
      ∙ ap (λ m. m >>= put_result room)
          (enter_parts-level (b ∷ whole) [] (omega (arith, ap (λ r. r.0) e))
            ∙ ap (λ r. ok (reached r [])) e)
      ∙ unwritten room b whole (omega (arith, room-print))
