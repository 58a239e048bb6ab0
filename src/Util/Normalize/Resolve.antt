-- ===== src/Util/Normalize/Resolve.antt =====
-- The parts that `normalize_path` of src/util/test.c has on its stack behind its walk, against a
-- reading of the parts from the right.
use mathlib.Core.List.{reverse_aux}
use ryze.Base.{
  ℕ, zero, suc, ◌≤◌, ◌<◌, Bool, true, false, if◌then◌else◌, ◌≡◌, refl, List, [], ◌∷◌, length, drop,
  Run, ok, ◌>>=◌, Ensures, Ensures-bind, arith,
}
use ryze.Http.Chars.{Bytes}
use ryze.Util.Normalize.{Stack, level, below, same_dots, is_skipped, pop, push, enter_part}
use ryze.Util.Normalize.Walk.{enter_parts}

-- A part in front of others that leave their place `ups` times upwards and keep the parts `kept`,
-- where `up` tells a ".." and `skip` a "." or an empty part.
abbrev pub in_front : (up skip : Bool) → Bytes → ℕ × List Bytes → ℕ × List Bytes
in_front true skip part (ups, kept) = (suc ups, kept)
in_front false true part (ups, kept) = (ups, kept)
in_front false false part (zero, kept) = (zero, part ∷ kept)
in_front false false part (suc ups, kept) = (ups, kept)

-- How often the parts lead upwards from where they begin, and the parts that are left of them: a
-- ".." takes away the next part in front of it that no other ".." takes.
abbrev pub resolve : List Bytes → ℕ × List Bytes
resolve [] = (zero, [])
resolve (part ∷ parts) = in_front (same_dots part) (is_skipped part) part (resolve parts)

-- What `enter_part` does with such a part.
abbrev enter_kind : (up skip : Bool) → Bytes → Stack → Run Stack
enter_kind up skip part stack =
    if up then ok (pop stack) else if skip then ok stack else push part stack

abbrev pub reached : ℕ × List Bytes → List Bytes → Stack
reached (ups, kept) stack = level (reverse_aux kept (drop ups stack))

enter_kind-level :
    (up skip : Bool) (part : Bytes) (r : ℕ × List Bytes) (stack : List Bytes)
    (k : Stack → Run Stack)
    → ((st : List Bytes) → r.0 ≤ length st → k (level st) ≡ ok (reached r st))
    → (in_front up skip part r).0 ≤ length stack
    → enter_kind up skip part (level stack) >>= k ≡ ok (reached (in_front up skip part r) stack)
enter_kind-level true skip part (ups, kept) [] k e h = absurd (omega arith)
enter_kind-level true skip part (ups, kept) (s ∷ stack) k e h = e stack (omega arith)
enter_kind-level false true part (ups, kept) stack k e h = e stack h
enter_kind-level false false part (zero, kept) stack k e h = e (part ∷ stack) (omega arith)
enter_kind-level false false part (suc ups, kept) stack k e h = e (part ∷ stack) (omega arith)

pub enter_parts-level :
    (parts stack : List Bytes)
    → (resolve parts).0 ≤ length stack
    → enter_parts parts (level stack) ≡ ok (reached (resolve parts) stack)
unfolding enter_parts enter_part
enter_parts-level [] stack h = refl
enter_parts-level (part ∷ parts) stack h =
    enter_kind-level (same_dots part) (is_skipped part) part (resolve parts) stack
      (enter_parts parts) (enter_parts-level parts) h

abbrev pub IsBelow : Stack → Type 0
IsBelow (level parts) = ⊥
IsBelow (below n) = Unit

enter_kind-below :
    (up skip : Bool) (part : Bytes) (n : ℕ) → Ensures IsBelow (enter_kind up skip part (below n))
enter_kind-below true skip part n = tt
enter_kind-below false true part n = tt
enter_kind-below false false part n = tt

-- An index below 0 stays there.
enter_parts-IsBelow :
    (parts : List Bytes) (stack : Stack) → IsBelow stack → Ensures IsBelow (enter_parts parts stack)
unfolding enter_parts enter_part
enter_parts-IsBelow [] stack h = h
enter_parts-IsBelow (part ∷ parts) (level st) h = absurd h
enter_parts-IsBelow (part ∷ parts) (below n) h =
    Ensures-bind IsBelow IsBelow (enter_kind (same_dots part) (is_skipped part) part (below n))
      (enter_parts parts) (enter_kind-below (same_dots part) (is_skipped part) part n)
      (λ st h'. enter_parts-IsBelow parts st h')

enter_kind-climb :
    (up skip : Bool) (part : Bytes) (r : ℕ × List Bytes) (stack : List Bytes)
    (k : Stack → Run Stack)
    → ((st : List Bytes) → length st < r.0 → Ensures IsBelow (k (level st)))
    → ((st : Stack) → IsBelow st → Ensures IsBelow (k st))
    → length stack < (in_front up skip part r).0
    → Ensures IsBelow (enter_kind up skip part (level stack) >>= k)
enter_kind-climb true skip part (ups, kept) [] k e b h = b (below 0) tt
enter_kind-climb true skip part (ups, kept) (s ∷ stack) k e b h = e stack (omega arith)
enter_kind-climb false true part (ups, kept) stack k e b h = e stack h
enter_kind-climb false false part (zero, kept) stack k e b h = absurd (omega arith)
enter_kind-climb false false part (suc ups, kept) stack k e b h = e (part ∷ stack) (omega arith)

-- Parts that lead upwards past the parts in front of them leave the index below 0.
pub enter_parts-climb :
    (parts stack : List Bytes)
    → length stack < (resolve parts).0
    → Ensures IsBelow (enter_parts parts (level stack))
unfolding enter_parts enter_part
enter_parts-climb [] stack h = absurd (omega arith)
enter_parts-climb (part ∷ parts) stack h =
    enter_kind-climb (same_dots part) (is_skipped part) part (resolve parts) stack
      (enter_parts parts) (enter_parts-climb parts) (enter_parts-IsBelow parts) h
