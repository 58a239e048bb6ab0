-- ===== src/Http/Scan.antt =====
-- The scanning loops of server/http_parser.c. Each loop walks the bytes from its pointer on; the
-- second number is the offset of that pointer, and `e` the offset of `end`.
pub mod Bounds
pub mod Laws
use ryze.Base.{
  ℕ, zero, suc, ◌+◌, Bool, true, false, not, ◌&&◌, ◌==◌, if◌then◌else◌, List, [], ◌∷◌, ◌++◌, Option,
  none, some, length, Run, ok, fault, ◌>>=◌,
}
use ryze.Http.Chars.{Bytes, cr, lf, is_token_char, is_blank, read}

-- for(; p != end; p++) if(*p == ' ') { pos[i++] = p; if(i == 2) break; }
-- It gives `pos` and the pointer at which the loop stopped.
unfoldable pub scan_spaces : ℕ → Bytes → ℕ → List ℕ → Run (List ℕ × ℕ)
scan_spaces e [] p pos = if p == e then ok (pos, p) else fault
scan_spaces e (c ∷ s) p pos =
    let pos' = if c == b' ' then pos ++ (p ∷ []) else pos in
    let rest = scan_spaces e s (p + 1) pos' in
    if p == e then ok (pos, p) else if c == b' ' && length pos' == 2 then ok (pos', p) else rest

unfoldable mutual
  -- for(; p != end; p++) if(*p == '\r' && ++p != end && *p == '\n') { pos[i++] = p; break; }
  pub scan_crlf : ℕ → Bytes → ℕ → Run (Option ℕ)
  scan_crlf e [] p = if p == e then ok none else fault
  scan_crlf e (c ∷ s) p =
      let next = scan_crlf e s (p + 1) in
      let hit = scan_after_cr e s (p + 1) in
      if p == e then ok none else if c == cr then hit else next

  -- The rest of the test and the step `p++`, with `p` behind the '\r'. At `end` the step goes on
  -- to `end + 1`, from where the loop no longer meets `end`.
  pub scan_after_cr : ℕ → Bytes → ℕ → Run (Option ℕ)
  scan_after_cr e [] p = fault
  scan_after_cr e (d ∷ s) p =
      let skip = scan_crlf e s (p + 1) in if not (p == e) && d == lf then ok (some p) else skip

-- for(t = p1; ; t++): up to the ':' that ends the name, and whether all before it is a token.
unfoldable pub find_colon : Bytes → ℕ → Bool → Run (ℕ × Bool)
find_colon [] t tok = fault
find_colon (c ∷ s) t tok =
    let rest = find_colon s (t + 1) (tok && is_token_char c) in
    if not (is_token_char c) && c == b':' then ok (t, tok) else rest

unfoldable mutual
  -- for(;; t++) if(*t == '\r' && ++t != end && *t == '\n') { p3 = t; break; }
  pub find_crlf : ℕ → Bytes → ℕ → Run ℕ
  find_crlf e [] t = fault
  find_crlf e (c ∷ s) t =
      let next = find_crlf e s (t + 1) in
      let hit = find_after_cr e s (t + 1) in if c == cr then hit else next

  pub find_after_cr : ℕ → Bytes → ℕ → Run ℕ
  find_after_cr e [] t = fault
  find_after_cr e (d ∷ s) t =
      let skip = find_crlf e s (t + 1) in if not (t == e) && d == lf then ok t else skip

-- while(*t == ' ' || *t == '\t') t++
unfoldable pub skip_blanks : Bytes → ℕ → Run ℕ
skip_blanks [] t = fault
skip_blanks (c ∷ s) t = let rest = skip_blanks s (t + 1) in if is_blank c then rest else ok t

-- while(*t == ' ' || *t == '\t') t--
unfoldable pub trim_blanks : Bytes → ℕ → Run ℕ
unfolding read
trim_blanks mem zero = do c ← read mem zero; if is_blank c then fault else ok zero
trim_blanks mem (suc t) =
    let rest = trim_blanks mem t in do c ← read mem (suc t); if is_blank c then rest else ok (suc t)
