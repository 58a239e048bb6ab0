-- ===== src/Http/RequestLine/Sound.antt =====
-- `http_parse_request_line` of server/http_parser.c accepts nothing but request lines.
use mathlib.Core.List.{append_assoc}
use ryze.Base.{
  ℕ, suc, ◌+◌, ◌-◌, ◌≤◌, ◌≡◌, ◌⊎◌, refl, sym, ap, ◌∙◌, Bool, true, false, not, ◌&&◌, List, [], ◌∷◌,
  ◌++◌, Option, none, some, length, drop, get_elem?, drop-eq-cons, drop-add, length-append, ok,
  bind_inv, arith, ◌==◌, Bool-cases, Option-cases, inl, inr,
}
use ryze.Http.Chars.{Bytes, cr, lf, read}
use ryze.Http.Scan.{scan_spaces, scan_crlf, scan_after_cr}
use ryze.Http.Scan.Laws.{Without}
use ryze.Http.RequestLine.{
  RequestLine, line, expect, version_prefix, check_version, with_positions, add_position,
  http_parse_request_line,
}
use ryze.Http.RequestLine.RoundTrip.{print_request_line, parsed}

mutual
  unfolding scan_crlf

  -- Where the second loop stops there is a "\r\n".
  scan_crlf-found :
      (e : ℕ) (s : Bytes) (p : ℕ) {q : ℕ}
      → scan_crlf e s p ≡ ok (some q)
      → (pre : Bytes) × (post : Bytes) × (s ≡ pre ++ (cr ∷ lf ∷ post)) × (q ≡ p + length pre + 1)
  scan_crlf-found e [] p h = absurd (ground arith)
  scan_crlf-found e (c ∷ s) p h = elim (Bool-cases (p == e)) [
    | inl done ↦ absurd (ground arith)
    | inr on ↦ elim (Bool-cases (c == cr)) [
      | inl hit ↦ elim (scan_after_cr-found e s (p + 1) (rw (on, hit) at h)) [
        | inl (post, eq, at) ↦ ([], post, ground arith, omega arith)
        | inr (pre, post, eq, at) ↦ (c ∷ pre, post, ap (◌∷◌ c) eq, omega arith)
      ]
      | inr miss ↦
          let (pre, post, eq, at) = scan_crlf-found e s (p + 1) (rw (on, miss) at h) in
          (c ∷ pre, post, ap (◌∷◌ c) eq, omega arith)
    ]
  ]

  scan_after_cr-found :
      (e : ℕ) (s : Bytes) (p : ℕ) {q : ℕ}
      → scan_after_cr e s p ≡ ok (some q)
      → ((post : Bytes) × (s ≡ lf ∷ post) × (q ≡ p))
        ⊎ ((pre : Bytes) × (post : Bytes) × (s ≡ pre ++ (cr ∷ lf ∷ post))
            × (q ≡ p + length pre + 1))
  scan_after_cr-found e [] p h = absurd (ground arith)
  scan_after_cr-found e (d ∷ s) p h = elim (Bool-cases (not (p == e) && d == lf)) [
    | inl hit ↦ inl (s, ground arith, ground arith)
    | inr skip ↦
        let (pre, post, eq, at) = scan_crlf-found e s (p + 1) (rw skip at h) in
        inr (d ∷ pre, post, ap (◌∷◌ d) eq, omega arith)
  ]

-- The first loop with one space found before, and with none.
scan_spaces-second :
    (e : ℕ) (s : Bytes) (p a : ℕ) {b q : ℕ} {z : ℕ}
    → scan_spaces e s p (a ∷ []) ≡ ok (z ∷ b ∷ [], q)
    → (pre : Bytes) × (post : Bytes) × (s ≡ pre ++ (b' ' ∷ post))
      × Without b' ' pre
      × (b ≡ p + length pre)
      × (q ≡ b)
      × (z ≡ a)
unfolding scan_spaces
scan_spaces-second e [] p a h = absurd (ground arith)
scan_spaces-second e (c ∷ s) p a h = elim (Bool-cases (p == e)) [
  | inl done ↦ absurd (ground arith)
  | inr on ↦ elim (Bool-cases (c == b' ')) [
    | inl hit ↦ ([], s, ground arith, tt, ground arith, ground arith, ground arith)
    | inr miss ↦
        let (pre, post, eq, w, at, same, z') =
          scan_spaces-second e s (p + 1) a (rw (on, miss) at h) in
        (c ∷ pre, post, ap (◌∷◌ c) eq, (ground arith, w), omega arith, same, z')
  ]
]

scan_spaces-both :
    (e : ℕ) (s : Bytes) (p : ℕ) {a b q : ℕ}
    → scan_spaces e s p [] ≡ ok (a ∷ b ∷ [], q)
    → (m : Bytes) × (t : Bytes) × (post : Bytes) × (s ≡ m ++ (b' ' ∷ (t ++ (b' ' ∷ post))))
      × Without b' ' m
      × Without b' ' t
      × (a ≡ p + length m)
      × (b ≡ a + 1 + length t)
      × (q ≡ b)
unfolding scan_spaces
scan_spaces-both e [] p h = absurd (ground arith)
scan_spaces-both e (c ∷ s) p h = elim (Bool-cases (p == e)) [
  | inl done ↦ absurd (ground arith)
  | inr on ↦ elim (Bool-cases (c == b' ')) [
    | inl hit ↦
        let (t, post, eq, w, at, same, z) = scan_spaces-second e s (p + 1) p (rw (on, hit) at h) in
        ([], t, post, ground arith, tt, w, omega arith, omega arith, same)
    | inr miss ↦
        let (m, t, post, eq, w, w', at, at', same) =
          scan_spaces-both e s (p + 1) (rw (on, miss) at h) in
        (c ∷ m, t, post, ap (◌∷◌ c) eq, (ground arith, w), w', omega arith, at', same)
  ]
]

scan_spaces-few :
    (e : ℕ) (s : Bytes) (p : ℕ) (pos : List ℕ) {found : List ℕ} {q : ℕ}
    → scan_spaces e s p pos ≡ ok (found, q)
    → length pos ≤ 1
    → length found ≤ 2
unfolding scan_spaces
scan_spaces-few e [] p pos h few = ground arith
scan_spaces-few e (c ∷ s) p pos h few = elim (Bool-cases (p == e)) [
  | inl done ↦ ground arith
  | inr on ↦ elim (Bool-cases (c == b' ')) [
    | inr miss ↦ scan_spaces-few e s (p + 1) pos (rw (on, miss) at h) few
    | inl hit ↦ elim (Bool-cases (length (pos ++ (p ∷ [])) == 2)) [
      | inl full ↦ ground (arith, length-append pos (p ∷ []))
      | inr more ↦
          scan_spaces-few e s (p + 1) (pos ++ (p ∷ [])) (rw (on, hit, more) at h)
            (ground (arith, length-append pos (p ∷ [])))
    ]
  ]
]

positions-three :
    (mem : Bytes) (found : List ℕ) (last : Option ℕ) {r : RequestLine}
    → with_positions mem (add_position found last) ≡ ok (line r)
    → length found ≤ 2
    → (a : ℕ) × (b : ℕ) × (c : ℕ) × (found ≡ a ∷ b ∷ [])
      × (last ≡ some c)
      × (check_version mem a b c ≡ ok (line r))
unfolding with_positions
positions-three mem [] none h few = absurd (ground arith)
positions-three mem [] (some c) h few = absurd (ground arith)
positions-three mem (a ∷ []) none h few = absurd (ground arith)
positions-three mem (a ∷ []) (some c) h few = absurd (ground arith)
positions-three mem (a ∷ b ∷ []) none h few = absurd (ground arith)
positions-three mem (a ∷ b ∷ []) (some c) h few = (a, b, c, refl, refl, h)
positions-three mem (a ∷ b ∷ c ∷ r) last h few = absurd (omega arith)

expect-found :
    (mem : Bytes) (p : ℕ) (ws : Bytes) {q : ℕ}
    → expect mem p ws ≡ ok (true, q)
    → (q ≡ p + length ws) × (drop (suc p) mem ≡ ws ++ drop (suc q) mem)
unfolding expect read
expect-found mem p [] h = (ground arith, ground arith)
expect-found mem p (w ∷ ws) {q} h = elim (Option-cases (get_elem? mem (p + 1))) [
  | inl outside ↦ absurd (ground arith)
  | inr (x, here) ↦ elim (Bool-cases (x == w)) [
    | inr other ↦ absurd (ground arith)
    | inl same ↦
        let (at, rest) = expect-found mem (p + 1) ws {q = q} (ground arith) in
        let x_is : x ≡ w = ground arith in
        let next : suc p ≡ p + 1 = omega arith in
        (omega arith, rw (next, drop-eq-cons (p + 1) mem here, rest, x_is))
  ]
]

-- The last part of `check_version`: what it stores when the prefix agrees.
record Version (mem : Bytes) (a b c : ℕ) (r : RequestLine) : Type 0 where
  v : ℕ
  ten : c - b ≡ 10
  agrees : drop (b + 1) mem ≡ version_prefix ++ (v ∷ drop (b + 9) mem)
  stored : r ≡ record {
    method = 0;
    method_len = a;
    path = a + 1;
    path_len = b - (a + 1);
    version_byte = v;
    read_len = c + 1;
  }

Version-of :
    (mem : Bytes) (a b c : ℕ) {r : RequestLine} (same : Bool) (p : ℕ)
    → expect mem b version_prefix ≡ ok (same, p)
    → c - b ≡ 10
    → check_version mem a b c ≡ ok (line r)
    → Version mem a b c r
unfolding check_version read
Version-of mem a b c false p run ten h = absurd (ground arith)
Version-of mem a b c true p run ten h = elim (Option-cases (get_elem? mem (p + 1))) [
  | inl outside ↦ absurd (ground arith)
  | inr (v, here) ↦
      let (at, rest) = expect-found mem b version_prefix {q = p} run in
      let next : suc b ≡ b + 1 = omega arith in
      let place : p + 1 ≡ b + 8 = omega arith in
      let place' : suc p ≡ b + 8 = omega arith in
      let past : suc (b + 8) ≡ b + 9 = omega arith in
      let behind : drop (b + 8) mem ≡ v ∷ drop (suc (b + 8)) mem =
        drop-eq-cons (b + 8) mem (rw place at here) in
      record {
        v = v;
        ten = ten;
        agrees = rw (← next, rest, place', behind, past);
        stored = ground arith;
      }
]

check_version-found :
    (mem : Bytes) (a b c : ℕ) {r : RequestLine}
    → check_version mem a b c ≡ ok (line r)
    → Version mem a b c r
unfolding check_version
check_version-found mem a b c h = elim (Bool-cases (c - b == 10)) [
  | inr bad ↦ absurd (ground arith)
  | inl ten ↦
      let (u, run, h') = bind_inv (expect mem b version_prefix) _ (rw ten at h) in
      Version-of mem a b c u.0 u.1 run (ground arith) h
]

-- The buffer begins with a request line, and `r` describes that line.
pub record Accepts (mem : Bytes) (r : RequestLine) : Type 0 where
  pub method : Bytes
  pub path : Bytes
  pub version : ℕ
  pub rest : Bytes
  pub method_plain : Without b' ' method
  pub path_plain : Without b' ' path
  pub whole : mem ≡ print_request_line method path version rest
  pub describes : r ≡ parsed method path version rest

-- What the calls of the two loops and the checks behind them have found, put together.
Accepts-of :
    (mem : Bytes) (e a b c : ℕ) {q : ℕ} {r : RequestLine}
    → scan_spaces e mem 0 [] ≡ ok (a ∷ b ∷ [], q)
    → scan_crlf e (drop q mem) q ≡ ok (some c)
    → check_version mem a b c ≡ ok (line r)
    → Accepts mem r
Accepts-of mem e a b c {q} hs hc hv =
    let (m, t, post, eq, wm, wt, at_a, at_b, at_q) = scan_spaces-both e mem 0 hs in
    let (pre, post', eq', at_c) = scan_crlf-found e (drop q mem) q hc in
    let found = check_version-found mem a b c hv in
    let at_path : drop (a + 1) mem ≡ t ++ (b' ' ∷ post) =
      drop-add 0 (a + 1) mem (m ++ (b' ' ∷ [])) (eq ∙ sym (append_assoc m _ _))
        (omega (arith, length-append m (b' ' ∷ []))) in
    let at_second : drop b mem ≡ b' ' ∷ post = drop-add (a + 1) b mem t at_path at_b in
    let at_cr : drop (b + 9) mem ≡ cr ∷ lf ∷ post' =
      drop-add b (b + 9) mem pre (rw at_q at eq') (omega (arith, found.ten)) in
    let tail : post ≡ version_prefix ++ (found.v ∷ cr ∷ lf ∷ post') =
      sym (drop-add b (b + 1) mem (b' ' ∷ []) at_second refl) ∙ found.agrees ∙ rw at_cr in
    record {
      method = m;
      path = t;
      version = found.v;
      rest = post';
      method_plain = wm;
      path_plain = wt;
      whole = eq ∙ rw tail;
      describes = found.stored ∙ ground (arith, found.ten);
    }

-- Whatever `http_parse_request_line` accepts is a request line: the buffer begins with
-- "METHOD path HTTP/1.v\r\n", with no space in the method and in the path, and the out-parameters
-- are their places in it.
pub http_parse_request_line-Accepts :
    (mem : Bytes) (e : ℕ) {r : RequestLine}
    → http_parse_request_line mem e ≡ ok (line r)
    → Accepts mem r
unfolding http_parse_request_line
http_parse_request_line-Accepts mem e h =
    let (u, hs, h') = bind_inv (scan_spaces e mem 0 []) _ h in
    let (last, hc, h'') = bind_inv (scan_crlf e (drop u.1 mem) u.1) _ h' in
    let (a, b, c, is, is', hv) =
      positions-three mem u.0 last h'' (scan_spaces-few e mem 0 [] hs (omega arith)) in
    Accepts-of mem e a b c {q = u.1} (rw (← is) hs) (rw (← is') hc) hv
