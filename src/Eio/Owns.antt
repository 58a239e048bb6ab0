-- ===== src/Eio/Owns.antt =====
-- Which blocks belong to a request, and how the steps of the operations pass them on.
use ryze.Base.{
  ℕ, Bool, true, false, not, ◌&&◌, ◌||◌, ◌==◌, ◌≡◌, refl, Run, ok, fault, out_of_fuel, Bool-cases,
  inl, inr, arith,
}
use ryze.Eio.Memory.{Request, State, Cmd, and_then, update, free, free_request}
use ryze.Eio.Ops.{free_ptr0, free_ptr1}

-- The run comes to an end with no fault, in a state that satisfies `P`.
abbrev pub Returns : {W A : Type 0} → (A → State W → Type 0) → Run (A × State W) → Type 0
Returns P (ok (a, s)) = P a s
Returns P fault = ⊥
Returns P out_of_fuel = ⊥

pub Returns-bind :
    {W A B : Type 0} (P : A → State W → Type 0) (Q : B → State W → Type 0) (r : Run (A × State W))
    (k : A → Cmd W B)
    → Returns P r
    → ((a : A) (s : State W) → P a s → Returns Q (k a s))
    → Returns Q (and_then r k)
Returns-bind P Q (ok (a, s)) k h next = next a s h
Returns-bind P Q fault k h next = absurd h
Returns-bind P Q out_of_fuel k h next = absurd h

pub Returns-mono :
    {W A : Type 0} (P Q : A → State W → Type 0) (r : Run (A × State W))
    → Returns P r
    → ((a : A) (s : State W) → P a s → Q a s)
    → Returns Q r
Returns-mono P Q (ok (a, s)) h weaken = weaken a s h
Returns-mono P Q fault h weaken = absurd h
Returns-mono P Q out_of_fuel h weaken = absurd h

-- A block that the request points to.
abbrev pub held : Request → ℕ → Bool
held q p = not (p == 0) && (p == q.ptr0 || p == q.ptr1 || p == q.ptr2 || p == q.errbuf)

-- Two pointers to one block are both NULL.
abbrev pub apart : ℕ → ℕ → Bool
apart a b = a == 0 || not (a == b)

-- The live blocks are those of `frame`, which are others', and those that the request points to,
-- each from one place.
pub record Owns {W : Type 0} (frame : ℕ → Bool) (s : State W) : Type 0 where
  pub live : (p : ℕ) → s.live p ≡ (frame p || held s.req p)
  pub others : (p : ℕ) → held s.req p ≡ true → frame p ≡ false
  pub d01 : apart s.req.ptr0 s.req.ptr1 ≡ true
  pub d02 : apart s.req.ptr0 s.req.ptr2 ≡ true
  pub d0e : apart s.req.ptr0 s.req.errbuf ≡ true
  pub d12 : apart s.req.ptr1 s.req.ptr2 ≡ true
  pub d1e : apart s.req.ptr1 s.req.errbuf ≡ true
  pub d2e : apart s.req.ptr2 s.req.errbuf ≡ true

-- The state after free(req->ptr[0]) and req->ptr[0] = NULL.
abbrev without_ptr0 : {W : Type 0} → State W → State W
without_ptr0 s = record s {
  live = update s.live s.req.ptr0 false;
  req = record (s.req) { ptr0 = 0 };
}

abbrev without_ptr1 : {W : Type 0} → State W → State W
without_ptr1 s = record s {
  live = update s.live s.req.ptr1 false;
  req = record (s.req) { ptr1 = 0 };
}

-- The state after req->ptr[0] = req->ptr[1] and req->ptr[1] = NULL.
abbrev moved : {W : Type 0} → State W → State W
moved s = record s { req = record (s.req) { ptr0 = s.req.ptr1; ptr1 = 0 } }

pub free-null : {W : Type 0} (p : ℕ) (s : State W) → (p == 0) ≡ true → free p s ≡ ok (tt, s)
unfolding free
free-null p s null = rw null

pub free-live :
    {W : Type 0} (p : ℕ) (s : State W)
    → (p == 0) ≡ false
    → s.live p ≡ true
    → free p s ≡ ok (tt, record s { live = update s.live p false })
unfolding free
free-live p s block live = rw (block, live)

module _ {W : Type 0} (frame : ℕ → Bool) (s : State W) (o : Owns frame s) where
  -- A block that the request points to is live.
  live_of_held : (p : ℕ) → held s.req p ≡ true → s.live p ≡ true
  live_of_held p h = ground (arith, o.live p)

  Owns-without_ptr0 : (s.req.ptr0 == 0) ≡ false → Owns frame (without_ptr0 s)
  Owns-without_ptr0 block = record {
    live = λ p. ground (arith, o.live p, o.others p, o.d01, o.d02, o.d0e);
    others = λ p h. ground (arith, o.others p);
    d01 = refl;
    d02 = refl;
    d0e = refl;
    d12 = o.d12;
    d1e = o.d1e;
    d2e = o.d2e;
  }

  Owns-without_ptr1 : (s.req.ptr1 == 0) ≡ false → Owns frame (without_ptr1 s)
  Owns-without_ptr1 block = record {
    live = λ p. ground (arith, o.live p, o.others p, o.d01, o.d12, o.d1e);
    others = λ p h. ground (arith, o.others p);
    d01 = ground arith;
    d02 = o.d02;
    d0e = o.d0e;
    d12 = refl;
    d1e = refl;
    d2e = o.d2e;
  }

  Owns-null_ptr0 : s.req.ptr0 ≡ 0 → Owns frame (record s { req = record (s.req) { ptr0 = 0 } })
  Owns-null_ptr0 e = rw e at o

  Owns-null_ptr1 : s.req.ptr1 ≡ 0 → Owns frame (record s { req = record (s.req) { ptr1 = 0 } })
  Owns-null_ptr1 e = rw e at o

  Owns-without_ptr2 :
      (s.req.ptr2 == 0) ≡ false
      → Owns frame
          (record s { live = update s.live s.req.ptr2 false; req = record (s.req) { ptr2 = 0 } })
  Owns-without_ptr2 block = record {
    live = λ p. ground (arith, o.live p, o.others p, o.d02, o.d12, o.d2e);
    others = λ p h. ground (arith, o.others p);
    d01 = o.d01;
    d02 = ground arith;
    d0e = o.d0e;
    d12 = ground arith;
    d1e = o.d1e;
    d2e = refl;
  }

  Owns-without_errbuf :
      (s.req.errbuf == 0) ≡ false
      → Owns frame (record s {
        live = update s.live s.req.errbuf false;
        req = record (s.req) { errbuf = 0 };
      })
  Owns-without_errbuf block = record {
    live = λ p. ground (arith, o.live p, o.others p, o.d0e, o.d1e, o.d2e);
    others = λ p h. ground (arith, o.others p);
    d01 = o.d01;
    d02 = o.d02;
    d0e = ground arith;
    d12 = o.d12;
    d1e = ground arith;
    d2e = ground arith;
  }

  pub free_ptr0-Owns :
      Returns (λ _ t. Owns frame t × (t.req ≡ record (s.req) { ptr0 = 0 })) (free_ptr0 s)
  unfolding free_ptr0
  free_ptr0-Owns = elim (Bool-cases (s.req.ptr0 == 0)) [
    | inl null ↦ rw (free-null s.req.ptr0 s null) (Owns-null_ptr0 (ground arith), refl)
    | inr block ↦
        rw (free-live s.req.ptr0 s block (live_of_held s.req.ptr0 (ground arith)))
          (Owns-without_ptr0 block, refl)
  ]

  pub free_ptr1-Owns :
      Returns (λ _ t. Owns frame t × (t.req ≡ record (s.req) { ptr1 = 0 })) (free_ptr1 s)
  unfolding free_ptr1
  free_ptr1-Owns = elim (Bool-cases (s.req.ptr1 == 0)) [
    | inl null ↦ rw (free-null s.req.ptr1 s null) (Owns-null_ptr1 (ground arith), refl)
    | inr block ↦
        rw (free-live s.req.ptr1 s block (live_of_held s.req.ptr1 (ground arith)))
          (Owns-without_ptr1 block, refl)
  ]

-- free(...) of each of the pointers of `q`, where the request has not been changed since.
module _ {W : Type 0} (frame : ℕ → Bool) (q : Request) (s : State W)
    (o : Owns frame (record s { req = q })) where
  free-ptr0 : Returns (λ _ t. Owns frame (record t { req = record q { ptr0 = 0 } })) (free q.ptr0 s)
  free-ptr0 = elim (Bool-cases (q.ptr0 == 0)) [
    | inl null ↦
        rw (free-null q.ptr0 s null) (Owns-null_ptr0 frame (record s { req = q }) o (ground arith))
    | inr block ↦
        rw
          (free-live q.ptr0 s block
            (live_of_held frame (record s { req = q }) o q.ptr0 (ground arith)))
          (Owns-without_ptr0 frame (record s { req = q }) o block)
  ]

  free-ptr1 : Returns (λ _ t. Owns frame (record t { req = record q { ptr1 = 0 } })) (free q.ptr1 s)
  free-ptr1 = elim (Bool-cases (q.ptr1 == 0)) [
    | inl null ↦
        rw (free-null q.ptr1 s null) (Owns-null_ptr1 frame (record s { req = q }) o (ground arith))
    | inr block ↦
        rw
          (free-live q.ptr1 s block
            (live_of_held frame (record s { req = q }) o q.ptr1 (ground arith)))
          (Owns-without_ptr1 frame (record s { req = q }) o block)
  ]

  free-ptr2 : Returns (λ _ t. Owns frame (record t { req = record q { ptr2 = 0 } })) (free q.ptr2 s)
  free-ptr2 = elim (Bool-cases (q.ptr2 == 0)) [
    | inl null ↦ let e : q.ptr2 ≡ 0 = ground arith in rw (free-null q.ptr2 s null) (rw e at o)
    | inr block ↦
        rw
          (free-live q.ptr2 s block
            (live_of_held frame (record s { req = q }) o q.ptr2 (ground arith)))
          (Owns-without_ptr2 frame (record s { req = q }) o block)
  ]

  free-errbuf :
      Returns (λ _ t. Owns frame (record t { req = record q { errbuf = 0 } })) (free q.errbuf s)
  free-errbuf = elim (Bool-cases (q.errbuf == 0)) [
    | inl null ↦ let e : q.errbuf ≡ 0 = ground arith in rw (free-null q.errbuf s null) (rw e at o)
    | inr block ↦
        rw
          (free-live q.errbuf s block
            (live_of_held frame (record s { req = q }) o q.errbuf (ground arith)))
          (Owns-without_errbuf frame (record s { req = q }) o block)
  ]

-- EIO_REQ_FREE gives back every block of the request, each once, and nothing else.
pub free_request-Owns :
    {W : Type 0} (frame : ℕ → Bool) (s : State W)
    → Owns frame s
    → Returns (λ _ t. (p : ℕ) → t.live p ≡ frame p) (free_request s)
unfolding free_request
free_request-Owns frame s o =
    let q : Request = s.req in
    Returns-bind _ _ (free q.ptr0 s) _ (free-ptr0 frame q s o) λ _ t o1.
      Returns-bind _ _ (free q.ptr1 t) _ (free-ptr1 frame (record q { ptr0 = 0 }) t o1) λ _ u o2.
        Returns-bind _ _ (free q.ptr2 u) _ (free-ptr2 frame (record q { ptr0 = 0; ptr1 = 0 }) u o2)
          λ _ v o3.
            Returns-mono _ _ (free q.errbuf v)
              (free-errbuf frame (record q { ptr0 = 0; ptr1 = 0; ptr2 = 0 }) v o3)
              λ _ w o4 p. ground (arith, o4.live p)
