-- ===== src/Tests/Eio.antt =====
-- An operation of xxx/eio/eio.c that fails, and the theorems at its request.
use ryze.Base.{ℕ, [], false, ◌==◌, ◌||◌, ◌≡◌, none, refl, fault, arith}
use ryze.Eio.Memory.{success, failure, Syscall, System, State, ◌>>◌, free_request}
use ryze.Eio.Ops
use ryze.Eio.Owns.{Returns, Owns}
use ryze.Eio.Keeps.{IsFresh}
use ryze.Eio.Work.{work, eio_stat, work-free_request}
use ryze.Eio.Directory.{opendir-free_request}

-- A system in which every call but `opendir` fails with ENOENT; `malloc` gives the block 9.
abbrev missing : System (Unit {0})
missing = record {
  call = λ c w. (elim c [ Syscall.opendir path ↦ success 40 | _ ↦ failure 2 ], w);
  malloc = λ w live. 9;
}

-- stat(path, buffer) with the path at 5 and the buffer at 6, while 7 is another's block.
abbrev stat_request : State (Unit {0})
stat_request = record {
  world = tt;
  live = λ p. p == 5 || p == 6 || p == 7;
  vector = λ p. [];
  req = record {
    arg0 = 0;
    arg1 = 0;
    arg2 = 0;
    ret = none;
    ptr0 = 5;
    ptr1 = 6;
    ptr2 = 0;
    errnum = 0;
    errbuf = 0;
  };
}

stat_request-IsFresh : IsFresh missing stat_request.live
stat_request-IsFresh = record { ne_null = λ w. omega arith; unused = λ w. refl }

stat_request-Owns : Owns (λ p. p == 7) stat_request
stat_request-Owns = record {
  live = λ p. ground arith;
  others = λ p h. ground arith;
  d01 = refl;
  d02 = refl;
  d0e = refl;
  d12 = refl;
  d1e = refl;
  d2e = refl;
}

work-free_request_example :
    Returns
      (λ _ t. (p : ℕ) → t.live p ≡ (p == 7))
      ((work missing eio_stat >> free_request) stat_request)
work-free_request_example =
    work-free_request (λ p. p == 7) missing eio_stat stat_request (λ e. omega arith)
      stat_request-IsFresh (record { owns = stat_request-Owns; no_error = refl })

opendir-free_request_example : (Ops.eio_opendir missing >> free_request) stat_request ≡ fault
opendir-free_request_example =
    opendir-free_request (λ p. p == 7) missing stat_request 40 tt stat_request-Owns refl
      (omega arith) refl

-- A failing `open` leaves errno and the return value -1 in the request, and frees the path.
open_fails :
    Returns
      (λ _ t.
        (t.req.errnum ≡ 2)
        × (t.req.errbuf ≡ 9)
        × (t.req.ret ≡ none)
        × (t.req.ptr0 ≡ 0)
        × (t.live 5 ≡ false))
      (Ops.eio_open missing stat_request)
unfolding Ops.eio_open
open_fails = (refl, refl, refl, refl, refl)
