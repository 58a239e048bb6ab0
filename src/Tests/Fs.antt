-- ===== src/Tests/Fs.antt =====
-- A system with one file, which xxx/fs opens and reads, and the theorems at its calls.
use ryze.Base.{
  List, zero, suc, ℕ, false, ◌==◌, if◌then◌else◌, ◌≡◌, refl, none, some, [], ◌∷◌, replicate, fault,
  ◌>>=◌, Run, ok, arith,
}
use ryze.Eio.Memory.{Reply, success, failure, Syscall, System}
use ryze.Fs.{
  Machine, Host, Answer, rejected, resolved_int, resolved_text, set_contents, serve, fs_open,
  fs_read, flag_of,
}
use ryze.Fs.Blocks.{IsErrno, IsReady, Serves}
use ryze.Fs.Open.{fs_open-Serves, answer_of_open}
use ryze.Fs.Read.{fs_read-fault}

-- `open` gives the descriptor 3 for reading and fails otherwise; `read` sets two bytes, and a third
-- that is NUL from the descriptor 4; the rest fails with EBADF. Block 9 is given while it is free.
unfoldable reply_of : Syscall → Machine (Unit {0}) → Reply × Machine (Unit {0})
reply_of (Syscall.open_file path zero mode) m = (success 3, m)
reply_of (Syscall.open_file path (suc flag) mode) m = (failure 13, m)
reply_of (Syscall.read fd buf size) m = (
  success (if fd == 4 then 3 else 2),
  set_contents buf (some 104 ∷ some 105 ∷ (if fd == 4 then some 0 else none) ∷ replicate 252 none)
      m,
)
reply_of c m = (failure 9, m)

reply_of-IsErrno : (c : Syscall) (m : Machine (Unit {0})) → IsErrno (reply_of c m).0
unfolding reply_of
reply_of-IsErrno (Syscall.open_file path zero mode) m = tt
reply_of-IsErrno (Syscall.open_file path (suc flag) mode) m = omega arith
reply_of-IsErrno (Syscall.read fd buf size) m = tt
reply_of-IsErrno c m = omega arith

abbrev one_file : System (Machine (Unit {0}))
one_file = record {
  call = reply_of;
  malloc = λ m live. if live 9 then if live 10 then 11 else 10 else 9;
}

-- No block and no promise yet; the next resolver is at 1.
abbrev at_start : Host (Unit {0})
at_start = record {
  memory = record {
    world = record { contents = λ p. []; world = tt };
    live = λ p. false;
    vector = λ p. [];
    req = record {
      arg0 = 0;
      arg1 = 0;
      arg2 = 0;
      ret = none;
      ptr0 = 0;
      ptr1 = 0;
      ptr2 = 0;
      errnum = 0;
      errbuf = 0;
    };
  };
  resolvers = λ r. false;
  next = 1;
  settled = [];
}

at_start-IsReady : IsReady one_file at_start
at_start-IsReady = record {
  first = record { ne_null = λ m. omega arith; unused = λ m. refl };
  second = λ p. record { ne_null = λ m. ground arith; unused = λ m. ground arith };
  errors = reply_of-IsErrno;
  unused = refl;
}

-- A call of `open` for writing fails with EACCES.
fs_open-Serves_example :
    Serves at_start (rejected 13) (serve one_file (fs_open one_file (97 ∷ []) (1 ∷ []) at_start))
unfolding flag_of answer_of_open reply_of
fs_open-Serves_example = fs_open-Serves one_file at_start at_start-IsReady (97 ∷ []) (1 ∷ [])

fs_read-fault_example : serve one_file (fs_read one_file 3 at_start) ≡ fault
unfolding reply_of
fs_read-fault_example =
    fs_read-fault one_file at_start at_start-IsReady 3
      (set_contents 9 (some 104 ∷ some 105 ∷ replicate 253 none)
        (set_contents 9 (replicate 255 none) at_start.memory.world))
      (104 ∷ 105 ∷ []) refl refl (refl, (refl, tt))

settled_of : Run (Host (Unit {0})) → Run (List (ℕ × Answer))
settled_of run = do h ← run; ok h.settled

reads_text :
    settled_of (serve one_file (fs_read one_file 4 at_start))
    ≡ ok ((1, resolved_text (104 ∷ 105 ∷ [])) ∷ [])
unfolding settled_of reply_of serve fs_read
reads_text = refl

opens :
    settled_of (serve one_file (fs_open one_file (97 ∷ []) [] at_start))
    ≡ ok ((1, resolved_int (some 3)) ∷ [])
unfolding settled_of reply_of serve fs_open
opens = refl
