-- ===== src/TaskList/Program/Shown.antt =====
-- The program of epoll2.cc runs its task, and neither of its threads reads through NULL.
use mathlib.Core.Path.{subst}
use ryze.Base.{ℕ, true, ◌≡◌, ◌≢◌, refl, ap, sym, ◌∙◌, ◌⊎◌, inl, inr, List, [], ◌∷◌}
use ryze.TaskList.{list_add}
use ryze.TaskList.Laws.{IsStack, list_init-IsStack, list_add-IsStack, list_remove-IsStack}
use ryze.TaskList.Program.{
  Writer, before_add, ended, Main, polling, processing, closed, finished, crashed, Program,
  start_program, task_of, process_task, after_add, after_process, Step, add, write, poll, process,
  leave, Reach, here, then_step,
}

module _ (it task : ℕ) (pos : it ≢ 0) where
  -- The items that the list holds.
  abbrev in_list : Main → List ℕ
  in_list m = elim m [ polling ↦ it ∷ [] | processing ↦ it ∷ [] | _ ↦ [] ]

  abbrev held : Writer → Main → List ℕ
  held w m = elim w [ before_add ↦ [] | _ ↦ in_list m ]

  -- The tasks that have been run.
  abbrev output : Main → List ℕ
  output polling = []
  output processing = []
  output closed = task ∷ []
  output finished = task ∷ []
  output crashed = []

  record Inv (p : Program) : Type 0 where
    stack : IsStack (held p.writer p.main) p.items
    known : (p.writer ≡ before_add) ⊎ (p.items.task it ≡ task)
    shown : p.shown ≡ output p.main
    order : (p.main ≡ polling) ⊎ (p.writer ≡ ended)
    quiet : p.event ≡ true → p.writer ≡ ended
    sound : p.main ≢ crashed

  add-Inv :
      (p : Program) → p.writer ≡ before_add → Inv p → Inv (after_add (list_add it task p.items) p)
  unfolding after_add
  add-Inv p at inv =
      let (l, e, stack, kept) =
        list_add-IsStack it task [] p.items
          (subst (λ w. IsStack (held w p.main) p.items) at inv.stack) pos tt in
      let main_polls : p.main ≡ polling = elim inv.order [ inl on ↦ on | inr out ↦ absurd (cc) ] in
      rw e (record {
        stack = subst (λ m. IsStack (in_list m) l) (sym main_polls) stack;
        known = inr kept;
        shown = inv.shown;
        order = inl main_polls;
        quiet = λ on. let out = inv.quiet on in absurd (cc);
        sound = inv.sound;
      })

  -- The thread has added its task once `main` has an event.
  process-Inv :
      (p : Program) → p.main ≡ processing → Inv p → Inv (after_process (process_task p.items) p)
  unfolding after_process process_task task_of
  process-Inv p at inv =
      let out : p.writer ≡ ended = elim inv.order [ inl on ↦ absurd (cc) | inr out ↦ out ] in
      let known : p.items.task it ≡ task = elim inv.known [
        | inl no_add ↦ absurd (cc)
        | inr k ↦ k
      ] in
      let full : IsStack (it ∷ []) p.items =
        subst (λ w. IsStack (held w processing) p.items) out
          (subst (λ m. IsStack (held p.writer m) p.items) at inv.stack) in
      let (l, e, stack, same) = list_remove-IsStack it [] p.items full in
      let task_read : l.task it ≡ task = ap (λ (f : ℕ → ℕ). f it) same ∙ known in
      let none_shown : p.shown ≡ [] = inv.shown ∙ ap output at in
      rw e (record {
        stack = subst (λ w. IsStack (held w closed) l) (sym out) stack;
        known = inr task_read;
        shown = rw (none_shown, task_read) refl;
        order = inr out;
        quiet = λ on. absurd (cc);
        sound = λ c. cc;
      })

  Step-Inv : {p q : Program} → Step it task p q → Inv p → Inv q
  Step-Inv (add p at) inv = add-Inv p at inv
  Step-Inv (write p at) inv = record {
    stack = subst (λ w. IsStack (held w p.main) p.items) at inv.stack;
    known = elim inv.known [ inl no_add ↦ absurd (cc) | inr k ↦ inr k ];
    shown = inv.shown;
    order = inr refl;
    quiet = λ _. refl;
    sound = inv.sound;
  }
  Step-Inv (poll p at event) inv = record {
    stack = subst (λ m. IsStack (held p.writer m) p.items) at inv.stack;
    known = inv.known;
    shown = inv.shown ∙ ap output at;
    order = inr (inv.quiet event);
    quiet = inv.quiet;
    sound = λ c. cc;
  }
  Step-Inv (process p at) inv = process-Inv p at inv
  Step-Inv (leave p at) inv = record {
    stack = subst (λ m. IsStack (held p.writer m) p.items) at inv.stack;
    known = inv.known;
    shown = inv.shown ∙ ap output at;
    order = elim inv.order [ inl on ↦ absurd (cc) | inr out ↦ inr out ];
    quiet = inv.quiet;
    sound = λ c. cc;
  }

  start-Inv : (prev next tasks : ℕ → ℕ) → Inv (start_program prev next tasks)
  unfolding start_program
  start-Inv prev next tasks = record {
    stack = list_init-IsStack prev next tasks;
    known = inl refl;
    shown = refl;
    order = inl refl;
    quiet = λ on. absurd (cc);
    sound = λ c. cc;
  }

  Reach-Inv : {p q : Program} → Inv p → Reach it task p q → Inv q
  Reach-Inv inv here = inv
  Reach-Inv inv (then_step reach step) = Step-Inv step (Reach-Inv inv reach)

  -- In every state that the program reaches, if `malloc` has given an item, no thread has read
  -- through NULL; and where `main` has ended, the task has been run once, and the thread, which
  -- uses the list and the eventfd, has ended before.
  pub finished-shown :
      (prev next tasks : ℕ → ℕ) (p : Program)
      → Reach it task (start_program prev next tasks) p
      → (p.main ≢ crashed) × (p.main ≡ finished → (p.shown ≡ task ∷ []) × (p.writer ≡ ended))
  finished-shown prev next tasks p reach =
      let inv = Reach-Inv (start-Inv prev next tasks) reach in
      (
        inv.sound,
        λ e. (inv.shown ∙ ap output e, elim inv.order [ inl on ↦ absurd (cc) | inr out ↦ out ]),
      )
