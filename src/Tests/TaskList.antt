-- ===== src/Tests/TaskList.antt =====
-- The list and the program of epoll2.cc with one item.
use ryze.Base.{ℕ, ◌≡◌, ◌≢◌, refl, some, [], ◌∷◌, ok, arith}
use ryze.TaskList.{Items, list_init, list_add, list_remove}
use ryze.TaskList.Laws.{IsStack, list_add-IsStack, list_remove-IsStack}
use ryze.TaskList.Program.{
  ended, crashed, finished, Program, start_program, process_task, after_add, after_process, add,
  write, poll, process, leave, Reach, here, then_step,
}
use ryze.TaskList.Program.Shown.{finished-shown}

abbrev zeros : ℕ → ℕ
zeros p = 0

abbrev one_item : Items
one_item = record { head = 5; tail = 5; prev = zeros; next = zeros; task = λ p. 70 }

one_item-IsStack : IsStack (5 ∷ []) one_item
one_item-IsStack = record { down = (refl, omega arith, tt, refl); up = (refl, tt); bottom = refl }

list_add-IsStack_example :
    (l : Items) × (list_add 9 71 one_item ≡ ok l) × IsStack (9 ∷ 5 ∷ []) l × (l.task 9 ≡ 71)
list_add-IsStack_example =
    list_add-IsStack 9 71 (5 ∷ []) one_item one_item-IsStack (omega arith) (omega arith, tt)

list_remove-IsStack_example :
    (l : Items) × (list_remove one_item ≡ ok (some 5, l)) × IsStack [] l × (l.task ≡ one_item.task)
list_remove-IsStack_example = list_remove-IsStack 5 [] one_item one_item-IsStack

abbrev whole_run :
    (p : Program) × Reach 5 70 (start_program zeros zeros zeros) p × (p.main ≡ finished)
unfolding start_program after_add after_process process_task list_add list_remove list_init
whole_run =
    let start : Reach 5 70 (start_program zeros zeros zeros) (start_program zeros zeros zeros) =
      here in
    let posted = then_step (then_step start (add _ refl)) (write _ refl) in
    let taken = then_step (then_step posted (poll _ refl refl)) (process _ refl) in
    (_, then_step taken (leave _ refl), refl)

finished-shown_example :
    (whole_run.0.main ≢ crashed)
    × (whole_run.0.main ≡ finished → (whole_run.0.shown ≡ 70 ∷ []) × (whole_run.0.writer ≡ ended))
finished-shown_example = finished-shown 5 70 (omega arith) zeros zeros zeros whole_run.0 whole_run.1
