-- ===== src/Queue/Samples.antt =====
-- hw4/test2.c: the programs that use the queue from one thread, on sample items.
use oscourse24btau.Common.{ℕ, ◌-◌, ◌≡◌, refl, some, List, [], ◌∷◌, arith}
use oscourse24btau.Queue.Programs.{
  test_enqueue_dequeue, test_try_dequeue, test_enqueue_try_dequeue, test_size, test_destroy_queue,
  test_edge_cases, test_mixed_operations,
}
use oscourse24btau.Queue.Passes.{Passed, programs_pass}
use oscourse24btau.Queue.Mixed.{order, mixed_operations_print}
use oscourse24btau.Queue.Destroy.{Destroyed}
use oscourse24btau.Queue.Tests.{blank}

-- The items of the test programs, pointers to 1, 2 and 3, and the addresses of their nodes.
abbrev pointers : List (ℕ × ℕ)
pointers = (16, 101) ∷ (48, 102) ∷ (32, 103) ∷ []

abbrev memory : ℕ → ℕ
memory p = p - 100

programs_pass_example :
    Passed (test_enqueue_dequeue memory 0 4 pointers blank)
    × Passed (test_try_dequeue memory 4 pointers blank)
    × Passed (test_enqueue_try_dequeue memory 4 pointers blank)
    × Passed (test_size 4 pointers blank)
    × Passed (test_destroy_queue 4 blank)
    × Passed (test_edge_cases 4 blank)
programs_pass_example =
    programs_pass memory 0 4 pointers blank (λ a. refl)
      (((λ e. cc), ((λ e. cc), tt)), (((λ e. cc), tt), (tt, tt))) (omega arith) (omega arith)

mixed_operations_print_example :
    (d : Destroyed) × (test_mixed_operations memory 0 3
        (16, 101)
        (16, 102)
        (32, 103)
        (16, 104)
        (16, 105)
        (32, 106)
        blank
      ≡ some (order memory 101 102 103 104 105 106, d))
    × Passed d
mixed_operations_print_example =
    mixed_operations_print memory 0 3 16 101 16 102 32 103 16 104 16 105 32 106 (λ e. cc) (λ e. cc)
      (λ e. cc) (omega arith) blank (λ a. refl)
