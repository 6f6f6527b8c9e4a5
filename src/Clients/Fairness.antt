-- ===== src/Clients/Fairness.antt =====
-- hw4/test2.c and hw4/test_queue.c: the programs are fair, so they pass.
use oscourse24btau.Common.{
  ℕ, ◌+◌, ◌*◌, ◌≤◌, ◌<◌, ◌≡◌, ◌⊎◌, inl, inr, true, List, [], ◌∷◌, length, arith,
}
use oscourse24btau.Queue.State.{size, visited, waiting}
use oscourse24btau.Queue.Destroy.{destroy_queue}
use oscourse24btau.Queue.Passes.{Passed}
use oscourse24btau.Clients.Programs.{Op, takes, sum_of, puts_in}
use oscourse24btau.Clients.Threads.{Config, Move, Run, IsFair}
use oscourse24btau.Clients.Progress.{never_stuck}
use oscourse24btau.Clients.Ends.{moves_bounded, all_joined}
use oscourse24btau.Clients.Suites.{
  basic_test, calls, concurrent_test, edge_case_test, mixed_operations_test, rounds,
  test_basic_concurrent, test_enqueue_dequeue_with_sleep, test_multiconcurrent, test_waiting,
  try_dequeue_test, IsTest, waiting_one, basic_concurrent, with_sleep, multiconcurrent, basic,
  concurrent, trying, mixed, edge_case,
}
use oscourse24btau.Clients.Groups.{
  Group, takes-Thread, polls-Thread, producer-Thread, mixed-Thread, cons-Group, append-Group,
  rounds-Group, single-Group,
}

-- The program puts in as many items as it takes out, and not too many.
Balanced : List (List Op) → Type 0
Balanced ps = (n : ℕ) × (n ≤ 10000) × Group ps n n

module _ (new : ℕ → ℕ → ℕ) where
  test_waiting-Balanced : Balanced (test_waiting new)
  unfolding Balanced test_waiting
  test_waiting-Balanced = (
    3,
    omega arith,
    cons-Group (producer-Thread (new 0) 0 3)
        (rounds-Group 3 _ 0 1 (λ t. single-Group (polls-Thread 1))),
  )

  test_basic_concurrent-Balanced : Balanced (test_basic_concurrent new)
  unfolding Balanced test_basic_concurrent
  test_basic_concurrent-Balanced = (
    100,
    omega arith,
    cons-Group (takes-Thread 100)
        (cons-Group (producer-Thread (new 1) 0 50) (single-Group (producer-Thread (new 2) 0 50))),
  )

  test_enqueue_dequeue_with_sleep-Balanced : Balanced (test_enqueue_dequeue_with_sleep new)
  unfolding Balanced test_enqueue_dequeue_with_sleep
  test_enqueue_dequeue_with_sleep-Balanced = (
    3,
    omega arith,
    cons-Group (producer-Thread (new 0) 0 3)
        (rounds-Group 3 _ 0 1 (λ t. single-Group (takes-Thread 1))),
  )

  test_multiconcurrent-Balanced : Balanced (test_multiconcurrent new)
  unfolding Balanced test_multiconcurrent
  test_multiconcurrent-Balanced = (
    100,
    omega arith,
    append-Group (rounds 100 (λ t. calls 1 takes ∷ []))
        (rounds-Group 100 _ 0 1 (λ t. single-Group (takes-Thread 1)))
        (rounds-Group 100 _ 1 0 (λ t. single-Group (producer-Thread (new t) 0 1))),
  )

  basic_test-Balanced : Balanced (basic_test new)
  unfolding Balanced basic_test
  basic_test-Balanced = (
    1000,
    omega arith,
    cons-Group (producer-Thread (new 0) 0 1000) (single-Group (takes-Thread 1000)),
  )

  concurrent_test-Balanced : Balanced (concurrent_test new)
  unfolding Balanced concurrent_test
  concurrent_test-Balanced = (
    10000,
    omega arith,
    rounds-Group 10 _ 1000 1000
        (λ t. cons-Group (producer-Thread (new t) 0 1000) (single-Group (takes-Thread 1000))),
  )

  try_dequeue_test-Balanced : Balanced (try_dequeue_test new)
  unfolding Balanced try_dequeue_test
  try_dequeue_test-Balanced = (
    10000,
    omega arith,
    rounds-Group 10 _ 1000 1000
        (λ t. cons-Group (producer-Thread (new t) 0 1000) (single-Group (polls-Thread 1000))),
  )

  mixed_operations_test-Balanced : Balanced (mixed_operations_test new)
  unfolding Balanced mixed_operations_test
  mixed_operations_test-Balanced = (
    5000,
    omega arith,
    rounds-Group 10 _ 500 500 (λ t. single-Group (mixed-Thread (new t) 0 500)),
  )

  edge_case_test-Balanced : Balanced (edge_case_test new)
  unfolding Balanced edge_case_test
  edge_case_test-Balanced =
      (1, omega arith, cons-Group (producer-Thread (new 0) 0 1) (single-Group (takes-Thread 1)))

IsTest-Balanced : {ps : List (List Op)} → IsTest ps → Balanced ps
IsTest-Balanced (waiting_one new) = test_waiting-Balanced new
IsTest-Balanced (basic_concurrent new) = test_basic_concurrent-Balanced new
IsTest-Balanced (with_sleep new) = test_enqueue_dequeue_with_sleep-Balanced new
IsTest-Balanced (multiconcurrent new) = test_multiconcurrent-Balanced new
IsTest-Balanced (basic new) = basic_test-Balanced new
IsTest-Balanced (concurrent new) = concurrent_test-Balanced new
IsTest-Balanced (trying new) = try_dequeue_test-Balanced new
IsTest-Balanced (mixed new) = mixed_operations_test-Balanced new
IsTest-Balanced (edge_case new) = edge_case_test-Balanced new

-- No program puts in more than 10000 items, and each is fair.
pub IsTest-small : {ps : List (List Op)} → IsTest ps → sum_of puts_in ps ≤ 10000
unfolding Balanced
IsTest-small test = let (n, small, g) = IsTest-Balanced test in omega (arith, g.in_all, small)

pub IsTest-IsFair : {ps : List (List Op)} → IsTest ps → IsFair ps
unfolding Balanced
IsTest-IsFair test =
    let (n, small, g) = IsTest-Balanced test in
    record {
      lend = g.lends;
      enough = omega (arith, g.in_all, g.out_all);
      small = omega (arith, g.in_all, small);
    }

-- In every state that a program of hw4/test_queue.c reaches, or one with threads of hw4/test2.c that its
-- `main` runs, its threads have made at most 2 * m + n moves, where they use the queue `m` times and are
-- `n`, and some thread can make another, or the queue is empty, `visited` is the number of items that
-- were put in, `waiting` is 0, and `destroyQueue`, with more fuel than items, ends with no fault and
-- leaves no node on the heap. Returns of `cnd_wait` with no signal and calls of `tryDequeue` that find
-- nothing do not count as moves.
pub tests_pass :
    {ps : List (List Op)} {k : ℕ} {c : Config} (fuel : ℕ)
    → IsTest ps
    → Run ps k c
    → sum_of puts_in ps < fuel
    → (k ≤ 2 * sum_of length ps + length ps)
      × (((c' : Config) × Move c true c')
          ⊎ ((size c.system.state ≡ 0)
              × (visited c.system.state ≡ sum_of puts_in ps)
              × (waiting c.system.state ≡ 0)
              × Passed (destroy_queue fuel c.system.state)))
unfolding Balanced
tests_pass {ps} fuel test r enough =
    let (n, small, g) = IsTest-Balanced test in
    let fair = IsTest-IsFair test in
    (
      moves_bounded fair r,
      elim (never_stuck fair r) [
        | inr moves ↦ inl moves
        | inl ended ↦
            let (left, seen, none_waits, passed) = all_joined fuel fair r ended enough in
            inr (
              omega (arith, left, g.in_all, g.out_all),
              omega (arith, seen, g.in_all, g.out_all),
              none_waits,
              passed,
            )
      ],
    )
