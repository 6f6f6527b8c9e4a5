-- ===== src/Clients/Suites.antt =====
-- hw4/test2.c and hw4/test_queue.c: the programs that start threads. `new t i` is the pointer to the
-- item that the thread `t` puts in after `i` others. Sleeping and printing are left out.
use oscourse24btau.Common.{ℕ, zero, suc, ◌+◌, List, [], ◌∷◌, ◌++◌}
use oscourse24btau.Clients.Programs.{Op, puts, takes, polls}

-- A loop with one call of the queue.
unfoldable pub calls : ℕ → Op → List Op
calls zero op = []
calls (suc n) op = op ∷ calls n op

-- `consumer_thread` and `try_consumer_thread` of hw4/test_queue.c.
abbrev pub consumer_thread : ℕ → List Op
consumer_thread n = calls n takes

abbrev pub try_consumer_thread : ℕ → List Op
try_consumer_thread n = calls n polls

-- `enqueueItems` of hw4/test2.c, and `producer_thread` of both files: the items from `i` on.
unfoldable pub producer_thread : (ℕ → ℕ) → ℕ → ℕ → List Op
producer_thread new i zero = []
producer_thread new i (suc n) = puts (new i) ∷ producer_thread new (i + 1) n

-- `mixed_thread` of hw4/test_queue.c.
unfoldable pub mixed_thread : (ℕ → ℕ) → ℕ → ℕ → List Op
mixed_thread new i zero = []
mixed_thread new i (suc n) = puts (new i) ∷ takes ∷ mixed_thread new (i + 1) n

-- The threads that the rounds of a loop create.
unfoldable pub rounds : ℕ → (ℕ → List (List Op)) → List (List Op)
rounds zero threads = []
rounds (suc n) threads = threads n ++ rounds n threads

module _ (new : ℕ → ℕ → ℕ) where
  unfoldable pub test_waiting : List (List Op)
  unfolding producer_thread rounds calls
  test_waiting = producer_thread (new 0) 0 3 ∷ rounds 3 (λ t. calls 1 polls ∷ [])

  unfoldable pub test_basic_concurrent : List (List Op)
  unfolding producer_thread calls
  test_basic_concurrent =
      calls 100 takes ∷ producer_thread (new 1) 0 50 ∷ producer_thread (new 2) 0 50 ∷ []

  unfoldable pub test_enqueue_dequeue_with_sleep : List (List Op)
  unfolding producer_thread rounds calls
  test_enqueue_dequeue_with_sleep = producer_thread (new 0) 0 3 ∷ rounds 3 (λ t. calls 1 takes ∷ [])

  unfoldable pub test_multiconcurrent : List (List Op)
  unfolding producer_thread rounds calls
  test_multiconcurrent =
      rounds 100 (λ t. calls 1 takes ∷ []) ++ rounds 100 (λ t. producer_thread (new t) 0 1 ∷ [])

  unfoldable pub basic_test : List (List Op)
  unfolding producer_thread calls
  basic_test = producer_thread (new 0) 0 1000 ∷ consumer_thread 1000 ∷ []

  unfoldable pub concurrent_test : List (List Op)
  unfolding producer_thread rounds calls
  concurrent_test = rounds 10 (λ t. producer_thread (new t) 0 1000 ∷ consumer_thread 1000 ∷ [])

  unfoldable pub try_dequeue_test : List (List Op)
  unfolding producer_thread rounds calls
  try_dequeue_test = rounds 10 (λ t. producer_thread (new t) 0 1000 ∷ try_consumer_thread 1000 ∷ [])

  unfoldable pub mixed_operations_test : List (List Op)
  unfolding mixed_thread rounds
  mixed_operations_test = rounds 10 (λ t. mixed_thread (new t) 0 500 ∷ [])

  unfoldable pub edge_case_test : List (List Op)
  unfolding producer_thread calls
  edge_case_test = producer_thread (new 0) 0 1 ∷ calls 1 takes ∷ []

-- The programs. `test_fifo_order` of hw4/test2.c, which `main` has commented out, is none of them: its
-- `assert` is about which thread gets which item.
pub data IsTest : List (List Op) → Type 0 where
  waiting_one : (new : ℕ → ℕ → ℕ) → IsTest (test_waiting new)
  basic_concurrent : (new : ℕ → ℕ → ℕ) → IsTest (test_basic_concurrent new)
  with_sleep : (new : ℕ → ℕ → ℕ) → IsTest (test_enqueue_dequeue_with_sleep new)
  multiconcurrent : (new : ℕ → ℕ → ℕ) → IsTest (test_multiconcurrent new)
  basic : (new : ℕ → ℕ → ℕ) → IsTest (basic_test new)
  concurrent : (new : ℕ → ℕ → ℕ) → IsTest (concurrent_test new)
  trying : (new : ℕ → ℕ → ℕ) → IsTest (try_dequeue_test new)
  mixed : (new : ℕ → ℕ → ℕ) → IsTest (mixed_operations_test new)
  edge_case : (new : ℕ → ℕ → ℕ) → IsTest (edge_case_test new)
