-- ===== src/Clients/Tests.antt =====
-- hw4/test_queue.c: a run of `edge_case_test`, where the consumer begins to wait before the item comes,
-- and the beginning of a run of `main`.
use oscourse24btau.Common.{
  ℕ, zero, suc, ◌+◌, ◌-◌, ◌*◌, ◌≤◌, ◌<◌, ◌≡◌, ◌⊎◌, refl, true, false, Option, none, some, List, [],
  ◌∷◌, length, arith,
}
use oscourse24btau.Queue.Chain.{append_node, update}
use oscourse24btau.Queue.State.{
  State, init_queue, wake_first, enqueue, take, register, dequeue_round, dequeue, clean_up, resume,
  size, visited, waiting,
}
use oscourse24btau.Queue.System.{enqueues, falls_asleep, wakes}
use oscourse24btau.Queue.Destroy.{destroy_queue}
use oscourse24btau.Queue.Passes.{Passed}
use oscourse24btau.Clients.Programs.{Op, puts, takes, sum_of, puts_in, takes_out, Finished}
use oscourse24btau.Clients.Threads.{
  Config, put_in, got_after_waiting, Move, completes, begins_to_wait, Run, start, moves, IsFair,
}
use oscourse24btau.Clients.Progress.{never_stuck}
use oscourse24btau.Clients.Ends.{moves_bounded, all_joined}
use oscourse24btau.Clients.Suites.{
  edge_case_test, edge_case, basic_test, concurrent_test, try_dequeue_test, mixed_operations_test,
  producer_thread, consumer_thread,
}
use oscourse24btau.Clients.Main.{
  test_programs, Phase, within, Next, inits, threads_move, MainRun, begins, goes, steps_of_all,
  IsOver, main_ends,
}
use oscourse24btau.Clients.Fairness.{tests_pass}

abbrev blank : State
blank = record {
  items = λ _. none;
  head = none;
  tail = none;
  count = 0;
  visited_count = 0;
  waiters = λ _. none;
  waiting_head = none;
  waiting_tail = none;
  waiting_count = 0;
}

abbrev result : {A : Type 0} → Option (A × State) → State
result none = blank
result (some (a, s)) = s

abbrev state_of : Option State → State
state_of none = blank
state_of (some s) = s

-- The main thread puts in 42, and thread 1 takes it out.
abbrev answer : ℕ → ℕ → ℕ
answer t i = 42

abbrev two_threads : List (List Op)
two_threads = (puts 42 ∷ []) ∷ (takes ∷ []) ∷ []

edge_case-eq : edge_case_test answer ≡ two_threads
unfolding edge_case_test
edge_case-eq = refl

two_threads-IsFair : IsFair two_threads
two_threads-IsFair = record {
  lend = (tt, ((omega arith, tt), tt));
  enough = omega arith;
  small = omega arith;
}

-- The start, thread 1 asleep, thread 1 signalled, and the end.
abbrev fresh : Config
fresh = record {
  system = record { state = init_queue blank; sleeping = λ _. false };
  todo = two_threads;
}

abbrev sleeping : Config
sleeping = record fresh {
  system = record {
    state = result (dequeue 1 fresh.system.state);
    sleeping = update fresh.system.sleeping 1 true;
  };
}

abbrev signalled : Config
signalled = record {
  system = record sleeping.system { state = state_of (enqueue (some 7) 42 sleeping.system.state) };
  todo = [] ∷ (takes ∷ []) ∷ [];
}

abbrev ended : Config
ended = record {
  system = record {
    state = result (resume 1 signalled.system.state);
    sleeping = update signalled.system.sleeping 1 false;
  };
  todo = [] ∷ [] ∷ [];
}

sleeping-Run : Run two_threads 1 sleeping
unfolding dequeue dequeue_round register append_node init_queue
sleeping-Run = moves (start blank (λ a. refl)) (begins_to_wait 1 [] refl (falls_asleep 1 refl refl))

ended-Run : Run two_threads 3 ended
unfolding resume clean_up take enqueue wake_first dequeue dequeue_round register append_node
    init_queue
ended-Run =
    moves
      (moves sleeping-Run (
        completes 0 (puts 42) [] refl (put_in 0 42) (enqueues 0 7 42 refl refl (omega arith) refl)))
      (completes 1 takes [] refl (got_after_waiting 1 42) (wakes 1 42 refl refl))

ended-Finished : Finished ended.todo
ended-Finished zero = refl
ended-Finished (suc zero) = refl
ended-Finished (suc (suc t)) = refl

never_stuck_example : Finished sleeping.todo ⊎ ((c' : Config) × Move sleeping true c')
never_stuck_example = never_stuck two_threads-IsFair sleeping-Run

moves_bounded_example : 3 ≤ 2 * sum_of length two_threads + length two_threads
moves_bounded_example = moves_bounded two_threads-IsFair ended-Run

all_joined_example :
    (size ended.system.state ≡ sum_of puts_in two_threads - sum_of takes_out two_threads)
    × (visited ended.system.state ≡ sum_of takes_out two_threads)
    × (waiting ended.system.state ≡ 0)
    × Passed (destroy_queue 2 ended.system.state)
all_joined_example = all_joined 2 two_threads-IsFair ended-Run ended-Finished (omega arith)

edge_case-Run : Run (edge_case_test answer) 3 ended
unfolding edge_case_test
edge_case-Run = ended-Run

edge_case_small : sum_of puts_in (edge_case_test answer) < 2
unfolding edge_case_test
edge_case_small = omega arith

tests_pass_example :
    (3 ≤ 2 * sum_of length (edge_case_test answer) + length (edge_case_test answer))
    × (((c' : Config) × Move ended true c')
        ⊎ ((size ended.system.state ≡ 0)
            × (visited ended.system.state ≡ sum_of puts_in (edge_case_test answer))
            × (waiting ended.system.state ≡ 0)
            × Passed (destroy_queue 2 ended.system.state)))
tests_pass_example = tests_pass 2 (edge_case answer) edge_case-Run edge_case_small

-- `main` has begun its first program, and the producer there has put in an item.
abbrev first_test : Config
first_test = record {
  system = record { state = init_queue blank; sleeping = λ _. false };
  todo = basic_test answer;
}

abbrev first_put : Config
first_put = record {
  system = record first_test.system {
    state = state_of (enqueue (some 7) (answer 0 0) first_test.system.state);
  };
  todo = producer_thread (answer 0) 1 999 ∷ consumer_thread 1000 ∷ [];
}

abbrev later_tests : List (List (List Op))
later_tests =
    concurrent_test answer
    ∷ try_dequeue_test answer
    ∷ mixed_operations_test answer
    ∷ edge_case_test answer
    ∷ []

first_put-MainRun : MainRun 10001 (test_programs answer) 2 (within first_put later_tests)
unfolding test_programs basic_test producer_thread enqueue wake_first append_node init_queue
first_put-MainRun = goes (goes (begins blank (λ a. refl)) inits) (
    threads_move (
      completes 0 (puts (answer 0 0)) (producer_thread (answer 0) 1 999) refl
        (put_in 0 (answer 0 0)) (enqueues 0 7 (answer 0 0) refl refl (omega arith) refl)))

main_ends_example :
    (2 ≤ steps_of_all (test_programs answer))
    × (IsOver (within first_put later_tests)
        ⊎ ((q : Phase) × Next 10001 (within first_put later_tests) true q))
main_ends_example = main_ends answer (omega arith) first_put-MainRun
