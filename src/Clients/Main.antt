-- ===== src/Clients/Main.antt =====
-- hw4/test_queue.c, `main`: test programs one after the other on the one queue, each between
-- `initQueue` and `destroyQueue`.
use oscourse24btau.Common.{
  ℕ, suc, ◌+◌, ◌*◌, ◌≤◌, ◌<◌, ◌≡◌, ◌⊎◌, inl, inr, Bool, true, false, none, List, [], ◌∷◌, length,
  arith,
}
use oscourse24btau.Queue.State.{State, init_queue}
use oscourse24btau.Queue.Destroy.{done, destroy_queue}
use oscourse24btau.Clients.Programs.{Op, sum_of, Finished}
use oscourse24btau.Clients.Threads.{Config, Move, Run, start, moves, idles}
use oscourse24btau.Clients.Progress.{never_stuck}
use oscourse24btau.Clients.Ends.{moves_bounded, all_joined}
use oscourse24btau.Clients.Suites.{
  IsTest, basic, concurrent, trying, mixed, edge_case, basic_test, concurrent_test,
  try_dequeue_test, mixed_operations_test, edge_case_test,
}
use oscourse24btau.Clients.Fairness.{IsTest-small, IsTest-IsFair}

-- The programs that `main` runs.
unfoldable pub test_programs : (ℕ → ℕ → ℕ) → List (List (List Op))
test_programs new =
    basic_test new
    ∷ concurrent_test new
    ∷ try_dequeue_test new
    ∷ mixed_operations_test new
    ∷ edge_case_test new
    ∷ []

-- Where `main` is: between two programs or within one, with the programs that are left.
pub data Phase : Type 0 where
  between : State → List (List (List Op)) → Phase
  within : Config → List (List (List Op)) → Phase

-- A step of the process. The flag is false for a move that changes nothing.
pub data Next (fuel : ℕ) : Phase → Bool → Phase → Type 0 where
  inits :
      {s : State} {ps : List (List Op)} {left : List (List (List Op))}
      → Next fuel (between s (ps ∷ left)) true (
          within
            (record { system = record { state = init_queue s; sleeping = λ _. false }; todo = ps })
            left)
  threads_move :
      {c c' : Config} {b : Bool} {left : List (List (List Op))}
      → Move c b c'
      → Next fuel (within c left) b (within c' left)
  joins :
      {c : Config} {s : State} {left : List (List (List Op))}
      → Finished c.todo
      → destroy_queue fuel c.system.state ≡ done s
      → Next fuel (within c left) true (between s left)

-- The phases of a process that begins with no node on the heap, with the number of steps that changed
-- something.
pub data MainRun (fuel : ℕ) (all : List (List (List Op))) : ℕ → Phase → Type 0 where
  begins : (s : State) → ((a : ℕ) → s.items a ≡ none) → MainRun fuel all 0 (between s all)
  goes :
      {n : ℕ} {p q : Phase} → MainRun fuel all n p → Next fuel p true q → MainRun fuel all (suc n) q
  idles_on :
      {n : ℕ} {p q : Phase} → MainRun fuel all n p → Next fuel p false q → MainRun fuel all n q

-- What one program, and all of them, may take.
abbrev pub steps_of : List (List Op) → ℕ
steps_of ps = 2 * sum_of length ps + length ps + 2

unfoldable pub steps_of_all : List (List (List Op)) → ℕ
steps_of_all [] = 0
steps_of_all (ps ∷ left) = steps_of ps + steps_of_all left

data AreTests : List (List (List Op)) → Type 0 where
  no_test : AreTests []
  test :
      {ps : List (List Op)} {left : List (List (List Op))}
      → IsTest ps
      → AreTests left
      → AreTests (ps ∷ left)

-- What holds while `main` runs.
data MainInv (total n : ℕ) : Phase → Type 0 where
  at_between :
      {s : State} {left : List (List (List Op))}
      → ((a : ℕ) → s.items a ≡ none)
      → AreTests left
      → n + steps_of_all left ≤ total
      → MainInv total n (between s left)
  at_within :
      {ps : List (List Op)} {c : Config} {left : List (List (List Op))} {k : ℕ} (m : ℕ)
      → IsTest ps
      → Run ps k c
      → AreTests left
      → n ≡ m + k + 1
      → m + steps_of ps + steps_of_all left ≤ total
      → MainInv total n (within c left)

Next-MainInv :
    {fuel total n : ℕ} {p q : Phase}
    → 10000 < fuel
    → Next fuel p true q
    → MainInv total n p
    → MainInv total (suc n) q
unfolding steps_of_all
Next-MainInv {n = n} enough inits (at_between {s} free (test is more) le) =
    at_within n is (start s free) more (omega arith) (omega (arith, le))
Next-MainInv enough (threads_move move) (at_within m is r more e le) =
    at_within m is (moves r move) more (omega (arith, e)) le
Next-MainInv {fuel} enough (joins {s} ended d) (at_within m is r more e le) =
    let fair = IsTest-IsFair is in
    let (_, _, _, (s', d', _, free)) =
      all_joined fuel fair r ended (omega (arith, IsTest-small is, enough)) in
    let same : s' ≡ s = cc in
    at_between (rw same at free) more (omega (arith, e, le, moves_bounded fair r))

idle-MainInv :
    {fuel total n : ℕ} {p q : Phase} → Next fuel p false q → MainInv total n p → MainInv total n q
idle-MainInv (threads_move move) (at_within m is r more e le) =
    at_within m is (idles r move) more e le

MainRun-Inv :
    {fuel : ℕ} {all : List (List (List Op))} {n : ℕ} {p : Phase}
    → 10000 < fuel
    → AreTests all
    → MainRun fuel all n p
    → MainInv (steps_of_all all) n p
MainRun-Inv enough are (begins s free) = at_between free are (omega arith)
MainRun-Inv enough are (goes r next) = Next-MainInv enough next (MainRun-Inv enough are r)
MainRun-Inv enough are (idles_on r next) = idle-MainInv next (MainRun-Inv enough are r)

-- A process that has run all programs.
pub data IsOver : Phase → Type 0 where
  over : {s : State} → ((a : ℕ) → s.items a ≡ none) → IsOver (between s [])

goes_on :
    {fuel total n : ℕ} {p : Phase}
    → 10000 < fuel
    → MainInv total n p
    → IsOver p ⊎ ((q : Phase) × Next fuel p true q)
goes_on enough (at_between free no_test le) = inl (over free)
goes_on enough (at_between free (test is more) le) = inr (_, inits)
goes_on {fuel} enough (at_within m is r more e le) =
    let fair = IsTest-IsFair is in
    elim (never_stuck fair r) [
      | inl ended ↦
          let (_, _, _, (s', d, _, _)) =
            all_joined fuel fair r ended (omega (arith, IsTest-small is, enough)) in
          inr (_, joins ended d)
      | inr go ↦ inr (_, threads_move go.1)
    ]

counted : {total n : ℕ} {p : Phase} → MainInv total n p → n ≤ total
counted (at_between free are le) = omega (arith, le)
counted (at_within m is r more e le) = omega (arith, e, le, moves_bounded (IsTest-IsFair is) r)

test_programs-AreTests : (new : ℕ → ℕ → ℕ) → AreTests (test_programs new)
unfolding test_programs
test_programs-AreTests new =
    test (basic new)
      (test (concurrent new) (test (trying new) (test (mixed new) (test (edge_case new) no_test))))

-- However the threads of the five programs of test_queue.c run, with fuel for more than 10000 items
-- in `destroyQueue`: `main` takes at most 2 * m + n + 2 steps for each program, where its `n` threads use
-- the queue `m` times, and in every phase that it reaches it can take a step, or it has run all programs
-- and no node is on the heap. Returns of `cnd_wait` with no signal and calls of `tryDequeue` that find
-- nothing do not count.
pub main_ends :
    {fuel n : ℕ} {p : Phase} (new : ℕ → ℕ → ℕ)
    → 10000 < fuel
    → MainRun fuel (test_programs new) n p
    → (n ≤ steps_of_all (test_programs new)) × (IsOver p ⊎ ((q : Phase) × Next fuel p true q))
main_ends new enough r =
    let inv = MainRun-Inv enough (test_programs-AreTests new) r in (counted inv, goes_on enough inv)
