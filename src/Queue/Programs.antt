-- ===== src/Queue/Programs.antt =====
-- hw4/test2.c: the programs there that use the queue from one thread. `none` is a fault, an `assert`
-- that fails, a wait that nothing can end, or the end of the fuel. The items are pointers, each with the address that `malloc`
-- returns when it is enqueued; what `load` reads through a pointer is a parameter.
use oscourse24btau.Common.{
  ℕ, zero, suc, true, false, Bool, Option, none, some, List, [], ◌∷◌, ◌++◌, ◌==◌, if◌then◌else◌,
  length,
}
use oscourse24btau.Queue.Chain.{values}
use oscourse24btau.Queue.State.{
  ◌>>=◌, State, init_queue, enqueue, blocked, returned, dequeue, try_dequeue, size,
}
use oscourse24btau.Queue.Destroy.{Destroyed, not_reached, destroy_queue}

-- `assert`
abbrev pub check : Bool → State → Option State
check holds s = if holds then some s else none

-- The end of each program, once its asserts have passed.
abbrev pub at_last : ℕ → Option State → Destroyed
at_last fuel none = not_reached
at_last fuel (some s) = destroy_queue fuel s

-- The loop that enqueues the pointers to the items.
unfoldable pub enqueue_items : List (ℕ × ℕ) → State → Option State
enqueue_items [] s = some s
enqueue_items ((new, p) ∷ l) s = enqueue (some new) p s >>= enqueue_items l

-- The loop that dequeues and checks the order, in thread `me`.
unfoldable pub dequeue_items : (ℕ → ℕ) → ℕ → List ℕ → State → Option State
dequeue_items load me [] s = some s
dequeue_items load me (p ∷ ps) s = dequeue me s >>= λ (turn, s'). elim turn [
  | blocked ↦ none
  | returned item ↦ check (load item == load p) s' >>= dequeue_items load me ps
]

-- The loop that does so with `tryDequeue`.
unfoldable pub try_items : (ℕ → ℕ) → List ℕ → State → Option State
try_items load [] s = some s
try_items load (p ∷ ps) s = try_dequeue s >>= λ (found, s'). elim found [
  | none ↦ none
  | some item ↦ check (load item == load p) s' >>= try_items load ps
]

-- `assert(!tryDequeue(&item))`
unfoldable pub try_in_vain : State → Option State
try_in_vain s = try_dequeue s >>= λ (found, s'). elim found [ none ↦ some s' | some item ↦ none ]

unfoldable pub test_destroy_queue : ℕ → State → Destroyed
test_destroy_queue fuel s = destroy_queue fuel (init_queue s)

unfoldable pub test_edge_cases : ℕ → State → Destroyed
test_edge_cases fuel s = destroy_queue fuel (init_queue s)

unfoldable pub test_size : ℕ → List (ℕ × ℕ) → State → Destroyed
unfolding enqueue_items
test_size fuel items s =
    at_last fuel (do s1 ← enqueue_items items (init_queue s); check (size s1 == length items) s1)

module _ (load : ℕ → ℕ) where
  unfoldable pub test_enqueue_dequeue : ℕ → ℕ → List (ℕ × ℕ) → State → Destroyed
  unfolding enqueue_items dequeue_items
  test_enqueue_dequeue me fuel items s = at_last fuel (do
    s1 ← enqueue_items items (init_queue s)
    s2 ← dequeue_items load me (values items) s1
    check (size s2 == 0) s2)

  unfoldable pub test_try_dequeue : ℕ → List (ℕ × ℕ) → State → Destroyed
  unfolding enqueue_items try_items try_in_vain
  test_try_dequeue fuel items s = at_last fuel (do
    s0 ← try_in_vain (init_queue s)
    s1 ← enqueue_items items s0
    s2 ← try_items load (values items) s1
    check (size s2 == 0) s2)

  unfoldable pub test_enqueue_try_dequeue : ℕ → List (ℕ × ℕ) → State → Destroyed
  unfolding enqueue_items try_items try_in_vain
  test_enqueue_try_dequeue fuel items s = at_last fuel (do
    s1 ← enqueue_items items (init_queue s)
    s2 ← try_items load (values items) s1
    try_in_vain s2)

-- `test_mixed_operations`, with what it prints in its `printf`s of items.

-- The lines that the two kinds of `printf` write.
pub data Line : Type 0 where
  enqueued dequeued : ℕ → Line

-- What has been printed, and the queue.
abbrev pub Printed : Type 0
Printed = List Line × State

module _ (load : ℕ → ℕ) where
  -- `enqueue` of a pointer, and the line after it.
  unfoldable pub enqueue_one : ℕ × ℕ → Printed → Option Printed
  enqueue_one (new, p) (out, s) =
      enqueue (some new) p s >>= λ s'. some (out ++ (enqueued (load p) ∷ []), s')

  -- `dequeue` with its line.
  unfoldable pub dequeue_one : ℕ → Printed → Option Printed
  dequeue_one me (out, s) = dequeue me s >>= λ (turn, s'). elim turn [
    | blocked ↦ none
    | returned item ↦ some (out ++ (dequeued (load item) ∷ []), s')
  ]

  -- `tryDequeue` with its line if it finds an item.
  unfoldable pub try_dequeue_one : Printed → Option Printed
  try_dequeue_one (out, s) = try_dequeue s >>= λ (found, s'). elim found [
    | none ↦ some (out, s')
    | some item ↦ some (out ++ (dequeued (load item) ∷ []), s')
  ]

  -- The loop of three rounds.
  unfoldable pub try_times : ℕ → Printed → Option Printed
  unfolding try_dequeue_one
  try_times zero r = some r
  try_times (suc n) r = try_dequeue_one r >>= try_times n

  -- The last loop, on fuel.
  unfoldable pub take_rest : ℕ → ℕ → Printed → Option Printed
  unfolding dequeue_one
  take_rest me zero r = none
  take_rest me (suc fuel) r = elim (size r.1 == 0) [
    | true ↦ some r
    | false ↦ dequeue_one me r >>= take_rest me fuel
  ]

  -- `test_mixed_operations` before its `destroyQueue`, with the node and the pointer of each item.
  unfoldable pub mixed_steps : ℕ → ℕ → (i1 i2 i3 i4 i5 i6 : ℕ × ℕ) → Printed → Option Printed
  unfolding enqueue_one dequeue_one try_times take_rest
  mixed_steps me fuel i1 i2 i3 i4 i5 i6 r = do
    r1 ← enqueue_one i1 r
    r2 ← try_dequeue_one r1
    r3 ← enqueue_one i2 r2
    r4 ← enqueue_one i3 r3
    r5 ← dequeue_one me r4
    r6 ← enqueue_one i4 r5
    r7 ← try_times 3 r6
    r8 ← enqueue_one i5 r7
    r9 ← enqueue_one i6 r8
    take_rest me fuel r9

  -- What it prints, and how `destroyQueue` ends.
  unfoldable pub test_mixed_operations :
      ℕ → ℕ → (i1 i2 i3 i4 i5 i6 : ℕ × ℕ) → State → Option (List Line × Destroyed)
  unfolding mixed_steps
  test_mixed_operations me fuel i1 i2 i3 i4 i5 i6 s =
      mixed_steps me fuel i1 i2 i3 i4 i5 i6 ([], init_queue s) >>= λ (out, s').
      some (out, destroy_queue fuel s')
