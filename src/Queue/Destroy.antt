-- ===== src/Queue/Destroy.antt =====
-- hw4/queue.c, `destroyQueue`.
use oscourse24btau.Common.{
  ℕ, zero, suc, ◌≡◌, ◌<◌, refl, ◌∙◌, inl, inr, true, Option, none, some, List, [], ◌∷◌, In, NotIn,
  Distinct, length, arith,
}
use native.Mathlib.Decide.{ℕ_discrete}
use oscourse24btau.Queue.Chain.{Cells, update, addresses, first, Chain, Chain-update}
use oscourse24btau.Queue.State.{State, size}
use oscourse24btau.Queue.Rep.{HasItems}
use oscourse24btau.Queue.Waiters.{nodes}
use oscourse24btau.Queue.System.{System, Reach}
use oscourse24btau.Queue.Invariant.{Reach-Inv}
use oscourse24btau.Queue.Runs.{IsWaiting}

-- How `destroyQueue` ends: `no_object` is an access to no live object, `bad_free` a `free` of what `malloc`
-- did not return, and `not_reached` a program that does not come to its `destroyQueue`.
pub data Destroyed : Type 0 where
  done : State → Destroyed
  no_object bad_free not_reached out_of_fuel : Destroyed

-- A pointer to an item, or to the local variable of a thread.
pub data Pointer : Type 0 where
  to_item to_local : ℕ → Pointer

-- `free`. Only items come from `malloc`; a `WaitingThread` is a local variable of `dequeue`.
pub free : Pointer → State → Option State
free (to_item a) s = elim (s.items a) [
  | none ↦ none
  | some item ↦ some (record s { items = update s.items a none })
]
free (to_local t) s = none

-- The second loop, on fuel.
pub free_waiters : ℕ → State → Destroyed
unfolding free
free_waiters zero s = out_of_fuel
free_waiters (suc fuel) s = elim s.waiting_head [
  | none ↦ done s
  | some temp ↦ elim (s.waiters temp) [
    | none ↦ no_object
    | some node ↦ elim (free (to_local temp) (record s { waiting_head = node.next })) [
      | none ↦ bad_free
      | some s' ↦ free_waiters fuel s'
    ]
  ]
]

-- The first loop, on fuel, and then the second with what is left of it.
pub free_items : ℕ → State → Destroyed
unfolding free free_waiters
free_items zero s = out_of_fuel
free_items (suc fuel) s = elim s.head [
  | none ↦ free_waiters (suc fuel) s
  | some temp ↦ elim (s.items temp) [
    | none ↦ no_object
    | some item ↦ elim (free (to_item temp) (record s { head = item.next })) [
      | none ↦ bad_free
      | some s' ↦ free_items fuel s'
    ]
  ]
]

pub destroy_queue : ℕ → State → Destroyed
unfolding free_items
destroy_queue fuel s = free_items fuel s

-- The heap without the nodes at some addresses.
abbrev pub without : Cells ℕ → List (ℕ × ℕ) → Cells ℕ
without h [] = h
without h ((a, x) ∷ xs) = without (update h a none) xs

without_free :
    (h : Cells ℕ) (xs : List (ℕ × ℕ)) (b : ℕ)
    → ((NotIn b (addresses xs)) → h b ≡ none)
    → without h xs b ≡ none
without_free h [] b free = free tt
without_free h ((a, x) ∷ xs) b free = without_free (update h a none) xs b (λ n.
    elim (ℕ_discrete b a) [ yes e ↦ ground arith | no ne ↦ let q = free (ne, n) in ground arith ])

free_items_lem :
    (fuel : ℕ) (xs : List (ℕ × ℕ)) (s : State)
    → s.head ≡ first xs
    → Distinct (addresses xs)
    → Chain s.items xs
    → length xs < fuel
    → (left : ℕ) × (free_items fuel s
        ≡ free_waiters (suc left) (record s { head = none; items = without s.items xs }))
unfolding free_items free
free_items_lem zero xs s e d c h = absurd (omega arith)
free_items_lem (suc fuel) [] s e d c h = (fuel, rw e)
free_items_lem (suc fuel) ((a, x) ∷ xs) s e d c h =
    let (left, q) =
      free_items_lem fuel xs (record s { head = first xs; items = update s.items a none }) refl d.1
        (Chain-update s.items xs a none d.0 c.1) (omega arith) in
    (left, rw (e, c.0, free, c.0) q)

no_waiters_lem : (s : State) (left : ℕ) → s.waiting_head ≡ none → free_waiters (suc left) s ≡ done s
unfolding free_waiters
no_waiters_lem s left e = rw e refl

waiters_lem :
    (s : State) (left t : ℕ) (ws : List ℕ)
    → s.waiting_head ≡ first (nodes ws)
    → Chain s.waiters (nodes ws)
    → In t ws
    → free_waiters (suc left) s ≡ bad_free
unfolding free_waiters free
waiters_lem s left t [] e c i = absurd i
waiters_lem s left t (w ∷ ws) e c i = rw (e, c.0) refl

destroy_lem :
    {s : State} {xs : List (ℕ × ℕ)} (fuel : ℕ)
    → HasItems s xs
    → size s < fuel
    → (left : ℕ) × (destroy_queue fuel s
        ≡ free_waiters (suc left) (record s { head = none; items = without s.items xs }))
unfolding destroy_queue size
destroy_lem {s} {xs} fuel it h =
    free_items_lem fuel xs s it.head it.distinct it.chain (omega (arith, it.count))

-- What `destroyQueue` leaves when no thread waits.
pub destroyed :
    {s : State} {xs : List (ℕ × ℕ)} (fuel : ℕ)
    → HasItems s xs
    → size s < fuel
    → s.waiting_head ≡ none
    → (s' : State) × (destroy_queue fuel s ≡ done s')
      × (s'.head ≡ none)
      × ((a : ℕ) → s'.items a ≡ none)
destroyed {s} {xs} fuel it h no_one =
    let (left, e) = destroy_lem fuel it h in
    (
      record s { head = none; items = without s.items xs },
      e ∙ no_waiters_lem _ left no_one,
      refl,
      λ a. without_free s.items xs a (it.only a),
    )

module _ {ps gs : List ℕ} {s : System} (r : Reach ps gs s) where
  -- In every reachable state, if no thread is in the list of waiting threads, `destroyQueue` ends,
  -- with more rounds than items to spend, without a fault, and no node is left on the heap.
  pub destroy_frees :
      (fuel : ℕ)
      → size s.state < fuel
      → s.state.waiting_head ≡ none
      → (s' : State) × (destroy_queue fuel s.state ≡ done s')
        × (s'.head ≡ none)
        × ((a : ℕ) → s'.items a ≡ none)
  destroy_frees fuel h no_one = destroyed fuel (Reach-Inv r).refines.rep.items h no_one

  -- In every reachable state, if some thread sleeps in `dequeue` and has not been signalled,
  -- `destroyQueue` calls `free` on what `malloc` did not return, with more rounds than items to spend.
  pub destroy_faults :
      (fuel t : ℕ)
      → size s.state < fuel
      → s.sleeping t ≡ true
      → IsWaiting s.state.waiters t
      → destroy_queue fuel s.state ≡ bad_free
  destroy_faults fuel t h asleep waits =
      let wt = (Reach-Inv r).refines.rep.waiters in
      let th = (Reach-Inv r).refines.rep.threads in
      let (left, e) = destroy_lem fuel (Reach-Inv r).refines.rep.items h in
      e ∙ elim (th.accounted t asleep) [
        | inl i ↦ waiters_lem _ left t _ wt.head wt.chain i
        | inr i ↦ let (n, e) = th.signalled t i in let (m, q) = waits in absurd (cc)
      ]
