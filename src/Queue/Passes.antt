-- ===== src/Queue/Passes.antt =====
-- hw4/test2.c: the programs that use the queue from one thread pass.
use oscourse24btau.Common.{
  ℕ, ◌^◌, ◌<◌, ◌≡◌, refl, none, some, List, [], ◌∷◌, ◌++◌, ==_refl, Distinct, length, length-append,
  arith,
}
use mathlib.Core.List.{append-nil, append_assoc}
use oscourse24btau.Queue.Chain.{values, addresses}
use oscourse24btau.Queue.State.{◌>>=◌, State, init_queue, size}
use oscourse24btau.Queue.Destroy.{Destroyed, done, destroyed}
use oscourse24btau.Queue.Programs.{
  at_last, enqueue_items, dequeue_items, try_items, test_destroy_queue, test_edge_cases,
  test_enqueue_dequeue, test_try_dequeue, test_size, test_enqueue_try_dequeue,
}
use oscourse24btau.Queue.Single.{
  Quiet, Quiet-init, NotIn-earlier, enqueues_one, dequeues_one, tries_one, tries_none,
}

-- The loops.
enqueue_items_lem :
    (l : List (ℕ × ℕ)) {s : State} {m : List (ℕ × ℕ)}
    → Quiet s m
    → Distinct (addresses (m ++ l))
    → length (m ++ l) < 2 ^ 64
    → (s' : State) × (enqueue_items l s ≡ some s') × Quiet s' (m ++ l)
unfolding enqueue_items
enqueue_items_lem [] {s} {m} rep d small = (s, refl, rw (append-nil m) rep)
enqueue_items_lem ((a, p) ∷ l) {s} {m} rep d small =
    let (s', e, rep') =
      enqueues_one a p rep (NotIn-earlier m a p l d)
        (omega (arith, length-append m ((a, p) ∷ l))) in
    let (s'', e', rep'') = enqueue_items_lem l rep' (rw append_assoc d) (rw append_assoc small) in
    (s'', rw (e, ◌>>=◌) e', rw append_assoc at rep'')

module _ (load : ℕ → ℕ) where
  dequeue_items_lem :
      (me : ℕ) (l : List (ℕ × ℕ)) {s : State}
      → Quiet s l
      → (s' : State) × (dequeue_items load me (values l) s ≡ some s') × Quiet s' []
  unfolding dequeue_items
  dequeue_items_lem me [] {s} rep = (s, refl, rep)
  dequeue_items_lem me ((a, p) ∷ l) rep =
      let (s', e, rep') = dequeues_one me rep in
      let (s'', e', rep'') = dequeue_items_lem me l rep' in
      (s'', rw (e, ==_refl (load p), ◌>>=◌) e', rep'')

  try_items_lem :
      (l : List (ℕ × ℕ)) {s : State}
      → Quiet s l
      → (s' : State) × (try_items load (values l) s ≡ some s') × Quiet s' []
  unfolding try_items
  try_items_lem [] {s} rep = (s, refl, rep)
  try_items_lem ((a, p) ∷ l) rep =
      let (s', e, rep') = tries_one rep in
      let (s'', e', rep'') = try_items_lem l rep' in
      (s'', rw (e, ==_refl (load p), ◌>>=◌) e', rep'')

-- The program ends, `destroyQueue` included, and no node is left on the heap.
abbrev pub Passed : Destroyed → Type 0
Passed d = (s' : State) × (d ≡ done s') × (s'.head ≡ none) × ((a : ℕ) → s'.items a ≡ none)

pub at_last-Quiet :
    {s : State} {l : List (ℕ × ℕ)} (fuel : ℕ)
    → Quiet s l
    → length l < fuel
    → Passed (at_last fuel (some s))
unfolding size
at_last-Quiet fuel rep enough =
    destroyed fuel rep.items (omega (arith, rep.items.count)) rep.waiters.head

pub size-Quiet : {s : State} {l : List (ℕ × ℕ)} → Quiet s l → size s ≡ length l
unfolding size
size-Quiet rep = rep.items.count

module _ (load : ℕ → ℕ) (me fuel : ℕ) (items : List (ℕ × ℕ)) (s : State)
    (free : (a : ℕ) → s.items a ≡ none) (distinct : Distinct (addresses items))
    (small : length items < 2 ^ 64) (enough : length items < fuel) where
  put_all : (s' : State) × (enqueue_items items (init_queue s) ≡ some s') × Quiet s' items
  put_all = enqueue_items_lem items (Quiet-init s free) distinct small

  enqueue_dequeue_passes : Passed (test_enqueue_dequeue load me fuel items s)
  unfolding test_enqueue_dequeue
  enqueue_dequeue_passes =
      let (s1, e1, full) = put_all in
      let (s2, e2, rest) = dequeue_items_lem load me items full in
      rw (e1, e2, size-Quiet rest, ◌>>=◌) (at_last-Quiet fuel rest (omega arith))

  try_passes : Passed (test_try_dequeue load fuel items s)
  unfolding test_try_dequeue
  try_passes =
      let (s1, e1, full) = put_all in
      let (s2, e2, rest) = try_items_lem load items full in
      rw (tries_none (Quiet-init s free), e1, e2, size-Quiet rest, ◌>>=◌)
        (at_last-Quiet fuel rest (omega arith))

  enqueue_try_passes : Passed (test_enqueue_try_dequeue load fuel items s)
  unfolding test_enqueue_try_dequeue
  enqueue_try_passes =
      let (s1, e1, full) = put_all in
      let (s2, e2, rest) = try_items_lem load items full in
      rw (e1, e2, tries_none rest, ◌>>=◌) (at_last-Quiet fuel rest (omega arith))

  size_passes : Passed (test_size fuel items s)
  unfolding test_size
  size_passes =
      let (s1, e1, full) = put_all in
      rw (e1, size-Quiet full, ==_refl (length items), ◌>>=◌) (at_last-Quiet fuel full enough)

  destroy_passes : Passed (test_destroy_queue fuel s)
  unfolding test_destroy_queue
  destroy_passes = at_last-Quiet fuel (Quiet-init s free) (omega arith)

  edge_cases_pass : Passed (test_edge_cases fuel s)
  unfolding test_edge_cases
  edge_cases_pass = at_last-Quiet fuel (Quiet-init s free) (omega arith)

  -- From a state with no node on the heap, the programs that use the queue from one thread end with no
  -- fault, no failing `assert`, no endless wait and no node left on the heap: those that put in any items
  -- and take all of them out in the same order with `dequeue` or with `tryDequeue`, which finds
  -- nothing before and after, the one that looks at `size` and frees the items with `destroyQueue`, and
  -- the two that destroy an empty queue. The nodes have different addresses, there are fewer
  -- than 2^64, and there is more fuel than items.
  pub programs_pass :
      Passed (test_enqueue_dequeue load me fuel items s)
      × Passed (test_try_dequeue load fuel items s)
      × Passed (test_enqueue_try_dequeue load fuel items s)
      × Passed (test_size fuel items s)
      × Passed (test_destroy_queue fuel s)
      × Passed (test_edge_cases fuel s)
  programs_pass = (
    enqueue_dequeue_passes, try_passes, enqueue_try_passes, size_passes, destroy_passes,
    edge_cases_pass,
  )
