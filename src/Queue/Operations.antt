-- ===== src/Queue/Operations.antt =====
-- hw4/queue.c: each critical section on a state with given items and waiting threads.
use oscourse24btau.Common.{
  ℕ, ◌+◌, ◌^◌, ◌<◌, ◌≡◌, ◌≢◌, refl, inl, inr, Bool, true, false, Option, none, some, List, [], ◌∷◌,
  ◌++◌, ◌==◌, In, NotIn, length, length-append, arith,
}
use oscourse24btau.Queue.Chain.{Cells, update, addresses, first, Chain}
use oscourse24btau.Queue.State.{
  ◌>>=◌, State, increment, enqueue, Turn, blocked, returned, dequeue_round, resume, try_dequeue,
}
use oscourse24btau.Queue.Rep.{
  HasItems, SameItems, HasItems-SameItems, take_lem, taken, taken-HasItems, append-HasItems,
  appended,
}
use oscourse24btau.Queue.Waiters.{
  nodes, HasWaiters, HasWaiters-same, register_lem, wake_first-cons, wake_first-nil,
  woken-HasWaiters, clean_up_lem,
}
use oscourse24btau.Queue.Threads.{IsSignalled, Threads, Threads-put, Threads-wake}

-- The items `xs`, the waiting threads `ws` and the signalled threads `wk` of a state.
pub record Rep (s : State) (sleeping : ℕ → Bool) (xs : List (ℕ × ℕ)) (ws wk : List ℕ) : Type 0 where
  pub items : HasItems s xs
  pub waiters : HasWaiters s ws
  pub threads : Threads s.waiters sleeping ws wk (length xs)

-- What an operation that takes the first item leaves.
pub record Took (s : State) (x : ℕ) (xs : List (ℕ × ℕ)) (s' : State) : Type 0 where
  pub items : HasItems s' xs
  pub waiters : s'.waiters ≡ s.waiters
  pub waiting_head : s'.waiting_head ≡ s.waiting_head
  pub waiting_tail : s'.waiting_tail ≡ s.waiting_tail
  pub waiting_count : s'.waiting_count ≡ s.waiting_count
  pub visited : s'.visited_count ≡ increment s.visited_count

taken-Took :
    {s : State} (a x : ℕ) (xs : List (ℕ × ℕ))
    → HasItems s ((a, x) ∷ xs)
    → Took s x xs (taken s a xs)
taken-Took a x xs it = record {
  items = taken-HasItems a x xs it;
  waiters = refl;
  waiting_head = refl;
  waiting_tail = refl;
  waiting_count = refl;
  visited = refl;
}

-- What one round of `dequeue` does to a state with these items and waiting threads.
pub data Round (t : ℕ) (s : State) (ws : List ℕ)
    : List (ℕ × ℕ) → Option (Turn × State) → Type 0 where
  sleeps :
      (s' : State)
      → HasWaiters s' (ws ++ (t ∷ []))
      → ((b : ℕ) → NotIn b ws → b ≢ t → s'.waiters b ≡ s.waiters b)
      → SameItems s s'
      → Round t s ws [] (some (blocked, s'))
  takes :
      (a x : ℕ) (xs : List (ℕ × ℕ)) (s' : State)
      → Took s x xs s'
      → Round t s ws ((a, x) ∷ xs) (some (returned x, s'))

pub dequeue_round_lem :
    (t : ℕ) {s : State} (xs : List (ℕ × ℕ)) {ws : List ℕ}
    → HasItems s xs
    → HasWaiters s ws
    → NotIn t ws
    → Round t s ws xs (dequeue_round t s)
unfolding dequeue_round
dequeue_round_lem t {s} [] it wt out =
    let none_left : (s.count == 0) ≡ true = ground (arith, it.count) in
    let (s', e, wt', others, same) = register_lem t wt out in
    rw (none_left, e, ◌>>=◌) (sleeps s' wt' others same)
dequeue_round_lem t {s} ((a, x) ∷ xs) it wt out =
    let some_left : (s.count == 0) ≡ false = ground (arith, it.count) in
    rw (some_left, take_lem a x xs it, ◌>>=◌) (takes a x xs _ (taken-Took a x xs it))

-- The address of a live node is not free.
NotIn-addresses :
    (h : Cells ℕ) (l : List (ℕ × ℕ)) (a : ℕ) → Chain h l → h a ≡ none → NotIn a (addresses l)
NotIn-addresses h [] a c e = tt
NotIn-addresses h ((b, x) ∷ l) a c e =
    ((λ q. absurd (ground (arith, c.0))), NotIn-addresses h l a c.1 e)

-- `enqueue` on a state with these lists: the item is the last, and the first waiting thread, if
-- there is one, is signalled.
pub data Enqueued (s : State) (sl : ℕ → Bool) (xs : List (ℕ × ℕ)) (wk : List ℕ) (a x : ℕ)
    : List ℕ → Option State → Type 0 where
  no_one :
      (s' : State)
      → Rep s' sl (xs ++ ((a, x) ∷ [])) [] wk
      → s'.waiters ≡ s.waiters
      → s'.visited_count ≡ s.visited_count
      → Enqueued s sl xs wk a x [] (some s')
  signals :
      (w : ℕ) (ws : List ℕ) (s' : State)
      → Rep s' sl (xs ++ ((a, x) ∷ [])) ws (w ∷ wk)
      → s'.visited_count ≡ s.visited_count
      → Enqueued s sl xs wk a x (w ∷ ws) (some s')

pub enqueue_lem :
    (a x : ℕ) {s : State} {sl : ℕ → Bool} {xs : List (ℕ × ℕ)} (ws : List ℕ) {wk : List ℕ}
    → Rep s sl xs ws wk
    → s.items a ≡ none
    → s.count + 1 < 2 ^ 64
    → Enqueued s sl xs wk a x ws (enqueue (some a) x s)
unfolding enqueue
enqueue_lem a x {s} {sl} {xs} [] {wk} rep free small =
    let fresh = NotIn-addresses s.items xs a rep.items.chain free in
    let (h, e, it) = append-HasItems a x rep.items fresh (omega (arith, rep.items.count)) in
    let wt : HasWaiters (appended s h a x xs) [] =
      HasWaiters-same refl refl refl refl rep.waiters in
    rw (e, ◌>>=◌, wake_first-nil wt)
      (no_one _
        (record {
          items = it;
          waiters = wt;
          threads = rw (length-append xs ((a, x) ∷ [])) (Threads-put rep.threads refl);
        })
        refl refl)
enqueue_lem a x {s} {sl} {xs} (w ∷ ws) {wk} rep free small =
    let fresh = NotIn-addresses s.items xs a rep.items.chain free in
    let (h, e, it) = append-HasItems a x rep.items fresh (omega (arith, rep.items.count)) in
    let wt : HasWaiters (appended s h a x xs) (w ∷ ws) =
      HasWaiters-same refl refl refl refl rep.waiters in
    rw (e, ◌>>=◌, wake_first-cons wt)
      (signals w ws _
        (record {
          items =
              HasItems-SameItems
                (record { items = refl; head = refl; tail = refl; count = refl; visited = refl })
                it;
          waiters = woken-HasWaiters w ws wt;
          threads =
              rw (length-append xs ((a, x) ∷ []))
                (Threads-wake w _ rep.waiters.distinct rep.threads);
        })
        refl)

pub waiting_value :
    (w : Cells Bool) (ws : List ℕ) (t : ℕ)
    → Chain w (nodes ws)
    → In t ws
    → (n : Option ℕ) × (w t ≡ some (record { value = true; next = n }))
waiting_value w [] t c h = absurd h
waiting_value w (v ∷ ws) t c (inl e) = (first (nodes ws), rw e c.0)
waiting_value w (v ∷ ws) t c (inr h) = waiting_value w ws t c.1 h

-- A thread that is still in the list waits on, whatever made `cnd_wait` return.
pub resume-waiting :
    (t : ℕ) {s : State} {ws : List ℕ} → HasWaiters s ws → In t ws → resume t s ≡ some (blocked, s)
unfolding resume
resume-waiting t {s} {ws} wt h =
    let (n, e) = waiting_value s.waiters ws t wt.chain h in rw (e, ◌>>=◌)

-- A signalled thread goes round the outer loop.
pub resume-signalled :
    (t : ℕ) {s : State} {ws : List ℕ}
    → HasWaiters s ws
    → NotIn t ws
    → IsSignalled s.waiters t
    → resume t s ≡ dequeue_round t (record s { waiters = update s.waiters t none })
unfolding resume
resume-signalled t {s} {ws} wt out (n, e) =
    rw (e, ◌>>=◌, clean_up_lem t (record { value = false; next = n }) wt out)

-- `tryDequeue` takes the first item, or finds none and changes nothing.
pub data Tried (s : State) : List (ℕ × ℕ) → Option (Option ℕ × State) → Type 0 where
  empty : Tried s [] (some (none, s))
  took :
      (a x : ℕ) (xs : List (ℕ × ℕ)) (s' : State)
      → Took s x xs s'
      → Tried s ((a, x) ∷ xs) (some (some x, s'))

pub try_dequeue_lem : {s : State} (xs : List (ℕ × ℕ)) → HasItems s xs → Tried s xs (try_dequeue s)
unfolding try_dequeue
try_dequeue_lem {s} [] it =
    let none_left : (s.count == 0) ≡ true = ground (arith, it.count) in rw none_left empty
try_dequeue_lem {s} ((a, x) ∷ xs) it =
    let some_left : (s.count == 0) ≡ false = ground (arith, it.count) in
    rw (some_left, take_lem a x xs it, ◌>>=◌) (took a x xs _ (taken-Took a x xs it))
