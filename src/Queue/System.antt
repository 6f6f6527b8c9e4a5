-- ===== src/Queue/System.antt =====
-- hw4/queue.c: threads that call the operations in any order, one critical section at a time.
use oscourse24btau.Common.{
  ℕ, ◌+◌, ◌^◌, ◌<◌, ◌≡◌, Bool, true, false, none, some, List, [], ◌∷◌, ◌++◌,
}
use oscourse24btau.Queue.Chain.{update}
use oscourse24btau.Queue.State.{
  State, init_queue, enqueue, blocked, returned, dequeue, resume, try_dequeue,
}

-- The shared state, and which threads are in `cnd_wait`.
pub record System : Type 0 where
  pub state : State
  pub sleeping : ℕ → Bool

-- What a step is to a reader: the thread that runs, and the item that it puts in or takes out.
-- `got` is `dequeue` that has not waited, `woke` one that has, and `tried` is `tryDequeue`.
pub data Event : Type 0 where
  put got woke tried : ℕ → ℕ → Event
  fell_asleep slept_on found_none : ℕ → Event

-- The items that an event puts in or takes out.
abbrev pub put_of : Event → List ℕ
put_of (put t x) = x ∷ []
put_of (got t x) = []
put_of (woke t x) = []
put_of (tried t x) = []
put_of (fell_asleep t) = []
put_of (slept_on t) = []
put_of (found_none t) = []

abbrev pub got_of : Event → List ℕ
got_of (put t x) = []
got_of (got t x) = x ∷ []
got_of (woke t x) = x ∷ []
got_of (tried t x) = x ∷ []
got_of (fell_asleep t) = []
got_of (slept_on t) = []
got_of (found_none t) = []

-- `malloc` returns the address of no live node. Fewer than 2^64 items fit in memory.
-- `wakes` and `sleeps_on` are the returns of `cnd_wait`, with or without a signal.
pub data Step (s : System) : Event → System → Type 0 where
  enqueues :
      (t a x : ℕ) {s' : State}
      → s.sleeping t ≡ false
      → s.state.items a ≡ none
      → s.state.count + 1 < 2 ^ 64
      → enqueue (some a) x s.state ≡ some s'
      → Step s (put t x) (record s { state = s' })
  dequeues :
      (t x : ℕ) {s' : State}
      → s.sleeping t ≡ false
      → dequeue t s.state ≡ some (returned x, s')
      → Step s (got t x) (record s { state = s' })
  falls_asleep :
      (t : ℕ) {s' : State}
      → s.sleeping t ≡ false
      → dequeue t s.state ≡ some (blocked, s')
      → Step s (fell_asleep t) (record { state = s'; sleeping = update s.sleeping t true })
  wakes :
      (t x : ℕ) {s' : State}
      → s.sleeping t ≡ true
      → resume t s.state ≡ some (returned x, s')
      → Step s (woke t x) (record { state = s'; sleeping = update s.sleeping t false })
  sleeps_on :
      (t : ℕ) {s' : State}
      → s.sleeping t ≡ true
      → resume t s.state ≡ some (blocked, s')
      → Step s (slept_on t) (record s { state = s' })
  tries :
      (t x : ℕ) {s' : State}
      → s.sleeping t ≡ false
      → try_dequeue s.state ≡ some (some x, s')
      → Step s (tried t x) (record s { state = s' })
  tries_in_vain :
      (t : ℕ) {s' : State}
      → s.sleeping t ≡ false
      → try_dequeue s.state ≡ some (none, s')
      → Step s (found_none t) (record s { state = s' })

-- The states after `initQueue` with no node on the heap, with the items put in and taken out since.
pub data Reach : List ℕ → List ℕ → System → Type 0 where
  start :
      (s : State)
      → ((a : ℕ) → s.items a ≡ none)
      → Reach [] [] (record { state = init_queue s; sleeping = λ _. false })
  later :
      {ps gs : List ℕ} {s s' : System} {e : Event}
      → Reach ps gs s
      → Step s e s'
      → Reach (ps ++ put_of e) (gs ++ got_of e) s'

-- The steps from the start.
abbrev pub trace : {ps gs : List ℕ} {s : System} → Reach ps gs s → List Event
trace (start s free) = []
trace (later {e = e} r st) = trace r ++ (e ∷ [])
