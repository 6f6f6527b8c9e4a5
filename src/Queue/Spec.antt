-- ===== src/Queue/Spec.antt =====
-- hw4/queue.c: what the queue promises to its threads, without nodes and pointers: a queue of items, a
-- queue of waiting threads, and the threads that have been signalled and have not run yet.
use oscourse24btau.Common.{ℕ, ◌+◌, ◌≡◌, List, [], ◌∷◌, ◌++◌, In, NotIn, remove}
use oscourse24btau.Queue.System.{Event, put, got, woke, tried, fell_asleep, slept_on, found_none}

pub record Abstract : Type 0 where
  pub items : List ℕ
  pub waiting : List ℕ
  pub signalled : List ℕ
  pub visited : ℕ

abbrev pub empty_queue : Abstract
empty_queue = record { items = []; waiting = []; signalled = []; visited = 0 }

-- The thread is not inside `dequeue`.
abbrev pub IsIdle : ℕ → Abstract → Type 0
IsIdle t a = NotIn t a.waiting × NotIn t a.signalled

-- The thread that waits longest is signalled.
abbrev pub signal : List ℕ → Abstract → Abstract
signal [] a = a
signal (w ∷ ws) a = record a { waiting = ws; signalled = w ∷ a.signalled }

-- The oldest item leaves.
abbrev pub without_oldest : List ℕ → Abstract → Abstract
without_oldest rest a = record a { items = rest; visited = a.visited + 1 }

-- The thread begins to wait, behind all others.
abbrev pub with_waiting : ℕ → Abstract → Abstract
with_waiting t a = record a { waiting = a.waiting ++ (t ∷ []) }

abbrev pub resumed : ℕ → Abstract → Abstract
resumed t a = record a { signalled = remove t a.signalled }

-- The steps that the queue promises. A thread waits only while there is no item, and it leaves
-- `dequeue` only after it has been signalled.
pub data Promised (a : Abstract) : Event → Abstract → Type 0 where
  puts :
      (t x : ℕ)
      → IsIdle t a
      → Promised a (put t x) (signal a.waiting (record a { items = a.items ++ (x ∷ []) }))
  gets :
      (t x : ℕ) (rest : List ℕ)
      → IsIdle t a
      → a.items ≡ x ∷ rest
      → Promised a (got t x) (without_oldest rest a)
  tries_and_gets :
      (t x : ℕ) (rest : List ℕ)
      → IsIdle t a
      → a.items ≡ x ∷ rest
      → Promised a (tried t x) (without_oldest rest a)
  begins_to_wait :
      (t : ℕ) → IsIdle t a → a.items ≡ [] → Promised a (fell_asleep t) (with_waiting t a)
  gets_signalled :
      (t x : ℕ) (rest : List ℕ)
      → In t a.signalled
      → a.items ≡ x ∷ rest
      → Promised a (woke t x) (without_oldest rest (resumed t a))
  waits_on : (t : ℕ) → In t a.waiting → Promised a (slept_on t) a
  waits_again :
      (t : ℕ)
      → In t a.signalled
      → a.items ≡ []
      → Promised a (slept_on t) (with_waiting t (resumed t a))
  finds_none : (t : ℕ) → IsIdle t a → a.items ≡ [] → Promised a (found_none t) a

-- The states that sequences of promised steps lead to.
pub data Run : List Event → Abstract → Type 0 where
  begin : Run [] empty_queue
  go_on :
      {es : List Event} {e : Event} {a a' : Abstract}
      → Run es a
      → Promised a e a'
      → Run (es ++ (e ∷ [])) a'
