-- ===== src/Clients/Threads.antt =====
-- hw4/test2.c and hw4/test_queue.c: the threads of a program at work on the queue.
use oscourse24btau.Common.{ℕ, suc, ◌≡◌, ◌≤◌, ◌<◌, ◌^◌, Bool, true, false, none, List, ◌∷◌}
use oscourse24btau.Queue.State.{State, init_queue}
use oscourse24btau.Queue.Threads.{IsSignalled}
use oscourse24btau.Queue.Runs.{IsWaiting}
use oscourse24btau.Queue.System.{
  System, Event, put, got, woke, tried, fell_asleep, slept_on, found_none, Step,
}
use oscourse24btau.Clients.Programs.{
  Op, puts, takes, polls, rest_of, with_rest, sum_of, puts_in, takes_out, AllLend,
}

pub record Config : Type 0 where
  pub system : System
  pub todo : List (List Op)

-- The critical section with which the operation of a thread ends.
pub data Completes : Op → ℕ → Event → Type 0 where
  put_in : (t x : ℕ) → Completes (puts x) t (put t x)
  got_at_once : (t x : ℕ) → Completes takes t (got t x)
  got_after_waiting : (t x : ℕ) → Completes takes t (woke t x)
  got_by_polling : (t x : ℕ) → Completes polls t (tried t x)

-- What a thread may do next. The flag is false for the two moves that change nothing: a return of
-- `cnd_wait` with no signal, and a `tryDequeue` of an empty queue.
pub data Move (c : Config) : Bool → Config → Type 0 where
  completes :
      (t : ℕ) (op : Op) (l : List Op) {e : Event} {s' : System}
      → rest_of c.todo t ≡ op ∷ l
      → Completes op t e
      → Step c.system e s'
      → Move c true (record { system = s'; todo = with_rest c.todo t l })
  begins_to_wait :
      (t : ℕ) (l : List Op) {s' : System}
      → rest_of c.todo t ≡ takes ∷ l
      → Step c.system (fell_asleep t) s'
      → Move c true (record c { system = s' })
  waits_again :
      (t : ℕ) (l : List Op) {s' : System}
      → rest_of c.todo t ≡ takes ∷ l
      → IsSignalled c.system.state.waiters t
      → Step c.system (slept_on t) s'
      → Move c true (record c { system = s' })
  waits_on :
      (t : ℕ) (l : List Op) {s' : System}
      → rest_of c.todo t ≡ takes ∷ l
      → IsWaiting c.system.state.waiters t
      → Step c.system (slept_on t) s'
      → Move c false (record c { system = s' })
  polls_in_vain :
      (t : ℕ) (l : List Op) {s' : System}
      → rest_of c.todo t ≡ polls ∷ l
      → Step c.system (found_none t) s'
      → Move c false (record c { system = s' })

-- The states of a program after `initQueue` with no node on the heap, with the number of moves that
-- changed something. A thread that has not been created yet is one that has made no move.
pub data Run (ps : List (List Op)) : ℕ → Config → Type 0 where
  start :
      (s : State)
      → ((a : ℕ) → s.items a ≡ none)
      → Run ps 0
          (record { system = record { state = init_queue s; sleeping = λ _. false }; todo = ps })
  moves : {k : ℕ} {c c' : Config} → Run ps k c → Move c true c' → Run ps (suc k) c'
  idles : {k : ℕ} {c c' : Config} → Run ps k c → Move c false c' → Run ps k c'

-- What the program must be: it puts in as many items as it takes out, or more, and no thread depends on
-- what it puts in later itself. The number of items fits in a `size_t`.
pub record IsFair (ps : List (List Op)) : Type 0 where
  pub lend : AllLend ps
  pub enough : sum_of takes_out ps ≤ sum_of puts_in ps
  pub small : sum_of puts_in ps < 2 ^ 64
