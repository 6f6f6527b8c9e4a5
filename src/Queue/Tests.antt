-- ===== src/Queue/Tests.antt =====
-- hw4/queue.c: a run of two threads, and instances of the laws on it.
use oscourse24btau.Common.{
  ℕ, ◌^◌, ◌<◌, ◌≡◌, ◌⊎◌, refl, inl, inr, true, false, Option, none, some, List, [], ◌∷◌, ◌++◌,
  length, arith,
}
use oscourse24btau.Queue.Chain.{append_node, update}
use oscourse24btau.Queue.State.{
  State, init_queue, wake_first, enqueue, take, register, blocked, returned, dequeue_round, dequeue,
  clean_up, resume, size,
}
use oscourse24btau.Queue.Threads.{IsSignalled}
use oscourse24btau.Queue.Spec.{Abstract, Run}
use oscourse24btau.Queue.Runs.{IsWaiting, Shows, runs_as_promised}
use oscourse24btau.Queue.System.{
  System, put, fell_asleep, enqueues, falls_asleep, Reach, start, later,
}
use oscourse24btau.Queue.Laws.{Oldest, items_in_order, no_lost_wakeup, resume_ends}
use oscourse24btau.Queue.Wakeups.{AreSleeping, run_sleepers, sleepers_return}
use native.Mathlib.Decide.{ℕ_discrete}
use oscourse24btau.Queue.Destroy.{done, bad_free, destroy_queue, destroy_frees, destroy_faults}

abbrev pub blank : State
blank = record {
  items = λ _. none;
  head = none;
  tail = none;
  count = 0;
  visited_count = 0;
  waiters = λ _. none;
  waiting_head = none;
  waiting_tail = none;
  waiting_count = 0;
}

abbrev result : {A : Type 0} → Option (A × State) → State
result none = blank
result (some (a, s)) = s

abbrev state_of : Option State → State
state_of none = blank
state_of (some s) = s

-- The start, thread 1 asleep in `dequeue`, and the same after thread 2 has put in 42.
abbrev fresh : System
fresh = record { state = init_queue blank; sleeping = λ _. false }

abbrev sleeper : System
sleeper = record { state = result (dequeue 1 fresh.state); sleeping = update fresh.sleeping 1 true }

abbrev signalled : System
signalled = record sleeper { state = state_of (enqueue (some 7) 42 sleeper.state) }

fresh-Reach : Reach [] [] fresh
fresh-Reach = start blank (λ a. refl)

sleeper-Reach : Reach [] [] sleeper
unfolding dequeue dequeue_round register append_node init_queue
sleeper-Reach = later fresh-Reach (falls_asleep 1 refl refl)

signalled-Reach : Reach (42 ∷ []) [] signalled
unfolding enqueue wake_first dequeue dequeue_round register append_node init_queue
signalled-Reach = later sleeper-Reach (enqueues 2 7 42 refl refl (omega arith) refl)

-- Thread 1 takes the item when it runs.
thread_returns : (result (resume 1 signalled.state)).visited_count ≡ 1
unfolding resume clean_up take enqueue wake_first dequeue dequeue_round register append_node
    init_queue
thread_returns = refl

runs_as_promised_example :
    (a : Abstract) × Run (fell_asleep 1 ∷ put 2 42 ∷ []) a × Shows signalled a
unfolding signalled-Reach sleeper-Reach fresh-Reach
runs_as_promised_example = runs_as_promised signalled-Reach

items_in_order_example :
    (rest : List ℕ) × (42 ∷ [] ≡ [] ++ rest)
    × (size signalled.state ≡ length rest)
    × (length rest < 2 ^ 64)
items_in_order_example = items_in_order signalled-Reach

no_lost_wakeup_example :
    (u : ℕ) × (signalled.sleeping u ≡ true) × IsSignalled signalled.state.waiters u
unfolding size enqueue wake_first dequeue dequeue_round register append_node init_queue
no_lost_wakeup_example = no_lost_wakeup signalled-Reach 1 refl (λ e. cc)

resume_ends_example :
    (IsWaiting signalled.state.waiters 1
      × (resume 1 signalled.state ≡ some (blocked, signalled.state)))
    ⊎ (IsSignalled signalled.state.waiters 1
        × ((s' : State) × (((size signalled.state ≡ 0)
                × (resume 1 signalled.state ≡ some (blocked, s')))
              ⊎ ((x : ℕ) × Oldest (42 ∷ []) [] x
                  × (resume 1 signalled.state ≡ some (returned x, s'))))))
resume_ends_example = resume_ends signalled-Reach 1 refl

destroy_frees_example :
    (s' : State) × (destroy_queue 2 signalled.state ≡ done s')
    × (s'.head ≡ none)
    × ((a : ℕ) → s'.items a ≡ none)
unfolding size enqueue wake_first dequeue dequeue_round register append_node init_queue
destroy_frees_example = destroy_frees signalled-Reach 2 (omega arith) refl

destroy_faults_example : destroy_queue 1 sleeper.state ≡ bad_free
unfolding size dequeue dequeue_round register append_node init_queue
destroy_faults_example = destroy_faults sleeper-Reach 1 1 (omega arith) refl (none, refl)

-- Threads 1 and 2 begin to wait in this order, thread 3 puts in two items, and thread 2 runs first: it
-- gets the item that was put in first.
abbrev one_waits : System
one_waits = record {
  state = result (dequeue 1 fresh.state);
  sleeping = update fresh.sleeping 1 true;
}

abbrev both_wait : System
both_wait = record {
  state = result (dequeue 2 one_waits.state);
  sleeping = update one_waits.sleeping 2 true;
}

abbrev one_put : System
one_put = record both_wait { state = state_of (enqueue (some 7) 51 both_wait.state) }

abbrev both_put : System
both_put = record one_put { state = state_of (enqueue (some 8) 52 one_put.state) }

both_put-Reach : Reach (51 ∷ 52 ∷ []) [] both_put
unfolding enqueue wake_first dequeue dequeue_round register append_node init_queue
both_put-Reach =
    later
      (later (later (later fresh-Reach (falls_asleep 1 refl refl)) (falls_asleep 2 refl refl))
        (enqueues 3 7 51 refl refl (omega arith) refl))
      (enqueues 3 8 52 refl refl (omega arith) refl)

both_put-AreSleeping : AreSleeping both_put (2 ∷ 1 ∷ [])
both_put-AreSleeping = record {
  distinct = (((λ e. cc), tt), (tt, tt));
  asleep = λ t h. elim h [
    | inl e ↦ ground arith
    | inr i ↦ elim i [ inl e ↦ ground arith | inr j ↦ absurd j ]
  ];
  all = λ t e. elim (ℕ_discrete t 2) [
    | yes q ↦ inl q
    | no ne ↦ elim (ℕ_discrete t 1) [ yes q ↦ inr (inl q) | no ne' ↦ absurd (ground arith) ]
  ];
}

sleepers_return_example :
    (xs : List ℕ) × (rest : List ℕ) × (s' : State) × (run_sleepers (2 ∷ 1 ∷ []) both_put.state
      ≡ some (xs, s'))
    × (51 ∷ 52 ∷ [] ≡ [] ++ (xs ++ rest))
    × (length xs ≡ 2)
    × (size s' ≡ length rest)
unfolding size enqueue wake_first dequeue dequeue_round register append_node init_queue
sleepers_return_example =
    sleepers_return (2 ∷ 1 ∷ []) both_put-Reach both_put-AreSleeping (omega arith)

overtaking_test :
    elim (resume 2 both_put.state) [ none ↦ none | some (turn, s) ↦ some turn ] ≡ some (returned 51)
unfolding resume clean_up take enqueue wake_first dequeue dequeue_round register append_node
    init_queue
overtaking_test = refl

-- Thread 1 has been signalled, thread 3 comes first and takes the item, and thread 1 waits again.
abbrev item_stolen : State
item_stolen = result (dequeue 3 signalled.state)

stolen_item_test :
    elim (resume 1 item_stolen) [ none ↦ none | some (turn, s) ↦ some turn ] ≡ some blocked
unfolding resume clean_up take enqueue wake_first dequeue dequeue_round register append_node
    init_queue
stolen_item_test = refl
