-- ===== src/Clients/Progress.antt =====
-- hw4/test2.c and hw4/test_queue.c: the threads of a program never get stuck.
use oscourse24btau.Common.{
  ℕ, suc, ◌+◌, ◌<◌, ◌≡◌, ◌≢◌, ◌^◌, ap, ◌⊎◌, inl, inr, true, false, List, [], ◌∷◌, NotIn, Bool-cases,
  length, length-append, arith,
}
use oscourse24btau.Queue.Chain.{addresses}
use oscourse24btau.Queue.State.{size}
use oscourse24btau.Queue.System.{enqueues, dequeues, wakes, tries}
use oscourse24btau.Queue.Laws.{
  items_in_order, no_lost_wakeup, dequeue_ends, resume_ends, enqueue_ends, try_dequeue_ends,
}
use oscourse24btau.Clients.Programs.{
  Op, puts, takes, polls, rest_of, with_rest, sum_of, sum_of-rest, puts_in, takes_out, Finished,
  putter, taker, poller, no_one, turn,
}
use oscourse24btau.Clients.Threads.{
  Config, put_in, got_at_once, got_after_waiting, got_by_polling, Move, completes, Run, IsFair,
}
use oscourse24btau.Clients.Invariant.{Inv, Run-Inv}

total : List ℕ → ℕ
total [] = 0
total (x ∷ l) = x + total l

NotIn-above : (n : ℕ) (l : List ℕ) → total l < n → NotIn n l
unfolding total
NotIn-above n [] lt = tt
NotIn-above n (x ∷ l) lt = ((λ e. absurd (omega arith)), NotIn-above n l (omega arith))

-- What a client needs of the queue.
module _ {ps : List (List Op)} {k : ℕ} {c : Config} (fair : IsFair ps) (inv : Inv ps k c) where
  -- Only a thread that is at `dequeue` sleeps.
  awake :
      (t : ℕ) (op : Op) (l : List Op)
      → rest_of c.todo t ≡ op ∷ l
      → op ≢ takes
      → c.system.sleeping t ≡ false
  awake t op l at ne = elim (Bool-cases (c.system.sleeping t)) [
    | inr e ↦ e
    | inl e ↦ let (m, q) = inv.asleep t e in absurd (ne (cc))
  ]

  -- The items in the queue are those put in and not taken out.
  pub balance : length inv.gone ≡ length inv.back + size c.system.state
  balance =
      let (rest, order, count, small) = items_in_order inv.reach in
      omega (arith, ap length order, length-append inv.back rest, count)

  -- When the threads still have to take out more than they put in, there are items.
  size-ne-zero : sum_of puts_in c.todo < sum_of takes_out c.todo → size c.system.state ≢ 0
  size-ne-zero lt e = omega (arith, balance, inv.puts_left, inv.takes_left, fair.enough)

  ToMove : Type 0
  ToMove = (c' : Config) × Move c true c'

  puts_next : (t x : ℕ) (l : List Op) → rest_of c.todo t ≡ puts x ∷ l → ToMove
  unfolding size ToMove
  puts_next t x l at =
      let xs = inv.refines.xs in
      let a = suc (total (addresses xs)) in
      let free = inv.refines.rep.items.only a (NotIn-above a (addresses xs) (omega arith)) in
      let small : size c.system.state + 1 < 2 ^ 64 =
        omega
          (arith, balance, inv.puts_left, fair.small, sum_of-rest puts_in c.todo t (puts x) l at) in
      let (s', e, ends) = enqueue_ends inv.reach a x free small in
      (
        record { system = record c.system { state = s' }; todo = with_rest c.todo t l },
        completes t (puts x) l at (put_in t x)
            (enqueues t a x (awake t (puts x) l at (λ e. cc)) free small e),
      )

  wakes_next : (t : ℕ) → c.system.sleeping t ≡ true → size c.system.state ≢ 0 → ToMove
  unfolding ToMove
  wakes_next t asleep some_left =
      let (u, asleep', (n, e)) = no_lost_wakeup inv.reach t asleep some_left in
      let (l, at) = inv.asleep u asleep' in
      elim (resume_ends inv.reach u asleep') [
        | inl ((m, q), ran) ↦ absurd (cc)
        | inr (signalled, (s', ends)) ↦ elim ends [
          | inl (none_left, ran) ↦ absurd (some_left none_left)
          | inr (x, oldest, ran) ↦
              (_, completes u takes l at (got_after_waiting u x) (wakes u x asleep' ran))
        ]
      ]

  takes_next :
      (t : ℕ) (l : List Op) → rest_of c.todo t ≡ takes ∷ l → size c.system.state ≢ 0 → ToMove
  unfolding ToMove
  takes_next t l at some_left = elim (Bool-cases (c.system.sleeping t)) [
    | inl asleep ↦ wakes_next t asleep some_left
    | inr idle ↦
        let (s', ends) = dequeue_ends inv.reach t idle in
        elim ends [
          | inl (none_left, ran) ↦ absurd (some_left none_left)
          | inr (x, oldest, ran) ↦
              (_, completes t takes l at (got_at_once t x) (dequeues t x idle ran))
        ]
  ]

  polls_next :
      (t : ℕ) (l : List Op) → rest_of c.todo t ≡ polls ∷ l → size c.system.state ≢ 0 → ToMove
  unfolding ToMove
  polls_next t l at some_left = elim (try_dequeue_ends inv.reach) [
    | inl (none_left, ran) ↦ absurd (some_left none_left)
    | inr (x, s', oldest, ran) ↦ (
      _,
      completes t polls l at (got_by_polling t x) (tries t x (awake t polls l at (λ e. cc)) ran),
    )
  ]

-- In every state that a fair program reaches, all threads have ended, or some thread can move, where a
-- return of `cnd_wait` with no signal and a `tryDequeue` that finds nothing do not count as moves.
pub never_stuck :
    {ps : List (List Op)} {k : ℕ} {c : Config}
    → IsFair ps
    → Run ps k c
    → Finished c.todo ⊎ ((c' : Config) × Move c true c')
unfolding ToMove
never_stuck {c = c} fair r =
    let inv = Run-Inv fair.lend r in
    elim (turn c.todo inv.lend) [
      | putter t x l at ↦ inr (puts_next fair inv t x l at)
      | taker t l at lt ↦ inr (takes_next fair inv t l at (size-ne-zero fair inv lt))
      | poller t l at lt ↦ inr (polls_next fair inv t l at (size-ne-zero fair inv lt))
      | no_one ended none_in none_out ↦ inl ended
    ]
