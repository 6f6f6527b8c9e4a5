-- ===== src/Clients/Ends.antt =====
-- hw4/test2.c and hw4/test_queue.c: how long the threads of a program run, and what they leave.
use oscourse24btau.Common.{
  ℕ, zero, suc, ◌+◌, ◌-◌, ◌*◌, ◌≤◌, ◌<◌, ◌≡◌, refl, ap, inl, inr, List, [], ◌∷◌, In, length, arith,
}
use mathlib.Core.Path.{subst}
use native.Mathlib.Decide.{ℕ_discrete}
use oscourse24btau.Queue.State.{size, visited, waiting}
use oscourse24btau.Queue.Waiters.{HasWaiters}
use oscourse24btau.Queue.Laws.{visited-count}
use oscourse24btau.Queue.Destroy.{destroy_queue, destroyed}
use oscourse24btau.Queue.Passes.{Passed}
use oscourse24btau.Queue.Wakeups.{length-Distinct}
use oscourse24btau.Clients.Programs.{
  Op, takes, sum_of, puts_in, takes_out, Finished, lt-length_of_rest,
}
use oscourse24btau.Clients.Threads.{Config, Run, IsFair}
use oscourse24btau.Clients.Invariant.{Run-Inv}
use oscourse24btau.Clients.Progress.{balance}

-- The numbers below `n`.
below : ℕ → List ℕ
below zero = []
below (suc n) = n ∷ below n

length-below : (n : ℕ) → length (below n) ≡ n
unfolding below
length-below zero = refl
length-below (suc n) = ap suc (length-below n)

In-below : (n t : ℕ) → t < n → In t (below n)
unfolding below
In-below zero t lt = absurd (omega arith)
In-below (suc n) t lt = elim (ℕ_discrete t n) [
  | yes e ↦ inl e
  | no ne ↦ inr (In-below n t (omega arith))
]

-- In a fair program with `n` threads that use the queue `m` times in all, the threads make at most
-- 2 * m + n moves, in whatever order they run, not counting a return of `cnd_wait` with no signal and a
-- `tryDequeue` that finds nothing.
pub moves_bounded :
    {ps : List (List Op)} {k : ℕ} {c : Config}
    → IsFair ps
    → Run ps k c
    → k ≤ 2 * sum_of length ps + length ps
moves_bounded {ps} {c = c} fair r =
    let inv = Run-Inv fair.lend r in
    let few : length inv.abstract.waiting ≤ length (below (length ps)) =
      length-Distinct inv.abstract.waiting (below (length ps)) inv.refines.rep.waiters.distinct
        (λ t h.
          let (l, at) = inv.asleep t (inv.refines.rep.threads.waiting t h) in
          In-below (length ps) t
            (omega (arith, lt-length_of_rest c.todo t takes l at, inv.threads))) in
    omega (arith, inv.budget, few, length-below (length ps))

no_waiters : (ws : List ℕ) → ((t : ℕ) → In t ws → ⊥) → ws ≡ []
no_waiters [] h = refl
no_waiters (w ∷ ws) h = absurd (h w (inl refl))

sum_of-Finished : (f : List Op → ℕ) (ps : List (List Op)) → f [] ≡ 0 → Finished ps → sum_of f ps ≡ 0
sum_of-Finished f [] z h = refl
sum_of-Finished f (p ∷ ps) z h =
    omega (arith, z, ap f (h 0), sum_of-Finished f ps z (λ t. h (suc t)))

-- When all threads of a fair program have ended, `size` is the number of items put in less the number
-- taken out, `visited` the number taken out, `waiting` is 0, and `destroyQueue`, with more fuel than
-- items are put in, ends with no fault and leaves no node on the heap.
pub all_joined :
    {ps : List (List Op)} {k : ℕ} {c : Config} (fuel : ℕ)
    → IsFair ps
    → Run ps k c
    → Finished c.todo
    → sum_of puts_in ps < fuel
    → (size c.system.state ≡ sum_of puts_in ps - sum_of takes_out ps)
      × (visited c.system.state ≡ sum_of takes_out ps)
      × (waiting c.system.state ≡ 0)
      × Passed (destroy_queue fuel c.system.state)
unfolding waiting
all_joined {c = c} fuel fair r ended enough =
    let inv = Run-Inv fair.lend r in
    let rep = inv.refines.rep in
    let none_in = sum_of-Finished puts_in c.todo refl ended in
    let none_out = sum_of-Finished takes_out c.todo refl ended in
    let no_one : inv.abstract.waiting ≡ [] =
      no_waiters inv.abstract.waiting
        (λ t h. let (l, at) = inv.asleep t (rep.threads.waiting t h) in absurd (cc (ended t))) in
    let wt : HasWaiters c.system.state [] = subst (HasWaiters c.system.state) no_one rep.waiters in
    let in_all = balance fair inv in
    (
      omega (arith, in_all, inv.puts_left, inv.takes_left),
      omega (arith, visited-count inv.reach, inv.takes_left, fair.enough, fair.small),
      omega (arith, wt.count),
      destroyed fuel rep.items (omega (arith, in_all, inv.puts_left)) wt.head,
    )
