-- ===== src/Queue/Runs.antt =====
-- hw4/queue.c: the abstract queue that a reachable state has.
use oscourse24btau.Common.{ℕ, ◌%◌, ◌^◌, ◌≡◌, ◌↔◌, inl, inr, Bool, true, Option, some, List, In}
use oscourse24btau.Queue.Chain.{Cells, values}
use oscourse24btau.Queue.State.{visited}
use oscourse24btau.Queue.Rep.{HasItems}
use oscourse24btau.Queue.Waiters.{HasWaiters}
use oscourse24btau.Queue.Threads.{IsSignalled}
use oscourse24btau.Queue.Operations.{waiting_value}
use oscourse24btau.Queue.System.{System, Reach, trace}
use oscourse24btau.Queue.Spec.{Abstract, Run}
use oscourse24btau.Queue.Refine.{Refines}
use oscourse24btau.Queue.Invariant.{Reach-Inv}

-- `isWaiting` of the thread is still true.
abbrev pub IsWaiting : Cells Bool → ℕ → Type 0
IsWaiting w t = (n : Option ℕ) × (w t ≡ some (record { value = true; next = n }))

-- The state has the abstract queue: the pointers form its two lists in their order, the threads in
-- `cnd_wait` are those that wait and those that are signalled, by their `isWaiting`, and `visited`
-- counts modulo 2^64.
pub record Shows (s : System) (a : Abstract) : Type 0 where
  pub nodes : List (ℕ × ℕ)
  pub items : HasItems s.state nodes
  pub values_are : a.items ≡ values nodes
  pub waiters : HasWaiters s.state a.waiting
  pub waiting : (t : ℕ) → In t a.waiting ↔ ((s.sleeping t ≡ true) × IsWaiting s.state.waiters t)
  pub signalled :
      (t : ℕ) → In t a.signalled ↔ ((s.sleeping t ≡ true) × IsSignalled s.state.waiters t)
  pub visited_is : visited s.state ≡ a.visited % 2 ^ 64

Refines-Shows : {s : System} {a : Abstract} → Refines s a → Shows s a
unfolding visited
Refines-Shows {s} {a} rf =
    let th = rf.rep.threads in
    let waits = waiting_value s.state.waiters a.waiting in
    record {
      nodes = rf.xs;
      items = rf.rep.items;
      values_are = rf.items;
      waiters = rf.rep.waiters;
      waiting = λ t. (
        (λ h. (th.waiting t h, waits t rf.rep.waiters.chain h)),
        (λ h. elim (th.accounted t h.0) [
          | inl i ↦ i
          | inr i ↦ let (n, e) = th.signalled t i in let (m, q) = h.1 in absurd (cc)
        ]),
      );
      signalled = λ t. (
        (λ h. (th.woken t h, th.signalled t h)),
        (λ h. elim (th.accounted t h.0) [
          | inl i ↦ let (n, e) = waits t rf.rep.waiters.chain i in let (m, q) = h.1 in absurd (cc)
          | inr i ↦ i
        ]),
      );
      visited_is = rf.visited;
    }

-- Every interleaving of the threads is a run of the abstract queue by the same steps, in which a
-- thread begins to wait only while there is no item, the thread that waits longest is signalled
-- when an item comes, and a waiting thread gets an item only after it has been signalled. The state
-- that the threads reach has the abstract queue that the run leads to.
pub runs_as_promised :
    {ps gs : List ℕ} {s : System} (r : Reach ps gs s) → (a : Abstract) × Run (trace r) a × Shows s a
runs_as_promised r = let inv = Reach-Inv r in (inv.abstract, inv.run, Refines-Shows inv.refines)
