-- ===== src/Queue/Laws.antt =====
-- hw4/queue.c: what holds of the queue in every interleaving of its threads.
use oscourse24btau.Common.{
  ℕ, suc, ◌+◌, ◌%◌, ◌^◌, ◌<◌, ◌≡◌, ◌≢◌, refl, sym, ◌∙◌, ap, ◌⊎◌, ◌↔◌, inl, inr, true, false, none,
  some, List, [], ◌∷◌, ◌++◌, In, Distinct, length, arith,
}
use mathlib.Core.Path.{subst}
use oscourse24btau.Queue.Waiters.{nodes}
use oscourse24btau.Queue.Chain.{values, first}
use oscourse24btau.Queue.State.{
  State, enqueue, blocked, returned, dequeue, resume, try_dequeue, size, visited, waiting,
}
use oscourse24btau.Queue.Threads.{IsSignalled}
use oscourse24btau.Queue.Operations.{
  waiting_value, dequeue_round_lem, enqueue_lem, resume-waiting, resume-signalled, try_dequeue_lem,
}
use oscourse24btau.Queue.Outcomes.{Round-ends, Tried-ends, Enqueued-ends}
use oscourse24btau.Queue.System.{System, Reach}
use oscourse24btau.Queue.Refine.{Refines}
use oscourse24btau.Queue.Runs.{IsWaiting, runs_as_promised}
use oscourse24btau.Queue.Invariant.{Inv, Reach-Inv}
use oscourse24btau.Queue.Changes.{idle-NotIn, Rep-Gone}

length-values : (xs : List (ℕ × ℕ)) → length (values xs) ≡ length xs
length-values [] = refl
length-values ((a, x) ∷ xs) = ap suc (length-values xs)

some-In : (l : List ℕ) → 0 < length l → (u : ℕ) × In u l
some-In [] h = absurd (omega arith)
some-In (x ∷ l) h = (x, inl refl)

-- The queue holds `x` as its oldest item.
abbrev pub Oldest : List ℕ → List ℕ → ℕ → Type 0
Oldest ps gs x = (rest : List ℕ) × (ps ≡ gs ++ (x ∷ rest))

module _ {ps gs : List ℕ} {s : System} (r : Reach ps gs s) where
  inv : Inv r
  inv = Reach-Inv r

  rf : Refines s (inv).abstract
  rf = (inv).refines

  order : ps ≡ gs ++ values (rf).xs
  order = (inv).accounts.order ∙ ap (λ l. gs ++ l) (rf).items

  -- In every state that any interleaving of the threads reaches, the items have left in the order
  -- in which they were put in, none is lost or doubled, and `size` is the number of those that have
  -- not left, which is less than 2^64.
  pub items_in_order :
      (rest : List ℕ) × (ps ≡ gs ++ rest) × (size s.state ≡ length rest) × (length rest < 2 ^ 64)
  unfolding size
  items_in_order =
      let it = (rf).rep.items in
      (
        values (rf).xs,
        order,
        it.count ∙ sym (length-values (rf).xs),
        omega (arith, length-values (rf).xs, it.small),
      )

  -- In every reachable state `visited` is the number of items that have left, modulo 2^64.
  pub visited-count : visited s.state ≡ length gs % 2 ^ 64
  unfolding visited
  visited-count = (rf).visited ∙ ap (λ n. n % 2 ^ 64) (inv).accounts.visited

  -- In every reachable state, while the queue is not empty and a thread sleeps in `dequeue`, some
  -- sleeping thread has been signalled.
  pub no_lost_wakeup :
      (t : ℕ)
      → s.sleeping t ≡ true
      → size s.state ≢ 0
      → (u : ℕ) × (s.sleeping u ≡ true) × IsSignalled s.state.waiters u
  unfolding size
  no_lost_wakeup t asleep ne =
      let th = (rf).rep.threads in
      let it = (rf).rep.items in
      elim (th.accounted t asleep) [
        | inr i ↦ (t, asleep, th.signalled t i)
        | inl i ↦ elim th.enough [
          | inl e ↦ absurd (subst (In t) e i)
          | inr q ↦
              let (u, j) = some-In (inv).abstract.signalled (omega (arith, it.count)) in
              (u, th.woken u j, th.signalled u j)
        ]
      ]

  -- In every reachable state `waiting` is the number, modulo 2^64, of the threads that sleep in
  -- `dequeue` and have not been signalled.
  pub waiting-count :
      (ws : List ℕ) × Distinct ws
      × (waiting s.state ≡ length ws % 2 ^ 64)
      × ((t : ℕ) → In t ws ↔ ((s.sleeping t ≡ true) × IsWaiting s.state.waiters t))
  unfolding waiting
  waiting-count =
      let (a, run, shows) = runs_as_promised r in
      (a.waiting, shows.waiters.distinct, shows.waiters.count, shows.waiting)

  -- In every reachable state `dequeue`, called by a thread that does not sleep, never faults: it
  -- blocks if the queue is empty, and returns the oldest item otherwise.
  pub dequeue_ends :
      (t : ℕ)
      → s.sleeping t ≡ false
      → (s' : State) × (((size s.state ≡ 0) × (dequeue t s.state ≡ some (blocked, s')))
          ⊎ ((x : ℕ) × Oldest ps gs x × (dequeue t s.state ≡ some (returned x, s'))))
  unfolding dequeue size
  dequeue_ends t idle =
      let rep = (rf).rep in
      let (s', ends) =
        Round-ends (dequeue_round_lem t (rf).xs rep.items rep.waiters (idle-NotIn t rep idle)) in
      (
        s',
        elim ends [
          | inl (e, q) ↦ inl (rep.items.count ∙ ap length e, q)
          | inr (a, x, l, e, q) ↦ inr (x, (values l, order ∙ ap (λ z. gs ++ values z) e), q)
        ],
      )

  -- In every reachable state a thread that sleeps in `dequeue` never faults when `cnd_wait`
  -- returns. It waits on with nothing changed if it has not been signalled; if it has, it blocks
  -- again if the queue is empty, and returns the oldest item otherwise.
  pub resume_ends :
      (t : ℕ)
      → s.sleeping t ≡ true
      → (IsWaiting s.state.waiters t × (resume t s.state ≡ some (blocked, s.state)))
        ⊎ (IsSignalled s.state.waiters t
            × ((s' : State) × (((size s.state ≡ 0) × (resume t s.state ≡ some (blocked, s')))
                  ⊎ ((x : ℕ) × Oldest ps gs x × (resume t s.state ≡ some (returned x, s'))))))
  unfolding size
  resume_ends t asleep =
      let rep = (rf).rep in
      elim (rep.threads.accounted t asleep) [
        | inl h ↦ inl (
          waiting_value s.state.waiters (inv).abstract.waiting t rep.waiters.chain h,
          resume-waiting t rep.waiters h,
        )
        | inr h ↦
            let g = Rep-Gone t rep h in
            let out = rep.threads.apart t h in
            let signalled = rep.threads.signalled t h in
            let ran = resume-signalled t rep.waiters out signalled in
            let (s', ends) = Round-ends (dequeue_round_lem t (rf).xs g.items g.waiters out) in
            inr (
              signalled,
              (
                s',
                elim ends [
                  | inl (e, q) ↦ inl (rep.items.count ∙ ap length e, ran ∙ q)
                  | inr (a, x, l, e, q) ↦
                      inr (x, (values l, order ∙ ap (λ z. gs ++ values z) e), ran ∙ q)
                ],
              ),
            )
      ]

  -- In every reachable state `tryDequeue` never faults: it reports that there is no item and
  -- changes nothing if the queue is empty, and returns the oldest item otherwise.
  pub try_dequeue_ends :
      ((size s.state ≡ 0) × (try_dequeue s.state ≡ some (none, s.state)))
      ⊎ ((x : ℕ) × (s' : State) × Oldest ps gs x × (try_dequeue s.state ≡ some (some x, s')))
  unfolding size
  try_dequeue_ends =
      let rep = (rf).rep in
      elim (Tried-ends (try_dequeue_lem (rf).xs rep.items)) [
        | inl (e, q) ↦ inl (rep.items.count ∙ ap length e, q)
        | inr (a, x, l, s', e, q) ↦ inr (x, s', (values l, order ∙ ap (λ z. gs ++ values z) e), q)
      ]

  -- In every reachable state `enqueue` with a node that `malloc` gave and room for the count never
  -- faults. If the list of waiting threads is empty it changes no `WaitingThread`; otherwise its
  -- first thread, which sleeps, is signalled.
  pub enqueue_ends :
      (a x : ℕ)
      → s.state.items a ≡ none
      → size s.state + 1 < 2 ^ 64
      → (s' : State) × (enqueue (some a) x s.state ≡ some s')
        × (((s.state.waiting_head ≡ none) × (s'.waiters ≡ s.state.waiters))
            ⊎ ((w : ℕ) × (s.state.waiting_head ≡ some w)
                × (s.sleeping w ≡ true)
                × IsSignalled s'.waiters w))
  unfolding size
  enqueue_ends a x free small =
      let rep = (rf).rep in
      let (s', e, ends) = Enqueued-ends (enqueue_lem a x (inv).abstract.waiting rep free small) in
      (
        s',
        e,
        elim ends [
          | inl (none_waits, same) ↦
              inl (rep.waiters.head ∙ ap (λ l. first (nodes l)) none_waits, same)
          | inr (w, ws, one_waits, awake) ↦ inr (
            w,
            rep.waiters.head ∙ ap (λ l. first (nodes l)) one_waits,
            rep.threads.waiting w (subst (In w) (sym one_waits) (inl refl)),
            awake,
          )
        ],
      )
