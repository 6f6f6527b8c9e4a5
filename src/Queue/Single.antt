-- ===== src/Queue/Single.antt =====
-- hw4/queue.c: the operations while no other thread is inside `dequeue`.
use oscourse24btau.Common.{
  ℕ, ◌+◌, ◌^◌, ◌<◌, ◌≡◌, ◌≢◌, refl, sym, false, Option, none, some, List, [], ◌∷◌, ◌++◌, NotIn,
  Distinct, length, arith,
}
use mathlib.Core.Path.{subst}
use oscourse24btau.Queue.Chain.{values, addresses}
use oscourse24btau.Queue.State.{
  ◌>>=◌, State, init_queue, enqueue, Turn, returned, dequeue, try_dequeue,
}
use oscourse24btau.Queue.Operations.{
  Rep, Round, takes, dequeue_round_lem, Enqueued, no_one, enqueue_lem, Tried, empty, took,
  try_dequeue_lem,
}
use oscourse24btau.Queue.Changes.{Rep-Took}
use oscourse24btau.Queue.Invariant.{Refines-init}
use oscourse24btau.Queue.Programs.{try_in_vain}

-- The queue holds these nodes, and no thread is inside `dequeue`.
abbrev pub Quiet : State → List (ℕ × ℕ) → Type 0
Quiet s l = Rep s (λ _. false) l [] []

no_values : (l : List (ℕ × ℕ)) → [] ≡ values l → l ≡ []
no_values [] e = refl
no_values ((a, x) ∷ l) e = cc

pub Quiet-init : (s : State) → ((a : ℕ) → s.items a ≡ none) → Quiet (init_queue s) []
Quiet-init s free =
    let rf = Refines-init s free in subst (Quiet (init_queue s)) (no_values rf.xs rf.items) rf.rep

-- The address of a later item is none of the earlier ones.
ne-later :
    (b : ℕ) (l : List (ℕ × ℕ)) (a p : ℕ) (r : List (ℕ × ℕ))
    → NotIn b (addresses (l ++ ((a, p) ∷ r)))
    → b ≢ a
ne-later b [] a p r n = n.0
ne-later b ((c, x) ∷ l) a p r n = ne-later b l a p r n.1

pub NotIn-earlier :
    (l : List (ℕ × ℕ)) (a p : ℕ) (r : List (ℕ × ℕ))
    → Distinct (addresses (l ++ ((a, p) ∷ r)))
    → NotIn a (addresses l)
NotIn-earlier [] a p r d = tt
NotIn-earlier ((b, x) ∷ l) a p r d =
    ((λ e. ne-later b l a p r d.0 (sym e)), NotIn-earlier l a p r d.1)

-- The operations of a single thread.
pub enqueues_one :
    {s : State} {l : List (ℕ × ℕ)} (a p : ℕ)
    → Quiet s l
    → NotIn a (addresses l)
    → length l + 1 < 2 ^ 64
    → (s' : State) × (enqueue (some a) p s ≡ some s') × Quiet s' (l ++ ((a, p) ∷ []))
enqueues_one {s} {l} a p rep fresh small =
    go (enqueue_lem a p [] rep (rep.items.only a fresh) (omega (arith, rep.items.count)))
  where
    go :
        {r : Option State}
        → Enqueued s (λ _. false) l [] a p [] r
        → (s' : State) × (r ≡ some s') × Quiet s' (l ++ ((a, p) ∷ []))
    go (no_one s' rep' same v) = (s', refl, rep')

pub dequeues_one :
    {s : State} {a p : ℕ} {l : List (ℕ × ℕ)} (me : ℕ)
    → Quiet s ((a, p) ∷ l)
    → (s' : State) × (dequeue me s ≡ some (returned p, s')) × Quiet s' l
unfolding dequeue
dequeues_one {s} {a} {p} {l} me rep =
    go (dequeue_round_lem me ((a, p) ∷ l) rep.items rep.waiters tt)
  where
    go :
        {r : Option (Turn × State)}
        → Round me s [] ((a, p) ∷ l) r
        → (s' : State) × (r ≡ some (returned p, s')) × Quiet s' l
    go (takes b x m s' k) = (s', refl, Rep-Took rep k)

pub tries_one :
    {s : State} {a p : ℕ} {l : List (ℕ × ℕ)}
    → Quiet s ((a, p) ∷ l)
    → (s' : State) × (try_dequeue s ≡ some (some p, s')) × Quiet s' l
tries_one {s} {a} {p} {l} rep = go (try_dequeue_lem ((a, p) ∷ l) rep.items)
  where
    go :
        {r : Option (Option ℕ × State)}
        → Tried s ((a, p) ∷ l) r
        → (s' : State) × (r ≡ some (some p, s')) × Quiet s' l
    go (took b x m s' k) = (s', refl, Rep-Took rep k)

pub tries_none : {s : State} → Quiet s [] → try_in_vain s ≡ some s
unfolding try_in_vain
tries_none {s} rep = go (try_dequeue_lem [] rep.items)
  where
    go :
        {r : Option (Option ℕ × State)}
        → Tried s [] r
        → (r >>= λ (found, s'). elim found [ none ↦ some s' | some item ↦ none ]) ≡ some s
    go empty = refl
