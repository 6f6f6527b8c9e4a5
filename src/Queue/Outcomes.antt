-- ===== src/Queue/Outcomes.antt =====
-- hw4/queue.c: what the result of a critical section says of the lists before and after it.
use oscourse24btau.Common.{
  ◌⊎◌, ℕ, ◌≡◌, ◌≢◌, refl, inl, inr, Bool, Option, none, some, List, [], ◌∷◌, ◌++◌, NotIn,
}
use mathlib.Core.Path.{subst}
use oscourse24btau.Queue.State.{State, Turn, blocked, returned}
use oscourse24btau.Queue.Rep.{SameItems}
use oscourse24btau.Queue.Waiters.{HasWaiters}
use oscourse24btau.Queue.Threads.{IsSignalled}
use oscourse24btau.Queue.Operations.{
  Rep, Took, Round, sleeps, takes, Enqueued, no_one, signals, Tried, empty, took,
}

-- What a result says of the round that it is of.
pub Round-returned :
    {t x : ℕ} {s s' : State} {ws : List ℕ} {xs : List (ℕ × ℕ)} {r : Option (Turn × State)}
    → Round t s ws xs r
    → r ≡ some (returned x, s')
    → (a : ℕ) × (xs' : List (ℕ × ℕ)) × (xs ≡ (a, x) ∷ xs') × Took s x xs' s'
Round-returned (sleeps s'' wt others same) e = cc
Round-returned {x = x} {s} {s'} (takes a y xs s'' k) e =
    let same_item : y ≡ x = cc in
    let same_state : s'' ≡ s' = cc in (a, xs, rw same_item, rw (same_item, same_state) at k)

pub record Slept (t : ℕ) (s : State) (ws : List ℕ) (xs : List (ℕ × ℕ)) (s' : State) : Type 0 where
  pub none_left : xs ≡ []
  pub waiters : HasWaiters s' (ws ++ (t ∷ []))
  pub others : (b : ℕ) → NotIn b ws → b ≢ t → s'.waiters b ≡ s.waiters b
  pub same : SameItems s s'

pub Round-blocked :
    {t : ℕ} {s s' : State} {ws : List ℕ} {xs : List (ℕ × ℕ)} {r : Option (Turn × State)}
    → Round t s ws xs r
    → r ≡ some (blocked, s')
    → Slept t s ws xs s'
Round-blocked {t} {s} {s'} {ws} (sleeps s'' wt others same) e =
    let same_state : s'' ≡ s' = cc in
    subst (λ z. Slept t s ws [] z) same_state
      (record { none_left = refl; waiters = wt; others = others; same = same })
Round-blocked (takes a y xs s'' k) e = cc

pub Tried-some :
    {x : ℕ} {s s' : State} {xs : List (ℕ × ℕ)} {r : Option (Option ℕ × State)}
    → Tried s xs r
    → r ≡ some (some x, s')
    → (a : ℕ) × (xs' : List (ℕ × ℕ)) × (xs ≡ (a, x) ∷ xs') × Took s x xs' s'
Tried-some empty e = cc
Tried-some {x} {s} {s'} (took a y xs s'' k) e =
    let same_item : y ≡ x = cc in
    let same_state : s'' ≡ s' = cc in (a, xs, rw same_item, rw (same_item, same_state) at k)

pub Tried-none :
    {s s' : State} {xs : List (ℕ × ℕ)} {r : Option (Option ℕ × State)}
    → Tried s xs r
    → r ≡ some (none, s')
    → (xs ≡ []) × (s ≡ s')
Tried-none empty e = (refl, cc)
Tried-none (took a y xs s'' k) e = cc

pub Enqueued-some :
    {s s' : State} {sl : ℕ → Bool} {xs : List (ℕ × ℕ)} {ws wk : List ℕ} {a x : ℕ} {r : Option State}
    → Enqueued s sl xs wk a x ws r
    → r ≡ some s'
    → (ws' : List ℕ) × (wk' : List ℕ) × Rep s' sl (xs ++ ((a, x) ∷ [])) ws' wk'
      × (s'.visited_count ≡ s.visited_count)
Enqueued-some {s' = s'} {sl} {xs} {wk = wk} {a} {x} (no_one s'' rep same_threads v) e =
    let same : s'' ≡ s' = cc in
    ([], wk, subst (λ z. Rep z sl (xs ++ ((a, x) ∷ [])) [] wk) same rep, rw (← same) v)
Enqueued-some {s' = s'} {sl} {xs} {wk = wk} {a} {x} (signals w ws s'' rep v) e =
    let same : s'' ≡ s' = cc in
    (ws, w ∷ wk, subst (λ z. Rep z sl (xs ++ ((a, x) ∷ [])) ws (w ∷ wk)) same rep, rw (← same) v)

-- The two ways in which a round ends.
pub Round-ends :
    {t : ℕ} {s : State} {ws : List ℕ} {xs : List (ℕ × ℕ)} {r : Option (Turn × State)}
    → Round t s ws xs r
    → (s' : State) × (((xs ≡ []) × (r ≡ some (blocked, s')))
        ⊎ ((a : ℕ) × (x : ℕ) × (l : List (ℕ × ℕ)) × (xs ≡ (a, x) ∷ l)
            × (r ≡ some (returned x, s'))))
Round-ends (sleeps s' wt others same) = (s', inl (refl, refl))
Round-ends (takes a x xs s' k) = (s', inr (a, x, xs, refl, refl))

pub Tried-ends :
    {s : State} {xs : List (ℕ × ℕ)} {r : Option (Option ℕ × State)}
    → Tried s xs r
    → ((xs ≡ []) × (r ≡ some (none, s)))
      ⊎ ((a : ℕ) × (x : ℕ) × (l : List (ℕ × ℕ)) × (s' : State) × (xs ≡ (a, x) ∷ l)
          × (r ≡ some (some x, s')))
Tried-ends empty = inl (refl, refl)
Tried-ends (took a x xs s' k) = inr (a, x, xs, s', refl, refl)

pub Enqueued-ends :
    {s : State} {sl : ℕ → Bool} {xs : List (ℕ × ℕ)} {wk ws : List ℕ} {a x : ℕ} {r : Option State}
    → Enqueued s sl xs wk a x ws r
    → (s' : State) × (r ≡ some s')
      × (((ws ≡ []) × (s'.waiters ≡ s.waiters))
          ⊎ ((w : ℕ) × (l : List ℕ) × (ws ≡ w ∷ l) × IsSignalled s'.waiters w))
Enqueued-ends (no_one s' rep same v) = (s', refl, inl (refl, same))
Enqueued-ends (signals w ws s' rep v) =
    (s', refl, inr (w, ws, refl, rep.threads.signalled w (inl refl)))
