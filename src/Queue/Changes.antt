-- ===== src/Queue/Changes.antt =====
-- hw4/queue.c: what the lists and the threads are after a thread takes an item, begins to wait or is
-- signalled.
use oscourse24btau.Common.{
  ℕ, ◌-◌, ◌≡◌, ◌≢◌, refl, ap, Bool, true, false, none, List, [], ◌∷◌, ◌++◌, In, NotIn,
  NotIn-of_absent, length, remove, arith,
}
use mathlib.Core.Path.{subst}
use oscourse24btau.Queue.Chain.{update}
use oscourse24btau.Queue.State.{State}
use oscourse24btau.Queue.Rep.{HasItems, SameItems, HasItems-SameItems}
use oscourse24btau.Queue.Waiters.{HasWaiters, HasWaiters-same, left-HasWaiters}
use oscourse24btau.Queue.Threads.{
  Threads, Threads-take, Threads-register, Threads-leave, Threads-sleeping,
}
use oscourse24btau.Queue.Operations.{Rep, Took}
use oscourse24btau.Queue.Outcomes.{Slept}

-- A thread that does not sleep is not in the list.
pub idle-NotIn :
    {s : State} {sl : ℕ → Bool} {xs : List (ℕ × ℕ)} {ws wk : List ℕ} (t : ℕ)
    → Rep s sl xs ws wk
    → sl t ≡ false
    → NotIn t ws
idle-NotIn {ws = ws} t rep idle =
    NotIn-of_absent t ws (λ h. let asleep = rep.threads.waiting t h in absurd (cc))

-- The state after a thread that does not sleep has taken the first item.
pub Rep-Took :
    {s s' : State} {sl : ℕ → Bool} {x a : ℕ} {xs : List (ℕ × ℕ)} {ws wk : List ℕ}
    → Rep s sl ((a, x) ∷ xs) ws wk
    → Took s x xs s'
    → Rep s' sl xs ws wk
Rep-Took {xs = xs} rep k = record {
  items = k.items;
  waiters = HasWaiters-same k.waiters k.waiting_head k.waiting_tail k.waiting_count rep.waiters;
  threads = rw k.waiters (Threads-take rep.threads (length xs) (omega arith));
}

-- ... and after a thread that does not sleep has begun to wait.
pub Rep-sleeps :
    {s s' : State} {sl : ℕ → Bool} {ws wk : List ℕ} (t : ℕ)
    → Rep s sl [] ws wk
    → sl t ≡ false
    → HasWaiters s' (ws ++ (t ∷ []))
    → ((b : ℕ) → NotIn b ws → b ≢ t → s'.waiters b ≡ s.waiters b)
    → SameItems s s'
    → Rep s' (update sl t true) [] (ws ++ (t ∷ [])) wk
Rep-sleeps t rep idle wt others same = record {
  items = HasItems-SameItems same rep.items;
  waiters = wt;
  threads = Threads-register rep.threads t idle refl others;
}

-- A signalled thread has gone from the threads, with one of the items if it takes one.
pub record Gone (s : State) (sl : ℕ → Bool) (t : ℕ) (xs : List (ℕ × ℕ)) (ws wk : List ℕ)
    : Type 0 where
  pub items : HasItems (record s { waiters = update s.waiters t none }) xs
  pub waiters : HasWaiters (record s { waiters = update s.waiters t none }) ws
  pub threads :
      Threads (update s.waiters t none) (update sl t false) ws (remove t wk) (length xs - 1)

pub Rep-Gone :
    {s : State} {sl : ℕ → Bool} {xs : List (ℕ × ℕ)} {ws wk : List ℕ} (t : ℕ)
    → Rep s sl xs ws wk
    → In t wk
    → Gone s sl t xs ws wk
Rep-Gone t rep h = record {
  items =
      HasItems-SameItems
        (record { items = refl; head = refl; tail = refl; count = refl; visited = refl }) rep.items;
  waiters = left-HasWaiters t rep.waiters (rep.threads.apart t h);
  threads = Threads-leave rep.threads t h;
}

-- A signalled thread takes an item.
pub Rep-Gone_takes :
    {s s' : State} {sl : ℕ → Bool} {t a x : ℕ} {xs xs' : List (ℕ × ℕ)} {ws wk : List ℕ}
    → Gone s sl t xs ws wk
    → xs ≡ (a, x) ∷ xs'
    → Took (record s { waiters = update s.waiters t none }) x xs' s'
    → Rep s' (update sl t false) xs' ws (remove t wk)
Rep-Gone_takes {xs = xs} {xs'} g e k = record {
  items = k.items;
  waiters = HasWaiters-same k.waiters k.waiting_head k.waiting_tail k.waiting_count g.waiters;
  threads = rw k.waiters (Threads-take g.threads (length xs') (omega (arith, ap length e)));
}

-- A signalled thread finds no item, and waits again, behind the others.
pub Rep-Gone_sleeps :
    {s s' : State} {sl : ℕ → Bool} (t : ℕ) {xs : List (ℕ × ℕ)} {ws wk : List ℕ}
    → sl t ≡ true
    → Gone s sl t xs ws wk
    → Slept t (record s { waiters = update s.waiters t none }) ws xs s'
    → Rep s' sl [] (ws ++ (t ∷ [])) (remove t wk)
Rep-Gone_sleeps {s} {s'} {sl} t {xs} {ws} {wk} asleep g k = record {
  items = HasItems-SameItems k.same (subst (HasItems _) k.none_left g.items);
  waiters = k.waiters;
  threads =
      Threads-sleeping (λ u. ground arith)
        (Threads-register g.threads t (ground arith) (rw k.none_left) k.others);
}
