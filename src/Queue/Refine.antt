-- ===== src/Queue/Refine.antt =====
-- hw4/queue.c: every step of the threads is a step that the queue promises.
use oscourse24btau.Common.{
  ℕ, ◌%◌, ◌^◌, ◌≡◌, refl, sym, ◌∙◌, ap, inl, inr, Bool, true, false, Option, some, List, [], ◌∷◌,
  ◌++◌, NotIn-of_absent, arith,
}
use mathlib.Core.Path.{subst}
use oscourse24btau.Queue.Chain.{update, values}
use oscourse24btau.Queue.State.{State, blocked, returned, dequeue_round, dequeue, resume}
use oscourse24btau.Queue.Rep.{values-snoc}
use oscourse24btau.Queue.Operations.{
  Rep, Took, Enqueued, no_one, signals, enqueue_lem, dequeue_round_lem, resume-waiting,
  resume-signalled, try_dequeue_lem,
}
use oscourse24btau.Queue.Outcomes.{Round-returned, Round-blocked, Tried-some, Tried-none}
use oscourse24btau.Queue.System.{
  System, Event, Step, enqueues, dequeues, falls_asleep, wakes, sleeps_on, tries, tries_in_vain,
  woke, slept_on, fell_asleep,
}
use oscourse24btau.Queue.Spec.{
  Abstract, IsIdle, signal, without_oldest, with_waiting, resumed, Promised, puts, gets,
  begins_to_wait, gets_signalled, tries_and_gets, waits_on, waits_again, finds_none,
}
use oscourse24btau.Queue.Changes.{
  idle-NotIn, Rep-Took, Rep-sleeps, Rep-Gone, Rep-Gone_takes, Rep-Gone_sleeps,
}

-- The lists in the state are those of the abstract queue.
pub record Refines (s : System) (a : Abstract) : Type 0 where
  pub xs : List (ℕ × ℕ)
  pub rep : Rep s.state s.sleeping xs a.waiting a.signalled
  pub items : a.items ≡ values xs
  pub visited : s.state.visited_count ≡ a.visited % 2 ^ 64

-- A promised step to an abstract queue that the new state has.
abbrev pub Promises : Abstract → Event → System → Type 0
Promises a e s' = (a' : Abstract) × Promised a e a' × Refines s' a'

module _ {s : System} {a : Abstract} (rf : Refines s a) where
  IsIdle-awake : (t : ℕ) → s.sleeping t ≡ false → IsIdle t a
  IsIdle-awake t idle = (
    idle-NotIn t rf.rep idle,
    NotIn-of_absent t a.signalled (λ h. let asleep = rf.rep.threads.woken t h in absurd (cc)),
  )

  -- The abstract items, once the items of the state are known.
  items_are : {xs : List (ℕ × ℕ)} → rf.xs ≡ xs → a.items ≡ values xs
  items_are e = rf.items ∙ ap values e

  -- A thread that does not sleep takes an item.
  Refines-got :
      {x b : ℕ} {xs' : List (ℕ × ℕ)} {s' : State}
      → rf.xs ≡ (b, x) ∷ xs'
      → Took s.state x xs' s'
      → Refines (record s { state = s' }) (without_oldest (values xs') a)
  Refines-got {xs' = xs'} e k = record {
    xs = xs';
    rep = Rep-Took (subst (λ l. Rep s.state s.sleeping l a.waiting a.signalled) e rf.rep) k;
    items = refl;
    visited = omega (arith, k.visited, rf.visited);
  }

  pub Promises-wakes :
      (t : ℕ) {x : ℕ} {s' : State}
      → s.sleeping t ≡ true
      → resume t s.state ≡ some (returned x, s')
      → Promises a (woke t x) (record { state = s'; sleeping = update s.sleeping t false })
  Promises-wakes t {x} asleep ran = elim (rf.rep.threads.accounted t asleep) [
    | inl h ↦ absurd (cc (resume-waiting t rf.rep.waiters h))
    | inr h ↦
        let th = rf.rep.threads in
        let g = Rep-Gone t rf.rep h in
        let ran' =
          sym (resume-signalled t rf.rep.waiters (th.apart t h) (th.signalled t h)) ∙ ran in
        let (b, xs', e, k) =
          Round-returned (dequeue_round_lem t rf.xs g.items g.waiters (th.apart t h)) ran' in
        (
          without_oldest (values xs') (resumed t a),
          gets_signalled t x (values xs') h (items_are e),
          record {
            xs = xs';
            rep = Rep-Gone_takes g e k;
            items = refl;
            visited = omega (arith, k.visited, rf.visited);
          },
        )
  ]

  pub Promises-sleeps_on :
      (t : ℕ) {s' : State}
      → s.sleeping t ≡ true
      → resume t s.state ≡ some (blocked, s')
      → Promises a (slept_on t) (record s { state = s' })
  Promises-sleeps_on t {s'} asleep ran = elim (rf.rep.threads.accounted t asleep) [
    | inl h ↦
        let same : s.state ≡ s' = cc (resume-waiting t rf.rep.waiters h) in
        (a, waits_on t h, subst (λ z. Refines (record s { state = z }) a) same rf)
    | inr h ↦
        let th = rf.rep.threads in
        let g = Rep-Gone t rf.rep h in
        let ran' =
          sym (resume-signalled t rf.rep.waiters (th.apart t h) (th.signalled t h)) ∙ ran in
        let k = Round-blocked (dequeue_round_lem t rf.xs g.items g.waiters (th.apart t h)) ran' in
        (
          with_waiting t (resumed t a),
          waits_again t h (items_are k.none_left),
          record {
            xs = [];
            rep = Rep-Gone_sleeps t asleep g k;
            items = items_are k.none_left;
            visited = k.same.visited ∙ rf.visited;
          },
        )
  ]

  pub Promises-falls_asleep :
      (t : ℕ) {s' : State}
      → s.sleeping t ≡ false
      → dequeue_round t s.state ≡ some (blocked, s')
      → Promises a (fell_asleep t) (record { state = s'; sleeping = update s.sleeping t true })
  Promises-falls_asleep t idle ran =
      let rep = rf.rep in
      let k =
        Round-blocked (dequeue_round_lem t rf.xs rep.items rep.waiters (idle-NotIn t rep idle))
          ran in
      (
        with_waiting t a,
        begins_to_wait t (IsIdle-awake t idle) (items_are k.none_left),
        record {
          xs = [];
          rep =
              Rep-sleeps t
                (subst (λ l. Rep s.state s.sleeping l a.waiting a.signalled) k.none_left rep) idle
                k.waiters k.others k.same;
          items = items_are k.none_left;
          visited = k.same.visited ∙ rf.visited;
        },
      )

-- What `enqueue` leaves, with the thread that it signals, if one waits.
Refines-Enqueued :
    {s s' : State} {sl : ℕ → Bool} {xs : List (ℕ × ℕ)} {ws wk : List ℕ} {b x : ℕ} {r : Option State}
    (items : List ℕ) (v : ℕ)
    → Enqueued s sl xs wk b x ws r
    → r ≡ some s'
    → items ≡ values xs
    → s.visited_count ≡ v % 2 ^ 64
    → Refines
        (record { state = s'; sleeping = sl })
        (signal ws
          (record { items = items ++ (x ∷ []); waiting = ws; signalled = wk; visited = v }))
Refines-Enqueued {s' = s'} {sl} {xs} {wk = wk} {b} {x} items v (no_one s'' rep same_threads e) ran
      is seen =
    let same : s'' ≡ s' = cc in
    record {
      xs = xs ++ ((b, x) ∷ []);
      rep = subst (λ z. Rep z sl (xs ++ ((b, x) ∷ [])) [] wk) same rep;
      items = rw (is, values-snoc);
      visited = rw (← same) (e ∙ seen);
    }
Refines-Enqueued {s' = s'} {sl} {xs} {wk = wk} {b} {x} items v (signals w ws s'' rep e) ran is
      seen =
    let same : s'' ≡ s' = cc in
    record {
      xs = xs ++ ((b, x) ∷ []);
      rep = subst (λ z. Rep z sl (xs ++ ((b, x) ∷ [])) ws (w ∷ wk)) same rep;
      items = rw (is, values-snoc);
      visited = rw (← same) (e ∙ seen);
    }

pub Step-Promises :
    {s s' : System} {e : Event} {a : Abstract} → Step s e s' → Refines s a → Promises a e s'
unfolding dequeue
Step-Promises {a = a} (enqueues t b x idle free small ran) rf = (
  signal a.waiting (record a { items = a.items ++ (x ∷ []) }),
  puts t x (IsIdle-awake rf t idle),
  Refines-Enqueued a.items a.visited (enqueue_lem b x a.waiting rf.rep free small) ran rf.items
      rf.visited,
)
Step-Promises {a = a} (dequeues t x idle ran) rf =
    let rep = rf.rep in
    let (b, xs', e, k) =
      Round-returned (dequeue_round_lem t rf.xs rep.items rep.waiters (idle-NotIn t rep idle))
        ran in
    (
      without_oldest (values xs') a,
      gets t x (values xs') (IsIdle-awake rf t idle) (items_are rf e),
      Refines-got rf e k,
    )
Step-Promises (falls_asleep t idle ran) rf = Promises-falls_asleep rf t idle ran
Step-Promises (wakes t x asleep ran) rf = Promises-wakes rf t asleep ran
Step-Promises (sleeps_on t asleep ran) rf = Promises-sleeps_on rf t asleep ran
Step-Promises {a = a} (tries t x idle ran) rf =
    let (b, xs', e, k) = Tried-some (try_dequeue_lem rf.xs rf.rep.items) ran in
    (
      without_oldest (values xs') a,
      tries_and_gets t x (values xs') (IsIdle-awake rf t idle) (items_are rf e),
      Refines-got rf e k,
    )
Step-Promises {s} {a = a} (tries_in_vain t idle ran) rf =
    let (e, same) = Tried-none (try_dequeue_lem rf.xs rf.rep.items) ran in
    (
      a,
      finds_none t (IsIdle-awake rf t idle) (items_are rf e),
      subst (λ z. Refines (record s { state = z }) a) same rf,
    )
