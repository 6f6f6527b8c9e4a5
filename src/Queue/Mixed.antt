-- ===== src/Queue/Mixed.antt =====
-- hw4/test2.c: what `test_mixed_operations` prints, and that it ends.
use oscourse24btau.Common.{
  ℕ, zero, suc, ◌+◌, ◌^◌, ◌<◌, ◌≡◌, ◌≢◌, refl, true, false, Option, none, some, List, [], ◌∷◌, ◌++◌,
  ◌==◌, NotIn, length, arith,
}
use mathlib.Core.List.{append-nil, append_assoc}
use oscourse24btau.Queue.Chain.{addresses}
use oscourse24btau.Queue.State.{◌>>=◌, State, init_queue, try_dequeue, size}
use oscourse24btau.Queue.Programs.{
  Line, enqueued, dequeued, Printed, enqueue_one, dequeue_one, try_dequeue_one, try_times,
  take_rest, mixed_steps, test_mixed_operations,
}
use oscourse24btau.Queue.Destroy.{Destroyed, destroy_queue}
use oscourse24btau.Queue.Operations.{empty, try_dequeue_lem, Tried}
use oscourse24btau.Queue.Single.{Quiet, Quiet-init, enqueues_one, dequeues_one, tries_one}
use oscourse24btau.Queue.Passes.{Passed, at_last-Quiet, size-Quiet}

-- A step goes from a queue that holds some nodes to one that holds others, and prints these lines.
record Does (f : Printed → Option Printed) (l m : List (ℕ × ℕ)) (lines : List Line) : Type 0 where
  runs :
      (out : List Line) (s : State)
      → Quiet s l
      → (s' : State) × (f (out, s) ≡ some (out ++ lines, s')) × Quiet s' m

Does-then :
    {f g : Printed → Option Printed} {l m n : List (ℕ × ℕ)} {x y : List Line}
    → Does f l m x
    → Does g m n y
    → Does (λ r. f r >>= g) l n (x ++ y)
Does-then {f} {g} {x} {y} df dg = record {
  runs = λ out s rep.
      let (s', e, rep') = df.runs out s rep in
      let (s'', e', rep'') = dg.runs (out ++ x) s' rep' in
      (s'', rw (e, ◌>>=◌, e', append_assoc) refl, rep'');
}

finds_nothing : {s : State} → Quiet s [] → try_dequeue s ≡ some (none, s)
finds_nothing {s} rep = go (try_dequeue_lem [] rep.items)
  where
    go : {r : Option (Option ℕ × State)} → Tried s [] r → r ≡ some (none, s)
    go empty = refl

module _ (load : ℕ → ℕ) where
  enqueue_one-Does :
      (a p : ℕ) (l : List (ℕ × ℕ))
      → NotIn a (addresses l)
      → length l + 1 < 2 ^ 64
      → Does (enqueue_one load (a, p)) l (l ++ ((a, p) ∷ [])) (enqueued (load p) ∷ [])
  unfolding enqueue_one
  enqueue_one-Does a p l fresh small = record {
    runs = λ out s rep.
        let (s', e, rep') = enqueues_one a p rep fresh small in (s', rw (e, ◌>>=◌) refl, rep');
  }

  dequeue_one-Does :
      (me a p : ℕ) (l : List (ℕ × ℕ))
      → Does (dequeue_one load me) ((a, p) ∷ l) l (dequeued (load p) ∷ [])
  unfolding dequeue_one
  dequeue_one-Does me a p l = record {
    runs = λ out s rep. let (s', e, rep') = dequeues_one me rep in (s', rw (e, ◌>>=◌) refl, rep');
  }

  try_dequeue_one-Does :
      (a p : ℕ) (l : List (ℕ × ℕ))
      → Does (try_dequeue_one load) ((a, p) ∷ l) l (dequeued (load p) ∷ [])
  unfolding try_dequeue_one
  try_dequeue_one-Does a p l = record {
    runs = λ out s rep. let (s', e, rep') = tries_one rep in (s', rw (e, ◌>>=◌) refl, rep');
  }

  -- `tryDequeue` on an empty queue prints nothing.
  try_dequeue_one-empty : Does (try_dequeue_one load) [] [] []
  unfolding try_dequeue_one
  try_dequeue_one-empty = record {
    runs = λ out s rep. (s, rw (finds_nothing rep, ◌>>=◌, append-nil) refl, rep);
  }

  stays : (l : List (ℕ × ℕ)) → Does some l l []
  stays l = record { runs = λ out s rep. (s, rw append-nil refl, rep) }

  abbrev takings : List (ℕ × ℕ) → List Line
  takings [] = []
  takings ((a, p) ∷ l) = dequeued (load p) ∷ takings l

  -- The last loop takes every item.
  take_rest-Does :
      (me fuel : ℕ) (l : List (ℕ × ℕ))
      → length l < fuel
      → Does (take_rest load me fuel) l [] (takings l)
  unfolding take_rest
  take_rest-Does me (suc fuel) [] enough = record {
    runs = λ out s rep.
        let none_left : (size s == 0) ≡ true = ground (arith, size-Quiet rep) in
        (s, rw (take_rest, none_left, append-nil) refl, rep);
  }
  take_rest-Does me (suc fuel) ((a, p) ∷ l) enough = record {
    runs = λ out s rep.
        let some_left : (size s == 0) ≡ false = ground (arith, size-Quiet rep) in
        let rest =
          Does-then (dequeue_one-Does me a p l)
            (take_rest-Does me fuel l (omega (arith, enough))) in
        let (s', e, rep') = rest.runs out s rep in (s', rw (take_rest, some_left) e, rep');
  }
  take_rest-Does me zero l enough = absurd (omega (arith, enough))

  -- The three rounds find the two items and then nothing.
  try_times-Does :
      (a p b q : ℕ)
      → Does
          (try_times load 3)
          ((a, p) ∷ (b, q) ∷ [])
          []
          (dequeued (load p) ∷ dequeued (load q) ∷ [])
  unfolding try_times
  try_times-Does a p b q =
      Does-then (try_dequeue_one-Does a p ((b, q) ∷ []))
        (Does-then (try_dequeue_one-Does b q []) (Does-then try_dequeue_one-empty (stays [])))

  -- The order in which the items go in and come out.
  abbrev pub order : (p1 p2 p3 p4 p5 p6 : ℕ) → List Line
  order p1 p2 p3 p4 p5 p6 =
      enqueued (load p1)
      ∷ dequeued (load p1)
      ∷ enqueued (load p2)
      ∷ enqueued (load p3)
      ∷ dequeued (load p2)
      ∷ enqueued (load p4)
      ∷ dequeued (load p3)
      ∷ dequeued (load p4)
      ∷ enqueued (load p5)
      ∷ enqueued (load p6)
      ∷ dequeued (load p5)
      ∷ dequeued (load p6)
      ∷ []

  module _ (me fuel : ℕ) (a1 p1 a2 p2 a3 p3 a4 p4 a5 p5 a6 p6 : ℕ) (ne23 : a3 ≢ a2) (ne34 : a4 ≢ a3)
      (ne56 : a6 ≢ a5) (enough : 2 < fuel) where
    mixed_steps-Does :
        Does
          (mixed_steps load me fuel (a1, p1) (a2, p2) (a3, p3) (a4, p4) (a5, p5) (a6, p6))
          []
          []
          (order p1 p2 p3 p4 p5 p6)
    unfolding mixed_steps
    mixed_steps-Does = Does-then (enqueue_one-Does a1 p1 [] tt (omega arith)) (
        Does-then (try_dequeue_one-Does a1 p1 []) (
          Does-then (enqueue_one-Does a2 p2 [] tt (omega arith)) (
            Does-then (enqueue_one-Does a3 p3 ((a2, p2) ∷ []) (ne23, tt) (omega arith)) (
              Does-then (dequeue_one-Does me a2 p2 ((a3, p3) ∷ [])) (
                Does-then (enqueue_one-Does a4 p4 ((a3, p3) ∷ []) (ne34, tt) (omega arith)) (
                  Does-then (try_times-Does a3 p3 a4 p4) (
                    Does-then (enqueue_one-Does a5 p5 [] tt (omega arith)) (
                      Does-then (enqueue_one-Does a6 p6 ((a5, p5) ∷ []) (ne56, tt) (omega arith)) (
                        take_rest-Does me fuel ((a5, p5) ∷ (a6, p6) ∷ [])
                          (omega (arith, enough)))))))))))

    -- From a state with no node on the heap, `test_mixed_operations` ends with no fault, no endless wait
    -- and no node left on the heap, and it prints the six items in the order in which they are put in and
    -- in the order in which they are found, which is the same. The nodes that are in the queue at the same
    -- time have different addresses, and the last loop may take three rounds.
    pub mixed_operations_print :
        (s : State)
        → ((a : ℕ) → s.items a ≡ none)
        → (d : Destroyed) × (test_mixed_operations load me fuel
              (a1, p1)
              (a2, p2)
              (a3, p3)
              (a4, p4)
              (a5, p5)
              (a6, p6)
              s
            ≡ some (order p1 p2 p3 p4 p5 p6, d))
          × Passed d
    unfolding test_mixed_operations
    mixed_operations_print s free =
        let (s', e, rep) = mixed_steps-Does.runs [] (init_queue s) (Quiet-init s free) in
        (destroy_queue fuel s', rw (e, ◌>>=◌) refl, at_last-Quiet fuel rep (omega (arith, enough)))
