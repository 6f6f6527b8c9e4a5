-- ===== src/Clients/Invariant.antt =====
-- hw4/test2.c and hw4/test_queue.c: what holds while the threads run.
use oscourse24btau.Common.{
  ℕ, suc, ◌+◌, ◌*◌, ◌≤◌, ◌≡◌, refl, sym, ◌∙◌, ap, inl, inr, Bool, true, false, none, List, [], ◌∷◌,
  ◌++◌, In, length, length-append, if◌then◌else◌, arith,
}
use native.Mathlib.Decide.{ℕ_discrete}
use oscourse24btau.Queue.State.{State, init_queue}
use oscourse24btau.Queue.Threads.{IsSignalled}
use oscourse24btau.Queue.Operations.{waiting_value}
use oscourse24btau.Queue.System.{
  System, Event, fell_asleep, slept_on, found_none, put_of, got_of, Step, Reach, later,
}
use oscourse24btau.Queue.Spec.{Abstract, empty_queue, Promised}
use oscourse24btau.Queue.Refine.{Refines, Step-Promises}
use oscourse24btau.Queue.Invariant.{Refines-init}
use oscourse24btau.Clients.Programs.{
  Op, takes, rest_of, with_rest, sum_of, sum_of-with_rest, length-with_rest, rest_of-with_rest_ne,
  puts_in, takes_out, AllLend, AllLend-with_rest,
}
use oscourse24btau.Clients.Threads.{
  Config, Completes, Move, completes, begins_to_wait, waits_again, waits_on, polls_in_vain, Run,
  start, moves, idles,
}
use oscourse24btau.Clients.Steps.{
  sleeps_after, sleeping-Step, Step-IdleBefore, sleeper, puts-Completes, takes-Completes,
  waiting-Promised, waiting-fell_asleep, waiting-slept_on, waiting-le_slept_on, waiting-found_none,
}

-- What holds of a program with the threads `ps` after `k` moves.
pub record Inv (ps : List (List Op)) (k : ℕ) (c : Config) : Type 0 where
  pub gone : List ℕ
  pub back : List ℕ
  pub reach : Reach gone back c.system
  pub abstract : Abstract
  pub refines : Refines c.system abstract
  pub puts_left : length gone + sum_of puts_in c.todo ≡ sum_of puts_in ps
  pub takes_left : length back + sum_of takes_out c.todo ≡ sum_of takes_out ps
  pub asleep : (t : ℕ) → c.system.sleeping t ≡ true → (l : List Op) × (rest_of c.todo t ≡ takes ∷ l)
  pub lend : AllLend c.todo
  pub threads : length c.todo ≡ length ps
  pub budget : k + 2 * sum_of length c.todo ≤ 2 * sum_of length ps + length abstract.waiting

module _ {ps : List (List Op)} {k : ℕ} {c : Config} (inv : Inv ps k c) where
  Inv-completes :
      (t : ℕ) (op : Op) (l : List Op) {e : Event} {s' : System}
      → rest_of c.todo t ≡ op ∷ l
      → Completes op t e
      → Step c.system e s'
      → Inv ps (suc k) (record { system = s'; todo = with_rest c.todo t l })
  Inv-completes t op l {e} at comp st =
      let (a', promised, rf) = Step-Promises st inv.refines in
      record {
        gone = inv.gone ++ put_of e;
        back = inv.back ++ got_of e;
        reach = later inv.reach st;
        abstract = a';
        refines = rf;
        puts_left = omega (
          arith,
          inv.puts_left,
          length-append inv.gone (put_of e),
          puts-Completes l comp,
          sum_of-with_rest puts_in c.todo t op l at,
        );
        takes_left = omega (
          arith,
          inv.takes_left,
          length-append inv.back (got_of e),
          takes-Completes l comp,
          sum_of-with_rest takes_out c.todo t op l at,
        );
        asleep = λ u h.
            let (ne, before) =
              sleeper c.system.sleeping u comp (Step-IdleBefore st)
                (ap (λ f. f u) (sym (sleeping-Step st)) ∙ h) in
            let (m, q) = inv.asleep u before in (m, rest_of-with_rest_ne c.todo t u l ne ∙ q);
        lend = AllLend-with_rest c.todo t op l at inv.lend;
        threads = length-with_rest c.todo t l ∙ inv.threads;
        budget = omega (
          arith,
          inv.budget,
          waiting-Promised promised,
          sum_of-with_rest length c.todo t op l at,
        );
      }

  -- The moves that complete no operation.
  Inv-quiet :
      (k' : ℕ) {e : Event} {s' : System}
      → Step c.system e s'
      → put_of e ≡ []
      → got_of e ≡ []
      → ((u : ℕ)
          → sleeps_after c.system.sleeping e u ≡ true
          → (l : List Op) × (rest_of c.todo u ≡ takes ∷ l))
      → ((a' : Abstract)
          → Promised inv.abstract e a'
          → k' + length inv.abstract.waiting ≤ k + length a'.waiting)
      → Inv ps k' (record c { system = s' })
  Inv-quiet k' {e} st no_put no_got asleep' grows =
      let (a', promised, rf) = Step-Promises st inv.refines in
      record {
        gone = inv.gone ++ put_of e;
        back = inv.back ++ got_of e;
        reach = later inv.reach st;
        abstract = a';
        refines = rf;
        puts_left =
            omega (arith, inv.puts_left, length-append inv.gone (put_of e), ap length no_put);
        takes_left =
            omega (arith, inv.takes_left, length-append inv.back (got_of e), ap length no_got);
        asleep = λ u h. asleep' u (ap (λ f. f u) (sym (sleeping-Step st)) ∙ h);
        lend = inv.lend;
        threads = inv.threads;
        budget = omega (arith, inv.budget, grows a' promised);
      }

  falls_asleep-asleep :
      (t : ℕ) (l : List Op)
      → rest_of c.todo t ≡ takes ∷ l
      → (u : ℕ) → sleeps_after c.system.sleeping (fell_asleep t) u ≡ true
      → (m : List Op) × (rest_of c.todo u ≡ takes ∷ m)
  unfolding sleeps_after
  falls_asleep-asleep t l at u h = elim (ℕ_discrete u t) [
    | yes e ↦ (l, ap (rest_of c.todo) e ∙ at)
    | no ne ↦ inv.asleep u (ground arith)
  ]

  stays_asleep :
      (t u : ℕ)
      → sleeps_after c.system.sleeping (slept_on t) u ≡ true
      → (m : List Op) × (rest_of c.todo u ≡ takes ∷ m)
  unfolding sleeps_after
  stays_asleep t u h = inv.asleep u h

  still_asleep :
      (t u : ℕ)
      → sleeps_after c.system.sleeping (found_none t) u ≡ true
      → (m : List Op) × (rest_of c.todo u ≡ takes ∷ m)
  unfolding sleeps_after
  still_asleep t u h = inv.asleep u h

  -- A signalled thread is in the list of waiting threads no more.
  signalled-waiting : (t : ℕ) → IsSignalled c.system.state.waiters t → In t inv.abstract.waiting → ⊥
  signalled-waiting t (n, e) h =
      let (m, q) =
        waiting_value c.system.state.waiters inv.abstract.waiting t inv.refines.rep.waiters.chain
          h in
      absurd (cc)

  Move-Inv : {b : Bool} {c' : Config} → Move c b c' → Inv ps (if b then suc k else k) c'
  Move-Inv (completes t op l at comp st) = Inv-completes t op l at comp st
  Move-Inv (begins_to_wait t l at st) =
      Inv-quiet (suc k) st refl refl (falls_asleep-asleep t l at)
        (λ a' p. omega (arith, waiting-fell_asleep p))
  Move-Inv (waits_again t l at signalled st) =
      Inv-quiet (suc k) st refl refl (stays_asleep t) (λ a' p. elim (waiting-slept_on p) [
        | inl h ↦ absurd (signalled-waiting t signalled h)
        | inr e ↦ omega (arith, e)
      ])
  Move-Inv (waits_on t l at waits st) =
      Inv-quiet k st refl refl (stays_asleep t) (λ a' p. omega (arith, waiting-le_slept_on p))
  Move-Inv (polls_in_vain t l at st) =
      Inv-quiet k st refl refl (still_asleep t) (λ a' p. omega (arith, waiting-found_none p))

Inv-start :
    (ps : List (List Op)) (s : State)
    → ((a : ℕ) → s.items a ≡ none)
    → AllLend ps
    → Inv ps 0
        (record { system = record { state = init_queue s; sleeping = λ _. false }; todo = ps })
Inv-start ps s free lend = record {
  gone = [];
  back = [];
  reach = Reach.start s free;
  abstract = empty_queue;
  refines = Refines-init s free;
  puts_left = omega arith;
  takes_left = omega arith;
  asleep = λ t h. cc;
  lend = lend;
  threads = refl;
  budget = omega arith;
}

pub Run-Inv : {ps : List (List Op)} {k : ℕ} {c : Config} → AllLend ps → Run ps k c → Inv ps k c
Run-Inv {ps} lend (start s free) = Inv-start ps s free lend
Run-Inv lend (moves r m) = Move-Inv (Run-Inv lend r) m
Run-Inv lend (idles r m) = Move-Inv (Run-Inv lend r) m
