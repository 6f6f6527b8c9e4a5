-- ===== src/Queue/Invariant.antt =====
-- hw4/queue.c: every interleaving is a run of the abstract queue.
use oscourse24btau.Common.{
  ℕ, ◌+◌, ◌≡◌, refl, ◌∙◌, ap, inl, false, none, List, [], ◌∷◌, ◌++◌, length, length-append, arith,
}
use mathlib.Core.List.{append-nil, append_assoc}
use oscourse24btau.Queue.State.{State, init_queue}
use oscourse24btau.Queue.System.{System, Event, put_of, got_of, Reach, start, later, trace}
use oscourse24btau.Queue.Spec.{
  Abstract, empty_queue, signal, Promised, puts, gets, begins_to_wait, gets_signalled,
  tries_and_gets, waits_on, waits_again, finds_none, Run, begin, go_on,
}
use oscourse24btau.Queue.Refine.{Refines, Step-Promises}

-- What a list of waiting threads does not change.
items-signal : (ws : List ℕ) (a : Abstract) → (signal ws a).items ≡ a.items
items-signal [] a = refl
items-signal (w ∷ ws) a = refl

visited-signal : (ws : List ℕ) (a : Abstract) → (signal ws a).visited ≡ a.visited
visited-signal [] a = refl
visited-signal (w ∷ ws) a = refl

-- `a` has the items that were put in and not taken out, and counts those that were taken out.
pub record Accounts (ps gs : List ℕ) (a : Abstract) : Type 0 where
  pub order : ps ≡ gs ++ a.items
  pub visited : a.visited ≡ length gs

Accounts-got :
    {ps gs : List ℕ} {a a' : Abstract} (x : ℕ) (rest : List ℕ)
    → a.items ≡ x ∷ rest
    → a'.items ≡ rest
    → a'.visited ≡ a.visited + 1
    → Accounts ps gs a
    → Accounts (ps ++ []) (gs ++ (x ∷ [])) a'
Accounts-got {ps} {gs} x rest e e' v acc = record {
  order = rw (append-nil, append_assoc, e') (acc.order ∙ ap (λ l. gs ++ l) e);
  visited = omega (arith, v, acc.visited, length-append gs (x ∷ []));
}

Accounts-same :
    {ps gs : List ℕ} {a a' : Abstract}
    → a'.items ≡ a.items
    → a'.visited ≡ a.visited
    → Accounts ps gs a
    → Accounts (ps ++ []) (gs ++ []) a'
Accounts-same {ps} {gs} e v acc = record {
  order = rw (append-nil ps, append-nil gs, e) acc.order;
  visited = rw (append-nil gs, v) acc.visited;
}

Promised-Accounts :
    {ps gs : List ℕ} {a a' : Abstract} {e : Event}
    → Promised a e a'
    → Accounts ps gs a
    → Accounts (ps ++ put_of e) (gs ++ got_of e) a'
Promised-Accounts {ps} {gs} {a} (puts t x idle) acc = record {
  order = rw (items-signal a.waiting, append-nil gs, acc.order, append_assoc);
  visited = rw (visited-signal a.waiting, append-nil gs) acc.visited;
}
Promised-Accounts (gets t x rest idle e) acc = Accounts-got x rest e refl refl acc
Promised-Accounts (tries_and_gets t x rest idle e) acc = Accounts-got x rest e refl refl acc
Promised-Accounts (begins_to_wait t idle e) acc = Accounts-same refl refl acc
Promised-Accounts (gets_signalled t x rest h e) acc = Accounts-got x rest e refl refl acc
Promised-Accounts (waits_on t h) acc = Accounts-same refl refl acc
Promised-Accounts (waits_again t h e) acc = Accounts-same refl refl acc
Promised-Accounts (finds_none t idle e) acc = Accounts-same refl refl acc

-- What holds of a state that the threads reach.
pub record Inv {ps gs : List ℕ} {s : System} (r : Reach ps gs s) : Type 0 where
  pub abstract : Abstract
  pub run : Run (trace r) abstract
  pub refines : Refines s abstract
  pub accounts : Accounts ps gs abstract

pub Refines-init :
    (s : State)
    → ((a : ℕ) → s.items a ≡ none)
    → Refines (record { state = init_queue s; sleeping = λ _. false }) empty_queue
unfolding init_queue
Refines-init s free = record {
  xs = [];
  rep = record {
    items = record {
      chain = tt;
      distinct = tt;
      head = refl;
      tail = refl;
      count = refl;
      small = omega arith;
      only = λ b n. free b;
    };
    waiters = record { chain = tt; distinct = tt; head = refl; tail = refl; count = refl };
    threads = record {
      waiting = λ t h. absurd h;
      woken = λ t h. absurd h;
      signalled = λ t h. absurd h;
      accounted = λ t q. cc;
      apart = λ t h. tt;
      distinct = tt;
      enough = inl refl;
    };
  };
  items = refl;
  visited = refl;
}

pub Reach-Inv : {ps gs : List ℕ} {s : System} (r : Reach ps gs s) → Inv r
Reach-Inv (start s free) = record {
  abstract = empty_queue;
  run = begin;
  refines = Refines-init s free;
  accounts = record { order = refl; visited = refl };
}
Reach-Inv (later r st) =
    let old = Reach-Inv r in
    let (a', promised, rf) = Step-Promises st old.refines in
    record {
      abstract = a';
      run = go_on old.run promised;
      refines = rf;
      accounts = Promised-Accounts promised old.accounts;
    }
