-- ===== src/Clients/Steps.antt =====
-- hw4/test2.c and hw4/test_queue.c: what a step of the queue says of the threads.
use oscourse24btau.Common.{
  ℕ, ◌+◌, ◌≤◌, ◌≡◌, ◌≢◌, refl, ap, ◌⊎◌, inl, inr, In, Bool, true, false, List, [], ◌∷◌, ◌++◌,
  length, length-append, arith,
}
use oscourse24btau.Queue.Chain.{update}
use oscourse24btau.Queue.System.{
  System, Event, put, got, woke, tried, fell_asleep, slept_on, found_none, put_of, got_of, Step,
  enqueues, dequeues, falls_asleep, wakes, sleeps_on, tries, tries_in_vain,
}
use oscourse24btau.Queue.Spec.{
  Abstract, signal, Promised, puts, gets, tries_and_gets, gets_signalled, begins_to_wait, waits_on,
  waits_again, finds_none,
}
use oscourse24btau.Clients.Programs.{Op, puts_in, takes_out}
use oscourse24btau.Clients.Threads.{
  Completes, put_in, got_at_once, got_after_waiting, got_by_polling,
}

-- Which threads a step puts to sleep or wakes.
unfoldable pub sleeps_after : (ℕ → Bool) → Event → ℕ → Bool
sleeps_after f (put t x) = f
sleeps_after f (got t x) = f
sleeps_after f (tried t x) = f
sleeps_after f (woke t x) = update f t false
sleeps_after f (fell_asleep t) = update f t true
sleeps_after f (slept_on t) = f
sleeps_after f (found_none t) = f

pub sleeping-Step :
    {s s' : System} {e : Event} → Step s e s' → s'.sleeping ≡ sleeps_after s.sleeping e
unfolding sleeps_after
sleeping-Step (enqueues t a x idle free small ran) = refl
sleeping-Step (dequeues t x idle ran) = refl
sleeping-Step (falls_asleep t idle ran) = refl
sleeping-Step (wakes t x asleep ran) = refl
sleeping-Step (sleeps_on t asleep ran) = refl
sleeping-Step (tries t x idle ran) = refl
sleeping-Step (tries_in_vain t idle ran) = refl

-- The thread that does these is not inside `dequeue` before.
pub IdleBefore : (ℕ → Bool) → Event → Type 0
IdleBefore f (put t x) = f t ≡ false
IdleBefore f (got t x) = f t ≡ false
IdleBefore f (tried t x) = f t ≡ false
IdleBefore f (woke t x) = Unit {0}
IdleBefore f (fell_asleep t) = Unit {0}
IdleBefore f (slept_on t) = Unit {0}
IdleBefore f (found_none t) = Unit {0}

pub Step-IdleBefore : {s s' : System} {e : Event} → Step s e s' → IdleBefore s.sleeping e
unfolding IdleBefore
Step-IdleBefore (enqueues t a x idle free small ran) = idle
Step-IdleBefore (dequeues t x idle ran) = idle
Step-IdleBefore (falls_asleep t idle ran) = tt
Step-IdleBefore (wakes t x asleep ran) = tt
Step-IdleBefore (sleeps_on t asleep ran) = tt
Step-IdleBefore (tries t x idle ran) = idle
Step-IdleBefore (tries_in_vain t idle ran) = tt

-- A thread that sleeps after another's operation, or its own, is another, and slept before.
pub sleeper :
    (f : ℕ → Bool) (u : ℕ) {op : Op} {t : ℕ} {e : Event}
    → Completes op t e
    → IdleBefore f e
    → sleeps_after f e u ≡ true
    → (u ≢ t) × (f u ≡ true)
unfolding IdleBefore sleeps_after
sleeper f u (put_in t x) idle h = ((λ e. absurd (ground (arith, ap f e))), h)
sleeper f u (got_at_once t x) idle h = ((λ e. absurd (ground (arith, ap f e))), h)
sleeper f u (got_by_polling t x) idle h = ((λ e. absurd (ground (arith, ap f e))), h)
sleeper f u (got_after_waiting t x) idle h = ((λ e. ground arith), ground arith)

pub puts-Completes :
    {op : Op} {t : ℕ} {e : Event} (l : List Op)
    → Completes op t e
    → length (put_of e) + puts_in l ≡ puts_in (op ∷ l)
puts-Completes l (put_in t x) = omega arith
puts-Completes l (got_at_once t x) = omega arith
puts-Completes l (got_after_waiting t x) = omega arith
puts-Completes l (got_by_polling t x) = omega arith

pub takes-Completes :
    {op : Op} {t : ℕ} {e : Event} (l : List Op)
    → Completes op t e
    → length (got_of e) + takes_out l ≡ takes_out (op ∷ l)
takes-Completes l (put_in t x) = omega arith
takes-Completes l (got_at_once t x) = omega arith
takes-Completes l (got_after_waiting t x) = omega arith
takes-Completes l (got_by_polling t x) = omega arith

-- At most one thread ceases to wait at a step.
waiting-signal :
    (ws : List ℕ) (a : Abstract)
    → a.waiting ≡ ws
    → length a.waiting ≤ length (signal ws a).waiting + 1
waiting-signal [] a e = omega arith
waiting-signal (w ∷ ws) a e = omega (arith, ap length e)

pub waiting-Promised :
    {a a' : Abstract} {e : Event} → Promised a e a' → length a.waiting ≤ length a'.waiting + 1
waiting-Promised {a} (puts t x idle) =
    waiting-signal a.waiting (record a { items = a.items ++ (x ∷ []) }) refl
waiting-Promised (gets t x rest idle e) = omega arith
waiting-Promised (tries_and_gets t x rest idle e) = omega arith
waiting-Promised (gets_signalled t x rest h e) = omega arith
waiting-Promised {a} (begins_to_wait t idle e) = omega (arith, length-append a.waiting (t ∷ []))
waiting-Promised (waits_on t h) = omega arith
waiting-Promised {a} (waits_again t h e) = omega (arith, length-append a.waiting (t ∷ []))
waiting-Promised (finds_none t idle e) = omega arith

-- A thread that blocks in `dequeue` waits from then on.
pub waiting-fell_asleep :
    {a a' : Abstract} {t : ℕ}
    → Promised a (fell_asleep t) a'
    → length a'.waiting ≡ length a.waiting + 1
waiting-fell_asleep {a} (begins_to_wait t idle e) = omega (arith, length-append a.waiting (t ∷ []))

pub waiting-slept_on :
    {a a' : Abstract} {t : ℕ}
    → Promised a (slept_on t) a'
    → In t a.waiting ⊎ (length a'.waiting ≡ length a.waiting + 1)
waiting-slept_on (waits_on t h) = inl h
waiting-slept_on {a} (waits_again t h e) = inr (omega (arith, length-append a.waiting (t ∷ [])))

pub waiting-le_slept_on :
    {a a' : Abstract} {t : ℕ} → Promised a (slept_on t) a' → length a.waiting ≤ length a'.waiting
waiting-le_slept_on (waits_on t h) = omega arith
waiting-le_slept_on {a} (waits_again t h e) = omega (arith, length-append a.waiting (t ∷ []))

pub waiting-found_none :
    {a a' : Abstract} {t : ℕ} → Promised a (found_none t) a' → length a.waiting ≤ length a'.waiting
waiting-found_none (finds_none t idle e) = omega arith
