-- ===== src/Clients/Programs.antt =====
-- hw4/test2.c and hw4/test_queue.c: what the threads of a program do with the queue, and how often.
use mathlib.Core.Path.{subst}
use oscourse24btau.Common.{
  ℕ, zero, suc, ◌+◌, ◌≤◌, ◌<◌, ◌≡◌, refl, ◌≢◌, ap, List, [], ◌∷◌, length, arith,
}

-- One use of the queue. `puts` is `enqueue` of a pointer, `takes` is `dequeue`, and `polls` is a loop
-- around `tryDequeue` that ends when an item is found.
pub data Op : Type 0 where
  puts : ℕ → Op
  takes polls : Op

-- How often the rest of a thread puts in and takes out an item.
abbrev pub puts_in : List Op → ℕ
puts_in [] = 0
puts_in (puts x ∷ l) = suc (puts_in l)
puts_in (takes ∷ l) = puts_in l
puts_in (polls ∷ l) = puts_in l

abbrev pub takes_out : List Op → ℕ
takes_out [] = 0
takes_out (puts x ∷ l) = takes_out l
takes_out (takes ∷ l) = suc (takes_out l)
takes_out (polls ∷ l) = suc (takes_out l)

-- What each thread has still to do, by the number of the thread.
abbrev pub rest_of : List (List Op) → ℕ → List Op
rest_of [] t = []
rest_of (p ∷ ps) zero = p
rest_of (p ∷ ps) (suc t) = rest_of ps t

abbrev pub with_rest : List (List Op) → ℕ → List Op → List (List Op)
with_rest [] t l = []
with_rest (p ∷ ps) zero l = l ∷ ps
with_rest (p ∷ ps) (suc t) l = p ∷ with_rest ps t l

abbrev pub sum_of : (List Op → ℕ) → List (List Op) → ℕ
sum_of f [] = 0
sum_of f (p ∷ ps) = f p + sum_of f ps

pub sum_of-with_rest :
    (f : List Op → ℕ) (ps : List (List Op)) (t : ℕ) (op : Op) (l : List Op)
    → rest_of ps t ≡ op ∷ l
    → sum_of f (with_rest ps t l) + f (op ∷ l) ≡ sum_of f ps + f l
sum_of-with_rest f [] t op l e = absurd (cc)
sum_of-with_rest f (p ∷ ps) zero op l e = omega (arith, ap f e)
sum_of-with_rest f (p ∷ ps) (suc t) op l e = omega (arith, sum_of-with_rest f ps t op l e)

pub sum_of-rest :
    (f : List Op → ℕ) (ps : List (List Op)) (t : ℕ) (op : Op) (l : List Op)
    → rest_of ps t ≡ op ∷ l
    → f (op ∷ l) ≤ sum_of f ps
sum_of-rest f [] t op l e = absurd (cc)
sum_of-rest f (p ∷ ps) zero op l e = omega (arith, ap f e)
sum_of-rest f (p ∷ ps) (suc t) op l e = omega (arith, sum_of-rest f ps t op l e)

pub rest_of-with_rest_ne :
    (ps : List (List Op)) (t u : ℕ) (l : List Op)
    → u ≢ t
    → rest_of (with_rest ps t l) u ≡ rest_of ps u
rest_of-with_rest_ne [] t u l ne = refl
rest_of-with_rest_ne (p ∷ ps) zero zero l ne = absurd (ne refl)
rest_of-with_rest_ne (p ∷ ps) zero (suc u) l ne = refl
rest_of-with_rest_ne (p ∷ ps) (suc t) zero l ne = refl
rest_of-with_rest_ne (p ∷ ps) (suc t) (suc u) l ne =
    rest_of-with_rest_ne ps t u l (λ e. ne (omega (arith, e)))

pub length-with_rest :
    (ps : List (List Op)) (t : ℕ) (l : List Op) → length (with_rest ps t l) ≡ length ps
length-with_rest [] t l = refl
length-with_rest (p ∷ ps) zero l = refl
length-with_rest (p ∷ ps) (suc t) l = ap suc (length-with_rest ps t l)

pub lt-length_of_rest :
    (ps : List (List Op)) (t : ℕ) (op : Op) (l : List Op) → rest_of ps t ≡ op ∷ l → t < length ps
lt-length_of_rest [] t op l e = absurd (cc)
lt-length_of_rest (p ∷ ps) zero op l e = omega arith
lt-length_of_rest (p ∷ ps) (suc t) op l e = omega (arith, lt-length_of_rest ps t op l e)

-- From each `takes` or `polls` on, the thread takes out more than it puts in: it gives back no more
-- items than it gets, so no other thread has to wait for what it will put in later.
abbrev pub Lends : List Op → Type 0
Lends [] = Unit {0}
Lends (puts x ∷ l) = Lends l
Lends (takes ∷ l) = (puts_in l ≤ takes_out l) × Lends l
Lends (polls ∷ l) = (puts_in l ≤ takes_out l) × Lends l

abbrev pub AllLend : List (List Op) → Type 0
AllLend [] = Unit {0}
AllLend (p ∷ ps) = Lends p × AllLend ps

pub Lends-tail : (op : Op) (l : List Op) → Lends (op ∷ l) → Lends l
Lends-tail (puts x) l h = h
Lends-tail takes l h = h.1
Lends-tail polls l h = h.1

pub AllLend-with_rest :
    (ps : List (List Op)) (t : ℕ) (op : Op) (l : List Op)
    → rest_of ps t ≡ op ∷ l
    → AllLend ps
    → AllLend (with_rest ps t l)
AllLend-with_rest [] t op l e h = tt
AllLend-with_rest (p ∷ ps) zero op l e h = (Lends-tail op l (subst Lends e h.0), h.1)
AllLend-with_rest (p ∷ ps) (suc t) op l e h = (h.0, AllLend-with_rest ps t op l e h.1)

abbrev pub Finished : List (List Op) → Type 0
Finished ps = (t : ℕ) → rest_of ps t ≡ []

-- Which thread may go on.
pub data Turn (ps : List (List Op)) : Type 0 where
  putter : (t x : ℕ) (l : List Op) → rest_of ps t ≡ puts x ∷ l → Turn ps
  taker :
      (t : ℕ) (l : List Op)
      → rest_of ps t ≡ takes ∷ l
      → sum_of puts_in ps < sum_of takes_out ps
      → Turn ps
  poller :
      (t : ℕ) (l : List Op)
      → rest_of ps t ≡ polls ∷ l
      → sum_of puts_in ps < sum_of takes_out ps
      → Turn ps
  no_one : Finished ps → sum_of puts_in ps ≡ 0 → sum_of takes_out ps ≡ 0 → Turn ps

Finished-cons : (ps : List (List Op)) → Finished ps → Finished ([] ∷ ps)
Finished-cons ps h zero = refl
Finished-cons ps h (suc t) = h t

-- A thread that has finished does not count.
after_finished : {ps : List (List Op)} → Turn ps → Turn ([] ∷ ps)
after_finished (putter t x l e) = putter (suc t) x l e
after_finished (taker t l e lt) = taker (suc t) l e (omega arith)
after_finished (poller t l e lt) = poller (suc t) l e (omega arith)
after_finished {ps} (no_one f a b) = no_one (Finished-cons ps f) (omega arith) (omega arith)

-- A thread that takes out more than it puts in adds to the others' debt.
after_taker :
    {p : List Op} {ps : List (List Op)}
    → puts_in p < takes_out p
    → (sum_of puts_in (p ∷ ps) < sum_of takes_out (p ∷ ps) → Turn (p ∷ ps))
    → Turn ps
    → Turn (p ∷ ps)
after_taker lt own (putter t x l e) = putter (suc t) x l e
after_taker lt own (taker t l e lt') = own (omega arith)
after_taker lt own (poller t l e lt') = own (omega arith)
after_taker lt own (no_one f a b) = own (omega arith)

pub turn : (ps : List (List Op)) → AllLend ps → Turn ps
turn [] h = no_one (λ t. refl) refl refl
turn ([] ∷ ps) h = after_finished (turn ps h.1)
turn ((puts x ∷ l) ∷ ps) h = putter 0 x l refl
turn ((takes ∷ l) ∷ ps) h = after_taker (omega (arith, h.0.0)) (taker 0 l refl) (turn ps h.1)
turn ((polls ∷ l) ∷ ps) h = after_taker (omega (arith, h.0.0)) (poller 0 l refl) (turn ps h.1)
