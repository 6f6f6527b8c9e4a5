-- ===== src/Queue/Rep.antt =====
-- hw4/queue.c: when the pointers hold a list of items, and what each critical section does to it.
use oscourse24btau.Common.{
  ℕ, ◌+◌, ◌^◌, ◌<◌, ◌≡◌, refl, ◌∙◌, ap, Option, none, some, List, [], ◌∷◌, ◌++◌, NotIn,
  NotIn-of_snoc, Distinct, Distinct-snoc, length, length-append, arith,
}
use native.Mathlib.Decide.{ℕ_discrete}
use oscourse24btau.Queue.Chain.{
  Cells, update, addresses, values, first, last, Chain, Chain-update, append_node, append_node_lem,
}
use oscourse24btau.Queue.State.{State, increment, decrement, take}

pub addresses-snoc :
    (l : List (ℕ × ℕ)) (a x : ℕ) → addresses (l ++ ((a, x) ∷ [])) ≡ addresses l ++ (a ∷ [])
addresses-snoc [] a x = refl
addresses-snoc ((b, y) ∷ l) a x = ap (λ r. b ∷ r) (addresses-snoc l a x)

pub values-snoc : (l : List (ℕ × ℕ)) (a x : ℕ) → values (l ++ ((a, x) ∷ [])) ≡ values l ++ (x ∷ [])
values-snoc [] a x = refl
values-snoc ((b, y) ∷ l) a x = ap (λ r. y ∷ r) (values-snoc l a x)

-- The items from head to tail.
pub record HasItems (s : State) (xs : List (ℕ × ℕ)) : Type 0 where
  pub chain : Chain s.items xs
  pub distinct : Distinct (addresses xs)
  pub head : s.head ≡ first xs
  pub tail : s.tail ≡ last xs
  pub count : s.count ≡ length xs
  pub small : length xs < 2 ^ 64
  pub only : (b : ℕ) → NotIn b (addresses xs) → s.items b ≡ none

-- The tail pointer after the first node is gone.
pub last-tail :
    {A : Type 0} (p : ℕ × A) (l : List (ℕ × A)) (tail : Option ℕ)
    → tail ≡ last (p ∷ l)
    → (elim (first l) [ none ↦ none | some _ ↦ tail ]) ≡ last l
last-tail (a, x) [] tail e = refl
last-tail (a, x) ((b, y) ∷ l) tail e = e

-- The state after `take` of the item at `a`.
abbrev pub taken : State → ℕ → List (ℕ × ℕ) → State
taken s a xs = record s {
  items = update s.items a none;
  head = first xs;
  tail = elim (first xs) [ none ↦ none | some _ ↦ s.tail ];
  count = decrement s.count;
  visited_count = increment s.visited_count;
}

-- `take` removes the first item and frees its node; the waiting threads are not touched.
pub take_lem :
    {s : State} (a x : ℕ) (xs : List (ℕ × ℕ))
    → HasItems s ((a, x) ∷ xs)
    → take s ≡ some (x, taken s a xs)
unfolding take
take_lem a x xs it = rw (it.head, it.chain.0)

pub taken-HasItems :
    {s : State} (a x : ℕ) (xs : List (ℕ × ℕ))
    → HasItems s ((a, x) ∷ xs)
    → HasItems (taken s a xs) xs
taken-HasItems {s} a x xs it = record {
  chain = Chain-update s.items xs a none it.distinct.0 it.chain.1;
  distinct = it.distinct.1;
  head = refl;
  tail = last-tail (a, x) xs s.tail it.tail;
  count = omega (arith, it.count, it.small);
  small = omega (arith, it.small);
  only = λ b n. elim (ℕ_discrete b a) [
    | yes e ↦ ground arith
    | no ne ↦ let free = it.only b (ne, n) in ground arith
  ];
}

-- The part of the state that the waiting threads are not in.
pub record SameItems (s s' : State) : Type 0 where
  pub items : s'.items ≡ s.items
  pub head : s'.head ≡ s.head
  pub tail : s'.tail ≡ s.tail
  pub count : s'.count ≡ s.count
  pub visited : s'.visited_count ≡ s.visited_count

pub HasItems-SameItems :
    {s s' : State} {xs : List (ℕ × ℕ)} → SameItems s s' → HasItems s xs → HasItems s' xs
HasItems-SameItems same it = record {
  chain = rw same.items it.chain;
  distinct = it.distinct;
  head = same.head ∙ it.head;
  tail = same.tail ∙ it.tail;
  count = same.count ∙ it.count;
  small = it.small;
  only = rw same.items it.only;
}

-- The state of `enqueue` before it wakes a thread.
abbrev pub appended : State → Cells ℕ → ℕ → ℕ → List (ℕ × ℕ) → State
appended s h a x xs = record s {
  items = h;
  head = first (xs ++ ((a, x) ∷ []));
  tail = last (xs ++ ((a, x) ∷ []));
  count = increment s.count;
}

pub append-HasItems :
    {s : State} {xs : List (ℕ × ℕ)} (a x : ℕ)
    → HasItems s xs
    → NotIn a (addresses xs)
    → length xs + 1 < 2 ^ 64
    → (h : Cells ℕ) × (append_node s.items s.head s.tail a x
        ≡ some (h, first (xs ++ ((a, x) ∷ [])), last (xs ++ ((a, x) ∷ []))))
      × HasItems (appended s h a x xs) (xs ++ ((a, x) ∷ []))
append-HasItems {s} {xs} a x it fresh small =
    let (h, e, chain, others) = append_node_lem s.items xs a x it.distinct fresh it.chain in
    (
      h,
      rw (it.head, it.tail) e,
      record {
        chain = chain;
        distinct = rw addresses-snoc (Distinct-snoc a (addresses xs) it.distinct fresh);
        head = refl;
        tail = refl;
        count = omega (arith, it.count, length-append xs ((a, x) ∷ []));
        small = omega (arith, length-append xs ((a, x) ∷ []));
        only = λ b n.
            let (out, ne) = NotIn-of_snoc b a (addresses xs) (rw addresses-snoc at n) in
            others b out ne ∙ it.only b out;
      },
    )
