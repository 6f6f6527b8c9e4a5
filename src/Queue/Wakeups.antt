-- ===== src/Queue/Wakeups.antt =====
-- hw4/queue.c: threads that sleep in `dequeue` while there are as many items.
use oscourse24btau.Common.{
  ℕ, ◌+◌, ◌≤◌, ◌≡◌, refl, sym, ◌∙◌, ap, inl, inr, true, false, Option, none, some, List, [], ◌∷◌,
  ◌++◌, In, NotIn-In, NotIn-ne, NotIn-of_absent, Distinct, remove, length-remove, In-remove_ne,
  length, length-append, arith,
}
use mathlib.Core.List.{append-nil, append_assoc}
use mathlib.Core.Path.{subst}
use native.Mathlib.Decide.{ℕ_discrete}
use oscourse24btau.Queue.Chain.{update}
use oscourse24btau.Queue.State.{State, ◌>>=◌, blocked, returned, resume, size}
use oscourse24btau.Queue.System.{System, Reach, later, wakes}
use oscourse24btau.Queue.Invariant.{Reach-Inv}
use oscourse24btau.Queue.Laws.{Oldest, items_in_order, resume_ends}

-- The threads return from `cnd_wait` in this order and run until they return from `dequeue`: the items
-- that they return. `none` is a fault or a thread that waits again.
unfoldable pub run_sleepers : List ℕ → State → Option (List ℕ × State)
run_sleepers [] s = some ([], s)
run_sleepers (t ∷ ts) s = resume t s >>= λ (turn, s'). elim turn [
  | blocked ↦ none
  | returned x ↦ run_sleepers ts s' >>= λ (xs, s''). some (x ∷ xs, s'')
]

pub length-Distinct :
    (l ts : List ℕ) → Distinct l → ((t : ℕ) → In t l → In t ts) → length l ≤ length ts
length-Distinct [] ts d sub = omega arith
length-Distinct (t ∷ l) ts d sub =
    let le =
      length-Distinct l (remove t ts) d.1
        (λ u h. In-remove_ne u t ts (sub u (inr h)) (λ e. NotIn-In t l d.0 (rw e at h))) in
    omega (arith, le, length-remove t ts (sub t (inl refl)))

-- `ts` are the threads that sleep.
pub record AreSleeping (s : System) (ts : List ℕ) : Type 0 where
  pub distinct : Distinct ts
  pub asleep : (t : ℕ) → In t ts → s.sleeping t ≡ true
  pub all : (t : ℕ) → s.sleeping t ≡ true → In t ts

module _ {ps gs : List ℕ} {s : System} (r : Reach ps gs s) {t : ℕ} {ts : List ℕ}
    (sl : AreSleeping s (t ∷ ts)) (enough : length (t ∷ ts) ≤ size s.state) where
  asleep : s.sleeping t ≡ true
  asleep = sl.asleep t (inl refl)

  -- The thread has been signalled: there is a signalled thread for each item, or no other kind.
  is_signalled : In t (Reach-Inv r).abstract.signalled
  unfolding size
  is_signalled =
      let rep = (Reach-Inv r).refines.rep in
      let th = rep.threads in
      elim (th.accounted t asleep) [
        | inr h ↦ h
        | inl h ↦ elim th.enough [
          | inl e ↦ absurd (subst (In t) e h)
          | inr le ↦
              let wk = (Reach-Inv r).abstract.signalled in
              let apart = NotIn-of_absent t wk (λ i. NotIn-In t _ (th.apart t i) h) in
              let all =
                length-Distinct (t ∷ wk) (t ∷ ts) (apart, th.distinct)
                  (λ u i. elim i [ inl e ↦ inl e | inr j ↦ sl.all u (th.woken u j) ]) in
              absurd (omega (arith, rep.items.count))
        ]
      ]

  -- It returns the oldest item when it runs.
  returns-Oldest :
      (x : ℕ) × (s' : State) × Oldest ps gs x × (resume t s.state ≡ some (returned x, s'))
  unfolding size
  returns-Oldest =
      let th = (Reach-Inv r).refines.rep.threads in
      elim (resume_ends r t asleep) [
        | inl ((m, q), e) ↦ let (n, q') = th.signalled t is_signalled in absurd (cc)
        | inr (awake, (s', ends)) ↦ elim ends [
          | inl (none_left, e) ↦ absurd (omega arith)
          | inr (x, oldest, e) ↦ (x, s', oldest, e)
        ]
      ]

  AreSleeping-left :
      {s' : State} → AreSleeping (record { state = s'; sleeping = update s.sleeping t false }) ts
  AreSleeping-left = record {
    distinct = sl.distinct.1;
    asleep = λ u h.
        let ne = NotIn-ne t u ts sl.distinct.0 h in let old = sl.asleep u (inr h) in ground arith;
    all = λ u e. elim (ℕ_discrete u t) [
      | yes same ↦ absurd (ground arith)
      | no ne ↦ elim (sl.all u (ground arith)) [ inl q ↦ absurd (ne q) | inr h ↦ h ]
    ];
  }

-- In every reachable state, when there are at least as many items as threads that sleep in `dequeue`,
-- and these run one after the other, in any order, and no other thread does, then each of them returns,
-- with the oldest items in the order in which the threads run, and the other items stay.
pub sleepers_return :
    (ts : List ℕ) {ps gs : List ℕ} {s : System} (r : Reach ps gs s)
    → AreSleeping s ts
    → length ts ≤ size s.state
    → (xs : List ℕ) × (rest : List ℕ) × (s' : State) × (run_sleepers ts s.state ≡ some (xs, s'))
      × (ps ≡ gs ++ (xs ++ rest))
      × (length xs ≡ length ts)
      × (size s' ≡ length rest)
unfolding run_sleepers
sleepers_return [] {s = s} r sl enough =
    let (rest, order, count, small) = items_in_order r in
    ([], rest, s.state, refl, order, refl, count)
sleepers_return (t ∷ ts) {ps} {gs} {s} r sl enough =
    let (x, s', oldest, ran) = returns-Oldest r sl enough in
    let r' = later r (wakes t x (sl.asleep t (inl refl)) ran) in
    let (before, order, count, small) = items_in_order r in
    let (after, order', count', small') = items_in_order r' in
    let one_less : length before ≡ length after + 1 = omega (
      arith,
      ap length order,
      ap length order',
      length-append gs before,
      length-append ps [],
      length-append (gs ++ (x ∷ [])) after,
      length-append gs (x ∷ []),
    ) in
    let (xs, rest, s'', e, o, l, c) =
      sleepers_return ts r' (AreSleeping-left r sl enough) (omega arith) in
    (
      x ∷ xs,
      rest,
      s'',
      rw (ran, e, ◌>>=◌),
      sym (append-nil ps) ∙ o ∙ append_assoc gs (x ∷ []) (xs ++ rest),
      omega arith,
      c,
    )
