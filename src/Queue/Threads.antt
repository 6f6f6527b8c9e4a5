-- ===== src/Queue/Threads.antt =====
-- hw4/queue.c: the threads inside `dequeue`. A sleeping thread is in the list of waiting threads, or
-- it has been signalled and has not yet run; no item is left without a signalled thread while a
-- thread waits.
use oscourse24btau.Common.{
  ℕ, ◌+◌, ◌-◌, ◌≤◌, ◌≡◌, ◌≢◌, refl, sym, ◌∙◌, ◌⊎◌, inl, inr, Bool, true, false, Option, none, some,
  List, [], ◌∷◌, ◌++◌, In, NotIn, NotIn-ne, NotIn-In, In-snoc, In-snoc_self, In-append_left,
  In-remove, In-remove_ne, NotIn-snoc, NotIn-of_absent, Distinct, Distinct-remove,
  NotIn-remove_self, remove, length-remove, length, arith,
}
use mathlib.Core.Path.{fun_ext, subst}
use native.Mathlib.Decide.{ℕ_discrete}
use oscourse24btau.Queue.Chain.{Cells, update}

-- `isWaiting` of the thread has been set to false.
abbrev pub IsSignalled : Cells Bool → ℕ → Type 0
IsSignalled w t = (n : Option ℕ) × (w t ≡ some (record { value = false; next = n }))

pub record Threads (w : Cells Bool) (sleeping : ℕ → Bool) (ws wk : List ℕ) (items : ℕ)
    : Type 0 where
  pub waiting : (t : ℕ) → In t ws → sleeping t ≡ true
  pub woken : (t : ℕ) → In t wk → sleeping t ≡ true
  pub signalled : (t : ℕ) → In t wk → IsSignalled w t
  pub accounted : (t : ℕ) → sleeping t ≡ true → In t ws ⊎ In t wk
  pub apart : (t : ℕ) → In t wk → NotIn t ws
  pub distinct : Distinct wk
  pub enough : (ws ≡ []) ⊎ (items ≤ length wk)

module _ {w : Cells Bool} {sl : ℕ → Bool} {ws wk : List ℕ} {n : ℕ} (th : Threads w sl ws wk n) where
  -- An item comes while no thread waits.
  pub Threads-put : ws ≡ [] → Threads w sl ws wk (n + 1)
  Threads-put e = record {
    waiting = th.waiting;
    woken = th.woken;
    signalled = th.signalled;
    accounted = th.accounted;
    apart = th.apart;
    distinct = th.distinct;
    enough = inl e;
  }

  -- A thread that does not sleep takes an item.
  pub Threads-take : (k : ℕ) → k ≤ n → Threads w sl ws wk k
  Threads-take k h = record {
    waiting = th.waiting;
    woken = th.woken;
    signalled = th.signalled;
    accounted = th.accounted;
    apart = th.apart;
    distinct = th.distinct;
    enough = elim th.enough [ inl e ↦ inl e | inr q ↦ inr (omega arith) ];
  }

  -- A thread that does not sleep begins to wait, while there is no item.
  pub Threads-register :
      (t : ℕ) {w' : Cells Bool}
      → sl t ≡ false
      → n ≡ 0
      → ((b : ℕ) → NotIn b ws → b ≢ t → w' b ≡ w b)
      → Threads w' (update sl t true) (ws ++ (t ∷ [])) wk 0
  Threads-register t idle e same = record {
    waiting = λ u h. elim (In-snoc u t ws h) [
      | inl i ↦ ground (arith, th.waiting u i)
      | inr e ↦ ground arith
    ];
    woken = λ u h. ground (arith, th.woken u h);
    signalled = λ u h.
        let (m, q) = th.signalled u h in
        let awake = th.woken u h in
        let ne : u ≢ t = λ (z : u ≡ t). cc in (m, same u (th.apart u h) ne ∙ q);
    accounted = λ u h. elim (ℕ_discrete u t) [
      | yes e ↦ inl (rw e (In-snoc_self t ws))
      | no ne ↦ elim (th.accounted u (ground arith)) [
        | inl i ↦ inl (In-append_left u ws (t ∷ []) i)
        | inr i ↦ inr i
      ]
    ];
    apart = λ u h.
        let awake = th.woken u h in
        let ne : u ≢ t = λ (z : u ≡ t). cc in NotIn-snoc u t ws (th.apart u h) ne;
    distinct = th.distinct;
    enough = inr (omega arith);
  }

  -- A signalled thread runs.
  pub Threads-leave :
      (t : ℕ) → In t wk → Threads (update w t none) (update sl t false) ws (remove t wk) (n - 1)
  Threads-leave t h = record {
    waiting = λ u i.
        let ne : u ≢ t = λ (z : u ≡ t). NotIn-In t ws (th.apart t h) (rw (← z) i) in
        ground (arith, th.waiting u i);
    woken = λ u i.
        let ne : u ≢ t = λ (z : u ≡ t).
          NotIn-ne t u (remove t wk) (NotIn-remove_self t wk th.distinct) i (sym z) in
        ground (arith, th.woken u (In-remove u t wk i));
    signalled = λ u i.
        let ne : u ≢ t = λ (z : u ≡ t).
          NotIn-ne t u (remove t wk) (NotIn-remove_self t wk th.distinct) i (sym z) in
        let (m, q) = th.signalled u (In-remove u t wk i) in (m, ground arith);
    accounted = λ u q.
        let ne : u ≢ t = λ (z : u ≡ t). ground arith in
        elim (th.accounted u (ground arith)) [
          | inl i ↦ inl i
          | inr i ↦ inr (In-remove_ne u t wk i ne)
        ];
    apart = λ u i. th.apart u (In-remove u t wk i);
    distinct = Distinct-remove t wk th.distinct;
    enough = elim th.enough [ inl e ↦ inl e | inr q ↦ inr (omega (arith, length-remove t wk h)) ];
  }

-- An item comes, and the first waiting thread is signalled.
pub Threads-wake :
    {w : Cells Bool} {sl : ℕ → Bool} (t : ℕ) {ws wk : List ℕ} {n : ℕ} (next : Option ℕ)
    → Distinct (t ∷ ws)
    → Threads w sl (t ∷ ws) wk n
    → Threads (update w t (some (record { value = false; next = next }))) sl ws (t ∷ wk) (n + 1)
Threads-wake t {ws} {wk} next d th = record {
  waiting = λ u i. th.waiting u (inr i);
  woken = λ u i. elim i [ inl e ↦ th.waiting u (inl e) | inr j ↦ th.woken u j ];
  signalled = λ u i. elim (ℕ_discrete u t) [
    | yes e ↦ (next, ground arith)
    | no ne ↦ elim i [
      | inl e ↦ absurd (ne e)
      | inr j ↦ let (m, q) = th.signalled u j in (m, ground arith)
    ]
  ];
  accounted = λ u q. elim (th.accounted u q) [
    | inl (inl e) ↦ inr (inl e)
    | inl (inr i) ↦ inl i
    | inr i ↦ inr (inr i)
  ];
  apart = λ u i. elim i [ inl e ↦ rw e d.0 | inr j ↦ (th.apart u j).1 ];
  distinct = (NotIn-of_absent t wk (λ j. (th.apart t j).0 refl), th.distinct);
  enough = elim th.enough [ inl e ↦ absurd (cc) | inr q ↦ inr (omega arith) ];
}

pub Threads-sleeping :
    {w : Cells Bool} {sl sl' : ℕ → Bool} {ws wk : List ℕ} {n : ℕ}
    → ((t : ℕ) → sl t ≡ sl' t)
    → Threads w sl ws wk n
    → Threads w sl' ws wk n
Threads-sleeping {w} {ws = ws} {wk} {n} e th = subst (λ s. Threads w s ws wk n) (fun_ext e) th
