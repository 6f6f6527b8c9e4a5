-- ===== src/Queue/Waiters.antt =====
-- hw4/queue.c: when the pointers hold a list of waiting threads, and what each critical section does
-- to it.
use oscourse24btau.Common.{
  ℕ, ◌%◌, ◌^◌, ◌≡◌, ◌≢◌, refl, sym, ◌∙◌, ap, inl, inr, Bool, true, false, Option, none, some, List,
  [], ◌∷◌, ◌++◌, ◌==◌, ==_ne, if◌then◌else◌, In, NotIn, NotIn-In, Distinct, Distinct-snoc, length,
  length-append, arith,
}
use oscourse24btau.Queue.Chain.{
  Node, update, addresses, first, last, Chain, Chain-update, append_node_lem,
}
use oscourse24btau.Queue.State.{◌>>=◌, State, increment, decrement, wake_first, register, clean_up}
use oscourse24btau.Queue.Rep.{last-tail, SameItems}

-- The waiting threads as nodes: `isWaiting` is true in each.
abbrev pub nodes : List ℕ → List (ℕ × Bool)
nodes [] = []
nodes (t ∷ ws) = (t, true) ∷ nodes ws

pub addresses-nodes : (ws : List ℕ) → addresses (nodes ws) ≡ ws
addresses-nodes [] = refl
addresses-nodes (t ∷ ws) = ap (λ l. t ∷ l) (addresses-nodes ws)

pub nodes-snoc : (ws : List ℕ) (t : ℕ) → nodes (ws ++ (t ∷ [])) ≡ nodes ws ++ ((t, true) ∷ [])
nodes-snoc [] t = refl
nodes-snoc (w ∷ ws) t = ap (λ l. (w, true) ∷ l) (nodes-snoc ws t)

-- The waiting threads from head to tail.
pub record HasWaiters (s : State) (ws : List ℕ) : Type 0 where
  pub chain : Chain s.waiters (nodes ws)
  pub distinct : Distinct ws
  pub head : s.waiting_head ≡ first (nodes ws)
  pub tail : s.waiting_tail ≡ last (nodes ws)
  pub count : s.waiting_count ≡ length ws % 2 ^ 64

-- The same waiting threads in the same order.
pub HasWaiters-same :
    {s s' : State} {ws : List ℕ}
    → s'.waiters ≡ s.waiters
    → s'.waiting_head ≡ s.waiting_head
    → s'.waiting_tail ≡ s.waiting_tail
    → s'.waiting_count ≡ s.waiting_count
    → HasWaiters s ws
    → HasWaiters s' ws
HasWaiters-same e h t c wt = record {
  chain = rw e wt.chain;
  distinct = wt.distinct;
  head = h ∙ wt.head;
  tail = t ∙ wt.tail;
  count = c ∙ wt.count;
}

-- `register` puts the thread at the end of the waiting threads.
pub register_lem :
    {s : State} {ws : List ℕ} (t : ℕ)
    → HasWaiters s ws
    → NotIn t ws
    → (s' : State) × (register t s ≡ some s')
      × HasWaiters s' (ws ++ (t ∷ []))
      × ((b : ℕ) → NotIn b ws → b ≢ t → s'.waiters b ≡ s.waiters b)
      × SameItems s s'
unfolding register
register_lem {s} {ws} t wt fresh =
    let (h, e, chain, others) =
      append_node_lem s.waiters (nodes ws) t true (rw addresses-nodes wt.distinct)
        (rw addresses-nodes fresh) wt.chain in
    (
      record s {
        waiters = h;
        waiting_head = first (nodes ws ++ ((t, true) ∷ []));
        waiting_tail = last (nodes ws ++ ((t, true) ∷ []));
        waiting_count = increment s.waiting_count;
      },
      rw (wt.head, wt.tail, e, ◌>>=◌),
      record {
        chain = rw nodes-snoc chain;
        distinct = Distinct-snoc t ws wt.distinct fresh;
        head = rw nodes-snoc;
        tail = rw nodes-snoc;
        count = omega (arith, wt.count, length-append ws (t ∷ []));
      },
      λ b n ne. others b (rw addresses-nodes n) ne,
      record { items = refl; head = refl; tail = refl; count = refl; visited = refl },
    )

-- The state after the first waiting thread is signalled.
abbrev pub woken : State → ℕ → List ℕ → State
woken s w ws = record s {
  waiting_head = first (nodes ws);
  waiting_tail = elim (first (nodes ws)) [ none ↦ none | some _ ↦ s.waiting_tail ];
  waiting_count = decrement s.waiting_count;
  waiters = update s.waiters w (some (record { value = false; next = first (nodes ws) }));
}

pub wake_first-cons :
    {s : State} {w : ℕ} {ws : List ℕ} → HasWaiters s (w ∷ ws) → wake_first s ≡ some (woken s w ws)
unfolding wake_first
wake_first-cons wt = rw (wt.head, wt.chain.0)

pub wake_first-nil : {s : State} → HasWaiters s [] → wake_first s ≡ some s
unfolding wake_first
wake_first-nil wt = rw wt.head

pub woken-HasWaiters :
    {s : State} (w : ℕ) (ws : List ℕ) → HasWaiters s (w ∷ ws) → HasWaiters (woken s w ws) ws
woken-HasWaiters {s} w ws wt = record {
  chain = Chain-update s.waiters (nodes ws) w _ (rw addresses-nodes wt.distinct.0) wt.chain.1;
  distinct = wt.distinct.1;
  head = refl;
  tail = last-tail (w, true) (nodes ws) s.waiting_tail wt.tail;
  count = omega (arith, wt.count);
}

last-In : (ws : List ℕ) (b : ℕ) → last (nodes ws) ≡ some b → In b ws
last-In [] b e = cc
last-In (w ∷ []) b e = inl (cc)
last-In (w ∷ v ∷ ws) b e = inr (last-In (v ∷ ws) b e)

first-In : (ws : List ℕ) (b : ℕ) → first (nodes ws) ≡ some b → In b ws
first-In [] b e = cc
first-In (w ∷ ws) b e = inl (cc)

unless_own :
    (o r : Option ℕ) (t : ℕ)
    → (o ≡ some t → ⊥)
    → (elim o [ none ↦ none | some w ↦ if w == t then r else some w ]) ≡ o
unless_own none r t ne = refl
unless_own (some w) r t ne = rw (==_ne w t (λ e. ne (ap some e)))

-- The lines after the wait change no pointer: the thread has left the list when it was signalled.
pub clean_up_lem :
    {s : State} {ws : List ℕ} (t : ℕ) (mine : Node Bool)
    → HasWaiters s ws
    → NotIn t ws
    → clean_up t mine s ≡ record s { waiters = update s.waiters t none }
unfolding clean_up
clean_up_lem {s} {ws} t mine wt out =
    let not_head =
      λ (e : s.waiting_head ≡ some t). NotIn-In t ws out (first-In ws t (sym wt.head ∙ e)) in
    let not_tail =
      λ (e : s.waiting_tail ≡ some t). NotIn-In t ws out (last-In ws t (sym wt.tail ∙ e)) in
    λ i. record s {
      waiting_head = unless_own s.waiting_head mine.next t not_head i;
      waiting_tail = unless_own s.waiting_tail none t not_tail i;
      waiters = update s.waiters t none;
    }

pub left-HasWaiters :
    {s : State} {ws : List ℕ} (t : ℕ)
    → HasWaiters s ws
    → NotIn t ws
    → HasWaiters (record s { waiters = update s.waiters t none }) ws
left-HasWaiters {s} {ws} t wt out = record {
  chain = Chain-update s.waiters (nodes ws) t none (rw addresses-nodes out) wt.chain;
  distinct = wt.distinct;
  head = wt.head;
  tail = wt.tail;
  count = wt.count;
}
