-- ===== src/Queue/State.antt =====
-- hw4/queue.c: the queue and its operations. The mutex is held from `mtx_lock` to `mtx_unlock` or
-- `cnd_wait`, so one function here is one critical section. `none` is an access through NULL or
-- through a pointer to no live object.
use oscourse24btau.Common.{
  ℕ, ◌+◌, ◌-◌, ◌%◌, ◌^◌, Bool, true, false, Option, none, some, ◌==◌, if◌then◌else◌,
}
use oscourse24btau.Queue.Chain.{Node, Cells, update, append_node}

infixl 5 ◌>>=◌
abbrev pub ◌>>=◌ : {A B : Type 0} → Option A → (A → Option B) → Option B
m >>= f = elim m [ none ↦ none | some a ↦ f a ]

-- `Queue`, the heap that holds the items, and the `WaitingThread` of each thread that is inside
-- `dequeue`: it is a local variable there, so its address is the thread's number.
pub record State : Type 0 where
  pub items : Cells ℕ
  pub head : Option ℕ
  pub tail : Option ℕ
  pub count : ℕ
  pub visited_count : ℕ
  pub waiters : Cells Bool
  pub waiting_head : Option ℕ
  pub waiting_tail : Option ℕ
  pub waiting_count : ℕ

-- `x++` and `x--` on `size_t`
abbrev pub increment : ℕ → ℕ
increment x = (x + 1) % 2 ^ 64

abbrev pub decrement : ℕ → ℕ
decrement x = (x + (2 ^ 64 - 1)) % 2 ^ 64

unfoldable pub init_queue : State → State
init_queue s = record s {
  head = none;
  tail = none;
  count = 0;
  visited_count = 0;
  waiting_head = none;
  waiting_tail = none;
  waiting_count = 0;
}

-- The last part of `enqueue`: the first waiting thread leaves the list and is signalled.
unfoldable pub wake_first : State → Option State
wake_first s = elim s.waiting_head [
  | none ↦ some s
  | some w ↦ elim (s.waiters w) [
    | none ↦ none
    | some node ↦ some (record s {
      waiting_head = node.next;
      waiting_tail = elim node.next [ none ↦ none | some _ ↦ s.waiting_tail ];
      waiting_count = decrement s.waiting_count;
      waiters = update s.waiters w (some (record node { value = false }));
    })
  ]
]

-- `malloced` is what `malloc` returned; the code writes through it with no test for NULL.
unfoldable pub enqueue : Option ℕ → ℕ → State → Option State
enqueue none item s = none
enqueue (some new) item s = do
  (items, head, tail) ← append_node s.items s.head s.tail new item
  wake_first (record s { items = items; head = head; tail = tail; count = increment s.count })

-- The first item leaves the queue; its data is returned and its node is freed.
unfoldable pub take : State → Option (ℕ × State)
take s = elim s.head [
  | none ↦ none
  | some a ↦ elim (s.items a) [
    | none ↦ none
    | some item ↦ some (
      item.value,
      record s {
        items = update s.items a none;
        head = item.next;
        tail = elim item.next [ none ↦ none | some _ ↦ s.tail ];
        count = decrement s.count;
        visited_count = increment s.visited_count;
      },
    )
  ]
]

-- A thread's variable `myWaitingThread` is put at the end of the waiting threads.
unfoldable pub register : ℕ → State → Option State
register t s = do
  (waiters, head, tail) ← append_node s.waiters s.waiting_head s.waiting_tail t true
  some (record s {
    waiters = waiters;
    waiting_head = head;
    waiting_tail = tail;
    waiting_count = increment s.waiting_count;
  })

-- How a critical section of `dequeue` ends: in `cnd_wait`, or by a return.
pub data Turn : Type 0 where
  blocked : Turn
  returned : ℕ → Turn

-- From the test of the outer `while` to `cnd_wait` or to the return.
unfoldable pub dequeue_round : ℕ → State → Option (Turn × State)
dequeue_round t s =
    if s.count == 0
    then (register t s >>= λ s'. some (blocked, s'))
    else take s >>= λ (data_of_item, s'). some (returned data_of_item, s')

unfoldable pub dequeue : ℕ → State → Option (Turn × State)
dequeue t s = dequeue_round t s

-- What follows the inner `while`; then the variable's life ends.
unfoldable pub clean_up : ℕ → Node Bool → State → State
clean_up t mine s = record s {
  waiting_head = elim s.waiting_head [
    | none ↦ none
    | some w ↦ if w == t then mine.next else some w
  ];
  waiting_tail = elim s.waiting_tail [ none ↦ none | some w ↦ if w == t then none else some w ];
  waiters = update s.waiters t none;
}

-- `cnd_wait` returns, signalled or not.
unfoldable pub resume : ℕ → State → Option (Turn × State)
resume t s = do
  mine ← s.waiters t
  let go_on = dequeue_round t (clean_up t mine s)
  if mine.value then some (blocked, s) else go_on

-- `none` inside is `false`: nothing is written through `item`.
unfoldable pub try_dequeue : State → Option (Option ℕ × State)
try_dequeue s =
    if s.count == 0
    then some (none, s)
    else take s >>= λ (data_of_item, s'). some (some data_of_item, s')

unfoldable pub size : State → ℕ
size s = s.count

unfoldable pub visited : State → ℕ
visited s = s.visited_count

unfoldable pub waiting : State → ℕ
waiting s = s.waiting_count
