-- ===== src/MessageSlot/Failed.antt =====
-- hw3/message_slot.c: what a `device_write` that fails leaves in the channels.
use oscourse24btau.Common.{
  ℕ, zero, suc, ◌+◌, ◌≡◌, refl, ap, ◌⊎◌, inl, inr, Bool, ◌&&◌, Option, none, some, List, [], ◌∷◌,
  ◌==◌, if◌then◌else◌, length, take, length-take, arith,
}
use mathlib.Core.Path.{subst}
use oscourse24btau.MessageSlot.Driver.{
  Slot, Devices, Outcome, done, Errno, enospc, Reply, failed, to_int, Kernel, device_write,
}
use oscourse24btau.MessageSlot.Place.{
  node_of, Above, Above-trans, IsSorted, AllSlots, Placed, here, at_end, before, further, nth,
}
use oscourse24btau.MessageSlot.Write.{
  nodes, IsDevices, spoils, writes, Effect, rejected, changed, device_write_lem,
}
use oscourse24btau.MessageSlot.Contract.{result, reply_of, no_slot}
use oscourse24btau.MessageSlot.Content.{
  content, message, IsKernel, content-at, content-after, id-Change, length-create_node,
}

take-take : (a n : ℕ) (l : List ℕ) → take (length (take a l)) (take n l) ≡ take n (take a l)
take-take zero zero l = refl
take-take zero (suc n) l = refl
take-take (suc a) zero [] = refl
take-take (suc a) zero (x ∷ l) = refl
take-take (suc a) (suc n) [] = refl
take-take (suc a) (suc n) (x ∷ l) = ap (λ r. x ∷ r) (take-take a n l)

node_of-Above : (c : ℕ) (l : List Slot) → Above c l → node_of l c ≡ none
unfolding node_of
node_of-Above c [] a = refl
node_of-Above c (x ∷ l) a = ground (arith, a.0, node_of-Above c l a.1)

module _ {new : Option Slot} {c : ℕ} where
  -- In a list in order, `getOrCreateNode` gives the node that `findChannelId` finds.
  nth-node_of :
      {l l' : List Slot} {i : ℕ} {made : Bool} (dflt y : Slot)
      → Placed new c l l' i made
      → IsSorted l
      → node_of l c ≡ some y
      → nth l' i dflt ≡ y
  unfolding node_of
  nth-node_of dflt y (here x l e) s f = ground (arith, f)
  nth-node_of dflt y (at_end n e) s f = absurd (cc)
  nth-node_of dflt y (before n x l e lt) s f =
      let absent = node_of-Above c (x ∷ l) (lt, Above-trans c x.channel_id l lt s.0) in absurd (cc)
  nth-node_of dflt y (further x ne not_lt p) s f = nth-node_of dflt y p s.1 (ground (arith, f))

  -- The buffer of the node has its full size.
  full :
      {l l' : List Slot} {i : ℕ} {made : Bool} (dflt : Slot)
      → ((n : Slot) → new ≡ some n → length n.msg ≡ 128)
      → Placed new c l l' i made
      → AllSlots l
      → length (nth l' i dflt).msg ≡ 128
  full dflt born (here x l e) a = a.0.buffer
  full dflt born (at_end n e) a = born n e
  full dflt born (before n x l e lt) a = born n e
  full dflt born (further x ne not_lt p) a = full dflt born p a.1

-- A message of another length that agrees with `old` as far as both go.
abbrev pub Agrees : Option (List ℕ) → List ℕ → ℕ → Type 0
Agrees none m n = Unit {0}
Agrees (some old) m n = take (length old) m ≡ take n old

Agrees-message :
    (o : Option Slot) (x : Slot) (n : ℕ)
    → ((y : Slot) → o ≡ some y → x ≡ y)
    → Agrees (message o) (take n x.msg) n
Agrees-message none x n same = tt
Agrees-message (some y) x n same =
    rw (ap (λ z. z.msg) (same y refl)) (take-take y.msg_length n y.msg)

-- The channel has a message of `n` bytes that agrees with its old one, and the others have theirs.
abbrev pub Cut : ℕ → ℕ → ℕ → Devices → Devices → Type 0
Cut minor c n d d' =
    (m : List ℕ) × (length m ≡ n)
    × Agrees (content d minor c) m n
    × ((minor' c' : ℕ)
        → content d' minor' c'
          ≡ (if (minor == minor') && (c == c') then some m else content d minor' c'))

cut :
    (k : Kernel) (p minor : ℕ) (buffer : Option (List ℕ)) (n : ℕ) (e : Errno) (d : Devices)
    → IsKernel k
    → IsDevices d
    → {o : Outcome (Reply × Devices)} → Effect k p minor buffer n d o
    → reply_of o ≡ failed e
    → (result d o ≡ d) ⊎ ((e ≡ enospc) × Cut minor (to_int p) n d (result d o))
unfolding reply_of result IsDevices
cut k p minor buffer n e d is old (rejected e') same = inl refl
cut k p minor buffer n e d is old (changed lst there sized g r (writes b q) l' i made pl) same =
    absurd (cc)
cut k p minor buffer n e d is old (changed lst there sized g r spoils l' i made pl) same =
    let list = old (minor + 1) lst there in
    let x = nth l' i no_slot in
    let size = full no_slot (λ z. length-create_node k (to_int p) z is) pl list.slots in
    inr (
      cc,
      (
        take n x.msg,
        omega (arith, length-take n x.msg, size, sized.1),
        rw (content-at d minor lst (to_int p) there) (
            Agrees-message (node_of (nodes lst) (to_int p)) x n
              (λ y f. nth-node_of no_slot y pl list.sorted f)),
        content-after k p d minor lst g there (id-Change {buffer = buffer} {n = n} spoils) no_slot
            pl,
      ),
    )

-- When `device_write` returns an error, either it has changed nothing, or the error is `ENOSPC` and
-- the channel of the file on its device holds a message of `length` bytes that agrees with its old
-- one as far as both go, and every other channel of every device holds what it held; when the lists
-- were in order and counted and `kmalloc` gives a buffer of the size asked for.
pub content-failed :
    (k : Kernel) (p minor : ℕ) (buffer : Option (List ℕ)) (n : ℕ) (e : Errno) (d d' : Devices)
    → IsKernel k
    → IsDevices d
    → device_write k p minor buffer n d ≡ done (failed e, d')
    → (d' ≡ d) ⊎ ((e ≡ enospc) × Cut minor (to_int p) n d d')
unfolding reply_of result
content-failed k p minor buffer n e d d' is old ran =
    cut k p minor buffer n e d is old
      (subst (λ o. Effect k p minor buffer n d o) ran (device_write_lem k p minor buffer n d old))
      refl
