-- ===== src/MessageSlot/Reading.antt =====
-- hw3/message_slot.c: `device_read`, and what it gives after a `device_write`.
use oscourse24btau.Common.{
  ℕ, ◌+◌, ◌≤◌, ◌≡◌, ◌≢◌, refl, sym, ◌∙◌, ap, inl, inr, Bool, true, false, ◌&&◌, ◌||◌, not, Option,
  none, some, List, [], ◌∷◌, ltb, ◌==◌, ==_refl, if◌then◌else◌, Bool-cases, Option-cases, length,
  take, length-take, arith,
}
use mathlib.Core.Path.{subst}
use oscourse24btau.MessageSlot.Driver.{
  Slot, SlotList, Devices, Outcome, done, undefined, enospc, ewouldblock, ok, to_int, got, refused,
  Kernel, device_read, device_write, find, find_channel_id, Delivery, einval,
}
use oscourse24btau.MessageSlot.Place.{node_of, IsSlot, AllSlots}
use oscourse24btau.MessageSlot.Write.{nodes, IsDevices}
use oscourse24btau.MessageSlot.Content.{content, IsKernel, Holds}
use oscourse24btau.MessageSlot.Contract.{content-write, IsDevices-write}

-- The search of the driver comes to the node of the channel.
find-node_of : (l : List Slot) (c : ℕ) → find l c ≡ node_of l c
unfolding find node_of
find-node_of [] c = refl
find-node_of (x ∷ l) c = ap (λ r. if x.channel_id == c then some x else r) (find-node_of l c)

find_channel_id_lem :
    (lst : SlotList) (l : List Slot) (c : ℕ)
    → lst.first ≡ some l
    → find_channel_id lst c ≡ done (node_of (nodes lst) c)
unfolding find_channel_id
find_channel_id_lem lst l c e =
    ap
      (λ (o : Option (List Slot)). elim o as (λ _. Outcome (Option Slot)) [
        | none ↦ undefined
        | some l ↦ done (find l c)
      ])
      e
    ∙ ap
        (λ (o : Option (List Slot)).
          done (find (elim o as (λ _. List Slot) [ none ↦ [] | some l ↦ l ]) c))
        (sym e)
    ∙ ap done (find-node_of (nodes lst) c)

IsSlot-node_of : (l : List Slot) (c : ℕ) (x : Slot) → AllSlots l → node_of l c ≡ some x → IsSlot x
unfolding node_of
IsSlot-node_of [] c x a e = absurd (ground (arith, e))
IsSlot-node_of (y ∷ l) c x a e = elim (Bool-cases (y.channel_id == c)) [
  | inl q ↦ subst IsSlot (ground (arith, e, q)) a.0
  | inr q ↦ IsSlot-node_of l c x a.1 (ground (arith, e, q))
]

assigned :
    (lst : SlotList) (c : ℕ) (x : Slot)
    → node_of (nodes lst) c ≡ some x
    → (l : List Slot) × (lst.first ≡ some l)
unfolding node_of
assigned lst c x e = elim (Option-cases lst.first) [
  | inl q ↦ absurd (ground (arith, e, q))
  | inr lq ↦ lq
]

-- The node behind a channel that holds a message.
pub found :
    (d : Devices) (minor c : ℕ) (m : List ℕ)
    → content d minor c ≡ some m
    → (lst : SlotList) × (x : Slot) × (d (minor + 1) ≡ some lst)
      × (node_of (nodes lst) c ≡ some x)
      × (take x.msg_length x.msg ≡ m)
unfolding content
found d minor c m e = elim (Option-cases (d (minor + 1))) [
  | inl q ↦ absurd (ground (arith, e, q))
  | inr (lst, q) ↦ elim (Option-cases (node_of (nodes lst) c)) [
    | inl f ↦ absurd (ground (arith, e, q, f))
    | inr (x, f) ↦ (lst, x, q, f, ground (arith, e, q, f))
  ]
]

-- The tests of `device_read`, one after the other and at once.
checks :
    (small has_buffer tmp_block copies : Bool) {bytes m : List ℕ}
    → bytes ≡ m
    → (if small || not has_buffer
        then done (refused enospc)
        else if not tmp_block
        then done (refused enospc)
        else if not copies
        then done (refused enospc)
        else done (got bytes))
      ≡ done (if has_buffer && tmp_block && copies && not small then got m else refused enospc)
checks true true true true e = refl
checks true true true false e = refl
checks true true false copies e = refl
checks true false tmp_block copies e = refl
checks false false tmp_block copies e = refl
checks false true false copies e = refl
checks false true true false e = refl
checks false true true true e = ap (λ m. done (got m)) e

-- What a read gives of a channel that holds `m`.
pub read-content :
    (tmp_block copies has_buffer : Bool) (p minor n : ℕ) (d : Devices) (m : List ℕ)
    → IsDevices d
    → p ≢ 0
    → content d minor (to_int p) ≡ some m
    → device_read tmp_block copies p minor has_buffer n d
      ≡ done (
          if has_buffer && tmp_block && copies && not (ltb n (length m))
          then got m
          else refused enospc)
unfolding device_read IsDevices
read-content tmp_block copies has_buffer p minor n d m old p0 e =
    let (lst, x, there, f, bytes) = found d minor (to_int p) m e in
    let (l, q) = assigned lst (to_int p) x f in
    let is = IsSlot-node_of (nodes lst) (to_int p) x (old (minor + 1) lst there).slots f in
    let len : length m ≡ x.msg_length =
      rw⁻¹ bytes (omega (arith, length-take x.msg_length x.msg, is.buffer, is.fits)) in
    let zero : (p == 0) ≡ false = ground (arith, p0) in
    let node : find_channel_id lst (to_int p) ≡ done (some x) =
      find_channel_id_lem lst l (to_int p) q ∙ ap done f in
    rw (zero, there, node, len) (checks (ltb n x.msg_length) has_buffer tmp_block copies bytes)

-- After a `device_write` on lists in order and counted that returns a number, when `kmalloc` gives a
-- buffer of the size asked for and the memory of the process holds the bytes announced, a read
-- from any file of the same device whose channel
-- is equal to the written one as an `int` delivers exactly the bytes written, when `length` is
-- enough for them, the buffer is not NULL, and the allocation and the copy succeed.
pub read-write :
    (k : Kernel) (p minor : ℕ) (bytes : List ℕ) (n m : ℕ) (d d' : Devices) (p' size : ℕ)
    → IsKernel k
    → n ≤ length bytes
    → IsDevices d
    → device_write k p minor (some bytes) n d ≡ done (ok m, d')
    → p' ≢ 0
    → to_int p' ≡ to_int p
    → n ≤ size
    → device_read true true p' minor true size d' ≡ done (got (take n bytes))
unfolding Holds
read-write k p minor bytes n m d d' p' size is le old e p0 same enough =
    let holds : Holds (some bytes) n =
      λ b q. let same : bytes ≡ b = ground (arith, q) in subst (λ z. n ≤ length z) same le in
    let stored : content d' minor (to_int p') ≡ some (take n bytes) =
      (content-write k p minor bytes n m d d' le old e).1 minor (to_int p')
      ∙ rw (==_refl minor, same, ==_refl (to_int p)) refl in
    read-content true true true p' minor size d' (take n bytes)
      (IsDevices-write k p minor (some bytes) n (ok m) d d' is holds old e) p0 stored
    ∙ ground (arith, length-take n bytes, enough, le)

-- What it gives of a channel without a message.
pub read-no_message :
    (tmp_block copies has_buffer : Bool) (p minor n : ℕ) (d : Devices) (lst : SlotList)
    (l : List Slot)
    → p ≢ 0
    → d (minor + 1) ≡ some lst
    → lst.first ≡ some l
    → content d minor (to_int p) ≡ none
    → device_read tmp_block copies p minor has_buffer n d ≡ done (refused ewouldblock)
unfolding device_read content
read-no_message tmp_block copies has_buffer p minor n d lst l p0 there q e =
    let zero : (p == 0) ≡ false = ground (arith, p0) in
    let none_there : node_of (nodes lst) (to_int p) ≡ none = ground (arith, there, e) in
    rw (zero, there, find_channel_id_lem lst l (to_int p) q, none_there) refl

-- The reply to a read by hw3/msgslot.pdf: whether the channel of the file is not set, the message of
-- the channel, whether the buffer is there and the allocation and the copy succeed, and `length`.
abbrev pub reply_to : Bool → Option (List ℕ) → Bool → ℕ → Delivery
reply_to true m able n = refused einval
reply_to false none able n = refused ewouldblock
reply_to false (some m) able n = if able && not (ltb n (length m)) then got m else refused enospc
