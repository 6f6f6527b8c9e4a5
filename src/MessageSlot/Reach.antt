-- ===== src/MessageSlot/Reach.antt =====
-- hw3/message_slot.c: the states of `devices` that calls of the driver reach from the start.
use oscourse24btau.Common.{
  ℕ, ◌+◌, ◌<◌, ◌≡◌, ◌≢◌, refl, inl, inr, Bool, true, false, ◌||◌, Option, none, some, List, ltb,
  ◌==◌, Bool-cases, Option-cases, arith,
}
use oscourse24btau.MessageSlot.Driver.{
  Slot, SlotList, Devices, Outcome, done, Reply, ok, to_int, buf_len, Kernel, at_node, set_msg,
  create_node, store_message, put, device_open, device_write,
}
use oscourse24btau.MessageSlot.Write.{IsDevices, Prepared, no_node, node_at, get_or_create_node_lem}
use oscourse24btau.MessageSlot.Content.{list_after, IsKernel, Holds, IsDevices-put}
use oscourse24btau.MessageSlot.Contract.{IsDevices-write}

-- The calls that change `devices`, in any order and from any processes.
pub data Reachable : Devices → Type 0 where
  start : Reachable (λ j. none)
  opened :
      {d : Devices} (allocates : Bool) (minor : ℕ)
      → Reachable d
      → Reachable (device_open allocates minor d).1
  written :
      {d d' : Devices} (k : Kernel) (p minor : ℕ) (buffer : Option (List ℕ)) (n : ℕ) (reply : Reply)
      → IsKernel k
      → Holds buffer n
      → device_write k p minor buffer n d ≡ done (reply, d')
      → Reachable d
      → Reachable d'

IsDevices-open :
    (allocates : Bool) (minor : ℕ) (d : Devices)
    → IsDevices d
    → IsDevices (device_open allocates minor d).1
unfolding device_open
IsDevices-open allocates minor d old = elim (Option-cases (d (minor + 1))) [
  | inr (lst, e) ↦ rw (device_open, e) old
  | inl e ↦ elim (Bool-cases allocates) [
    | inl a ↦
        rw (device_open, e, a)
          (IsDevices-put d minor _ (record { sorted = tt; slots = tt; count = refl }) old)
    | inr a ↦ rw (device_open, e, a) old
  ]
]

-- In every state that opens and writes reach, each device's list is in the order of its channels as
-- `int`s, counts its nodes, and has a buffer of 128 bytes and a message of at most 128 in each.
pub IsDevices-Reachable : (d : Devices) → Reachable d → IsDevices d
unfolding IsDevices
IsDevices-Reachable d start = λ j lst e. absurd (ground (arith, e))
IsDevices-Reachable d (opened {d = d0} allocates minor r) =
    IsDevices-open allocates minor d0 (IsDevices-Reachable d0 r)
IsDevices-Reachable d (written {d = d0} k p minor buffer n reply is holds e r) =
    IsDevices-write k p minor buffer n reply d0 d is holds (IsDevices-Reachable d0 r) e

accepted :
    (k : Kernel) (minor : ℕ) (bytes : List ℕ) (n : ℕ) (d : Devices) (lst : SlotList) (c : ℕ)
    (x : Slot)
    → k.tmp_block ≡ true
    → k.copies ≡ true
    → create_node k c ≡ some x
    → {r : Outcome (Option (SlotList × ℕ))} → Prepared k lst c r
    → (d' : Devices) × (store_message k minor bytes n d r ≡ done (ok n, d'))
unfolding store_message
accepted k minor bytes n d lst c x t u made (no_node q) = absurd (ground (arith, made, q))
accepted k minor bytes n d lst c x t u made (node_at l' i fresh q) = (
  put d minor (
      at_node (at_node (list_after lst l' fresh) i (λ node. record node { msg_length = n })) i
        (λ node. set_msg node bytes n)),
  simp (t, u) refl,
)

-- In every state that is reached, a write of 1 to 128 bytes to a channel of a device that has been
-- opened is accepted when every allocation and the copy succeed: it returns their number.
pub write_accepted :
    (k : Kernel) (p minor : ℕ) (bytes : List ℕ) (n : ℕ) (d : Devices) (lst : SlotList) (x : Slot)
    → Reachable d
    → d (minor + 1) ≡ some lst
    → p ≢ 0
    → 0 < n
    → n < 129
    → create_node k (to_int p) ≡ some x
    → k.tmp_block ≡ true
    → k.copies ≡ true
    → (d' : Devices) × (device_write k p minor (some bytes) n d ≡ done (ok n, d'))
unfolding device_write IsDevices
write_accepted k p minor bytes n d lst x r there p0 pos small made t u =
    let zero : (p == 0) ≡ false = ground (arith, p0) in
    let fits : (ltb buf_len n || (n == 0)) ≡ false = ground (arith, pos, small) in
    let (d', e) =
      accepted k minor bytes n d lst (to_int p) x t u made
        (get_or_create_node_lem k lst (to_int p) (IsDevices-Reachable d r (minor + 1) lst there)) in
    (d', rw (fits, zero, there) e)
