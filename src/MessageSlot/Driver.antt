-- ===== src/MessageSlot/Driver.antt =====
-- hw3/message_slot.c: the data of the driver and its file operations. What the kernel decides, which
-- allocations succeed and whether a copy to or from user space does, is an argument of each call.
use oscourse24btau.Common.{
  ℕ, zero, suc, ◌+◌, ◌%◌, ◌^◌, Bool, true, false, ◌&&◌, ◌||◌, not, Option, none, some, List, [],
  ◌∷◌, ◌++◌, ltb, ◌==◌, if◌then◌else◌, take, drop,
}

-- `ListNode`: `msg` is the content of its 128 bytes. `channelId` is an `int`, kept as the number
-- modulo 2^32 that its bits stand for.
pub record Slot : Type 0 where
  pub channel_id : ℕ
  pub msg : List ℕ
  pub msg_length : ℕ

-- `LinkedList`, its nodes in order. `first` is `none` while nothing has been assigned to it.
-- `size` is an `int` in the code; hw3/msgslot.pdf allows at most 2^20 channels, so that it does not wrap.
pub record SlotList : Type 0 where
  pub first : Option (List Slot)
  pub size : ℕ

-- `devices`, by index; a minor number has the index one above it.
abbrev pub Devices : Type 0
Devices = ℕ → Option SlotList

-- A call returns, or it has read memory that holds no value yet, or has followed NULL.
pub data Outcome (A : Type 0) : Type 0 where
  done : A → Outcome A
  undefined : Outcome A

pub data Errno : Type 0 where
  eperm einval enospc emsgsize ewouldblock : Errno

pub data Reply : Type 0 where
  ok : ℕ → Reply
  failed : Errno → Reply

-- `BUF_LEN` and `MSG_MAX_LENGTH`
abbrev pub buf_len : ℕ
buf_len = 128

-- The conversion of an `unsigned long` to `int`, and `<` on `int`.
abbrev pub to_int : ℕ → ℕ
to_int c = c % 2 ^ 32

abbrev pub int_lt : ℕ → ℕ → Bool
int_lt a b = ltb ((a + 2 ^ 31) % 2 ^ 32) ((b + 2 ^ 31) % 2 ^ 32)

unfoldable pub find : List Slot → ℕ → Option Slot
find [] c = none
find (x ∷ l) c = if x.channel_id == c then some x else find l c

unfoldable pub find_channel_id : SlotList → ℕ → Outcome (Option Slot)
unfolding find
find_channel_id lst c = elim lst.first [ none ↦ undefined | some l ↦ done (find l c) ]

-- `memcpy` into the buffer of the node, and its new length.
abbrev pub set_msg : Slot → List ℕ → ℕ → Slot
set_msg node bytes n = record node { msg = take n bytes ++ drop n node.msg; msg_length = n }

-- What the kernel gives to one `device_write`: the memory of a new node (with the number that its
-- `msgLength` holds by chance), of its buffer (with its content), and of `tmpBuffer`, and whether
-- `copy_from_user` copies everything.
pub record Kernel : Type 0 where
  pub node_block : Option ℕ
  pub msg_block : Option (List ℕ)
  pub tmp_block : Bool
  pub copies : Bool

unfoldable pub create_node : Kernel → ℕ → Option Slot
create_node k c = elim k.node_block [
  | none ↦ none
  | some by_chance ↦ elim k.msg_block [
    | none ↦ none
    | some bytes ↦ some (record { channel_id = c; msg = bytes; msg_length = by_chance })
  ]
]

-- The loop of `getOrCreateNode`: the list after it, the place of the node in it, and whether the
-- node is new. `none` is the return of NULL.
unfoldable pub place : Option Slot → ℕ → List Slot → Option (List Slot × ℕ × Bool)
place new c [] = elim new [ none ↦ none | some n ↦ some (n ∷ [], 0, true) ]
place new c (x ∷ l) =
    let rest = place new c l in
    if c == x.channel_id
    then some (x ∷ l, 0, false)
    else if int_lt c x.channel_id
    then elim new [ none ↦ none | some n ↦ some (n ∷ x ∷ l, 0, true) ]
    else elim rest [ none ↦ none | some (l', i, made) ↦ some (x ∷ l', suc i, made) ]

-- The `else` of `getOrCreateNode`, from the content of `lst->first`.
unfoldable pub search : Kernel → SlotList → ℕ → Option (List Slot) → Outcome (Option (SlotList × ℕ))
unfolding create_node place
search k lst c none = undefined
search k lst c (some []) = undefined
search k lst c (some (x ∷ r)) = elim (place (create_node k c) c (x ∷ r)) [
  | none ↦ done none
  | some (l', i, made) ↦
      done (some (record { first = some l'; size = if made then lst.size + 1 else lst.size }, i))
]

-- `getOrCreateNode`: the list and the place of the node.
unfoldable pub get_or_create_node : Kernel → SlotList → ℕ → Outcome (Option (SlotList × ℕ))
unfolding create_node search
get_or_create_node k lst c =
    if lst.size == 0
    then elim (create_node k c) [
      | none ↦ done none
      | some n ↦ done (some (record { first = some (n ∷ []); size = lst.size + 1 }, 0))
    ]
    else search k lst c lst.first

-- An assignment through the pointer to a node.
abbrev pub modify : List Slot → ℕ → (Slot → Slot) → List Slot
modify [] i g = []
modify (x ∷ l) zero g = g x ∷ l
modify (x ∷ l) (suc i) g = x ∷ modify l i g

abbrev pub at_node : SlotList → ℕ → (Slot → Slot) → SlotList
at_node lst i g = record lst {
  first = elim lst.first [ none ↦ none | some l ↦ some (modify l i g) ];
}

abbrev pub put : Devices → ℕ → SlotList → Devices
put d minor lst j = if minor + 1 == j then some lst else d j

-- `device_open`: whether the allocation succeeds is `allocates`.
unfoldable pub device_open : Bool → ℕ → Devices → Reply × Devices
device_open allocates minor d = elim (d (minor + 1)) [
  | some lst ↦ (ok 0, d)
  | none ↦
      if allocates
      then (ok 0, put d minor (record { first = none; size = 0 }))
      else (failed eperm, d)
]

-- `device_ioctl`: the reply and the new `private_data` of the file. `MSG_SLOT_CHANNEL` is
-- `channel_command`.
unfoldable pub device_ioctl : ℕ → ℕ → ℕ → ℕ → Reply × ℕ
device_ioctl channel_command command param private_data =
    if (channel_command == command) && not (param == 0)
    then (ok 0, param)
    else (failed einval, private_data)

-- `device_read`: the bytes that it stores through `buffer` and whose number it returns, or an error.
pub data Delivery : Type 0 where
  got : List ℕ → Delivery
  refused : Errno → Delivery

-- `private_data` is 0 if no channel is set; `has_buffer` is false for NULL.
unfoldable pub device_read : Bool → Bool → ℕ → ℕ → Bool → ℕ → Devices → Outcome Delivery
unfolding find_channel_id
device_read tmp_block copies private_data minor has_buffer length_arg d =
    if private_data == 0 then done (refused einval) else elim (d (minor + 1)) [
      | none ↦ done (refused einval)
      | some lst ↦ elim (find_channel_id lst (to_int private_data)) [
        | undefined ↦ undefined
        | done none ↦ done (refused ewouldblock)
        | done (some node) ↦
            if ltb length_arg node.msg_length || not has_buffer
            then done (refused enospc)
            else if not tmp_block
            then done (refused enospc)
            else if not copies
            then done (refused enospc)
            else done (got (take node.msg_length node.msg))
      ]
    ]

-- `device_write` after the call of `getOrCreateNode`.
unfoldable pub store_message :
    Kernel → ℕ → List ℕ → ℕ → Devices → Outcome (Option (SlotList × ℕ)) → Outcome (Reply × Devices)
store_message k minor bytes length_arg d undefined = undefined
store_message k minor bytes length_arg d (done none) = done (failed enospc, d)
store_message k minor bytes length_arg d (done (some (lst, i))) =
    let sized = at_node lst i (λ node. record node { msg_length = length_arg }) in
    if not k.tmp_block
    then done (failed enospc, put d minor sized)
    else if not k.copies
    then done (failed enospc, put d minor sized)
    else done (ok length_arg, put d minor (at_node sized i (λ node. set_msg node bytes length_arg)))

-- `device_write`. The argument `buffer` is what the user's memory holds at the address, or `none`
-- for NULL.
unfoldable pub device_write :
    Kernel → ℕ → ℕ → Option (List ℕ) → ℕ → Devices → Outcome (Reply × Devices)
unfolding get_or_create_node store_message
device_write k private_data minor buffer length_arg d =
    if ltb buf_len length_arg || (length_arg == 0)
    then done (failed emsgsize, d)
    else if private_data == 0
    then done (failed einval, d)
    else elim buffer [
      | none ↦ done (failed enospc, d)
      | some bytes ↦ elim (d (minor + 1)) [
        | none ↦ done (failed einval, d)
        | some lst ↦
            store_message k minor bytes length_arg d
              (get_or_create_node k lst (to_int private_data))
      ]
    ]

-- `simple_init`: what it returns, from whether `register_chrdev` succeeds.
unfoldable pub simple_init : Bool → ℕ
simple_init registered = if registered then 0 else 240
