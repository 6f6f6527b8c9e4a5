-- ===== src/MessageSlot/Content.antt =====
-- hw3/message_slot.c: the message that each channel of each device holds, before and after a call
-- of `device_write`.
use oscourse24btau.Common.{
  ℕ, zero, suc, ◌+◌, ◌^◌, ◌≤◌, ◌<◌, ◌≡◌, refl, sym, ◌∙◌, ap, inl, inr, Bool, true, ◌&&◌, Option,
  none, some, List, [], ◌∷◌, ◌==◌, if◌then◌else◌, Bool-cases, Option-cases, length, take, drop,
  length-append, length-take, length-drop, arith,
}
use mathlib.Core.Path.{subst}
use oscourse24btau.MessageSlot.Driver.{
  Slot, SlotList, Devices, Reply, to_int, Kernel, create_node, modify, put,
}
use oscourse24btau.MessageSlot.Place.{
  node_of, IsSlot, Placed, node_of-Placed, nth, length-Placed, AllSlots-modify, IsSorted-Placed,
}
use oscourse24btau.MessageSlot.Write.{nodes, IsList, IsDevices, Change, spoils, writes}

-- The bytes of the message of a channel, or `none` if the channel has no node.
abbrev pub message : Option Slot → Option (List ℕ)
message none = none
message (some x) = some (take x.msg_length x.msg)

unfoldable pub content : Devices → ℕ → ℕ → Option (List ℕ)
content d minor c = elim (d (minor + 1)) [
  | none ↦ none
  | some lst ↦ message (node_of (nodes lst) c)
]

-- What the model asks of the kernel and of the caller: a buffer from `kmalloc` has the size asked
-- for, and the user's memory at `buffer` holds the bytes announced.
pub record IsKernel (k : Kernel) : Type 0 where
  pub size : (bytes : List ℕ) → k.msg_block ≡ some bytes → length bytes ≡ 128

unfoldable pub Holds : Option (List ℕ) → ℕ → Type 0
Holds buffer n = (bytes : List ℕ) → buffer ≡ some bytes → n ≤ length bytes

pub id-create_node : (k : Kernel) (c : ℕ) (x : Slot) → create_node k c ≡ some x → x.channel_id ≡ c
unfolding create_node
id-create_node k c x e = elim (Option-cases k.node_block) [
  | inl q ↦ absurd (ground (arith, q, e))
  | inr (b, q) ↦ elim (Option-cases k.msg_block) [
    | inl q' ↦ absurd (ground (arith, q, q', e))
    | inr (bytes, q') ↦ ground (arith, q, q', e)
  ]
]

pub length-create_node :
    (k : Kernel) (c : ℕ) (x : Slot) → IsKernel k → create_node k c ≡ some x → length x.msg ≡ 128
unfolding create_node
length-create_node k c x is e = elim (Option-cases k.node_block) [
  | inl q ↦ absurd (ground (arith, q, e))
  | inr (b, q) ↦ elim (Option-cases k.msg_block) [
    | inl q' ↦ absurd (ground (arith, q, q', e))
    | inr (bytes, q') ↦ ground (arith, q, q', e, is.size bytes q')
  ]
]

module _ {buffer : Option (List ℕ)} {n : ℕ} where
  pub id-Change :
      {g : Slot → Slot} {r : Reply}
      → Change buffer n g r
      → (x : Slot) → (g x).channel_id ≡ x.channel_id
  id-Change spoils x = refl
  id-Change (writes bytes e) x = refl

  pub IsSlot-Change :
      {g : Slot → Slot} {r : Reply}
      → Change buffer n g r
      → n < 129
      → Holds buffer n
      → (x : Slot) → length x.msg ≡ 128
      → x.channel_id < 2 ^ 32
      → IsSlot (g x)
  unfolding Holds
  IsSlot-Change spoils small holds x full id = record { buffer = full; fits = small; id = id }
  IsSlot-Change (writes bytes e) small holds x full id = record {
    buffer = omega (
      arith,
      length-append (take n bytes) (drop n x.msg),
      length-take n bytes,
      length-drop n x.msg,
      holds bytes e,
    );
    fits = small;
    id = id;
  }

length-modify : (l : List Slot) (i : ℕ) (g : Slot → Slot) → length (modify l i g) ≡ length l
length-modify [] i g = refl
length-modify (x ∷ l) zero g = refl
length-modify (x ∷ l) (suc i) g = omega (arith, length-modify l i g)

-- The list that the driver has for the device after the change.
abbrev pub list_after : SlotList → List Slot → Bool → SlotList
list_after lst l made = record { first = some l; size = if made then lst.size + 1 else lst.size }

pub IsList-after :
    (k : Kernel) (p : ℕ) {n : ℕ} {buffer : Option (List ℕ)} (lst : SlotList) {g : Slot → Slot}
    {r : Reply}
    → IsKernel k
    → Holds buffer n
    → n < 129
    → Change buffer n g r
    → {l' : List Slot} {i : ℕ} {made : Bool}
    → Placed (create_node k (to_int p)) (to_int p) (nodes lst) l' i made
    → IsList lst
    → IsList (list_after lst (modify l' i g) made)
IsList-after k p lst {g} is holds small change {l'} {i} {made} q old = record {
  sorted =
      IsSorted-Placed g (id-Change change) (id-create_node k (to_int p)) (ground arith) q old.slots
        old.sorted;
  slots =
      AllSlots-modify g (λ x h. IsSlot-Change change small holds x h.buffer h.id)
        (λ x e.
          IsSlot-Change change small holds x (length-create_node k (to_int p) x is e)
            (ground (arith, id-create_node k (to_int p) x e)))
        q old.slots;
  count = ground (arith, length-modify l' i g, length-Placed q, old.count);
}

pub IsDevices-put :
    (d : Devices) (minor : ℕ) (lst : SlotList)
    → IsList lst
    → IsDevices d
    → IsDevices (put d minor lst)
unfolding IsDevices
IsDevices-put d minor lst is old j lst' e = elim (Bool-cases (minor + 1 == j)) [
  | inl q ↦ subst IsList (ground (arith, e, q)) is
  | inr q ↦ old j lst' (ground (arith, e, q))
]

pub content-at :
    (d : Devices) (minor : ℕ) (lst : SlotList) (c : ℕ)
    → d (minor + 1) ≡ some lst
    → content d minor c ≡ message (node_of (nodes lst) c)
unfolding content
content-at d minor lst c e = rw (content, e) refl

pub content-same :
    (d d' : Devices) (minor c : ℕ)
    → d (minor + 1) ≡ d' (minor + 1)
    → content d minor c ≡ content d' minor c
unfolding content
content-same d d' minor c e = rw (content, e) refl

-- What each channel holds after the change.
pub content-after :
    (k : Kernel) (p : ℕ) (d : Devices) (minor : ℕ) (lst : SlotList) (g : Slot → Slot)
    → d (minor + 1) ≡ some lst
    → ((x : Slot) → (g x).channel_id ≡ x.channel_id)
    → (dflt : Slot) → {l' : List Slot} {i : ℕ} {made : Bool}
    → Placed (create_node k (to_int p)) (to_int p) (nodes lst) l' i made
    → (minor' c : ℕ)
    → content (put d minor (list_after lst (modify l' i g) made)) minor' c ≡ (
        if (minor == minor') && (to_int p == c)
        then message (some (g (nth l' i dflt)))
        else content d minor' c)
content-after k p d minor lst g there same dflt {l'} {i} {made} q minor' c =
    elim (Bool-cases (minor == minor')) [
      | inl e ↦ elim (Bool-cases (to_int p == c)) [
        | inl f ↦ rw (e, f) (at_once e ∙ ap message (found f))
        | inr f ↦
            rw (e, f)
              (at_once e
                ∙ ap message (found f)
                ∙ sym (content-at d minor' lst c (ground (arith, e, there))))
      ]
      | inr e ↦ rw e (content-same _ d minor' c (ground (arith, e)))
    ]
  where
    found :
        {b : Bool}
        → (to_int p == c) ≡ b
        → node_of (modify l' i g) c
          ≡ (if b then some (g (nth l' i dflt)) else node_of (nodes lst) c)
    found e = rw⁻¹ e (node_of-Placed dflt g same (id-create_node k (to_int p)) q c)

    at_once :
        (minor == minor') ≡ true
        → content (put d minor (list_after lst (modify l' i g) made)) minor' c
          ≡ message (node_of (modify l' i g) c)
    at_once e = content-at _ minor' (list_after lst (modify l' i g) made) c (ground (arith, e))
