-- ===== src/MessageSlot/Write.antt =====
-- hw3/message_slot.c, `device_write`: what it leaves in the table of devices.
use oscourse24btau.Common.{
  ℕ, zero, suc, ◌+◌, ◌<◌, ◌≡◌, refl, sym, ap, inl, inr, Bool, true, false, ◌||◌, Option, none, some,
  List, [], ◌∷◌, ltb, ◌==◌, if◌then◌else◌, Bool-cases, Option-cases, length, arith,
}
use mathlib.Core.Path.{subst}
use oscourse24btau.MessageSlot.Driver.{
  Slot, SlotList, Devices, Outcome, done, Errno, einval, enospc, emsgsize, Reply, ok, failed,
  buf_len, to_int, Kernel, create_node, search, get_or_create_node, modify, set_msg, put,
  store_message, device_write,
}
use oscourse24btau.MessageSlot.Place.{
  IsSorted, AllSlots, Placed, at_end, Places, no_memory, placed, place_lem,
}

abbrev pub nodes : SlotList → List Slot
nodes lst = elim lst.first [ none ↦ [] | some l ↦ l ]

-- A list of the driver: in order, its size counted, and assigned to before it has a size.
pub record IsList (lst : SlotList) : Type 0 where
  pub sorted : IsSorted (nodes lst)
  pub slots : AllSlots (nodes lst)
  pub count : lst.size ≡ length (nodes lst)

unfoldable pub IsDevices : Devices → Type 0
IsDevices d = (j : ℕ) (lst : SlotList) → d j ≡ some lst → IsList lst

-- What `getOrCreateNode` does to a list of the driver.
pub data Prepared (k : Kernel) (lst : SlotList) (c : ℕ)
    : Outcome (Option (SlotList × ℕ)) → Type 0 where
  no_node : create_node k c ≡ none → Prepared k lst c (done none)
  node_at :
      (l' : List Slot) (i : ℕ) (made : Bool)
      → Placed (create_node k c) c (nodes lst) l' i made
      → Prepared k lst c (
          done
            (some (record { first = some l'; size = if made then lst.size + 1 else lst.size }, i)))

pub first_node :
    (lst : SlotList)
    → lst.size ≡ length (nodes lst)
    → (lst.size == 0) ≡ false
    → (x : Slot) × (l : List Slot) × (lst.first ≡ some (x ∷ l))
first_node lst e h = elim (Option-cases lst.first) [
  | inl none_yet ↦ absurd (ground arith)
  | inr (l, q) ↦ go l q
]
  where
    go :
        (l : List Slot)
        → lst.first ≡ some l
        → (x : Slot) × (r : List Slot) × (lst.first ≡ some (x ∷ r))
    go [] q = absurd (ground arith)
    go (x ∷ r) q = (x, r, q)

Prepared-Places :
    {k : Kernel} (lst : SlotList) {c : ℕ} {l : List Slot} {r : Option (List Slot × ℕ × Bool)}
    → nodes lst ≡ l
    → Places (create_node k c) c l r
    → Prepared k lst c (elim r [
      | none ↦ done none
      | some (l', i, made) ↦
          done
            (some (record { first = some l'; size = if made then lst.size + 1 else lst.size }, i))
    ])
Prepared-Places lst e (no_memory q) = no_node q
Prepared-Places {k} lst {c} e (placed {l'} {i} {made} p) =
    node_at l' i made (subst (λ z. Placed (create_node k c) c z l' i made) (sym e) p)

pub nodes-first : (lst : SlotList) {l : List Slot} → lst.first ≡ some l → nodes lst ≡ l
nodes-first lst e =
    ap (λ (o : Option (List Slot)). elim o as (λ _. List Slot) [ none ↦ [] | some l ↦ l ]) e

pub no_nodes :
    (lst : SlotList) → lst.size ≡ length (nodes lst) → (lst.size == 0) ≡ true → nodes lst ≡ []
no_nodes lst e h = go (nodes lst) (ground arith)
  where
    go : (l : List Slot) → length l ≡ 0 → l ≡ []
    go [] q = refl
    go (x ∷ l) q = absurd (ground arith)

pub get_or_create_node_lem :
    (k : Kernel) (lst : SlotList) (c : ℕ)
    → IsList lst
    → Prepared k lst c (get_or_create_node k lst c)
unfolding get_or_create_node search
get_or_create_node_lem k lst c is = elim (Bool-cases (lst.size == 0)) [
  | inl empty ↦ elim (Option-cases (create_node k c)) [
    | inl e ↦ rw (empty, e) (no_node e)
    | inr (n, e) ↦
        rw (empty, e)
          (node_at (n ∷ []) 0 true (
            subst (λ z. Placed (create_node k c) c z (n ∷ []) 0 true)
              (sym (no_nodes lst is.count empty)) (at_end n e)))
  ]
  | inr nodes_there ↦
      let (x, l, e) = first_node lst is.count nodes_there in
      rw nodes_there (
        subst (λ o. Prepared k lst c (search k lst c o)) (sym e)
          (Prepared-Places lst (nodes-first lst e) (place_lem (create_node k c) c (x ∷ l))))
]

-- What a call of `device_write` makes of the node of its channel, and what it returns then.
pub data Change (buffer : Option (List ℕ)) (n : ℕ) : (Slot → Slot) → Reply → Type 0 where
  spoils : Change buffer n (λ node. record node { msg_length = n }) (failed enospc)
  writes :
      (bytes : List ℕ) → buffer ≡ some bytes → Change buffer n (λ node. set_msg node bytes n) (ok n)

-- What a call of `device_write` does.
pub data Effect (k : Kernel) (p minor : ℕ) (buffer : Option (List ℕ)) (n : ℕ) (d : Devices)
    : Outcome (Reply × Devices) → Type 0 where
  rejected : (e : Errno) → Effect k p minor buffer n d (done (failed e, d))
  changed :
      (lst : SlotList)
      → d (minor + 1) ≡ some lst
      → (0 < n) × (n < 129)
      → (g : Slot → Slot) (r : Reply) → Change buffer n g r
      → (l' : List Slot) (i : ℕ) (made : Bool)
      → Placed (create_node k (to_int p)) (to_int p) (nodes lst) l' i made
      → Effect k p minor buffer n d (
          done (
            r,
            put d minor (record {
              first = some (modify l' i g);
              size = if made then lst.size + 1 else lst.size;
            }),
          ))

modify-modify :
    (l : List Slot) (i : ℕ) (f g : Slot → Slot)
    → modify (modify l i f) i g ≡ modify l i (λ x. g (f x))
modify-modify [] i f g = refl
modify-modify (x ∷ l) zero f g = refl
modify-modify (x ∷ l) (suc i) f g = ap (λ r. x ∷ r) (modify-modify l i f g)

store_message_lem :
    (k : Kernel) (p minor : ℕ) (buffer : Option (List ℕ)) (bytes : List ℕ) (n : ℕ) (d : Devices)
    → buffer ≡ some bytes
    → (0 < n) × (n < 129)
    → (lst : SlotList) → d (minor + 1) ≡ some lst
    → {r : Outcome (Option (SlotList × ℕ))} → Prepared k lst (to_int p) r
    → Effect k p minor buffer n d (store_message k minor bytes n d r)
unfolding store_message
store_message_lem k p minor buffer bytes n d e sized lst there (no_node q) = rejected enospc
store_message_lem k p minor buffer bytes n d e sized lst there (node_at l' i made q) =
    elim (Bool-cases k.tmp_block) [
      | inr missing ↦ simp missing (changed lst there sized _ _ spoils l' i made q)
      | inl t ↦ elim (Bool-cases k.copies) [
        | inr fails ↦ simp (t, fails) (changed lst there sized _ _ spoils l' i made q)
        | inl c ↦
            simp
              (t, c, modify-modify l' i (λ x. record x { msg_length = n }) (λ x. set_msg x bytes n))
              (changed lst there sized _ _ (writes bytes e) l' i made q)
      ]
    ]

pub device_write_lem :
    (k : Kernel) (p minor : ℕ) (buffer : Option (List ℕ)) (n : ℕ) (d : Devices)
    → IsDevices d
    → Effect k p minor buffer n d (device_write k p minor buffer n d)
unfolding device_write IsDevices
device_write_lem k p minor buffer n d is = elim (Bool-cases (ltb buf_len n || (n == 0))) [
  | inl e ↦ rw e (rejected emsgsize)
  | inr e ↦ elim (Bool-cases (p == 0)) [
    | inl z ↦ rw (e, z) (rejected einval)
    | inr z ↦ elim (Option-cases buffer) [
      | inl b ↦ rw (e, z, b) (rejected enospc)
      | inr (bytes, b) ↦ elim (Option-cases (d (minor + 1))) [
        | inl q ↦ rw (e, z, b, q) (rejected einval)
        | inr (lst, q) ↦
            rw (e, z, b, q)
              (store_message_lem k p minor (some bytes) bytes n d refl (ground arith, ground arith)
                lst q (get_or_create_node_lem k lst (to_int p) (is (minor + 1) lst q)))
      ]
    ]
  ]
]
