-- ===== src/MessageSlot/Place.antt =====
-- hw3/message_slot.c, `getOrCreateNode`: where the node of a channel is, or is put, in the list.
use oscourse24btau.Common.{
  ℕ, zero, suc, ◌+◌, ◌%◌, ◌^◌, ◌<◌, ◌≡◌, ◌≢◌, refl, sym, ◌∙◌, inl, inr, Bool, true, false, Option,
  none, some, List, [], ◌∷◌, ◌==◌, if◌then◌else◌, Bool-cases, Option-cases, length, arith,
}
use mathlib.Core.Path.{subst}
use oscourse24btau.MessageSlot.Driver.{Slot, int_lt, place, modify}

-- The order of the channels as `int`s.
abbrev pub rank : ℕ → ℕ
rank c = (c + 2 ^ 31) % 2 ^ 32

-- Every node of the list is above `c`.
abbrev pub Above : ℕ → List Slot → Type 0
Above c [] = Unit {0}
Above c (x ∷ l) = (rank c < rank x.channel_id) × Above c l

abbrev pub IsSorted : List Slot → Type 0
IsSorted [] = Unit {0}
IsSorted (x ∷ l) = Above x.channel_id l × IsSorted l

-- What a node must hold once it has been written.
pub record IsSlot (x : Slot) : Type 0 where
  pub buffer : length x.msg ≡ 128
  pub fits : x.msg_length < 129
  pub id : x.channel_id < 2 ^ 32

abbrev pub AllSlots : List Slot → Type 0
AllSlots [] = Unit {0}
AllSlots (x ∷ l) = IsSlot x × AllSlots l

-- The first node of the channel `c`, whatever way the driver takes to it.
unfoldable pub node_of : List Slot → ℕ → Option Slot
node_of [] c = none
node_of (x ∷ l) c = if x.channel_id == c then some x else node_of l c

-- How the list `l` becomes `l'` with the node of `c` at the place `i`.
pub data Placed (new : Option Slot) (c : ℕ) : List Slot → List Slot → ℕ → Bool → Type 0 where
  here : (x : Slot) (l : List Slot) → x.channel_id ≡ c → Placed new c (x ∷ l) (x ∷ l) 0 false
  at_end : (n : Slot) → new ≡ some n → Placed new c [] (n ∷ []) 0 true
  before :
      (n x : Slot) (l : List Slot)
      → new ≡ some n
      → rank c < rank x.channel_id
      → Placed new c (x ∷ l) (n ∷ x ∷ l) 0 true
  further :
      (x : Slot) {l l' : List Slot} {i : ℕ} {made : Bool}
      → x.channel_id ≢ c
      → (rank c < rank x.channel_id → ⊥)
      → Placed new c l l' i made
      → Placed new c (x ∷ l) (x ∷ l') (suc i) made

-- What `place` returns.
pub data Places (new : Option Slot) (c : ℕ) (l : List Slot)
    : Option (List Slot × ℕ × Bool) → Type 0 where
  no_memory : new ≡ none → Places new c l none
  placed :
      {l' : List Slot} {i : ℕ} {made : Bool}
      → Placed new c l l' i made
      → Places new c l (some (l', i, made))

Places-cons :
    {new : Option Slot} {c : ℕ} (x : Slot) (l : List Slot)
    → x.channel_id ≢ c
    → (rank c < rank x.channel_id → ⊥)
    → {r : Option (List Slot × ℕ × Bool)} → Places new c l r
    → Places new c
        (x ∷ l)
        (elim r [ none ↦ none | some (l', i, made) ↦ some (x ∷ l', suc i, made) ])
Places-cons x l ne not_lt (no_memory e) = no_memory e
Places-cons x l ne not_lt (placed p) = placed (further x ne not_lt p)

pub place_lem : (new : Option Slot) (c : ℕ) (l : List Slot) → Places new c l (place new c l)
unfolding place
place_lem none c [] = no_memory refl
place_lem (some n) c [] = placed (at_end n refl)
place_lem new c (x ∷ l) = elim (Bool-cases (c == x.channel_id)) [
  | inl e ↦ rw e (placed (here x l (ground arith)))
  | inr ne ↦ elim (Bool-cases (int_lt c x.channel_id)) [
    | inl less ↦ elim (Option-cases new) [
      | inl e ↦ rw (ne, less, e) (no_memory refl)
      | inr (n, e) ↦ rw (ne, less, e) (placed (before n x l refl (ground arith)))
    ]
    | inr more ↦
        rw (ne, more) (Places-cons x l (λ e. ground arith) (λ h. ground arith) (place_lem new c l))
  ]
]

-- The node that is found or put.
abbrev pub nth : List Slot → ℕ → Slot → Slot
nth [] i d = d
nth (x ∷ l) zero d = x
nth (x ∷ l) (suc i) d = nth l i d

pub Above-trans : (b c : ℕ) (l : List Slot) → rank b < rank c → Above c l → Above b l
Above-trans b c [] lt a = tt
Above-trans b c (x ∷ l) lt a = (omega (arith, a.0), Above-trans b c l lt a.1)

module _ {new : Option Slot} {c : ℕ} where
  -- The nodes of the other channels stay, and a change of the node shows under its channel.
  pub node_of-Placed :
      {l l' : List Slot} {i : ℕ} {made : Bool} (d : Slot) (g : Slot → Slot)
      → ((x : Slot) → (g x).channel_id ≡ x.channel_id)
      → ((n : Slot) → new ≡ some n → n.channel_id ≡ c)
      → Placed new c l l' i made
      → (c' : ℕ)
      → node_of (modify l' i g) c' ≡ (if c == c' then some (g (nth l' i d)) else node_of l c')
  unfolding node_of
  node_of-Placed d g same born (here x l e) c' = ground (arith, same x)
  node_of-Placed d g same born (at_end n e) c' = ground (arith, same n, born n)
  node_of-Placed d g same born (before n x l e lt) c' = ground (arith, same n, born n)
  node_of-Placed d g same born (further x ne not_lt p) c' =
      ground (arith, node_of-Placed d g same born p c')

  pub length-Placed :
      {l l' : List Slot} {i : ℕ} {made : Bool}
      → Placed new c l l' i made
      → length l' ≡ (if made then length l + 1 else length l)
  length-Placed (here x l e) = refl
  length-Placed (at_end n e) = omega arith
  length-Placed (before n x l e lt) = omega arith
  length-Placed (further x ne not_lt p) = ground (arith, length-Placed p)

  pub AllSlots-modify :
      {l l' : List Slot} {i : ℕ} {made : Bool} (g : Slot → Slot)
      → ((x : Slot) → IsSlot x → IsSlot (g x))
      → ((n : Slot) → new ≡ some n → IsSlot (g n))
      → Placed new c l l' i made
      → AllSlots l
      → AllSlots (modify l' i g)
  AllSlots-modify g keep born (here x l e) a = (keep x a.0, a.1)
  AllSlots-modify g keep born (at_end n e) a = (born n e, tt)
  AllSlots-modify g keep born (before n x l e lt) a = (born n e, a)
  AllSlots-modify g keep born (further x ne not_lt p) a = (a.0, AllSlots-modify g keep born p a.1)

  Above-Placed :
      {l l' : List Slot} {i : ℕ} {made : Bool} (g : Slot → Slot) (b : ℕ)
      → ((x : Slot) → (g x).channel_id ≡ x.channel_id)
      → ((n : Slot) → new ≡ some n → n.channel_id ≡ c)
      → rank b < rank c
      → Placed new c l l' i made
      → Above b l
      → Above b (modify l' i g)
  Above-Placed g b same born lt (here x l e) a = (rw (same x) a.0, a.1)
  Above-Placed g b same born lt (at_end n e) a = (rw (same n, born n e) lt, tt)
  Above-Placed g b same born lt (before n x l e lt') a = (rw (same n, born n e) lt, a)
  Above-Placed g b same born lt (further x ne not_lt p) a =
      (a.0, Above-Placed g b same born lt p a.1)

  -- The list stays in the order of the channels.
  pub IsSorted-Placed :
      {l l' : List Slot} {i : ℕ} {made : Bool} (g : Slot → Slot)
      → ((x : Slot) → (g x).channel_id ≡ x.channel_id)
      → ((n : Slot) → new ≡ some n → n.channel_id ≡ c)
      → c < 2 ^ 32
      → Placed new c l l' i made
      → AllSlots l
      → IsSorted l
      → IsSorted (modify l' i g)
  IsSorted-Placed g same born small (here x l e) a s = (rw (same x) s.0, s.1)
  IsSorted-Placed g same born small (at_end n e) a s = (tt, tt)
  IsSorted-Placed g same born small (before n x l e lt) a s =
      let id : (g n).channel_id ≡ c = same n ∙ born n e in
      ((rw id lt, subst (λ b. Above b l) (sym id) (Above-trans c x.channel_id l lt s.0)), s)
  IsSorted-Placed g same born small (further x ne not_lt p) a s =
      let id = a.0.id in
      (
        Above-Placed g x.channel_id same born (ground arith) p s.0,
        IsSorted-Placed g same born small p a.1 s.1,
      )
