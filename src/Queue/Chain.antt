-- ===== src/Queue/Chain.antt =====
-- hw4/queue.c: singly linked lists in a store, with head and tail pointers. `QueueItem` and
-- `WaitingThread` are both such nodes.
use oscourse24btau.Common.{
  ℕ, ◌≡◌, ◌≢◌, refl, inl, inr, Option, none, some, List, [], ◌∷◌, ◌++◌, ◌==◌, if◌then◌else◌, In,
  NotIn, NotIn-ne, Distinct, arith,
}

-- A node: what it carries, and its `next` (`none` is NULL).
pub record Node (A : Type 0) : Type 0 where
  pub value : A
  pub next : Option ℕ

-- The live nodes by address.
abbrev pub Cells : Type 0 → Type 0
Cells A = ℕ → Option (Node A)

abbrev pub update {ℓ} : {A : Type ℓ} → (ℕ → A) → ℕ → A → ℕ → A
update f i a j = if i == j then a else f j

module _ {A : Type 0} where
  abbrev pub addresses : List (ℕ × A) → List ℕ
  addresses [] = []
  addresses ((a, x) ∷ l) = a ∷ addresses l

  abbrev pub values : List (ℕ × A) → List A
  values [] = []
  values ((a, x) ∷ l) = x ∷ values l

  abbrev pub first : List (ℕ × A) → Option ℕ
  first [] = none
  first ((a, x) ∷ l) = some a

  abbrev pub last : List (ℕ × A) → Option ℕ
  last [] = none
  last ((a, x) ∷ []) = some a
  last (_ ∷ y ∷ l) = last (y ∷ l)

  -- The nodes of the list, linked in its order.
  abbrev pub Chain : Cells A → List (ℕ × A) → Type 0
  Chain h [] = Unit {0}
  Chain h ((a, x) ∷ l) = (h a ≡ some (record { value = x; next = first l })) × Chain h l

  -- `if (tail == NULL) head = new; else tail->next = new; tail = new;` after the fields of the new
  -- node are set. `none` is a fault.
  unfoldable pub append_node :
      Cells A → Option ℕ → Option ℕ → ℕ → A → Option (Cells A × Option ℕ × Option ℕ)
  append_node h head none a x =
      some (update h a (some (record { value = x; next = none })), some a, some a)
  append_node h head (some b) a x =
      let h' = update h a (some (record { value = x; next = none })) in
      elim (h' b) [
        | none ↦ none
        | some node ↦ some (update h' b (some (record node { next = some a })), head, some a)
      ]

  pub Chain-update :
      (h : Cells A) (l : List (ℕ × A)) (a : ℕ) (v : Option (Node A))
      → NotIn a (addresses l)
      → Chain h l
      → Chain (update h a v) l
  Chain-update h [] a v n c = tt
  Chain-update h ((b, x) ∷ l) a v n c = (ground (arith, n.0, c.0), Chain-update h l a v n.1 c.1)

  first-snoc : (l : List (ℕ × A)) (a : ℕ) (x : A) → first (l ++ ((a, x) ∷ [])) ≢ none
  first-snoc [] a x e = cc
  first-snoc ((b, y) ∷ l) a x e = cc

  last-cons : (p q : ℕ × A) (l : List (ℕ × A)) → last (p ∷ q ∷ l) ≡ last (q ∷ l)
  last-cons (a, x) (b, y) l = refl

  pub last-snoc : (l : List (ℕ × A)) (a : ℕ) (x : A) → last (l ++ ((a, x) ∷ [])) ≡ some a
  last-snoc [] a x = refl
  last-snoc ((b, y) ∷ []) a x = refl
  last-snoc ((b, y) ∷ (c, z) ∷ l) a x = last-snoc ((c, z) ∷ l) a x

  -- The last node, its link set to a new node behind it.
  last_link :
      (h : Cells A) (p : ℕ × A) (l : List (ℕ × A)) (a : ℕ) (x : A)
      → Distinct (addresses (p ∷ l))
      → NotIn a (addresses (p ∷ l))
      → Chain h (p ∷ l)
      → (b : ℕ) × (y : A) × (last (p ∷ l) ≡ some b)
        × In b (addresses (p ∷ l))
        × (h b ≡ some (record { value = y; next = none }))
        × Chain
            (update
              (update h a (some (record { value = x; next = none })))
              b
              (some (record { value = y; next = some a })))
            ((p ∷ l) ++ ((a, x) ∷ []))
  last_link h (b, y) [] a x d n c =
      (b, y, refl, inl refl, c.0, (ground arith, (ground (arith, n.0), tt)))
  last_link h (c, z) ((e, w) ∷ l) a x d n ch =
      let (b, y, is_last, inside, here, chain) = last_link h (e, w) l a x d.1 n.1 ch.1 in
      let ne : c ≢ b = NotIn-ne c b (e ∷ addresses l) d.0 inside in
      (b, y, is_last, inr inside, here, (ground (arith, n.0, ch.0), chain))

  append_some :
      (h : Cells A) (head : Option ℕ) (a b : ℕ) (x y : A)
      → a ≢ b
      → h b ≡ some (record { value = y; next = none })
      → append_node h head (some b) a x
        ≡ some (
          update
              (update h a (some (record { value = x; next = none })))
              b
              (some (record { value = y; next = some a })),
          head,
          some a,
        )
  unfolding append_node
  append_some h head a b x y ne e = ground arith

  -- What `append_node` does to a list.
  pub append_node_lem :
      (h : Cells A) (l : List (ℕ × A)) (a : ℕ) (x : A)
      → Distinct (addresses l)
      → NotIn a (addresses l)
      → Chain h l
      → (h' : Cells A) × (append_node h (first l) (last l) a x
          ≡ some (h', first (l ++ ((a, x) ∷ [])), last (l ++ ((a, x) ∷ []))))
        × Chain h' (l ++ ((a, x) ∷ []))
        × ((b : ℕ) → NotIn b (addresses l) → b ≢ a → h' b ≡ h b)
  unfolding append_node
  append_node_lem h [] a x d n c = (
    update h a (some (record { value = x; next = none })),
    refl,
    (ground arith, tt),
    λ b nb ne. ground arith,
  )
  append_node_lem h ((c, z) ∷ l) a x d n ch =
      let (b, y, is_last, inside, here, chain) = last_link h (c, z) l a x d n ch in
      let ne : a ≢ b = NotIn-ne a b (c ∷ addresses l) n inside in
      (
        _,
        rw (is_last, append_some h (some c) a b x y ne here, last-snoc ((c, z) ∷ l) a x),
        chain,
        λ b' nb ne'. let apart : b' ≢ b = NotIn-ne b' b (c ∷ addresses l) nb inside in ground arith,
      )
