-- ===== src/MessageSlot/Cleanup.antt =====
-- hw3/message_slot.c: what is freed when the module is unloaded.
use oscourse24btau.Common.{
  ℕ, zero, suc, ◌+◌, ◌≡◌, refl, ◌∙◌, ap, Bool-cases, Option, Option-cases, none, some, inl, inr,
  List, [], ◌∷◌, ◌++◌, ◌==◌, if◌then◌else◌,
}
use oscourse24btau.MessageSlot.Driver.{Slot, SlotList, Devices, Outcome, done, undefined}
use oscourse24btau.MessageSlot.Write.{nodes, IsList, IsDevices, first_node, no_nodes, nodes-first}
use oscourse24btau.MessageSlot.Reach.{Reachable, IsDevices-Reachable}

-- What `kfree` is called with: the buffer or the struct of a node, or the struct of a list, each
-- with the index of its device, a node with its place in the list too.
pub data Block : Type 0 where
  msg_of node_of : ℕ → ℕ → Block
  list_of : ℕ → Block

unfoldable pub free_node : ℕ → ℕ → List Block
free_node j i = msg_of j i ∷ node_of j i ∷ []

-- The loop of `freeLst` with the call behind it, from the place of `prev` and the nodes from `cur` on.
unfoldable pub free_nodes : ℕ → ℕ → List Slot → List Block
unfolding free_node
free_nodes j i [] = free_node j i
free_nodes j i (cur ∷ l) = free_node j i ++ free_nodes j (i + 1) l

-- The branch of a list with a size.
unfoldable pub free_from : ℕ → Option (List Slot) → Outcome (List Block)
unfolding free_nodes
free_from j none = undefined
free_from j (some []) = undefined
free_from j (some (prev ∷ l)) = done (free_nodes j 0 l ++ (list_of j ∷ []))

unfoldable pub free_lst : ℕ → SlotList → Outcome (List Block)
unfolding free_from
free_lst j lst = if lst.size == 0 then done (list_of j ∷ []) else free_from j lst.first

abbrev pub then_free : Outcome (List Block) → Outcome (List Block) → Outcome (List Block)
then_free undefined b = undefined
then_free (done l) undefined = undefined
then_free (done l) (done m) = done (l ++ m)

-- The loop of `simple_cleanup`, with `n` devices from the index `j` on.
unfoldable pub cleanup_loop : ℕ → ℕ → Devices → Outcome (List Block)
unfolding free_lst
cleanup_loop zero j d = done []
cleanup_loop (suc n) j d =
    let rest = cleanup_loop n (j + 1) d in
    elim (d j) [ none ↦ rest | some lst ↦ then_free (free_lst j lst) rest ]

-- `MAX_DEVICES` is 257.
unfoldable pub simple_cleanup : Devices → Outcome (List Block)
unfolding cleanup_loop
simple_cleanup d = cleanup_loop 256 1 d

-- The blocks that a list owns, and those of all devices from the index `j` on.
unfoldable pub node_blocks : ℕ → ℕ → List Slot → List Block
node_blocks j i [] = []
node_blocks j i (x ∷ l) = msg_of j i ∷ node_of j i ∷ node_blocks j (i + 1) l

unfoldable pub owned : ℕ → Option SlotList → List Block
unfolding node_blocks
owned j none = []
owned j (some lst) = node_blocks j 0 (nodes lst) ++ (list_of j ∷ [])

unfoldable pub all_owned : ℕ → ℕ → Devices → List Block
unfolding owned
all_owned zero j d = []
all_owned (suc n) j d = owned j (d j) ++ all_owned n (j + 1) d

free_nodes_lem : (j i : ℕ) (x : Slot) (l : List Slot) → free_nodes j i l ≡ node_blocks j i (x ∷ l)
unfolding free_nodes node_blocks free_node
free_nodes_lem j i x [] = refl
free_nodes_lem j i x (y ∷ l) = ap (λ r. msg_of j i ∷ node_of j i ∷ r) (free_nodes_lem j (i + 1) y l)

free_lst_lem : (j : ℕ) (lst : SlotList) → IsList lst → free_lst j lst ≡ done (owned j (some lst))
unfolding free_lst free_from owned
free_lst_lem j lst is = elim (Bool-cases (lst.size == 0)) [
  | inl empty ↦ rw (empty, no_nodes lst is.count empty) refl
  | inr there ↦
      let (x, l, e) = first_node lst is.count there in
      let at : nodes lst ≡ x ∷ l = nodes-first lst e in
      rw (there, at)
        (ap (free_from j) e ∙ ap (λ r. done (r ++ (list_of j ∷ []))) (free_nodes_lem j 0 x l))
]

cleanup_loop_lem :
    (n j : ℕ) (d : Devices) → IsDevices d → cleanup_loop n j d ≡ done (all_owned n j d)
unfolding cleanup_loop all_owned owned IsDevices
cleanup_loop_lem zero j d is = refl
cleanup_loop_lem (suc n) j d is = elim (Option-cases (d j)) [
  | inl e ↦ rw (cleanup_loop, e, cleanup_loop_lem n (j + 1) d is) refl
  | inr (lst, e) ↦
      rw (cleanup_loop, e, cleanup_loop_lem n (j + 1) d is, free_lst_lem j lst (is j lst e), owned)
        refl
]

-- In every state that is reached, unloading the module frees exactly what the devices own, each block
-- once: for each list the buffer and the struct of each node, and then the list itself. It never
-- follows a pointer that has not been assigned to.
pub cleanup_frees : (d : Devices) → Reachable d → simple_cleanup d ≡ done (all_owned 256 1 d)
unfolding simple_cleanup
cleanup_frees d r = cleanup_loop_lem 256 1 d (IsDevices-Reachable d r)
