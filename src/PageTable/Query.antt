-- ===== src/PageTable/Query.antt =====
-- hw1/pt.c, `page_table_query`: on a tree of tables it never faults, changes nothing, and returns what
-- the tree holds for the key.
use oscourse24btau.Common.{
  ℕ, zero, suc, ◌≤◌, ◌<◌, ◌≡◌, refl, inl, inr, Option, none, some, if◌then◌else◌, Bool-cases, arith,
}
use oscourse24btau.PageTable.Memory.{Frame, Memory, shr12, load, done, ◌>>=◌}
use oscourse24btau.PageTable.Walk.{is_valid, no_mapping, query_loop}
use oscourse24btau.PageTable.Tree.{
  key, slot, get_index-eq-slot, Label, word, child_of, IsTree, OnPath, at_frame, OnPath-child,
  next-OnPath,
}

-- The table of level 0 that the walk down from table `n` of level `j` ends in, if it gets there.
unfoldable pub leaf_of : Memory → ℕ → ℕ → ℕ → Option ℕ
leaf_of m zero n k = some n
leaf_of m (suc j) n k =
    let w = word m n (slot k (suc j)) in
    let rest = leaf_of m j (child_of w) k in if is_valid w then rest else none

abbrev pub answer : ℕ → ℕ
answer w = if is_valid w then shr12 w else no_mapping

-- What the walk down from table `n` of level `j` finds.
abbrev pub found : Memory → ℕ → Option ℕ → ℕ
found m k none = no_mapping
found m k (some leaf) = answer (word m leaf (slot k 0))

unfoldable pub descend : Memory → ℕ → ℕ → ℕ → ℕ
unfolding leaf_of
descend m j n k = found m k (leaf_of m j n k)

-- One step of `descend`.
pub descend-zero : (m : Memory) (n k : ℕ) → descend m 0 n k ≡ answer (word m n (slot k 0))
unfolding descend
descend-zero m n k = refl

pub descend-suc :
    (m : Memory) (j n k : ℕ)
    → let w = word m n (slot k (suc j)) in
      descend m (suc j) n k ≡ (if is_valid w then descend m j (child_of w) k else no_mapping)
unfolding descend
descend-suc m j n k = elim (Bool-cases (is_valid (word m n (slot k (suc j))))) [
  | inl v ↦ rw v
  | inr v ↦ rw v
]

-- Nothing is found below a table of zeroes.
pub descend-zeroes :
    (m : Memory) (j n k : ℕ) → ((i : ℕ) → word m n i ≡ 0) → descend m j n k ≡ no_mapping
unfolding descend
descend-zeroes m zero n k h = rw (h (slot k 0))
descend-zeroes m (suc j) n k h = rw (h (slot k (suc j)))

pub load-at_frame :
    (m : Memory) (n i : ℕ) (f : Frame)
    → m.pages n ≡ some f
    → i < 512
    → load (at_frame n) i m ≡ done (word m n i, m)
unfolding load
load-at_frame m n i f e h = ground arith

module _ {m : Memory} {lab : ℕ → Label} (t : IsTree m lab) where
  pub load-OnPath :
      {root j n k : ℕ}
      → OnPath m lab root j n k
      → (i : ℕ) → i < 512
      → load (at_frame n) i m ≡ done (word m n i, m)
  load-OnPath {n = n} on i h = let (f, e) = t.present n on.allocated in load-at_frame m n i f e h

  pub query_loop_lem :
      (j n vpn : ℕ) {root : ℕ}
      → j ≤ 4
      → OnPath m lab root j n (key vpn)
      → query_loop j vpn (at_frame n) m ≡ done (descend m j n (key vpn), m)
  unfolding query_loop descend
  query_loop_lem zero n vpn h on =
      rw (get_index-eq-slot vpn 0 h, load-OnPath on (slot (key vpn) 0) (omega arith), ◌>>=◌)
        (elim (Bool-cases (is_valid (word m n (slot (key vpn) 0)))) [ inl v ↦ rw v | inr v ↦ rw v ])
  query_loop_lem (suc j) n vpn h on =
      rw
        (
          get_index-eq-slot vpn (suc j) h,
          load-OnPath on (slot (key vpn) (suc j)) (omega arith),
          ◌>>=◌,
        )
        (elim (Bool-cases (is_valid (word m n (slot (key vpn) (suc j))))) [
          | inl v ↦
              rw (v, next-OnPath t on v)
                (query_loop_lem j _ vpn (omega arith) (OnPath-child t on v))
          | inr v ↦ rw v
        ])
