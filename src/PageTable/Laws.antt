-- ===== src/PageTable/Laws.antt =====
-- hw1/pt.c: what `page_table_update` and `page_table_query` promise each other.
use oscourse24btau.Common.{
  ℕ, ◌+◌, ◌%◌, ◌^◌, ◌≤◌, ◌<◌, ◌≡◌, ◌≢◌, sym, ◌∙◌, ◌⊎◌, inl, inr, true, false, ◌&&◌, some, ◌==◌,
  if◌then◌else◌, Bool-cases, ap, arith,
}
use oscourse24btau.PageTable.Memory.{
  Frame, Memory, Mmap, MmapZeroes, Outcome, done, exited, base, ◌>>=◌,
}
use oscourse24btau.PageTable.Walk.{no_mapping, leaf_entry, page_table_update, page_table_query}
use oscourse24btau.PageTable.Tree.{
  key, slot, get_index-eq-slot, Label, IsTree, OnPath, phys_to_virt-shl12,
}
use oscourse24btau.PageTable.Query.{leaf_of, descend, answer, query_loop_lem}
use oscourse24btau.PageTable.Ensure.{NoFrame}
use oscourse24btau.PageTable.Update.{Extends, gave_up, reached, no_memory, update_loop_lem}
use oscourse24btau.PageTable.Leaf.{
  write, store_lem, leaf_of-OnPath, write-IsTree, OnPath-write, descend-write_ne,
  descend-write_self,
}

-- Frame `r` is the root of a page table.
pub record IsRoot (m : Memory) (lab : ℕ → Label) (r : ℕ) : Type 0 where
  pub allocated : r < m.nalloc
  pub tree : (lab r).root ≡ r
  pub level : (lab r).level ≡ 4
  pub digits : (lab r).prefix ≡ 0

pub IsRoot-OnPath :
    {m : Memory} {lab : ℕ → Label} {r : ℕ} (vpn : ℕ) → IsRoot m lab r → OnPath m lab r 4 r (key vpn)
IsRoot-OnPath vpn is = record {
  allocated = is.allocated;
  tree = is.tree;
  level = is.level;
  digits = omega (arith, is.digits);
}

Same-cases :
    (a b c d : ℕ)
    → ((a ≡ b) × (c ≡ d) × (((a == b) && (c == d)) ≡ true)) ⊎ (((a == b) && (c == d)) ≡ false)
Same-cases a b c d = elim (Bool-cases ((a == b) && (c == d))) [
  | inl e ↦ inl (ground arith, ground arith, e)
  | inr e ↦ inr e
]

-- What a query returns after an update of its key.
abbrev pub stored : ℕ → ℕ
stored ppn = if ppn == no_mapping then no_mapping else ppn % 2 ^ 52

answer-leaf_entry : (ppn : ℕ) → answer (leaf_entry ppn) ≡ stored ppn
answer-leaf_entry ppn = ground arith

-- Two walks that end in one entry have one root and one key.
other_key :
    {m : Memory} {lab : ℕ → Label} {r r' leaf k k' : ℕ} (t : IsTree m lab)
    → OnPath m lab r' 4 r' k'
    → OnPath m lab r 0 leaf k
    → ((r' == r) && (k' == k)) ≡ false
    → leaf_of m 4 r' k' ≡ some leaf
    → slot k' 0 ≡ slot k 0
    → ⊥
other_key {r = r} {r'} {leaf} {k} {k'} t on' on b e s =
    let end = leaf_of-OnPath t 4 r' k' on' e in
    let same_root : r' ≡ r = sym end.tree ∙ on.tree in
    let same_key : k' ≡ k = omega (arith, end.digits, on.digits) in ground arith

-- What an update has done to the tree.
pub record Change (m : Memory) (lab : ℕ → Label) (r vpn ppn : ℕ) (m' : Memory) (lab' : ℕ → Label)
    : Type 0 where
  pub tree : IsTree m' lab'
  pub keeps : (root j n k : ℕ) → OnPath m lab root j n k → OnPath m' lab' root j n k
  pub finds :
      (r' vpn' : ℕ)
      → IsRoot m lab r'
      → descend m' 4 r' (key vpn')
        ≡ (if (r' == r) && (key vpn' == key vpn) then stored ppn else descend m 4 r' (key vpn'))

pub data Updated (mmap : Mmap) (m : Memory) (lab : ℕ → Label) (r vpn ppn : ℕ)
    (res : Outcome (Unit {0} × Memory)) : Type 0 where
  updated :
      (m' : Memory) (lab' : ℕ → Label)
      → res ≡ done (tt, m')
      → Change m lab r vpn ppn m' lab'
      → Updated mmap m lab r vpn ppn res
  stopped :
      ppn ≢ no_mapping
      → (c : ℕ) → m.nalloc ≤ c
      → c < m.nalloc + 4
      → NoFrame mmap c
      → res ≡ exited 1
      → Updated mmap m lab r vpn ppn res

module _ {m : Memory} {lab : ℕ → Label} (t : IsTree m lab) where
  pub query-IsTree :
      (r vpn : ℕ)
      → IsRoot m lab r
      → page_table_query (r + base) vpn m ≡ done (descend m 4 r (key vpn), m)
  unfolding page_table_query
  query-IsTree r vpn is =
      rw (phys_to_virt-shl12 r (omega (arith, is.allocated, t.few)))
        (query_loop_lem t 4 r vpn (omega arith) (IsRoot-OnPath vpn is))

  -- A removal that finds no table on its way changes nothing.
  Change-none :
      {r vpn ppn : ℕ}
      → ppn ≡ no_mapping
      → descend m 4 r (key vpn) ≡ no_mapping
      → Change m lab r vpn ppn m lab
  Change-none {r} {vpn} e d = record {
    tree = t;
    keeps = λ root j n k on. on;
    finds = λ r' vpn' is. elim (Same-cases r' r (key vpn') (key vpn)) [
      | inl (er, ek, b) ↦ rw b (rw (er, ek) (d ∙ ground arith))
      | inr b ↦ rw b
    ];
  }

  Change-leaf :
      {r vpn ppn leaf : ℕ} {m' : Memory} {lab' : ℕ → Label} (f : Frame)
      → IsRoot m lab r
      → Extends m lab m' lab'
      → leaf_of m' 4 r (key vpn) ≡ some leaf
      → OnPath m' lab' r 0 leaf (key vpn)
      → m'.pages leaf ≡ some f
      → Change m lab r vpn ppn (write m' leaf f (slot (key vpn) 0) (leaf_entry ppn)) lab'
  Change-leaf {r} {vpn} {ppn} {leaf} {m'} f root x l on page = record {
    tree = write-IsTree x.tree leaf _ _ f page on.level;
    keeps = λ r j n k on'. OnPath-write x.tree leaf _ _ f page on.level (x.keeps r j n k on');
    finds = λ r' vpn' is.
        let on' = x.keeps r' 4 r' (key vpn') (IsRoot-OnPath vpn' is) in
        elim (Same-cases r' r (key vpn') (key vpn)) [
          | inl (er, ek, b) ↦ rw b (
              descend-write_self x.tree leaf _ _ f page on.level 4 r' (key vpn') on' (rw (er, ek) l)
                (ap (λ k. slot k 0) ek)
              ∙ answer-leaf_entry ppn)
          | inr b ↦ rw b (
              descend-write_ne x.tree leaf _ _ f page on.level 4 r' (key vpn') on'
                (other_key x.tree on' on b)
              ∙ x.same r' 4 r' (key vpn') (IsRoot-OnPath vpn' is))
        ];
  }

  pub page_table_update_lem :
      {mmap : Mmap}
      → MmapZeroes mmap
      → (r vpn ppn : ℕ) → IsRoot m lab r
      → Updated mmap m lab r vpn ppn (page_table_update mmap (r + base) vpn ppn m)
  unfolding page_table_update
  page_table_update_lem {mmap} zeroes r vpn ppn is =
      rw (phys_to_virt-shl12 r (omega (arith, is.allocated, t.few)))
        (elim (update_loop_lem mmap vpn ppn zeroes 4 r (omega arith) t (IsRoot-OnPath vpn is)) [
          | gave_up e q d ↦ updated m lab (rw (q, ◌>>=◌)) (Change-none e d)
          | reached m' lab' leaf q x l on ↦
              let (f, page) = x.tree.present leaf on.allocated in
              updated (write m' leaf f (slot (key vpn) 0) (leaf_entry ppn)) lab'
                (rw (q, ◌>>=◌, get_index-eq-slot vpn 0 (omega arith))
                  (store_lem m' leaf _ _ f page (omega arith)))
                (Change-leaf f is x l on page)
          | no_memory ne c lo hi full q ↦ stopped ne c lo hi full (rw (q, ◌>>=◌))
        ])
