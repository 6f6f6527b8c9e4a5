-- ===== src/PageTable/Contract.antt =====
-- hw1/pt.c as a map from virtual page numbers to physical ones: the calls of hw1/os.c.
use oscourse24btau.Common.{
  ℕ, zero, suc, ◌+◌, ◌*◌, ◌/◌, ◌≤◌, ◌<◌, ◌≡◌, ◌≢◌, ◌∙◌, ◌⊎◌, inl, inr, ◌&&◌, Option, some, ◌==◌,
  if◌then◌else◌, ap, arith,
}
use mathlib.Core.Path.{fun_ext, subst, ap₂}
use oscourse24btau.PageTable.Memory.{
  Frame, Memory, Mmap, MmapZeroes, done, exited, npages, base, Pointer, M, ◌>>=◌, load,
  phys_to_virt, pure,
}
use oscourse24btau.PageTable.Walk.{
  get_index, no_mapping, page_table_update, page_table_query, query_loop, clear_flags, is_valid,
}
use oscourse24btau.PageTable.Tree.{key, slot, get_index-eq-slot, Label, IsTree}
use oscourse24btau.PageTable.Query.{descend}
use oscourse24btau.PageTable.Ensure.{NoFrame}
use oscourse24btau.PageTable.Laws.{
  IsRoot, stored, query-IsTree, page_table_update_lem, updated, stopped, Change,
}

-- A later state of the memory: still a tree of tables, in which every root is a root.
pub record Later (m : Memory) (lab : ℕ → Label) (m' : Memory) (lab' : ℕ → Label) : Type 0 where
  pub tree : IsTree m' lab'
  pub roots : (r : ℕ) → IsRoot m lab r → IsRoot m' lab' r

module _ {mmap : Mmap} (zeroes : MmapZeroes mmap) {m : Memory} {lab : ℕ → Label} (t : IsTree m lab)
    (r vpn ppn : ℕ) (is : IsRoot m lab r) where
  IsRoot-stays :
      {m' : Memory} {lab' : ℕ → Label}
      → Change m lab r vpn ppn m' lab'
      → (r' : ℕ) → IsRoot m lab r'
      → IsRoot m' lab' r'
  IsRoot-stays c r' is' =
      let on = c.keeps r' 4 r' 0 (record {
        allocated = is'.allocated;
        tree = is'.tree;
        level = is'.level;
        digits = omega (arith, is'.digits);
      }) in
      record {
        allocated = on.allocated;
        tree = on.tree;
        level = on.level;
        digits = omega (arith, on.digits);
      }

  -- On a tree of tables with a root at frame `r`, an update of that table that returns leaves a tree
  -- of tables in which every root is still a root.
  pub update-Later :
      {m' : Memory}
      → page_table_update mmap (r + base) vpn ppn m ≡ done (tt, m')
      → (lab' : ℕ → Label) × Later m lab m' lab'
  update-Later {m'} ran = elim (page_table_update_lem t zeroes r vpn ppn is) [
    | stopped ne c lo hi full q ↦ absurd (cc)
    | updated m'' lab' q c ↦
        let same : m'' ≡ m' = cc in
        (
          lab',
          subst (λ x. Later m lab x lab') same (record { tree = c.tree; roots = IsRoot-stays c }),
        )
  ]

  -- On a tree of tables, after an update of the table `r` that returns, a query of any table `r'` for any
  -- page returns what the update stored if `r'` is `r` and the two pages have the same key (bits 12 to
  -- 56), and what it returned before otherwise: the number modulo 2^52, or NO_MAPPING after a removal.
  pub query-update :
      {m' : Memory} (r' vpn' : ℕ) {old : ℕ}
      → IsRoot m lab r'
      → page_table_query (r' + base) vpn' m ≡ done (old, m)
      → page_table_update mmap (r + base) vpn ppn m ≡ done (tt, m')
      → page_table_query (r' + base) vpn' m'
        ≡ done ((if (r' == r) && (key vpn' == key vpn) then stored ppn else old), m')
  query-update {m'} r' vpn' {old} is' before ran =
      elim (page_table_update_lem t zeroes r vpn ppn is) [
        | stopped ne c lo hi full q ↦ absurd (cc)
        | updated m'' lab' q c ↦
            let same : m'' ≡ m' = cc in
            let was : descend m 4 r' (key vpn') ≡ old = cc (query-IsTree t r' vpn' is') in
            rw (← same) (
              query-IsTree c.tree r' vpn' (IsRoot-stays c r' is')
              ∙ ap (λ x. done (x, m'')) (c.finds r' vpn' is' ∙ rw was))
      ]

  -- On a tree of tables, an update either returns, or it was no removal and it exits with code 1
  -- because one of the next four frames cannot be allocated; it never faults.
  pub update_ends :
      ((m' : Memory) × (page_table_update mmap (r + base) vpn ppn m ≡ done (tt, m')))
      ⊎ ((ppn ≢ no_mapping)
          × ((c : ℕ) × (m.nalloc ≤ c) × (c < m.nalloc + 4) × NoFrame mmap c)
          × (page_table_update mmap (r + base) vpn ppn m ≡ exited 1))
  update_ends = elim (page_table_update_lem t zeroes r vpn ppn is) [
    | updated m' lab' q c ↦ inl (m', q)
    | stopped ne c lo hi full q ↦ inr (ne, (c, lo, hi, full), q)
  ]

  -- On a tree of tables, an update returns if four frames are left and `mmap` does not fail.
  pub update_enough_memory :
      m.nalloc + 4 ≤ npages
      → ((n : ℕ) → (f : Frame) × (mmap n ≡ some f))
      → (m' : Memory) × (page_table_update mmap (r + base) vpn ppn m ≡ done (tt, m'))
  update_enough_memory room given = elim update_ends [
    | inl ok ↦ ok
    | inr (ne, (c, lo, hi, inl full), q) ↦ absurd (omega arith)
    | inr (ne, (c, lo, hi, inr failed), q) ↦ let (f, e) = given c in absurd (cc)
  ]

-- On a tree of tables a query returns a number, does not fault, and changes nothing.
pub query_total :
    {m : Memory} {lab : ℕ → Label} (r vpn : ℕ)
    → IsTree m lab
    → IsRoot m lab r
    → (x : ℕ) × (page_table_query (r + base) vpn m ≡ done (x, m))
query_total {m} r vpn t is = (descend m 4 r (key vpn), query-IsTree t r vpn is)

get_index_low_bits :
    (vpn level : ℕ) → level ≤ 4 → get_index (vpn / 4096 * 4096) level ≡ get_index vpn level
get_index_low_bits vpn level h =
    let same : key (vpn / 4096 * 4096) ≡ key vpn = omega arith in
    rw (get_index-eq-slot _ level h, get_index-eq-slot vpn level h) (ap (λ k. slot k level) same)

-- One round of the loop, over the index and the rounds below.
abbrev query_round : ℕ → (Option Pointer → M ℕ) → Option Pointer → M ℕ
query_round index below current = do
  w ← load current index
  let rest = below (phys_to_virt (clear_flags w))
  if is_valid w then rest else pure no_mapping

query_loop_low_bits :
    (level vpn : ℕ) → level ≤ 4 → query_loop level (vpn / 4096 * 4096) ≡ query_loop level vpn
unfolding query_loop
query_loop_low_bits zero vpn h = fun_ext λ p. rw (get_index_low_bits vpn 0 h)
query_loop_low_bits (suc level) vpn h =
    ap₂ query_round (get_index_low_bits vpn (suc level) h)
      (query_loop_low_bits level vpn (omega arith))

-- The walk of a query does not look at the low 12 bits of the virtual page number.
pub query_low_bits :
    (pt vpn : ℕ) (m : Memory)
    → page_table_query pt (vpn / 4096 * 4096) m ≡ page_table_query pt vpn m
unfolding page_table_query
query_low_bits pt vpn m = rw (query_loop_low_bits 4 vpn (omega arith))
