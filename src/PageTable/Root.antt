-- ===== src/PageTable/Root.antt =====
-- hw1/os.c, `pt = alloc_page_frame()`: a frame that is allocated is the root of an empty table.
use oscourse24btau.Common.{
  ℕ, zero, suc, ◌+◌, ◌≤◌, ◌<◌, ◌≡◌, ◌∙◌, ap, inl, inr, true, Option-cases, some, ◌==◌,
  if◌then◌else◌, Bool-cases, arith,
}
use native.Mathlib.Decide.{ℕ_discrete}
use oscourse24btau.PageTable.Memory.{
  Frame, Memory, Mmap, MmapZeroes, npages, base, update, alloc_page_frame, done,
}
use oscourse24btau.PageTable.Walk.{is_valid, no_mapping, page_table_query}
use oscourse24btau.PageTable.Tree.{
  key, slot, Label, word, child_of, IsEntry, IsTree, OnPath, OnPath-child,
}
use oscourse24btau.PageTable.Query.{descend, descend-zero, descend-suc, descend-zeroes}
use oscourse24btau.PageTable.Laws.{IsRoot, IsRoot-OnPath, query-IsTree}
use oscourse24btau.PageTable.Contract.{Later}

module _ {m : Memory} {lab : ℕ → Label} (t : IsTree m lab) (room : m.nalloc < npages) (va : Frame)
    (zeroes : (a : ℕ) → va a ≡ 0) where
  abbrev after : Memory
  after = record { nalloc = m.nalloc + 1; pages = update m.pages m.nalloc (some va) }

  abbrev labels : ℕ → Label
  labels = update lab m.nalloc (record { root = m.nalloc; level = 4; prefix = 0 })

  word-after : (a b : ℕ) → word after a b ≡ (if a == m.nalloc then 0 else word m a b)
  word-after a b = ground (arith, zeroes b)

  present_after : (a : ℕ) → a < after.nalloc → (x : Frame) × (after.pages a ≡ some x)
  present_after a h = elim (ℕ_discrete a m.nalloc) [
    | yes e ↦ (va, ground arith)
    | no ne ↦ let (x, q) = t.present a (omega arith) in (x, ground arith)
  ]

  old-IsEntry :
      (a j b c : ℕ)
      → a < m.nalloc
      → word after a b ≡ word m a b
      → IsEntry m lab a j b c
      → IsEntry after labels a j b c
  old-IsEntry a j b c h e old = record {
    allocated = omega (arith, old.allocated);
    points = e ∙ old.points;
    tree = ground (arith, old.tree, old.allocated);
    lower = ground (arith, old.lower, old.allocated);
    digits = ground (arith, old.digits, old.allocated);
  }

  child_after :
      (a j b : ℕ)
      → a < after.nalloc
      → (labels a).level ≡ suc j
      → b < 512
      → is_valid (word after a b) ≡ true
      → IsEntry after labels a j b (child_of (word after a b))
  child_after a j b h lev s v = elim (ℕ_discrete a m.nalloc) [
    | yes e ↦ absurd (ground (arith, word-after a b))
    | no old ↦
        let same : word after a b ≡ word m a b = ground (arith, word-after a b) in
        rw same (
          old-IsEntry a j b _ (omega arith) same
            (t.child a j b (omega arith) (ground arith) s (rw same at v)))
  ]

  after-IsTree : IsTree after labels
  after-IsTree = record { few = omega (arith, room); present = present_after; child = child_after }

  IsRoot-after_old : (r : ℕ) → IsRoot m lab r → IsRoot after labels r
  IsRoot-after_old r is = ground arith

  IsRoot-after : IsRoot after labels m.nalloc
  IsRoot-after = ground arith

  descend-after :
      (j a k : ℕ) {root : ℕ} → OnPath m lab root j a k → descend after j a k ≡ descend m j a k
  descend-after zero a k on =
      rw (descend-zero after, descend-zero m) (ground (arith, word-after a (slot k 0)))
  descend-after (suc j) a k on =
      let same : word after a (slot k (suc j)) ≡ word m a (slot k (suc j)) =
        ground (arith, word-after a (slot k (suc j))) in
      elim (Bool-cases (is_valid (word m a (slot k (suc j))))) [
        | inl v ↦
            rw (descend-suc after, descend-suc m, same, v)
              (descend-after j (child_of (word m a (slot k (suc j)))) k (OnPath-child t on v))
        | inr v ↦ rw (descend-suc after, descend-suc m, same, v)
      ]

  descend-new : (k : ℕ) → descend after 4 m.nalloc k ≡ no_mapping
  descend-new k = descend-zeroes after 4 m.nalloc k (λ b. ground (arith, word-after m.nalloc b))

-- What `alloc_page_frame` returns when it returns.
pub alloc-done :
    (mmap : Mmap) (m : Memory) {m' : Memory} {pt : ℕ}
    → alloc_page_frame mmap m ≡ done (pt, m')
    → m.nalloc ≤ npages
    → (va : Frame) × (mmap m.nalloc ≡ some va)
      × (m.nalloc < npages)
      × (pt ≡ m.nalloc + base)
      × (m' ≡ record { nalloc = m.nalloc + 1; pages = update m.pages m.nalloc (some va) })
unfolding alloc_page_frame
alloc-done mmap m ran few = elim (Bool-cases (m.nalloc == npages)) [
  | inl full ↦ absurd (cc (rw full at ran))
  | inr room ↦ elim (Option-cases (mmap m.nalloc)) [
    | inl e ↦ absurd (cc (rw (room, e) at ran))
    | inr (va, e) ↦ let ran' = rw (room, e) at ran in (va, e, ground arith, cc, cc)
  ]
]

module _ {m : Memory} {lab : ℕ → Label} (t : IsTree m lab) where
  after-old :
      (room : m.nalloc < npages) (va : Frame) (blank : (a : ℕ) → va a ≡ 0) (r vpn : ℕ) {old : ℕ}
      → IsRoot m lab r
      → page_table_query (r + base) vpn m ≡ done (old, m)
      → page_table_query (r + base) vpn (after t room va blank) ≡ done (old, after t room va blank)
  after-old room va blank r vpn {old} is before =
      let on = IsRoot-OnPath vpn is in
      let was : descend m 4 r (key vpn) ≡ old = cc (query-IsTree t r vpn is) in
      query-IsTree (after-IsTree t room va blank) r vpn (IsRoot-after_old t room va blank r is)
      ∙ ap (λ x. done (x, after t room va blank))
          (descend-after t room va blank 4 r (key vpn) on ∙ was)

module _ {mmap : Mmap} (zeroes : MmapZeroes mmap) {m m' : Memory} {lab : ℕ → Label}
    (t : IsTree m lab) {pt : ℕ} (ran : alloc_page_frame mmap m ≡ done (pt, m')) where
  -- On a tree of tables, a frame that `alloc_page_frame` returns is the root of a new table, in a tree of
  -- tables in which every root is still a root.
  pub alloc-Later :
      (lab' : ℕ → Label) × Later m lab m' lab' × ((r : ℕ) × (pt ≡ r + base) × IsRoot m' lab' r)
  alloc-Later =
      let (va, e, room, q, q') = alloc-done mmap m ran t.few in
      let blank = zeroes m.nalloc va e in
      let later : Later m lab (after t room va blank) (labels t room va blank) = record {
        tree = after-IsTree t room va blank;
        roots = IsRoot-after_old t room va blank;
      } in
      (labels t room va blank, rw q' later, (m.nalloc, q, rw q' (IsRoot-after t room va blank)))

  -- On a tree of tables, a query of a frame that was just allocated returns NO_MAPPING for every page.
  pub query-alloc : (vpn : ℕ) → page_table_query pt vpn m' ≡ done (no_mapping, m')
  query-alloc vpn =
      let (va, e, room, q, q') = alloc-done mmap m ran t.few in
      let blank = zeroes m.nalloc va e in
      rw (q, q')
        (query-IsTree (after-IsTree t room va blank) m.nalloc vpn (IsRoot-after t room va blank)
          ∙ ap (λ x. done (x, after t room va blank)) (descend-new t room va blank (key vpn)))

  -- On a tree of tables, an allocation changes no result of a query of an older table.
  pub query-alloc_old :
      (r vpn : ℕ) {old : ℕ}
      → IsRoot m lab r
      → page_table_query (r + base) vpn m ≡ done (old, m)
      → page_table_query (r + base) vpn m' ≡ done (old, m')
  query-alloc_old r vpn is before =
      let (va, e, room, q, q') = alloc-done mmap m ran t.few in
      rw q' (after-old t room va (zeroes m.nalloc va e) r vpn is before)
