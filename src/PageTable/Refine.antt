-- ===== src/PageTable/Refine.antt =====
-- hw1: the calls of a client on the memory, and on the abstract tables.
use oscourse24btau.Common.{
  ℕ, ◌+◌, ◌≤◌, ◌<◌, ◌≡◌, ◌≢◌, refl, sym, ◌∙◌, ap, ◌⊎◌, inl, inr, Bool-cases, Option, Option-cases,
  some, ◌==◌, ==_refl, ==_ne, arith,
}
use mathlib.Core.Path.{subst}
use native.Mathlib.Decide.{ℕ_discrete}
use oscourse24btau.PageTable.Memory.{
  Memory, Mmap, MmapZeroes, Outcome, done, exited, base, npages, alloc_page_frame, update,
}
use oscourse24btau.PageTable.Walk.{page_table_update, page_table_query}
use oscourse24btau.PageTable.Tree.{key, Label, IsTree}
use oscourse24btau.PageTable.Ensure.{NoFrame}
use oscourse24btau.PageTable.Laws.{IsRoot, stored}
use oscourse24btau.PageTable.Contract.{query-update, update-Later}
use oscourse24btau.PageTable.Root.{alloc-Later, query-alloc, query-alloc_old, alloc-done}
use oscourse24btau.PageTable.Calls.{Var, pt, new_pt, Vars, set}
use oscourse24btau.PageTable.Spec.{Tables, add_table, map_key}

-- The memory and the variables stand for the abstract tables: the table `h` has its root at the frame
-- `roots h`.
pub record Agrees (m : Memory) (lab : ℕ → Label) (vars : Vars) (roots : ℕ → ℕ) (s : Tables)
    : Type 0 where
  pub tree : IsTree m lab
  pub root : (h : ℕ) → h < s.count → IsRoot m lab (roots h)
  pub apart : (h h' : ℕ) → h < s.count → h' < s.count → roots h ≡ roots h' → h ≡ h'
  pub finds :
      (h vpn : ℕ)
      → h < s.count
      → page_table_query (roots h + base) vpn m ≡ done (s.content h (key vpn), m)
  pub holds : (v : Var) (h : ℕ) → s.held v ≡ some h → (h < s.count) × (vars v ≡ roots h + base)

-- How a run can end whose abstract run ends in `s'`.
pub data Refined (mmap : Mmap) (m : Memory) (n : ℕ) (s' : Tables)
    : Outcome (Option Vars × Memory) → Type 0 where
  agrees :
      (vars : Vars) (m' : Memory) (lab : ℕ → Label) (roots : ℕ → ℕ)
      → Agrees m' lab vars roots s'
      → m'.nalloc ≤ m.nalloc + n
      → Refined mmap m n s' (done (some vars, m'))
  no_memory :
      (c : ℕ) → m.nalloc ≤ c → c < m.nalloc + n → NoFrame mmap c → Refined mmap m n s' (exited 1)

pub alloc_ends :
    (mmap : Mmap) (m : Memory)
    → ((frame : ℕ) × (m' : Memory) × (alloc_page_frame mmap m ≡ done (frame, m')))
      ⊎ (NoFrame mmap m.nalloc × (alloc_page_frame mmap m ≡ exited 1))
unfolding alloc_page_frame
alloc_ends mmap m = elim (Bool-cases (m.nalloc == npages)) [
  | inl full ↦ inr (inl (ground arith), rw full refl)
  | inr room ↦ elim (Option-cases (mmap m.nalloc)) [
    | inl e ↦ inr (inr e, rw (room, e) refl)
    | inr (va, e) ↦ inl (
      m.nalloc + base,
      record { nalloc = m.nalloc + 1; pages = update m.pages m.nalloc (some va) },
      rw (room, e) refl,
    )
  ]
]

module _ {mmap : Mmap} (zeroes : MmapZeroes mmap) {m : Memory} {lab : ℕ → Label} {vars : Vars}
    {roots : ℕ → ℕ} {s : Tables} (a : Agrees m lab vars roots s) where
  same_table : (h h' : ℕ) → h < s.count → h' < s.count → (roots h == roots h') ≡ (h == h')
  same_table h h' lt lt' = elim (ℕ_discrete h h') [
    | yes e ↦ rw e (==_refl (roots h') ∙ sym (==_refl h'))
    | no ne ↦ ==_ne _ _ (λ e. ne (a.apart h h' lt lt' e)) ∙ sym (==_ne h h' ne)
  ]

  newest : (h : ℕ) → h < s.count + 1 → (h < s.count) ⊎ (h ≡ s.count)
  newest h lt = elim (ℕ_discrete h s.count) [ yes e ↦ inr e | no ne ↦ inl (omega arith) ]

  module _ (r : ℕ) where
    new_root : (h : ℕ) → h ≡ s.count → update roots s.count r h ≡ r
    new_root h e = ground arith

    old_root : (h : ℕ) → h < s.count → update roots s.count r h ≡ roots h
    old_root h lt = ground arith

    roots_apart :
        ((h : ℕ) → h < s.count → roots h ≢ r)
        → (h h' : ℕ) → h < s.count + 1
        → h' < s.count + 1
        → update roots s.count r h ≡ update roots s.count r h'
        → h ≡ h'
    roots_apart fresh h h' lt lt' e = elim (newest h lt) [
      | inl old ↦ elim (newest h' lt') [
        | inl old' ↦ a.apart h h' old old' (sym (old_root h old) ∙ e ∙ old_root h' old')
        | inr new' ↦ absurd (fresh h old (sym (old_root h old) ∙ e ∙ new_root h' new'))
      ]
      | inr new ↦ elim (newest h' lt') [
        | inl old' ↦ absurd (fresh h' old' (sym (old_root h' old') ∙ sym e ∙ new_root h new))
        | inr new' ↦ new ∙ sym new'
      ]
    ]

  holds_old :
      (r : ℕ) (v : Var) (h : ℕ)
      → s.held v ≡ some h
      → (h < s.count + 1) × (vars v ≡ update roots s.count r h + base)
  holds_old r v h e =
      let (lt, at) = a.holds v h e in
      (omega (arith, lt), at ∙ ap (λ z. z + base) (sym (old_root r h lt)))

  holds_new :
      (r : ℕ) {frame : ℕ} (h : ℕ)
      → frame ≡ r + base
      → ◌≡◌ {A = Option ℕ} (some s.count) (some h)
      → (h < s.count + 1) × (frame ≡ update roots s.count r h + base)
  holds_new r h at e =
      let same : s.count ≡ h = ground arith in
      (omega (arith, same), at ∙ ap (λ z. z + base) (sym (new_root r h (sym same))))

  holds_alloc :
      (r : ℕ) (v : Var) {frame : ℕ}
      → frame ≡ r + base
      → (w : Var) (h : ℕ) → set v (some s.count) s.held w ≡ some h
      → (h < s.count + 1) × (set v frame vars w ≡ update roots s.count r h + base)
  holds_alloc r pt at pt h e = holds_new r h at e
  holds_alloc r pt at new_pt h e = holds_old r new_pt h e
  holds_alloc r new_pt at pt h e = holds_old r pt h e
  holds_alloc r new_pt at new_pt h e = holds_new r h at e

  pub Agrees-alloc :
      (v : Var) {frame : ℕ} {m' : Memory}
      → alloc_page_frame mmap m ≡ done (frame, m')
      → (lab' : ℕ → Label) × (roots' : ℕ → ℕ) × Agrees m' lab'
          (set v frame vars)
          roots'
          (add_table v s)
        × (m'.nalloc ≡ m.nalloc + 1)
  Agrees-alloc v {frame} {m'} ran =
      let (lab', later, (r, at, new)) = alloc-Later zeroes a.tree ran in
      let (va, given, room, numbered, grown) = alloc-done mmap m ran a.tree.few in
      let fresh : r ≡ m.nalloc = omega (arith, at, numbered) in
      (
        lab',
        update roots s.count r,
        record {
          tree = later.tree;
          root = λ h lt. elim (newest h lt) [
            | inl old ↦
                subst (IsRoot m' lab') (sym (old_root r h old))
                  (later.roots (roots h) (a.root h old))
            | inr e ↦ subst (IsRoot m' lab') (sym (new_root r h e)) new
          ];
          apart =
              roots_apart r
                (λ h lt e. let old = (a.root h lt).allocated in omega (arith, old, e, fresh));
          finds = λ h vpn lt. elim (newest h lt) [
            | inl old ↦
                rw (old_root r h old, ==_ne h s.count (omega (arith, old)))
                  (query-alloc_old zeroes a.tree ran (roots h) vpn (a.root h old)
                    (a.finds h vpn old))
            | inr e ↦
                rw (new_root r h e, e, ==_refl s.count, ← at) (query-alloc zeroes a.tree ran vpn)
          ];
          holds = holds_alloc r v at;
        },
        ap (λ (z : Memory). z.nalloc) grown,
      )

  pub Agrees-update :
      (v : Var) (vpn ppn h : ℕ) {m' : Memory}
      → s.held v ≡ some h
      → page_table_update mmap (roots h + base) vpn ppn m ≡ done (tt, m')
      → (lab' : ℕ → Label) × Agrees m' lab' vars roots (map_key h (key vpn) (stored ppn) s)
  Agrees-update v vpn ppn h {m'} held ran =
      let small = (a.holds v h held).0 in
      let (lab', later) = update-Later zeroes a.tree (roots h) vpn ppn (a.root h small) ran in
      (
        lab',
        record {
          tree = later.tree;
          root = λ h' lt. later.roots (roots h') (a.root h' lt);
          apart = a.apart;
          finds = λ h' vpn' lt. rw⁻¹ (same_table h' h lt small) (
              query-update zeroes a.tree (roots h) vpn ppn (a.root h small) (roots h') vpn'
                (a.root h' lt) (a.finds h' vpn' lt) ran);
          holds = a.holds;
        },
      )
